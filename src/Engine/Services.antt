-- ===== src/Engine/Services.antt =====
-- What the executor works with: the nodes (packages/engine/src/models/workflow.py), the context
-- without shard storage (packages/engine/src/context.py), and `Services`, which holds what the
-- executor calls: the graph of networkx, the processors, the clock and the log collector.
use vanguard_runner.Base.{ℕ, String, Bool, ◌==◌, Option, none, some, List, [], ◌∷◌, if◌then◌else◌}
use vanguard_runner.Model.{Json, Fields}
use vanguard_runner.Model.Dicts.{get_json, set_field}

-- `config` is the typed view of the `config` of `node_data`; the executor builds it again from `node_data`.
pub record Node : Type 0 where
  pub id : String
  pub name : String
  pub type : String
  pub position : Json
  pub node_data : Fields

pub record Context : Type 0 where
  pub variables : Fields
  pub node_results : Fields

abbrev pub set_variable : String → Json → Context → Context
set_variable k v c = record c { variables = set_field k v c.variables }

abbrev pub set_node_result : String → Json → Context → Context
set_node_result id v c = record c { node_results = set_field id v c.node_results }

abbrev pub get_node_result : String → Context → Json
get_node_result id c = get_json id c.node_results

-- `{node.id: node for node in nodes}`: the last node with an id is the one that counts.
abbrev pub node_map : List Node → String → Option Node
node_map [] id = none
node_map (n ∷ ns) id = elim (node_map ns id) [
  | some m ↦ some m
  | none ↦ if n.id == id then some n else none
]

-- The three `except` clauses tell these apart.
pub data ExceptionKind : Type 0 where
  validation_error : ExceptionKind
  execution_error : ExceptionKind
  other_error : ExceptionKind

-- An exception with the attributes that the clauses read by `getattr`; `none` is a missing one.
-- `text` is `str(e)`, and `trace` is `traceback.format_exc()`.
pub record Raised : Type 0 where
  pub kind : ExceptionKind
  pub message : String
  pub text : String
  pub type_name : String
  pub code : Option String
  pub category : Option String
  pub suggestion : Option String
  pub operation : Json
  pub retryable : Option Bool
  pub original_error : Json
  pub trace : String

pub data Reply : Type 0 where
  returned : Json → Reply
  raised : Raised → Reply

-- `nodes` are the workflow's. `process` is a node's processor from its lookup to its normalised result, with the results of the
-- predecessors; `inline` is the processor of a type ("variable_extractor" or "assertion") on the
-- node info of an id and a config, with a node's result. Both may change the context. `started` and
-- `ended` are the clock's readings at the two ends of a node, `logs` is the text of its
-- logs. `malformed` is Python's exception on an assertion response of an unexpected shape.
pub record Services : Type 0 where
  pub nodes : List Node
  pub predecessors : String → List String
  pub source_handle : String → String → Option String
  pub process : Node → Fields → Context → Context × Reply
  pub inline : String → String → Json → Fields → Context → Context × Reply
  pub started : String → ℕ
  pub ended : String → ℕ
  pub logs : String → String
  pub malformed : Raised
