-- ===== src/Engine/Graph.antt =====
-- `Workflow` (packages/engine/src/models/workflow.py): its nodes, edges and graph. The graph is that
-- of networkx: `empty`, `insert_node`, `insert_edge`, the number of its nodes, which is its truth
-- value too, and the test for cycles.
pub mod Validation
pub mod Building
use vanguard_runner.Base.{
  ℕ, zero, suc, ◌||◌, not, nat_eq, String, Bool, true, false, ◌==◌, Option, none, some, List, [],
  ◌∷◌, ◌++◌, map, length, any, find, if◌then◌else◌,
}
use vanguard_runner.Model.{Json, null, bool, num, str, arr, obj, Fields, end, field}
use vanguard_runner.Model.Dicts.{get_json, put_value}
use vanguard_runner.Engine.Services.{Node}

-- None is `null` here.
pub record EdgeConfig : Type 0 where
  pub source_handle : Json
  pub target_handle : Json
  pub condition : Json
  pub weight : Json

pub record Edge : Type 0 where
  pub id : String
  pub source : String
  pub target : String
  pub config : EdgeConfig

-- `EdgeConfig.to_dict` and `from_dict`. A key that names a method of the class, on which the source
-- raises, is ignored here like any other.
abbrev pub config_to_dict : EdgeConfig → Fields
config_to_dict c = put_value "source_handle" c.source_handle (
    put_value "target_handle" c.target_handle
      (put_value "condition" c.condition (put_value "weight" c.weight end)))

abbrev pub config_from_dict : Fields → EdgeConfig
config_from_dict d = record {
  source_handle = get_json "source_handle" d;
  target_handle = get_json "target_handle" d;
  condition = get_json "condition" d;
  weight = get_json "weight" d;
}

pub data Problem : Type 0 where
  node_ids_repeat : Problem
  edge_ids_repeat : Problem
  no_source : String → String → Problem
  no_target : String → String → Problem
  has_cycle : Problem

-- `set(ids)` as a list
abbrev pub distinct : List String → List String
distinct [] = []
distinct (x ∷ xs) = let rest = distinct xs in if any (λ y. y == x) xs then rest else x ∷ rest

abbrev pub report : Bool → Problem → List Problem
report true p = p ∷ []
report false p = []

abbrev pub has_node : List Node → String → Bool
has_node ns id = any (λ n. n.id == id) ns

abbrev pub edge_problems : List Node → List Edge → List Problem
edge_problems ns [] = []
edge_problems ns (e ∷ es) =
    report (not (has_node ns e.source)) (no_source e.id e.source)
    ++ (report (not (has_node ns e.target)) (no_target e.id e.target) ++ edge_problems ns es)

abbrev pub repeats : List String → Bool
repeats ids = not (nat_eq (length ids) (length (distinct ids)))

module _ {G : Type 0} (empty : G) (insert_node : Node → G → G) (insert_edge : Edge → G → G)
    (number_of_nodes : G → ℕ) (is_directed_acyclic : G → Bool) where
  -- `if self._graph`
  abbrev pub is_truthy : G → Bool
  is_truthy g = not (nat_eq (number_of_nodes g) 0)

  abbrev pub is_acyclic : G → Bool
  is_acyclic g = if is_truthy g then is_directed_acyclic g else true

  abbrev pub insert_nodes : List Node → G → G
  insert_nodes [] g = g
  insert_nodes (n ∷ ns) g = insert_nodes ns (insert_node n g)

  abbrev pub insert_edges : List Edge → G → G
  insert_edges [] g = g
  insert_edges (e ∷ es) g = insert_edges es (insert_edge e g)

  abbrev pub build_graph : List Node → List Edge → G
  build_graph ns es = insert_edges es (insert_nodes ns empty)

  abbrev pub validate : List Node → List Edge → G → List Problem
  validate ns es g =
      report (repeats (map (λ n. n.id) ns)) node_ids_repeat
      ++ (report (repeats (map (λ e. e.id) es)) edge_ids_repeat
          ++ (edge_problems ns es ++ report (not (is_acyclic g)) has_cycle))
