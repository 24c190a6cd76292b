-- ===== src/Engine/Run/Nodes.antt =====
-- What one round of the executor's loop gives (packages/engine/workflow_engine.py): the node that
-- an id stands for, and the step that a node's run ends with.
use vanguard_runner.Base.{
  String, Bool, true, false, Option, none, some, List, [], ◌∷◌, ◌≡◌, refl, eq_iff, arith,
  Option-cases, inl, inr, ◌⊎◌,
}
use vanguard_runner.Model.{Json, Fields}
use vanguard_runner.Engine.Steps.{success, failed, StepResult}
use vanguard_runner.Engine.Services.{
  Node, Context, Raised, Reply, returned, raised, Services, node_map, set_node_result,
}
use vanguard_runner.Engine.Branches.{Check, Crash, active, inactive, crash}
use vanguard_runner.Engine.Run.{
  NodeEnd, passed, broke, judge_status, judge, finish_node, Inline, add_inline, set_variables,
  body_variables, write_back, extract_inline, save_output, assert_inline, predecessor_results,
  after_result, after_reply, run_node,
}

pub node_map-id : (ns : List Node) (id : String) (n : Node) → node_map ns id ≡ some n → n.id ≡ id
node_map-id [] id n e = ground arith
node_map-id (m ∷ ns) id n e = elim (Option-cases (node_map ns id)) [
  | inl f ↦ ground (arith, eq_iff m.id id)
  | inr (k, f) ↦ ground (arith, node_map-id ns id k f)
]

abbrev pub EndsWith : Node → NodeEnd → Type 0
EndsWith node (passed step c) = (step.node_id ≡ node.id) × (step.status ≡ success)
EndsWith node (broke step c) = (step.node_id ≡ node.id) × (step.status ≡ failed)

judge_status-EndsWith :
    (s : Services) (node : Node) (d : Fields) (c : Context) (b : Bool)
    → EndsWith node (judge_status s node d c b)
judge_status-EndsWith s node d c true = (refl, refl)
judge_status-EndsWith s node d c false = (refl, refl)

judge-EndsWith :
    (s : Services) (node : Node) (v : Json) (d : Fields) (c : Context) (x y : Option Raised)
    → EndsWith node (judge s node v d c x y)
judge-EndsWith s node v d c (some e) y = (refl, refl)
judge-EndsWith s node v d c none (some e) = (refl, refl)
judge-EndsWith s node v d c none none = judge_status-EndsWith s node d c _

finish_node-EndsWith :
    (s : Services) (node : Node) (v : Json) (ex check : Inline)
    → EndsWith node (finish_node s node v ex check)
finish_node-EndsWith s node v ex check =
    let d = add_inline v check.value ex.value in
    judge-EndsWith s node v d (set_variables (body_variables d) (write_back node v d check.context))
      ex.error check.error

after_result-EndsWith :
    (s : Services) (node : Node) (v : Json) (c : Context) → EndsWith node (after_result s node v c)
after_result-EndsWith s node v c =
    let ex = extract_inline s node v (save_output node v (set_node_result node.id v c)) in
    finish_node-EndsWith s node v ex (assert_inline s node v ex.context)

after_reply-EndsWith :
    (s : Services) (node : Node) (c : Context) (reply : Reply)
    → EndsWith node (after_reply s node c reply)
after_reply-EndsWith s node c (raised e) = (refl, refl)
after_reply-EndsWith s node c (returned v) = after_result-EndsWith s node v c

pub run_node-EndsWith :
    (s : Services) (node : Node) (c : Context) → EndsWith node (run_node s node c)
run_node-EndsWith s node c =
    let reply = s.process node (predecessor_results c (s.predecessors node.id)) c in
    after_reply-EndsWith s node (reply.0) (reply.1)

pub Check-cases : (k : Check) → (k ≡ active) ⊎ ((k ≡ inactive) ⊎ ((e : Crash) × (k ≡ crash e)))
Check-cases active = inl refl
Check-cases inactive = inr (inl refl)
Check-cases (crash e) = inr (inr (e, refl))

pub NodeEnd-cases :
    (x : NodeEnd)
    → ((step : StepResult) × ((c : Context) × (x ≡ passed step c)))
      ⊎ ((step : StepResult) × ((c : Context) × (x ≡ broke step c)))
NodeEnd-cases (passed step c) = inl (step, (c, refl))
NodeEnd-cases (broke step c) = inr (step, (c, refl))
