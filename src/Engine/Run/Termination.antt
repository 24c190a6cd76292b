-- ===== src/Engine/Run/Termination.antt =====
-- When `execute` gives a result (packages/engine/workflow_engine.py).
use mathlib.Core.Path.{subst}
use vanguard_runner.Base.{
  ℕ, String, false, none, some, List, [], ◌∷◌, ◌≡◌, refl, sym, ap, ◌∙◌, All, if◌then◌else◌, arith,
}
use vanguard_runner.Model.{Json, null, bool, num, str, arr, obj}
use vanguard_runner.Engine.Steps.{ExecutionResult, add_step, running}
use vanguard_runner.Engine.Services.{Node, Context, Services, node_map, get_node_result}
use vanguard_runner.Engine.Branches.{
  Check, Crash, active, inactive, crash, check_node, check_preds, check_paths, check_path,
  check_found_path, check_condition, check_ordinary, or_check, is_condition,
}
use vanguard_runner.Engine.Run.{
  Outcome, finished, crashed, pending_step, skip_step, add_pending, run_node, run_order, execute,
}
use vanguard_runner.Engine.Run.Nodes.{run_node-EndsWith}
use vanguard_runner.Engine.Run.Ends.{Ends, Excused, with_node-Ends, with_check-Ends, with_end-Ends}

-- a node of the workflow
abbrev pub Known : Services → String → Type 0
Known s id = (n : Node) × (node_map s.nodes id ≡ some n)

-- a node of the workflow that is no condition
abbrev pub Ordinary : Services → String → Type 0
Ordinary s id = (n : Node) × ((node_map s.nodes id ≡ some n) × (is_condition n ≡ false))

abbrev Finished : ExecutionResult → Context → Type 0
Finished r c = Unit

abbrev Unraised : Crash → ExecutionResult → Context → Type 0
Unraised e r c = ⊥

abbrev Never : Crash → Type 0
Never e = ⊥

check_ordinary-Excused : (j : Json) → Excused Never (check_ordinary j)
check_ordinary-Excused null = tt
check_ordinary-Excused (bool b) = tt
check_ordinary-Excused (num n) = tt
check_ordinary-Excused (str t) = tt
check_ordinary-Excused (arr xs) = tt
check_ordinary-Excused (obj d) = tt

or_check-Excused : (k l : Check) → Excused Never k → Excused Never l → Excused Never (or_check k l)
or_check-Excused active l f g = tt
or_check-Excused inactive l f g = g
or_check-Excused (crash e) l f g = f

module _ (s : Services) (c : Context) (id : String) where
  check_path-Excused : (p : String) → Ordinary s p → Excused Never (check_path s c id p)
  check_path-Excused p (n, (e, k)) =
      let found : check_path s c id p ≡ check_ordinary (get_node_result p c) =
        ap (check_found_path s c id p) e
        ∙ ap
            (λ b.
              if b
              then check_condition p (get_node_result p c) (s.source_handle p id)
              else check_ordinary (get_node_result p c))
            k in
      subst (Excused Never) (sym found) (check_ordinary-Excused (get_node_result p c))

  check_paths-Excused :
      (ps : List String) → All (Ordinary s) ps → Excused Never (check_paths s c id ps)
  check_paths-Excused [] h = tt
  check_paths-Excused (p ∷ ps) h =
      or_check-Excused (check_path s c id p) (check_paths s c id ps) (check_path-Excused p h.0)
        (check_paths-Excused ps h.1)

  check_preds-Excused :
      (ps : List String) → All (Ordinary s) ps → Excused Never (check_preds s c id ps)
  check_preds-Excused [] h = tt
  check_preds-Excused (p ∷ ps) h = check_paths-Excused (p ∷ ps) h

-- nodes that the workflow has, without branches before them
abbrev pub Plain : Services → List String → Type 0
Plain s = All (λ id. Known s id × All (Ordinary s) (s.predecessors id))

module _ (s : Services) (now : ℕ) where
  known : (id : String) → Known s id → node_map s.nodes id ≡ none → ⊥
  known id (n, e) f = ground (arith, e, f)

  add_pending-Ends :
      (ids : List String) (c : Context) (r : ExecutionResult)
      → Plain s ids
      → Ends Finished Unraised (add_pending s now ids c r)
  add_pending-Ends [] c r h = tt
  add_pending-Ends (id ∷ ids) c r h =
      with_node-Ends Finished Unraised (node_map s.nodes id) id r c _ (known id h.0.0)
        (λ node e. add_pending-Ends ids c (add_step (pending_step node) r) h.1)

  run_order-Ends :
      (ids : List String) (c : Context) (r : ExecutionResult)
      → Plain s ids
      → Ends Finished Unraised (run_order s now ids c r)
  run_order-Ends [] c r h = tt
  run_order-Ends (id ∷ ids) c r h =
      with_node-Ends Finished Unraised (node_map s.nodes id) id r c _ (known id h.0.0) (λ node e.
        with_check-Ends Finished Unraised (check_node s c id) node r c _ _
          (check_preds-Excused s c id (s.predecessors id) h.0.1)
          (λ k. run_order-Ends ids c (add_step (skip_step s node) r) h.1)
          (λ k.
            with_end-Ends Finished Unraised node (run_node s node c) _ _
              (run_node-EndsWith s node c)
              (λ step next x i st. run_order-Ends ids next (add_step step r) h.1)
              (λ step next x i st. add_pending-Ends ids next (add_step step r) h.1)))

finished_of :
    (o : Outcome)
    → Ends Finished Unraised o
    → (r : ExecutionResult) × ((c : Context) × (o ≡ finished r c))
finished_of (finished r c) h = (r, (c, refl))
finished_of (crashed e r c) h = absurd h

-- Where every node of the order is one of the workflow's and none of its predecessors is a condition
-- node, `execute` gives a result, whatever the processors return or raise.
pub execute_finishes :
    (s : Services) (begin now : ℕ) (order : List String) (c : Context) (r : ExecutionResult)
    → Plain s order
    → (r2 : ExecutionResult) × ((c2 : Context) × (execute s begin now order c r ≡ finished r2 c2))
execute_finishes s begin now order c r plain =
    finished_of (execute s begin now order c r)
      (run_order-Ends s now order c (record r { start_time = some begin; status = running }) plain)
