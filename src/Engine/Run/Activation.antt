-- ===== src/Engine/Run/Activation.antt =====
-- Which nodes run and which are skipped (packages/engine/workflow_engine.py), told from the results
-- that a whole execution leaves.
use mathlib.Core.Path.{subst}
use mathlib.Core.List.{append-nil, append_assoc}
use vanguard_runner.Base.{
  ℕ, String, false, ◌==◌, Option, none, some, List, [], ◌∷◌, ◌++◌, map, ◌≡◌, refl, sym, ap, arith,
  ◌∙◌, All, if◌then◌else◌,
}
use vanguard_runner.Engine.Steps.{
  StepStatus, success, failed, skipped, running, StepResult, ExecutionResult, add_step,
}
use vanguard_runner.Engine.Services.{Node, Context, Services, node_map}
use vanguard_runner.Engine.Branches.{
  Check, Crash, active, inactive, crash, check_node, check_preds, check_paths, check_path,
  check_found_path, check_condition, check_ordinary, or_check, is_condition,
}
use vanguard_runner.Engine.Run.{
  finished, NodeEnd, pending_step, skip_step, add_pending, run_node, run_order, execute, passed,
  broke,
}
use vanguard_runner.Engine.Run.Nodes.{node_map-id, run_node-EndsWith}
use vanguard_runner.Engine.Run.Ends.{
  Ends, Excused, Ends-weaken, with_node-Ends, with_check-Ends, with_end-Ends,
}
use vanguard_runner.Engine.Run.Order.{step_statuses}
use vanguard_runner.Engine.Run.Frame.{Same, Leaves, Keeps, run_node-Leaves}

-- The status that the incoming paths of a node ask for.
abbrev pub status_for : Check → StepStatus
status_for active = success
status_for inactive = skipped
status_for (crash e) = failed

-- `q` is none of the nodes that are still to come.
abbrev pub Visited : String → List String → Type 0
Visited q ids = All (λ id. (id == q) ≡ false) ids

-- A topological order without repetitions: neither a node nor one of its predecessors comes later.
abbrev pub Topological : Services → List String → Type 0
Topological s [] = Unit
Topological s (id ∷ ids) =
    All (λ p. Visited p (id ∷ ids)) (s.predecessors id) × (Visited id ids × Topological s ids)

abbrev Anything : Crash → ExecutionResult → Context → Type 0
Anything e r c = Unit

module _ (s : Services) (c c2 : Context) (id : String) where
  check_found_path-Same :
      (p : String) (o : Option Node)
      → Same p c c2
      → check_found_path s c2 id p o ≡ check_found_path s c id p o
  check_found_path-Same p none h = refl
  check_found_path-Same p (some n) h =
      ap
        (λ j.
          if is_condition n then check_condition p j (s.source_handle p id) else check_ordinary j)
        h

  check_paths-Same :
      (ps : List String)
      → All (λ p. Same p c c2) ps
      → check_paths s c2 id ps ≡ check_paths s c id ps
  check_paths-Same [] h = refl
  check_paths-Same (p ∷ ps) h =
      ap (λ k. or_check k (check_paths s c2 id ps))
        (check_found_path-Same p (node_map s.nodes p) h.0)
      ∙ ap (λ l. or_check (check_path s c id p) l) (check_paths-Same ps h.1)

  check_preds-Same :
      (ps : List String)
      → All (λ p. Same p c c2) ps
      → check_preds s c2 id ps ≡ check_preds s c id ps
  check_preds-Same [] h = refl
  check_preds-Same (p ∷ ps) h = check_paths-Same (p ∷ ps) h

-- what an execution of the ids leaves: earlier results, and the status of each node
abbrev Explains :
    Services → Context → List StepResult → List String → ExecutionResult → Context → Type 0
Explains s c old ids r2 c2 =
    ((q : String) → Visited q ids → Same q c c2)
    × (r2.status ≡ success
        → (new : List StepResult) × ((r2.steps ≡ old ++ new)
            × (step_statuses new ≡ map (λ id. status_for (check_node s c2 id)) ids)))

All-map :
    (ps : List String) (P Q : String → Type 0) → ((p : String) → P p → Q p) → All P ps → All Q ps
All-map [] P Q f h = tt
All-map (p ∷ ps) P Q f h = (f p h.0, All-map ps P Q f h.1)

excused : (k : Check) → Excused (λ e. Unit) k
excused active = tt
excused inactive = tt
excused (crash e) = tt

Leaves-passed :
    (q : String) (c next : Context) (step : StepResult) (x : NodeEnd)
    → x ≡ passed step next
    → Leaves q c x
    → Same q c next
Leaves-passed q c next step x e l = subst (λ y. Leaves q c y) e l

Leaves-broke :
    (q : String) (c next : Context) (step : StepResult) (x : NodeEnd)
    → x ≡ broke step next
    → Leaves q c x
    → Same q c next
Leaves-broke q c next step x e l = subst (λ y. Leaves q c y) e l

module _ (s : Services) (now : ℕ) (keeps : Keeps s) where
  -- a placeholder or a failure leaves no success, and the context as it is
  add_pending-Explains :
      (c : Context) (old : List StepResult) (all ids : List String) (c0 : Context)
      (r : ExecutionResult)
      → ((q : String) → Visited q all → Same q c0 c)
      → Ends (Explains s c0 old all) Anything (add_pending s now ids c r)
  add_pending-Explains c old all [] c0 r h = (h, λ e. ground arith)
  add_pending-Explains c old all (id ∷ ids) c0 r h =
      with_node-Ends (Explains s c0 old all) Anything (node_map s.nodes id) id r c _ (λ e. tt)
        (λ node e. add_pending-Explains c old all ids c0 (add_step (pending_step node) r) h)

  -- one node more in front
  Explains-cons :
      (id : String) (ids : List String) (c c1 : Context) (step : StepResult)
      (r r2 : ExecutionResult) (c2 : Context)
      → Topological s (id ∷ ids)
      → ((q : String) → (id == q) ≡ false → Same q c c1)
      → step.status ≡ status_for (check_node s c id)
      → Explains s c1 (add_step step r).steps ids r2 c2
      → Explains s c r.steps (id ∷ ids) r2 c2
  Explains-cons id ids c c1 step r r2 c2 top same st x =
      let all : (q : String) → Visited q (id ∷ ids) → Same q c c2 = λ q v. x.0 q v.1 ∙ same q v.0 in
      let k : check_node s c2 id ≡ check_node s c id =
        check_preds-Same s c c2 id (s.predecessors id)
          (All-map (s.predecessors id) (λ p. Visited p (id ∷ ids)) (λ p. Same p c c2) all top.0) in
      (
        all,
        λ ok.
            let y = x.1 ok in
            (
              step ∷ y.0,
              (
                y.1.0 ∙ append_assoc r.steps (step ∷ []) (y.0),
                ap (λ t. t ∷ step_statuses (y.0)) (st ∙ ap status_for (sym k))
                    ∙ ap (λ ts. status_for (check_node s c2 id) ∷ ts) (y.1.1),
              ),
            ),
      )

  run_order-Explains :
      (ids : List String) (c : Context) (r : ExecutionResult)
      → Topological s ids
      → Ends (Explains s c r.steps ids) Anything (run_order s now ids c r)
  run_order-Explains [] c r top = (λ q v. refl, λ ok. ([], (sym (append-nil r.steps), refl)))
  run_order-Explains (id ∷ ids) c r top =
      let left : (node : Node)
          → node_map s.nodes id ≡ some node
          → (q : String) → (id == q) ≡ false
          → Leaves q c (run_node s node c) =
        λ node e q v.
          run_node-Leaves s q keeps node (ap (λ i. i == q) (node_map-id s.nodes id node e) ∙ v) c in
      with_node-Ends (Explains s c r.steps (id ∷ ids)) Anything (node_map s.nodes id) id r c _
        (λ e. tt)
        (λ node e.
          with_check-Ends (Explains s c r.steps (id ∷ ids)) Anything (check_node s c id) node r c _
            _ (excused (check_node s c id))
            (λ k.
              Ends-weaken (Explains s c (add_step (skip_step s node) r).steps ids)
                (Explains s c r.steps (id ∷ ids)) Anything Anything _
                (λ r2 c2.
                  Explains-cons id ids c c (skip_step s node) r r2 c2 top (λ q v. refl)
                    (ap status_for (sym k)))
                (λ e r2 c2 a. a) (run_order-Explains ids c (add_step (skip_step s node) r) top.1.1))
            (λ k.
              with_end-Ends (Explains s c r.steps (id ∷ ids)) Anything node (run_node s node c) _ _
                (run_node-EndsWith s node c)
                (λ step next x i st.
                  Ends-weaken (Explains s next (add_step step r).steps ids)
                    (Explains s c r.steps (id ∷ ids)) Anything Anything _
                    (λ r2 c2.
                      Explains-cons id ids c next step r r2 c2 top
                        (λ q v. Leaves-passed q c next step _ x (left node e q v))
                        (st ∙ ap status_for (sym k)))
                    (λ e r2 c2 a. a) (run_order-Explains ids next (add_step step r) top.1.1))
                (λ step next x i st.
                  add_pending-Explains next r.steps (id ∷ ids) ids c (add_step step r)
                    (λ q v. Leaves-broke q c next step _ x (left node e q v.0)))))

-- In an execution that succeeds, over a topological order and with processors that set no node
-- results themselves, a node's step succeeded where it has no predecessor or an active incoming
-- path, and is skipped where it has predecessors and no active path, as the results at the end of
-- the execution tell.
pub execute_as_active :
    (s : Services) (begin now : ℕ) (order : List String) (c c2 : Context) (r r2 : ExecutionResult)
    → Keeps s
    → Topological s order
    → r.steps ≡ []
    → execute s begin now order c r ≡ finished r2 c2
    → r2.status ≡ success
    → step_statuses r2.steps ≡ map (λ id. status_for (check_node s c2 id)) order
execute_as_active s begin now order c c2 r r2 keeps top empty ran ok =
    let x : Explains s c r.steps order r2 c2 =
      subst (λ o. Ends (Explains s c r.steps order) Anything o) ran
        (run_order-Explains s now keeps order c
          (record r { start_time = some begin; status = running }) top) in
    let y = x.1 ok in ap step_statuses (y.1.0 ∙ ap (λ old. old ++ y.0) empty) ∙ y.1.1
