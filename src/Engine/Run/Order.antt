-- ===== src/Engine/Run/Order.antt =====
-- The steps that an execution leaves (packages/engine/workflow_engine.py): which nodes they stand
-- for, and the statuses that they have in their order.
use mathlib.Core.Path.{subst}
use mathlib.Core.List.{append-nil, append_assoc}
use vanguard_runner.Base.{ℕ, String, some, List, [], ◌∷◌, ◌++◌, map, ◌≡◌, refl, sym, ap, ◌∙◌, All}
use vanguard_runner.Engine.Steps.{
  ExecutionStatus, StepStatus, pending, success, failed, skipped, running, StepResult,
  ExecutionResult, add_step,
}
use vanguard_runner.Engine.Services.{Context, Services, node_map}
use vanguard_runner.Engine.Branches.{Crash, missing_node, check_node}
use vanguard_runner.Engine.Run.{
  Outcome, pending_step, skip_step, add_pending, run_node, run_order, execute,
}
use vanguard_runner.Engine.Run.Nodes.{node_map-id, run_node-EndsWith}
use vanguard_runner.Engine.Run.Ends.{
  Ends, Blames, Excused-map, Ends-weaken, with_node-Ends, with_check-Ends, with_end-Ends,
  check_node-Excused,
}

-- The statuses of a result: an execution that succeeded has steps that succeeded or were skipped,
-- one that failed has such steps, then the failed one, then placeholders.
pub data Statuses : ExecutionStatus → List StepStatus → Type 0 where
  done : Statuses success []
  succeeded :
      {e : ExecutionStatus} {ss : List StepStatus} → Statuses e ss → Statuses e (success ∷ ss)
  omitted : {e : ExecutionStatus} {ss : List StepStatus} → Statuses e ss → Statuses e (skipped ∷ ss)
  stopped : {ss : List StepStatus} → All (λ s. s ≡ pending) ss → Statuses failed (failed ∷ ss)

abbrev pub step_ids : List StepResult → List String
step_ids = map (λ s. s.node_id)

abbrev pub step_statuses : List StepResult → List StepStatus
step_statuses = map (λ s. s.status)

-- a result whose steps stand for the nodes of an initial part of the order, not for all
abbrev pub Unfinished : List String → ExecutionResult → Type 0
Unfinished order r =
    (id : String) × ((rest : List String) × (order ≡ step_ids r.steps ++ (id ∷ rest)))

-- a result that adds, to the steps it began with, one for each of the ids, in their order
abbrev Adds :
    (ExecutionStatus → List StepStatus → Type 0)
    → List StepResult
    → List String
    → ExecutionResult
    → Context
    → Type 0
Adds P old ids r c =
    (new : List StepResult) × ((r.steps ≡ old ++ new)
      × ((step_ids new ≡ ids) × P r.status (step_statuses new)))

-- what is raised, and the steps added before: one for each node of an initial part of the ids
abbrev Raises :
    Services → List StepResult → List String → Crash → ExecutionResult → Context → Type 0
Raises s old ids e r c =
    Blames s c e
    × ((new : List StepResult) × ((id : String) × ((rest : List String) × ((r.steps ≡ old ++ new)
              × (ids ≡ step_ids new ++ (id ∷ rest))))))

raised_here :
    (s : Services) (ids : List String) (id : String) (e : Crash) (r : ExecutionResult) (c : Context)
    → Blames s c e
    → Raises s r.steps (id ∷ ids) e r c
raised_here s ids id e r c b = (b, ([], (id, (ids, (sym (append-nil r.steps), refl)))))

Raises-cons :
    (s : Services) (step : StepResult) (ids : List String) (id : String) (r r2 : ExecutionResult)
    (e : Crash) (c : Context)
    → step.node_id ≡ id
    → Raises s (r.steps ++ (step ∷ [])) ids e r2 c
    → Raises s r.steps (id ∷ ids) e r2 c
Raises-cons s step ids id r r2 e c i (b, (new, (left, (rest, (h, k))))) = (
  b,
  (
    step ∷ new,
    (
      left,
      (
        rest,
        (
          h ∙ append_assoc r.steps (step ∷ []) new,
          ap (λ is. id ∷ is) k ∙ ap (λ j. j ∷ (step_ids new ++ (left ∷ rest))) (sym i),
        ),
      ),
    ),
  ),
)

-- a step put first
Adds-cons :
    (P P2 : ExecutionStatus → List StepStatus → Type 0) (step : StepResult) (ids : List String)
    (id : String) (r r2 : ExecutionResult) (c : Context)
    → step.node_id ≡ id
    → ((e : ExecutionStatus) (ss : List StepStatus) → P e ss → P2 e (step.status ∷ ss))
    → Adds P (r.steps ++ (step ∷ [])) ids r2 c
    → Adds P2 r.steps (id ∷ ids) r2 c
Adds-cons P P2 step ids id r r2 c e f (new, (h, (k, p))) = (
  step ∷ new,
  (
    h ∙ append_assoc r.steps (step ∷ []) new,
    (ap (λ i. i ∷ step_ids new) e ∙ ap (λ is. id ∷ is) k, f _ _ p),
  ),
)

abbrev AllPending : ExecutionStatus → List StepStatus → Type 0
AllPending e ss = (e ≡ failed) × All (λ s. s ≡ pending) ss

-- the steps of the loop, added to a result that has some
module _ (s : Services) (now : ℕ) where
  put_first :
      (P P2 : ExecutionStatus → List StepStatus → Type 0) (step : StepResult) (ids : List String)
      (id : String) (r : ExecutionResult) (o : Outcome)
      → step.node_id ≡ id
      → ((e : ExecutionStatus) (ss : List StepStatus) → P e ss → P2 e (step.status ∷ ss))
      → Ends (Adds P (add_step step r).steps ids) (Raises s (add_step step r).steps ids) o
      → Ends (Adds P2 r.steps (id ∷ ids)) (Raises s r.steps (id ∷ ids)) o
  put_first P P2 step ids id r o e f h =
      Ends-weaken (Adds P (add_step step r).steps ids) (Adds P2 r.steps (id ∷ ids))
        (Raises s (add_step step r).steps ids) (Raises s r.steps (id ∷ ids)) o
        (λ r2 c a. Adds-cons P P2 step ids id r r2 c e f a)
        (λ x r2 c a. Raises-cons s step ids id r r2 x c e a) h

  add_pending-Ends :
      (ids : List String) (c : Context) (r : ExecutionResult)
      → Ends (Adds AllPending r.steps ids) (Raises s r.steps ids) (add_pending s now ids c r)
  add_pending-Ends [] c r = ([], (sym (append-nil r.steps), (refl, (refl, tt))))
  add_pending-Ends (id ∷ ids) c r =
      with_node-Ends (Adds AllPending r.steps (id ∷ ids)) (Raises s r.steps (id ∷ ids))
        (node_map s.nodes id) id r c _ (λ e. raised_here s ids id (missing_node id) r c e)
        (λ node e.
          put_first AllPending AllPending (pending_step node) ids id r _
            (node_map-id s.nodes id node e) (λ e ss p. (p.0, (refl, p.1)))
            (add_pending-Ends ids c (add_step (pending_step node) r)))

  run_order-Ends :
      (ids : List String) (c : Context) (r : ExecutionResult)
      → Ends (Adds Statuses r.steps ids) (Raises s r.steps ids) (run_order s now ids c r)
  run_order-Ends [] c r = ([], (sym (append-nil r.steps), (refl, done)))
  run_order-Ends (id ∷ ids) c r =
      with_node-Ends (Adds Statuses r.steps (id ∷ ids)) (Raises s r.steps (id ∷ ids))
        (node_map s.nodes id) id r c _ (λ e. raised_here s ids id (missing_node id) r c e)
        (λ node e.
          with_check-Ends (Adds Statuses r.steps (id ∷ ids)) (Raises s r.steps (id ∷ ids))
            (check_node s c id) node r c _ _
            (Excused-map (check_node s c id) _ _ (λ e b. raised_here s ids id e r c b)
              (check_node-Excused s c id))
            (λ k.
              put_first Statuses Statuses (skip_step s node) ids id r _
                (node_map-id s.nodes id node e) (λ e ss p. omitted p)
                (run_order-Ends ids c (add_step (skip_step s node) r)))
            (λ k.
              with_end-Ends (Adds Statuses r.steps (id ∷ ids)) (Raises s r.steps (id ∷ ids)) node
                (run_node s node c) _ _ (run_node-EndsWith s node c)
                (λ step next q i st.
                  put_first Statuses Statuses step ids id r _ (i ∙ node_map-id s.nodes id node e)
                    (λ e ss p. subst (λ t. Statuses e (t ∷ ss)) (sym st) (succeeded p))
                    (run_order-Ends ids next (add_step step r)))
                (λ step next q i st.
                  put_first AllPending Statuses step ids id r _ (i ∙ node_map-id s.nodes id node e)
                    (λ e ss p.
                      subst (λ t. Statuses e (t ∷ ss)) (sym st)
                        (subst (λ q. Statuses q (failed ∷ ss)) (sym p.0) (stopped p.1)))
                    (add_pending-Ends ids next (add_step step r)))))

-- An execution that begins without steps, where it ends with a result, has one step for each node of
-- the order, in that order. Its steps all succeeded or were skipped, and its status is success; or
-- such steps are followed by one that failed and by pending ones for all later nodes, and its
-- status is failed. Where `execute` raises instead, it has added one step for each node of an initial
-- part of the order, not for all nodes, and it names a node that the workflow lacks, or a condition
-- node whose result then is no response with a branch in its body.
pub execute-Statuses :
    (s : Services) (begin now : ℕ) (order : List String) (c : Context) (r : ExecutionResult)
    → r.steps ≡ []
    → Ends
        (λ r2 c2. (step_ids r2.steps ≡ order) × Statuses r2.status (step_statuses r2.steps))
        (λ e r2 c2. Blames s c2 e × Unfinished order r2)
        (execute s begin now order c r)
execute-Statuses s begin now order c r empty =
    Ends-weaken (Adds Statuses r.steps order) _ (Raises s r.steps order) _
      (execute s begin now order c r)
      (λ r2 c2 a.
        let e : r2.steps ≡ a.0 = a.1.0 ∙ ap (λ old. old ++ a.0) empty in
        (rw e (a.1.1.0), subst (λ ss. Statuses r2.status (step_statuses ss)) (sym e) (a.1.1.1)))
      (λ e r2 c2 (b, (new, (id, (rest, (h, k))))).
        let i : r2.steps ≡ new = h ∙ ap (λ old. old ++ new) empty in
        (b, (id, (rest, k ∙ ap (λ ss. step_ids ss ++ (id ∷ rest)) (sym i)))))
      (run_order-Ends s now order c (record r { start_time = some begin; status = running }))
