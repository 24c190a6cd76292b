-- ===== src/Worker/Results/Counts.antt =====
-- The counts and the steps of the result that the Worker reports
-- (apps/worker/executors/workflow_executor.py), for an execution of the engine.
use mathlib.Core.Path.{subst}
use vanguard_runner.Base.{
  ℕ, zero, suc, ◌+◌, String, Bool, Option, none, some, List, [], ◌∷◌, map, length, count, select,
  if◌then◌else◌, ◌≡◌, refl, sym, ap, ◌∙◌, All, arith,
}
use vanguard_runner.Model.{Items}
use vanguard_runner.Engine.Steps.{
  ExecutionStatus, StepStatus, pending, StepResult, ExecutionResult, is_success, is_failed,
  is_skipped, is_pending,
}
use vanguard_runner.Engine.Steps.Dictionaries.{◌>>=◌}
use vanguard_runner.Engine.Services.{Context, Services}
use vanguard_runner.Engine.Run.{finished, execute}
use vanguard_runner.Engine.Run.Ends.{Ends, Blames}
use vanguard_runner.Engine.Run.Order.{
  Statuses, Unfinished, done, succeeded, omitted, stopped, step_ids, step_statuses,
  execute-Statuses,
}
use vanguard_runner.Worker.Outputs.{extract_output, step_output, step_name}
use vanguard_runner.Worker.Results.{
  StepCallback, RunResult, is_successful, format_step, format_steps, format_result,
}

-- the statuses counted apart
abbrev pub sum_by_status : List StepStatus → ℕ
sum_by_status ss =
    count is_success ss + count is_failed ss + count is_skipped ss + count is_pending ss

length-select :
    (p : StepStatus → Bool) (xs : List StepResult)
    → length (select (λ s. p s.status) xs) ≡ count p (step_statuses xs)
length-select p [] = refl
length-select p (x ∷ xs) = ground (arith, length-select p xs)

sum_by_status_pending :
    (ss : List StepStatus)
    → All (λ s. s ≡ pending) ss
    → (sum_by_status ss ≡ length ss) × (count is_failed ss ≡ 0)
sum_by_status_pending [] h = (refl, refl)
sum_by_status_pending (s ∷ ss) h =
    let e = sum_by_status_pending ss h.1 in (rw (h.0) (omega (arith, e.0)), rw (h.0) (e.1))

sum_by_status-Statuses :
    (e : ExecutionStatus) (ss : List StepStatus)
    → Statuses e ss
    → (sum_by_status ss ≡ length ss) × (count is_failed ss ≡ (if is_successful e then 0 else 1))
sum_by_status-Statuses _ _ done = (refl, refl)
sum_by_status-Statuses e _ (succeeded {ss} h) =
    let t = sum_by_status-Statuses e ss h in (omega (arith, t.0), t.1)
sum_by_status-Statuses e _ (omitted {ss} h) =
    let t = sum_by_status-Statuses e ss h in (omega (arith, t.0), t.1)
sum_by_status-Statuses _ _ (stopped {ss} h) =
    let t = sum_by_status_pending ss h in (omega (arith, t.0), ap suc (t.1))

abbrev pub count_up : ℕ → ℕ → List ℕ
count_up n zero = []
count_up n (suc k) = n ∷ count_up (suc n) k

bind-inverse {ℓ κ} :
    {A : Type ℓ} {B : Type κ} (o : Option A) (f : A → Option B) (b : B)
    → (o >>= f) ≡ some b
    → (a : A) × ((o ≡ some a) × (f a ≡ some b))
bind-inverse none f b e = absurd (ground arith)
bind-inverse (some a) f b e = (a, (refl, e))

some-inj {ℓ} : {A : Type ℓ} {a b : A} → Option.some a ≡ some b → a ≡ b
some-inj e = ground (arith, e)

length-map {ℓ κ} :
    {A : Type ℓ} {B : Type κ} (f : A → B) (xs : List A) → length (map f xs) ≡ length xs
length-map f [] = refl
length-map f (x ∷ xs) = ap suc (length-map f xs)

-- the callbacks of a list of steps that starts at an order number
abbrev Numbered : ℕ → List StepResult → List StepCallback → Type 0
Numbered n ss xs =
    (map (λ x. x.step_id) xs ≡ step_ids ss) × (map (λ x. x.order_num) xs ≡ count_up n (length ss))

module _ (milliseconds : ℕ → ℕ) (lower upper strip : String → String)
    (contains : String → String → Bool) (nodes : Items) where
  format_step-id :
      (n : ℕ) (s : StepResult) (x : StepCallback)
      → format_step milliseconds lower upper strip contains nodes n s ≡ some x
      → (x.step_id ≡ s.node_id) × (x.order_num ≡ n)
  format_step-id n s x e =
      let a = bind-inverse (extract_output lower s.node_type (step_output s.output)) _ x e in
      let b = bind-inverse (step_name s.node_id nodes) _ x a.1.1 in
      let q = some-inj b.1.1 in (ap (λ y. y.step_id) (sym q), ap (λ y. y.order_num) (sym q))

  format_steps-Numbered :
      (n : ℕ) (ss : List StepResult) (xs : List StepCallback)
      → format_steps milliseconds lower upper strip contains nodes n ss ≡ some xs
      → Numbered n ss xs
  format_steps-Numbered n [] xs e = subst (Numbered n []) (some-inj e) (refl, refl)
  format_steps-Numbered n (s ∷ ss) xs e =
      let a = bind-inverse (format_step milliseconds lower upper strip contains nodes n s) _ xs e in
      let b =
        bind-inverse (format_steps milliseconds lower upper strip contains nodes (suc n) ss) _ xs
          a.1.1 in
      let one = format_step-id n s (a.0) a.1.0 in
      let rest = format_steps-Numbered (suc n) ss (b.0) b.1.0 in
      subst (Numbered n (s ∷ ss)) (some-inj b.1.1) (
        ap (λ i. i ∷ map (λ x. x.step_id) (b.0)) one.0 ∙ ap (λ is. s.node_id ∷ is) rest.0,
        ap (λ i. i ∷ map (λ x. x.order_num) (b.0)) one.1 ∙ ap (λ is. n ∷ is) rest.1,
      )

  -- The result that the Worker reports of an execution that began without steps reports one step for
  -- each node of the order, in that order and numbered from 1; the counts of passed, failed, skipped
  -- and pending steps add up to the number of nodes; and the number of failed steps is 0 where the
  -- result says success and 1 where it does not.
  pub format_result-execute :
      (s : Services) (begin now later : ℕ) (order : List String) (c c2 : Context)
      (r r2 : ExecutionResult) (out : RunResult)
      → r.steps ≡ []
      → execute s begin now order c r ≡ finished r2 c2
      → format_result milliseconds lower upper strip contains later nodes r2 ≡ some out
      → ((map (λ x. x.step_id) out.steps ≡ order)
          × (map (λ x. x.order_num) out.steps ≡ count_up 1 (length order)))
        × ((out.passed_count + out.failed_count + out.skipped_count + out.pending_count
              ≡ length order)
            × ((out.total_steps ≡ length order)
                × (out.failed_count ≡ (if out.successful then 0 else 1))))
  format_result-execute s begin now later order c c2 r r2 out empty ran e =
      let x =
        subst
          (Ends (λ r2 c2. (step_ids r2.steps ≡ order) × Statuses r2.status (step_statuses r2.steps))
            (λ e r2 c2. Blames s c2 e × Unfinished order r2))
          ran (execute-Statuses s begin now order c r empty) in
      let ids : step_ids r2.steps ≡ order = x.0 in
      let n : length r2.steps ≡ length order =
        sym (length-map (λ s. s.node_id) r2.steps) ∙ ap length ids in
      let m : length (step_statuses r2.steps) ≡ length r2.steps =
        length-map (λ s. s.status) r2.steps in
      let t = sum_by_status-Statuses r2.status (step_statuses r2.steps) x.1 in
      let a =
        bind-inverse (format_steps milliseconds lower upper strip contains nodes 1 r2.steps) _ out
          e in
      let num = format_steps-Numbered 1 r2.steps (a.0) a.1.0 in
      subst
        (λ o.
          ((map (λ x. x.step_id) o.steps ≡ order)
            × (map (λ x. x.order_num) o.steps ≡ count_up 1 (length order)))
          × ((o.passed_count + o.failed_count + o.skipped_count + o.pending_count ≡ length order)
              × ((o.total_steps ≡ length order)
                  × (o.failed_count ≡ (if o.successful then 0 else 1)))))
        (some-inj a.1.1)
        (
          (num.0 ∙ ids, num.1 ∙ ap (count_up 1) n),
          (
            rw
                (
                  length-select is_success r2.steps,
                  length-select is_failed r2.steps,
                  length-select is_skipped r2.steps,
                  length-select is_pending r2.steps,
                )
                (t.0 ∙ m ∙ n),
            (n, length-select is_failed r2.steps ∙ t.1),
          ),
        )
