-- ===== src/Engine/Loops/Bounds.antt =====
-- How often a while loop of `LoopProcessor` runs its sub nodes
-- (packages/engine/src/core/processors/workflow/loop_processor.py).
use mathlib.Core.Path.{subst}
use vanguard_runner.Base.{
  ℕ, zero, suc, ◌+◌, ◌≤◌, ◌<◌, String, Bool, true, false, Option, List, ◌≡◌, ◌⊎◌, inl, inr, refl,
  ◌∙◌, arith,
}
use vanguard_runner.Model.{Json, Items, nil, cons}
use vanguard_runner.Engine.Services.{Context}
use vanguard_runner.Engine.Loops.{
  LoopEnd, evaluate_condition, while_from, execute_while_loop, set_loop_variables, put_result,
  while_entry, stop_loop, go_on_if,
}

abbrev pub size : Items → ℕ
size nil = 0
size (cons j js) = suc (size js)

-- A while loop of a limit that started at an index: one result for each iteration, the condition held
-- before each of them, and the loop ended at the limit or where the condition no longer holds.
abbrev pub Bounded : (ℕ → Bool) → ℕ → ℕ → LoopEnd → Type 0
Bounded holds start limit e =
    ((e.iterations ≡ start + size e.results) × (e.iterations ≤ limit))
    × (((i : ℕ) → start ≤ i → i < e.iterations → holds i ≡ true)
        × ((e.iterations ≡ limit) ⊎ (holds e.iterations ≡ false)))

le_cases : (i j : ℕ) → i ≤ j → (i ≡ j) ⊎ (suc i ≤ j)
le_cases i j h = ground (arith, h)

earlier :
    {P : ℕ → Type 0} (e : LoopEnd) {i : ℕ} (j : ℕ)
    → i ≤ j
    → j < e.iterations
    → (i ≡ j) ⊎ (suc i ≤ j)
    → P i
    → ((k : ℕ) → suc i ≤ k → k < e.iterations → P k)
    → P j
earlier {P} e j p q (inl r) h f = subst P r h
earlier e j p q (inr r) h f = f j r q

module _ (round : ℕ → Context → Context × Items) where
  module _ (contains : String → String → Bool) (split : String → List String)
      (parse_bound : String → Option ℕ) (condition : String) where
    abbrev pub holds : ℕ → Bool
    holds = evaluate_condition round contains split parse_bound condition

    go_on_if-Bounded :
        (b : Bool) (left i : ℕ) (more : Context → LoopEnd) (c : Context)
        → holds i ≡ b
        → Bounded holds (suc i) (suc i + left) (more c)
        → (entry : Context → Json)
        → Bounded holds i (i + suc left) (
            go_on_if round contains split parse_bound b
              (stop_loop round contains split parse_bound i c)
              (λ c. put_result (entry c) (more c))
              c)
    go_on_if-Bounded false left i more c e h entry =
        ((omega arith, omega arith), (λ j p q. absurd (omega arith), inr e))
    go_on_if-Bounded true left i more c e h entry =
        let n = (more c).iterations in
        (
          (h.0.0 ∙ omega arith, omega (arith, h.0.1)),
          (
            λ j p q. earlier (more c) j p q (le_cases i j p) e h.1.0,
            elim h.1.1 [ inl q ↦ inl (q ∙ omega arith) | inr q ↦ inr q ],
          ),
        )

    while_from-Bounded :
        (left i : ℕ) (c : Context)
        → Bounded holds i
            (i + left)
            (while_from round contains split parse_bound condition left i c)
    while_from-Bounded zero i c =
        ((omega arith, omega arith), (λ j p q. absurd (omega arith), inl (omega arith)))
    while_from-Bounded (suc left) i c =
        let next = λ (d : Context). round i (set_loop_variables i (i + 1) false d) in
        go_on_if-Bounded (holds i) left i
          (λ d. while_from round contains split parse_bound condition left (suc i) ((next d).0)) c
          refl (while_from-Bounded left (suc i) ((next c).0))
          (λ d. while_entry round contains split parse_bound condition i ((next d).1))

    -- A while loop ends after at most its maximal number of iterations, with one result for each. The
    -- condition held before every iteration, and the loop ended at the maximum or because the
    -- condition no longer held.
    pub execute_while_loop-Bounded :
        (max_iterations : ℕ) (output : String) (c : Context)
        → Bounded holds 0 max_iterations
            (execute_while_loop round contains split parse_bound condition max_iterations output c)
    execute_while_loop-Bounded max_iterations output c =
        let e : 0 + max_iterations ≡ max_iterations = omega arith in
        subst
          (λ m.
            Bounded holds 0 m (
              execute_while_loop round contains split parse_bound condition max_iterations output
                c))
          e (while_from-Bounded max_iterations 0 c)
