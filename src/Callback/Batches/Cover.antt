-- ===== src/Callback/Batches/Cover.antt =====
-- The steps and logs of the batches of `_send_batch_callback`, put together.
use vanguard_runner.Base.{
  ℕ, zero, suc, ◌+◌, ◌-◌, ◌*◌, ◌≤◌, ◌<◌, ◌≡◌, refl, sym, ap, ◌∙◌, min, leb, leb→le, List, [], ◌∷◌,
  ◌++◌, length, length-take, length-drop, take, take_all, drop, drop_all, drop-drop,
  take-append-drop, All, arith, Bool-cases, inl, inr,
}
use mathlib.Core.Path.{subst}
use native.Mathlib.Nat.{add-mul, one-mul, lt-div-mul-add}
use vanguard_runner.Callback.Batches.{
  StepModel, LogModel, BatchPayload, batches_for, total_batches, batch_of, batch_payload,
  payloads_from, payloads,
}

next_start : (z b : ℕ) → b * z + z ≡ (b + 1) * z
next_start z b = sym (add-mul b 1 z ∙ ap (λ k. b * z + k) (one-mul z))

module _ {ℓ} {A : Type ℓ} where
  -- A batch is a part of the list from its start on.
  batch_of-take : (z b : ℕ) (xs : List A) → batch_of z b xs ≡ take z (drop (b * z) xs)
  unfolding batch_of
  batch_of-take z b xs = elim (Bool-cases (leb (b * z + z) (length xs))) [
    | inl e ↦
        let le : b * z + z ≤ length xs = leb→le (b * z + z) (length xs) e in
        ap (λ k. take k (drop (b * z) xs)) (omega (arith, le))
    | inr e ↦
        let few : length (drop (b * z) xs) ≤ z = ground (arith, length-drop (b * z) xs) in
        let exact : length (drop (b * z) xs) ≤ min (b * z + z) (length xs) - b * z =
          ground (arith, length-drop (b * z) xs) in
        take_all (min (b * z + z) (length xs) - b * z) (drop (b * z) xs) exact
        ∙ sym (take_all z (drop (b * z) xs) few)
  ]

  -- The batches from the index `b` on, one after the other.
  spread : ℕ → List A → ℕ → ℕ → List A
  unfolding batch_of
  spread z xs zero b = []
  spread z xs (suc left) b = batch_of z b xs ++ spread z xs left (b + 1)

  spread-drop :
      (z left b : ℕ) (xs : List A)
      → length xs ≤ (b + left) * z
      → spread z xs left b ≡ drop (b * z) xs
  unfolding spread
  spread-drop z zero b xs h =
      sym (drop_all (b * z) xs (subst (λ k. length xs ≤ k * z) (omega arith) h))
  spread-drop z (suc left) b xs h =
      rw
        (
          batch_of-take z b xs,
          spread-drop z left (b + 1) xs (subst (λ k. length xs ≤ k * z) (omega arith) h),
          ← next_start z b,
          ← drop-drop z (b * z) xs,
        )
        (take-append-drop z (drop (b * z) xs))

-- the number of batches is enough
batches_for-enough : (n z : ℕ) → 0 < z → n ≤ batches_for n z * z
batches_for-enough n z p = omega (arith, lt-div-mul-add {a = n + z - 1} {b = z} p)

abbrev pub steps_of : List BatchPayload → List StepModel
steps_of [] = []
steps_of (p ∷ ps) = p.steps ++ steps_of ps

abbrev pub logs_of_payloads : List BatchPayload → List LogModel
logs_of_payloads [] = []
logs_of_payloads (p ∷ ps) = p.logs ++ logs_of_payloads ps

module _ (logs : List LogModel) (z total : ℕ) where
  steps_of-payloads_from :
      (steps : List StepModel) (left b : ℕ)
      → steps_of (payloads_from steps logs z total left b) ≡ spread z steps left b
  unfolding payloads_from batch_payload spread
  steps_of-payloads_from steps zero b = refl
  steps_of-payloads_from steps (suc left) b =
      ap (λ r. batch_of z b steps ++ r) (steps_of-payloads_from steps left (b + 1))

  no_steps : (b : ℕ) → batch_of {A = StepModel} z b [] ≡ []
  no_steps b =
      batch_of-take z b []
      ∙ ap (take z) (drop_all (b * z) [] (omega arith))
      ∙ take_all z [] (omega arith)

  logs-payloads_from :
      (left b : ℕ) → logs_of_payloads (payloads_from [] logs z total left b) ≡ spread z logs left b
  unfolding payloads_from batch_payload spread
  logs-payloads_from zero b = refl
  logs-payloads_from (suc left) b = rw (no_steps b, logs-payloads_from left (b + 1)) refl

  payloads_from-size :
      (steps : List StepModel) (left b : ℕ)
      → All (λ p. length p.steps ≤ z) (payloads_from steps logs z total left b)
  unfolding payloads_from batch_payload
  payloads_from-size steps zero b = tt
  payloads_from-size steps (suc left) b = (
    rw (batch_of-take z b steps, length-take z (drop (b * z) steps)) (omega arith),
    payloads_from-size steps left (b + 1),
  )

total_batches-enough :
    (steps : List StepModel) (logs : List LogModel) (z : ℕ)
    → 0 < z
    → length steps ≤ (0 + total_batches steps logs z) * z
unfolding total_batches
total_batches-enough [] logs z p = omega arith
total_batches-enough (s ∷ ss) logs z p =
    subst (λ k. length (s ∷ ss) ≤ k * z) (omega arith) (batches_for-enough (length (s ∷ ss)) z p)

logs_enough :
    (logs : List LogModel) (z : ℕ) → 0 < z → length logs ≤ (0 + total_batches [] logs z) * z
unfolding total_batches
logs_enough [] z p = omega arith
logs_enough (l ∷ ls) z p =
    subst (λ k. length (l ∷ ls) ≤ k * z) (omega arith) (batches_for-enough (length (l ∷ ls)) z p)

-- What the batches of a result hold.
pub record Covers (steps : List StepModel) (logs : List LogModel) (z : ℕ) (ps : List BatchPayload)
    : Type 0 where
  pub all_steps : steps_of ps ≡ steps
  pub all_logs : steps ≡ [] → logs_of_payloads ps ≡ logs
  pub small : All (λ p. length p.steps ≤ z) ps

from_zero : (z : ℕ) → 0 * z ≡ 0
from_zero z = omega arith

-- With a positive batch size, the batches hold all steps of a result, in their order and each once, at
-- most as many in a batch as its size; and where the result has no step, they hold all of its logs.
pub payloads-Covers :
    (steps : List StepModel) (logs : List LogModel) (z : ℕ)
    → 0 < z
    → Covers steps logs z (payloads steps logs z)
unfolding payloads
payloads-Covers steps logs z p = record {
  all_steps =
      steps_of-payloads_from logs z (total_batches steps logs z) steps (total_batches steps logs z)
        0
      ∙ spread-drop z (total_batches steps logs z) 0 steps (total_batches-enough steps logs z p)
      ∙ ap (λ k. drop k steps) (from_zero z);
  all_logs = λ e.
      subst
        (λ ss.
          logs_of_payloads
            (payloads_from ss logs z (total_batches ss logs z) (total_batches ss logs z) 0)
          ≡ logs)
        (sym e)
        (logs-payloads_from logs z (total_batches [] logs z) (total_batches [] logs z) 0
          ∙ spread-drop z (total_batches [] logs z) 0 logs (logs_enough logs z p)
          ∙ ap (λ k. drop k logs) (from_zero z));
  small =
      payloads_from-size logs z (total_batches steps logs z) steps (total_batches steps logs z) 0;
}
