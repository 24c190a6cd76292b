-- ===== src/Callback/Delivery/Retries.antt =====
-- When a request is delivered, and how many attempts it took.
use vanguard_runner.Base.{
  ℕ, zero, suc, ◌+◌, ◌≤◌, ◌<◌, ◌≡◌, refl, ◌⊎◌, inl, inr, String, true, false, Option, none, some,
  arith, Bool-cases, nat_eq, ◌-◌,
}
use mathlib.Core.Path.{subst}
use vanguard_runner.Callback.Delivery.{
  Attempt, DeliveryError, CallbackResult, result_of, delivered, after_attempt, send_from,
  send_request,
}

nat_eq→eq : (a b : ℕ) → nat_eq a b ≡ true → a ≡ b
nat_eq→eq a b h = ground arith

nat_neq→lt : (a b : ℕ) → nat_eq a b ≡ false → a ≤ b → a < b
nat_neq→lt a b h l = ground arith

pred_of : (a b : ℕ) → a + 1 ≡ b → a ≡ b - 1
pred_of a b e = omega (arith, e)

module _ (timeout : ℕ) (prefix : String → String) (respond : ℕ → Attempt) where
  -- The attempt with the index `k` fails, with an error.
  abbrev pub Fails : ℕ → DeliveryError → Type 0
  Fails k e = result_of timeout prefix (respond k) ≡ inr e

  abbrev pub FailsFrom : ℕ → ℕ → Type 0
  FailsFrom a b = (j : ℕ) → a ≤ j → j < b → (e : DeliveryError) × Fails j e

  -- Delivered by the first attempt from the index `a` on that does not fail, with its number.
  pub record Delivered (a b : ℕ) (r : CallbackResult) : Type 0 where
    pub index : ℕ
    pub from : a ≤ index
    pub below : index < b
    pub first : FailsFrom a index
    pub answer : ℕ × String
    pub accepted : result_of timeout prefix (respond index) ≡ inl answer
    pub result : r ≡ delivered (index + 1) answer

  -- Every attempt failed, and the last error is that of the last attempt.
  pub record Exhausted (a b : ℕ) (r : CallbackResult) : Type 0 where
    pub all_fail : FailsFrom a b
    pub failure : r.success ≡ false
    pub made : r.attempts ≡ b
    pub last : a < b → (e : DeliveryError) × (r.error ≡ some e) × Fails (b - 1) e

  abbrev pub Ends : ℕ → ℕ → CallbackResult → Type 0
  Ends a b r = Delivered a b r ⊎ Exhausted a b r

  FailsFrom-extend : (a b : ℕ) (e : DeliveryError) → Fails a e → FailsFrom (a + 1) b → FailsFrom a b
  FailsFrom-extend a b e f k j l u = elim (Bool-cases (nat_eq a j)) [
    | inl c ↦ (e, subst (λ i. Fails i e) (nat_eq→eq a j c) f)
    | inr c ↦ k j (omega (arith, nat_neq→lt a j c l)) u
  ]

  -- the error before the attempt `a` is that of the attempt before it
  abbrev Before : ℕ → Option DeliveryError → Type 0
  Before a o = 0 < a → (e : DeliveryError) × (o ≡ some e) × Fails (a - 1) e

  step :
      (a b : ℕ) (e : DeliveryError) (r : CallbackResult)
      → Fails a e
      → Ends (a + 1) b r
      → ((a + 1 ≡ b) → r.error ≡ some e)
      → Ends a b r
  step a b e r f (inl d) z = inl (record {
    index = d.index;
    from = omega (arith, d.from);
    below = d.below;
    first = FailsFrom-extend a d.index e f d.first;
    answer = d.answer;
    accepted = d.accepted;
    result = d.result;
  })
  step a b e r f (inr x) z = inr (record {
    all_fail = FailsFrom-extend a b e f x.all_fail;
    failure = x.failure;
    made = x.made;
    last = λ l. elim (Bool-cases (nat_eq (a + 1) b)) [
      | inl c ↦ (
        e,
        z (nat_eq→eq (a + 1) b c),
        subst (λ i. Fails i e) (pred_of a b (nat_eq→eq (a + 1) b c)) f,
      )
      | inr c ↦ x.last (nat_neq→lt (a + 1) b c (omega arith))
    ];
  })

  last_left :
      (left k : ℕ) (e : DeliveryError)
      → k + 1 ≡ k + 1 + left
      → (send_from timeout prefix respond left (k + 1) (some e)).error ≡ some e
  unfolding send_from
  last_left zero k e q = refl
  last_left (suc left) k e q = absurd (omega (arith, q))

  after_attempt-Ends :
      (left k : ℕ) (x : (ℕ × String) ⊎ DeliveryError)
      → result_of timeout prefix (respond k) ≡ x
      → ((o : Option DeliveryError)
          → Ends (k + 1) (k + 1 + left) (send_from timeout prefix respond left (k + 1) o))
      → Ends k
          (k + 1 + left)
          (after_attempt k x (λ e. send_from timeout prefix respond left (k + 1) (some e)))
  after_attempt-Ends left k (inl r) q ih = inl (record {
    index = k;
    from = omega arith;
    below = omega arith;
    first = λ j l u. absurd (omega arith);
    answer = r;
    accepted = q;
    result = refl;
  })
  after_attempt-Ends left k (inr e) q ih =
      step k (k + 1 + left) e (send_from timeout prefix respond left (k + 1) (some e)) q
        (ih (some e)) (last_left left k e)

  send_from-Ends :
      (left k : ℕ) (o : Option DeliveryError)
      → Ends k (k + left) (send_from timeout prefix respond left k o)
  unfolding send_from
  send_from-Ends zero k o = inr (record {
    all_fail = λ j l u. absurd (omega arith);
    failure = refl;
    made = omega arith;
    last = λ l. absurd (omega arith);
  })
  send_from-Ends (suc left) k o =
      subst (λ b. Ends k b (send_from timeout prefix respond (suc left) k o)) (omega arith)
        (after_attempt-Ends left k (result_of timeout prefix (respond k)) refl
          (send_from-Ends left (k + 1)))

  -- A request is sent until an attempt is accepted: either the result is that of the first accepted
  -- attempt, with its number, and every attempt before it failed; or all `retry_count` attempts failed,
  -- the result counts them all, and its error is the last attempt's.
  pub send_request-Ends :
      (retry_count : ℕ) → Ends 0 retry_count (send_request timeout prefix respond retry_count)
  unfolding send_request
  send_request-Ends retry_count =
      subst (λ b. Ends 0 b (send_from timeout prefix respond retry_count 0 none)) (omega arith)
        (send_from-Ends retry_count 0 none)
