-- ===== src/Model/Post.antt =====
-- Postconditions of actions: `Q` where the action returns, `R` where it raises.
use vanguard_runner.Base.{String, Option, none, some, List, [], ◌∷◌}
use vanguard_runner.Model.Stores.{World, Outcome, return, raise, Exception}
use vanguard_runner.Model.Effects.{
  Action, gets, continue, ◌>>=◌, ◌>>◌, handle, try_except, next_fault, external, for_each,
}
use vanguard_runner.Model.Frame.{Preserves}

abbrev pub Post :
    {A : Type 0} → Outcome A × World → (A → World → Type 0) → (World → Type 0) → Type 0
Post (return a, w) Q R = Q a w
Post (raise e, w) Q R = R w

-- An action that returns, to a result and a world that satisfy `Q`.
abbrev pub Returns : {A : Type 0} → Outcome A × World → (A → World → Type 0) → Type 0
Returns o Q = Post o Q (λ w. ⊥)

module _ {A B : Type 0} (Q : A → World → Type 0) (S : B → World → Type 0) (R : World → Type 0) where
  continue-Post :
      (r : Outcome A) (f : A → Action B) (w : World)
      → Post (r, w) Q R
      → ((a : A) (w' : World) → Q a w' → Post (f a w') S R)
      → Post (continue r f w) S R
  continue-Post (return a) f w q k = k a w q
  continue-Post (raise e) f w q k = q

  pub Post-bind :
      (m : Action A) (f : A → Action B) (w : World)
      → Post (m w) Q R
      → ((a : A) (w' : World) → Q a w' → Post (f a w') S R)
      → Post ((m >>= f) w) S R
  Post-bind m f w q k = let (r, w') = m w in continue-Post r f w' q k

module _ {A : Type 0} (Q : A → World → Type 0) (T R : World → Type 0) where
  handle-Post :
      (r : Outcome A) (h : Exception → Action A) (w : World)
      → Post (r, w) Q T
      → ((e : Exception) (w' : World) → T w' → Post (h e w') Q R)
      → Post (handle r h w) Q R
  handle-Post (return a) h w q k = q
  handle-Post (raise e) h w q k = k e w q

  pub Post-try_except :
      (m : Action A) (h : Exception → Action A) (w : World)
      → Post (m w) Q T
      → ((e : Exception) (w' : World) → T w' → Post (h e w') Q R)
      → Post (try_except m h w) Q R
  Post-try_except m h w q k = let (r, w') = m w in handle-Post r h w' q k

module _ {A : Type 0} (Q S : A → World → Type 0) (T R : World → Type 0) where
  pub Post-weaken :
      (o : Outcome A × World)
      → Post o Q T
      → ((a : A) (w : World) → Q a w → S a w)
      → ((w : World) → T w → R w)
      → Post o S R
  Post-weaken (return a, w) q k l = k a w q
  Post-weaken (raise e, w) q k l = l w q

module _ (w : World) (Q : Unit {0} → World → Type 0) (R : World → Type 0) where
  next_fault-Post :
      (fs : List (Option String))
      → ((fs : List (Option String)) → Q tt (record w { faults = fs }))
      → ((fs : List (Option String)) → R (record w { faults = fs }))
      → Post (next_fault fs (record w { faults = fs })) Q R
  next_fault-Post [] k l = k []
  next_fault-Post (none ∷ rest) k l = k rest
  next_fault-Post (some s ∷ rest) k l = l rest

  -- A call of a store ends either way, and changes nothing but the schedule of faults.
  pub Post-external :
      ((fs : List (Option String)) → Q tt (record w { faults = fs }))
      → ((fs : List (Option String)) → R (record w { faults = fs }))
      → Post (external w) Q R
  unfolding external
  Post-external k l = next_fault-Post w.faults k l

module _ {A : Type 0} (P : World → Type 0) where
  outcome-Post : (o : Outcome A × World) → P o.1 → Post o (λ _ w. P w) P
  outcome-Post (return a, w) p = p
  outcome-Post (raise e, w) p = p

  pub Post-Preserves :
      (m : Action A) (w : World) → Preserves P m → P w → Post (m w) (λ _ w'. P w') P
  Post-Preserves m w k p = outcome-Post (m w) (k.ends w p)

module _ {X : Type 0} (P : List X → World → Type 0) (R : World → Type 0) where
  -- A loop, with an invariant that speaks of what is left.
  pub Post-for_each :
      (xs : List X) (body : X → Action Unit) (w : World)
      → P xs w
      → ((x : X) (rest : List X) (w' : World) → P (x ∷ rest) w' → Post (body x w') (λ _. P rest) R)
      → Post (for_each xs body w) (λ _. P []) R
  unfolding for_each
  Post-for_each [] body w p k = p
  Post-for_each (x ∷ xs) body w p k =
      Post-bind (λ _. P xs) (λ _. P []) R (body x) (λ _. for_each xs body) w (k x xs w p)
        (λ _ w' p'. Post-for_each xs body w' p' k)

-- A step that keeps `P`, where the rest of the block starts from `P` and may raise with `P`.
module _ {A B : Type 0} (P : World → Type 0) (S : B → World → Type 0) where
  pub Post-step :
      (m : Action A) (f : A → Action B) (w : World)
      → Preserves P m
      → P w
      → ((a : A) (w' : World) → P w' → Post (f a w') S P)
      → Post ((m >>= f) w) S P
  Post-step m f w keep p k = Post-bind (λ _. P) S P m f w (Post-Preserves P m w keep p) k

module _ {A : Type 0} (f : World → A) (w : World) (Q : A → World → Type 0)
    (R : World → Type 0) where
  -- A call of a store that reads it ends either way.
  pub Post-ask :
      ((fs : List (Option String)) → Q (f (record w { faults = fs })) (record w { faults = fs }))
      → ((fs : List (Option String)) → R (record w { faults = fs }))
      → Post ((external >> gets f) w) Q R
  Post-ask k l =
      Post-bind (λ _ w'. Q (f w') w') Q R external (λ _. gets f) w
        (Post-external w (λ _ w'. Q (f w') w') R k l) (λ _ w' q. q)
