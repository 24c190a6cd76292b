-- ===== src/Model/Frame.antt =====
-- What an action leaves true, whether it returns or raises: one rule for each way to build one.
use vanguard_runner.Base.{Bool, true, false, Option, none, some, List, [], ◌∷◌, String}
use vanguard_runner.Base.{if◌then◌else◌}
use vanguard_runner.Model.Stores.{World, Outcome, return, raise, Exception}
use vanguard_runner.Model.Effects.{
  Action, pure, throw, gets, continue, ◌>>=◌, handle, try_except, next_fault, external, for_each,
}

-- From every world with `P`, the action ends in a world with `P`.
pub record Preserves (P : World → Type 0) {A : Type 0} (m : Action A) : Type 0 where
  pub ends : (w : World) → P w → P (m w).1

module _ {P : World → Type 0} {A : Type 0} where
  pub Preserves-pure : (a : A) → Preserves P (pure a)
  Preserves-pure a = record { ends = λ w h. h }

  pub Preserves-throw : (e : Exception) → Preserves P (throw {A = A} e)
  Preserves-throw e = record { ends = λ w h. h }

  pub Preserves-gets : (f : World → A) → Preserves P (gets f)
  Preserves-gets f = record { ends = λ w h. h }

  pub Preserves-if :
      (b : Bool) (m n : Action A) → Preserves P m → Preserves P n → Preserves P (if b then m else n)
  Preserves-if true m n km kn = km
  Preserves-if false m n km kn = kn

  handle-Preserves :
      (r : Outcome A) (h : Exception → Action A)
      → ((e : Exception) → Preserves P (h e))
      → Preserves P (handle r h)
  handle-Preserves (return a) h kh = record { ends = λ w p. p }
  handle-Preserves (raise e) h kh = kh e

  pub Preserves-try_except :
      (m : Action A) (h : Exception → Action A)
      → Preserves P m
      → ((e : Exception) → Preserves P (h e))
      → Preserves P (try_except m h)
  Preserves-try_except m h km kh = record {
    ends = λ w p. let (r, w') = m w in (handle-Preserves r h kh).ends w' (km.ends w p);
  }

module _ {P : World → Type 0} {A B : Type 0} where
  continue-Preserves :
      (r : Outcome A) (f : A → Action B)
      → ((a : A) → Preserves P (f a))
      → Preserves P (continue r f)
  continue-Preserves (return a) f kf = kf a
  continue-Preserves (raise e) f kf = record { ends = λ w p. p }

  pub Preserves-bind :
      (m : Action A) (f : A → Action B)
      → Preserves P m
      → ((a : A) → Preserves P (f a))
      → Preserves P (m >>= f)
  Preserves-bind m f km kf = record {
    ends = λ w p. let (r, w') = m w in (continue-Preserves r f kf).ends w' (km.ends w p);
  }

-- A property that does not read the faults survives a call that may raise.
abbrev pub IgnoresFaults : (World → Type 0) → Type 0
IgnoresFaults P = (w : World) (fs : List (Option String)) → P w → P (record w { faults = fs })

module _ (P : World → Type 0) (ignores : IgnoresFaults P) where
  next_fault-Preserves : (fs : List (Option String)) (w : World) → P w → P (next_fault fs w).1
  next_fault-Preserves [] w p = p
  next_fault-Preserves (none ∷ rest) w p = ignores w rest p
  next_fault-Preserves (some s ∷ rest) w p = ignores w rest p

  pub Preserves-external : Preserves P external
  unfolding external
  Preserves-external = record { ends = λ w. next_fault-Preserves w.faults w }

module _ {P : World → Type 0} {X : Type 0} where
  pub Preserves-for_each :
      (xs : List X) (body : X → Action Unit)
      → ((x : X) → Preserves P (body x))
      → Preserves P (for_each xs body)
  unfolding for_each
  Preserves-for_each [] body k = Preserves-pure tt
  Preserves-for_each (x ∷ xs) body k =
      Preserves-bind (body x) (λ _. for_each xs body) (k x) (λ _. Preserves-for_each xs body k)

pub ruleset frame_rules = (
  Preserves-pure, Preserves-throw, Preserves-gets, Preserves-if, Preserves-try_except,
  Preserves-bind, Preserves-for_each,
)
