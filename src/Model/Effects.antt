-- ===== src/Model/Effects.antt =====
-- Actions on the stores. What was written before an exception stays written, so the world comes
-- back beside the exception too.
use vanguard_runner.Base.{String, Option, none, some, List, [], ◌∷◌}
use vanguard_runner.Model.Statuses.{Message, text}
use vanguard_runner.Model.Stores.{
  World, Outcome, return, raise, Exception, value_error, runtime_error, fault,
}

abbrev pub Action : Type 0 → Type 0
Action A = World → Outcome A × World

module _ {A : Type 0} where
  abbrev pub pure : A → Action A
  pure a w = (return a, w)

  abbrev pub throw : Exception → Action A
  throw e w = (raise e, w)

  abbrev pub gets : (World → A) → Action A
  gets f w = (return (f w), w)

abbrev pub modify : (World → World) → Action Unit
modify f w = (return tt, f w)

module _ {A B : Type 0} where
  abbrev pub continue : Outcome A → (A → Action B) → Action B
  continue (return a) f w = f a w
  continue (raise e) f w = (raise e, w)

  infixl 5 ◌>>=◌
  abbrev pub ◌>>=◌ : Action A → (A → Action B) → Action B
  ◌>>=◌ m f w = let (r, w') = m w in continue r f w'

infixl 5 ◌>>◌
abbrev pub ◌>>◌ : {B : Type 0} → Action Unit → Action B → Action B
m >> k = m >>= λ _. k

module _ {A : Type 0} where
  abbrev pub handle : Outcome A → (Exception → Action A) → Action A
  handle (return a) h w = (return a, w)
  handle (raise e) h w = h e w

  -- `try: m` with `except Exception as e: h(e)`
  abbrev pub try_except : Action A → (Exception → Action A) → Action A
  try_except m h w = let (r, w') = m w in handle r h w'

-- `str(e)`
abbrev pub message_of : Exception → Message
message_of (value_error m) = m
message_of (runtime_error m) = m
message_of (fault s) = text s

abbrev pub next_fault : List (Option String) → Action Unit
next_fault [] w = (return tt, w)
next_fault (none ∷ rest) w = (return tt, record w { faults = rest })
next_fault (some s ∷ rest) w = (raise (fault s), record w { faults = rest })

-- One call of a store or broker, which may raise.
unfoldable pub external : Action Unit
external w = next_fault w.faults w

-- `for x in xs: body(x)`
module _ {X : Type 0} where
  unfoldable pub for_each : List X → (X → Action Unit) → Action Unit
  for_each [] body = pure tt
  for_each (x ∷ xs) body = do body x; for_each xs body
