-- ===== src/Base/Find.antt =====
-- The first entry that passes a test, and updates of every entry that passes it.
use mathlib.Core.Bool.{Bool}
use mathlib.Core.Option.{Option, none, some}
use mathlib.Core.List.{List, [], ◌∷◌}
use vanguard_runner.Base.Tests.{if◌then◌else◌}

module _ {ℓ} {A : Type ℓ} where
  abbrev pub find : (A → Bool) → List A → Option A
  find p [] = none
  find p (x ∷ xs) = if p x then some x else find p xs

  abbrev pub modify_where : (A → Bool) → (A → A) → List A → List A
  modify_where p f [] = []
  modify_where p f (x ∷ xs) = (if p x then f x else x) ∷ modify_where p f xs
