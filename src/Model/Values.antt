-- ===== src/Model/Values.antt =====
-- JSON values, and the `dict.get` of the source.
use vanguard_runner.Base.{
  ℕ, String, Bool, true, false, not, ◌==◌, nat_eq, Option, none, some, if◌then◌else◌,
}

mutual
  pub data Json : Type 0 where
    null : Json
    bool : Bool → Json
    num : ℕ → Json
    str : String → Json
    arr : Items → Json
    obj : Fields → Json

  pub data Items : Type 0 where
    nil : Items
    cons : Json → Items → Items

  pub data Fields : Type 0 where
    end : Fields
    field : String → Json → Fields → Fields

-- `d.get(key)`, and `key in d` by its result
abbrev pub get_field : String → Fields → Option Json
get_field k end = none
get_field k (field j v d) = if j == k then some v else get_field k d

abbrev pub has_field : String → Fields → Bool
has_field k d = elim (get_field k d) [ none ↦ false | some _ ↦ true ]

-- Python's truth value
abbrev pub truthy : Json → Bool
truthy null = false
truthy (bool b) = b
truthy (num n) = not (nat_eq n 0)
truthy (str s) = not (s == "")
truthy (arr nil) = false
truthy (arr (cons x xs)) = true
truthy (obj end) = false
truthy (obj (field k v d)) = true
