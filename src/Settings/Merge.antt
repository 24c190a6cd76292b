-- ===== src/Settings/Merge.antt =====
-- `_deep_merge`, `_load_yaml_file` and `load_application_config`
-- (packages/shared/settings/runtime.py).
use mathlib.Core.Path.{subst}
use vanguard_runner.Base.{
  String, Bool, false, ◌==◌, Option, none, some, if◌then◌else◌, ◌≡◌, refl, sym, ap, ◌∙◌, Bool-cases,
  inl, inr, eq_iff,
}
use vanguard_runner.Model.{
  Json, null, bool, num, str, arr, obj, Fields, end, field, get_field, truthy,
}
use vanguard_runner.Model.Dicts.{set_field, get_field-set_field, get_field-set_field_other}

-- a value that is a dictionary
abbrev pub dict_of : Option Json → Option Fields
dict_of none = none
dict_of (some (obj m)) = some m
dict_of (some null) = none
dict_of (some (bool b)) = none
dict_of (some (num n)) = none
dict_of (some (str s)) = none
dict_of (some (arr xs)) = none

abbrev mutual
  pub deep_merge : Fields → Fields → Fields
  deep_merge base end = base
  deep_merge base (field k v d) = deep_merge (set_field k (merge_value v (get_field k base)) base) d

  -- the value of the override, and what stands under its key
  pub merge_value : Json → Option Json → Json
  merge_value (obj o) old = elim (dict_of old) [ none ↦ obj o | some m ↦ obj (deep_merge m o) ]
  merge_value null old = null
  merge_value (bool b) old = bool b
  merge_value (num n) old = num n
  merge_value (str s) old = str s
  merge_value (arr xs) old = arr xs

-- the ways in which a configuration file ends the start
pub data ConfigError : Type 0 where
  missing_file : String → ConfigError
  unparsable : String → ConfigError
  unreadable : String → ConfigError
  not_an_object : String → ConfigError
  missing_setting : String → ConfigError
  not_a_section : String → ConfigError
  not_a_number : ConfigError

pub data Result {ℓ} (A : Type ℓ) : Type ℓ where
  ok : A → Result A
  error : ConfigError → Result A

-- what the file system and the YAML parser give for a path
pub data File : Type 0 where
  absent : File
  bad_yaml : File
  os_error : File
  parsed : Json → File

abbrev pub as_object : String → Json → Result Fields
as_object path (obj d) = ok d
as_object path null = error (not_an_object path)
as_object path (bool b) = error (not_an_object path)
as_object path (num n) = error (not_an_object path)
as_object path (str s) = error (not_an_object path)
as_object path (arr xs) = error (not_an_object path)

abbrev pub load_yaml_file : String → Bool → File → Result Fields
load_yaml_file path required absent = if required then error (missing_file path) else ok end
load_yaml_file path required bad_yaml = error (unparsable path)
load_yaml_file path required os_error = error (unreadable path)
load_yaml_file path required (parsed j) = as_object path (if truthy j then j else obj end)

abbrev pub merge_files : Result Fields → Result Fields → Result Fields
merge_files (error e) local = error e
merge_files (ok base) (error e) = error e
merge_files (ok base) (ok local) = ok (deep_merge base local)

abbrev pub load_application_config : File → File → Result Fields
load_application_config base local =
    merge_files (load_yaml_file "application.yml" false base)
      (load_yaml_file "application_local.yml" false local)

-- no key stands in a dictionary twice
abbrev pub UniqueKeys : Fields → Type 0
UniqueKeys end = Unit
UniqueKeys (field k v d) = (get_field k d ≡ none) × UniqueKeys d

-- the value of the merge from the two values under a key
abbrev pub either : Option Json → Option Json → Option Json
either none old = old
either (some (obj o)) none = some (obj o)
either (some (obj o)) (some (obj m)) = some (obj (deep_merge m o))
either (some (obj o)) (some null) = some (obj o)
either (some (obj o)) (some (bool b)) = some (obj o)
either (some (obj o)) (some (num n)) = some (obj o)
either (some (obj o)) (some (str s)) = some (obj o)
either (some (obj o)) (some (arr xs)) = some (obj o)
either (some null) old = some null
either (some (bool b)) old = some (bool b)
either (some (num n)) old = some (num n)
either (some (str s)) old = some (str s)
either (some (arr xs)) old = some (arr xs)

either-merge_value : (v : Json) (old : Option Json) → either (some v) old ≡ some (merge_value v old)
either-merge_value (obj o) none = refl
either-merge_value (obj o) (some (obj m)) = refl
either-merge_value (obj o) (some null) = refl
either-merge_value (obj o) (some (bool b)) = refl
either-merge_value (obj o) (some (num n)) = refl
either-merge_value (obj o) (some (str s)) = refl
either-merge_value (obj o) (some (arr xs)) = refl
either-merge_value null old = refl
either-merge_value (bool b) old = refl
either-merge_value (num n) old = refl
either-merge_value (str s) old = refl
either-merge_value (arr xs) old = refl

-- Under every key, the merge of two dictionaries has the base's value where the override lacks the
-- key, the merge of both values where both are dictionaries, and else the override's value.
pub get_field-deep_merge :
    (k : String) (base o : Fields)
    → UniqueKeys o
    → get_field k (deep_merge base o) ≡ either (get_field k o) (get_field k base)
get_field-deep_merge k base end h = refl
get_field-deep_merge k base (field j v d) h =
    let put = set_field j (merge_value v (get_field j base)) base in
    let rest = get_field-deep_merge k put d h.1 in
    elim (Bool-cases (j == k)) [
      | inl e ↦
          let q : j ≡ k = (eq_iff j k).0 e in
          let gone : get_field k d ≡ none = ap (λ i. get_field i d) (sym q) ∙ h.0 in
          let here : get_field k put ≡ some (merge_value v (get_field k base)) =
            subst (λ i. get_field i put ≡ some (merge_value v (get_field i base))) q
              (get_field-set_field j (merge_value v (get_field j base)) base) in
          rest
          ∙ (ap (λ x. either x (get_field k put)) gone
              ∙ (here
                  ∙ (sym (either-merge_value v (get_field k base))
                      ∙ ap (λ b. either (if b then some v else get_field k d) (get_field k base))
                          (sym e))))
      | inr e ↦
          rest
          ∙ (ap (either (get_field k d))
                (get_field-set_field_other k j (merge_value v (get_field j base)) base e)
              ∙ ap (λ b. either (if b then some v else get_field k d) (get_field k base)) (sym e))
    ]
