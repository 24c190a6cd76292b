-- ===== src/Model/Dicts.antt =====
-- Python's dictionaries as the source writes and reads them: `d[key] = value`, and what a later
-- `d.get` gives.
use vanguard_runner.Base.{
  String, false, ◌==◌, none, some, ◌≡◌, refl, if◌then◌else◌, ap, eq_iff, eq_refl, arith,
}
use vanguard_runner.Model.Values.{
  Json, null, bool, num, str, obj, arr, Fields, end, field, get_field, truthy,
}

-- `d[key] = value`
abbrev pub set_field : String → Json → Fields → Fields
set_field k v end = field k v end
set_field k v (field j w d) = if j == k then field j v d else field j w (set_field k v d)

-- `d.get(key, default)`
abbrev pub get_or : Json → String → Fields → Json
get_or default k d = elim (get_field k d) [ none ↦ default | some v ↦ v ]

-- `d.get(key)`
abbrev pub get_json : String → Fields → Json
get_json k d = get_or null k d

-- `a or b`
abbrev pub or_json : Json → Json → Json
or_json a b = if truthy a then a else b

-- `if value is not None: d[key] = value`, for a key that the rest lacks
abbrev pub put_value : String → Json → Fields → Fields
put_value k null d = d
put_value k (bool b) d = field k (bool b) d
put_value k (num n) d = field k (num n) d
put_value k (str s) d = field k (str s) d
put_value k (arr xs) d = field k (arr xs) d
put_value k (obj o) d = field k (obj o) d

pub get_or_missing : (j : Json) (k : String) (d : Fields) → get_field k d ≡ none → get_or j k d ≡ j
get_or_missing j k d e = ap (λ o. elim o [ none ↦ j | some v ↦ v ]) e

get_field_past :
    (i k : String) (v : Json) (d : Fields)
    → (i == k) ≡ false
    → get_field k (field i v d) ≡ get_field k d
get_field_past i k v d h = ap (λ c. if c then some v else get_field k d) h

pub get_field-put_value :
    (i k : String) (j : Json) (d : Fields)
    → (i == k) ≡ false
    → get_field k (put_value i j d) ≡ get_field k d
get_field-put_value i k null d h = refl
get_field-put_value i k (bool b) d h = get_field_past i k (bool b) d h
get_field-put_value i k (num n) d h = get_field_past i k (num n) d h
get_field-put_value i k (str s) d h = get_field_past i k (str s) d h
get_field-put_value i k (arr xs) d h = get_field_past i k (arr xs) d h
get_field-put_value i k (obj o) d h = get_field_past i k (obj o) d h

get_json_here : (k : String) (v : Json) (d : Fields) → get_json k (field k v d) ≡ v
get_json_here k v d =
    ap (λ c. elim (if c then some v else get_field k d) [ none ↦ null | some w ↦ w ]) (eq_refl k)

pub get_json-put_value :
    (k : String) (j : Json) (d : Fields) → get_field k d ≡ none → get_json k (put_value k j d) ≡ j
get_json-put_value k null d e = get_or_missing null k d e
get_json-put_value k (bool b) d e = get_json_here k (bool b) d
get_json-put_value k (num n) d e = get_json_here k (num n) d
get_json-put_value k (str s) d e = get_json_here k (str s) d
get_json-put_value k (arr xs) d e = get_json_here k (arr xs) d
get_json-put_value k (obj o) d e = get_json_here k (obj o) d

pub get_field-set_field :
    (k : String) (v : Json) (d : Fields) → get_field k (set_field k v d) ≡ some v
get_field-set_field k v end = ground (arith, eq_refl k)
get_field-set_field k v (field j w d) = ground (arith, get_field-set_field k v d)

pub get_field-set_field_other :
    (k j : String) (v : Json) (d : Fields)
    → (j == k) ≡ false
    → get_field k (set_field j v d) ≡ get_field k d
get_field-set_field_other k j v end h = ground arith
get_field-set_field_other k j v (field i w d) h =
    ground (arith, eq_iff i j, eq_iff i k, eq_iff j k, get_field-set_field_other k j v d h)
