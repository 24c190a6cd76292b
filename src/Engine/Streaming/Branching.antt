-- ===== src/Engine/Streaming/Branching.antt =====
-- The two executors' tests of the incoming paths side by side
-- (packages/engine/src/core/streaming_executor.py, packages/engine/workflow_engine.py).
use mathlib.Core.Path.{subst}
use vanguard_runner.Base.{
  String, Bool, true, false, Option, none, some, List, [], ◌∷◌, ◌≡◌, refl, sym, ap, if◌then◌else◌,
}
use vanguard_runner.Model.{Json, null, bool, num, str, arr, obj, Fields, end, get_field, truthy}
use vanguard_runner.Model.Dicts.{get_or}
use vanguard_runner.Engine.Services.{Node, Context, get_node_result, Services, node_map}
use vanguard_runner.Engine.Branches.{
  Check, active, inactive, crash, no_branch, or_check, check_of, check_ordinary, is_condition,
  matches, branch_text, check_condition, body_result, check_found_path, check_path, check_paths,
  check_preds, check_node,
}
use vanguard_runner.Engine.Streaming.{
  branch_of_body, extract_branch_value, stream_found, stream_paths, stream_preds, check_should_skip,
}

-- The second test decides as the first one does where the first decides.
abbrev Follows : Check → Check → Type 0
Follows active l = l ≡ active
Follows inactive l = l ≡ inactive
Follows (crash e) l = Unit

Follows-refl : (k : Check) → Follows k k
Follows-refl active = refl
Follows-refl inactive = refl
Follows-refl (crash e) = tt

or_check-Follows :
    (k l m n : Check) → Follows k l → Follows m n → Follows (or_check k m) (or_check l n)
or_check-Follows active l m n f g = ap (λ x. or_check x n) f
or_check-Follows inactive l m n f g = subst (λ x. Follows m (or_check x n)) (sym f) g
or_check-Follows (crash e) l m n f g = tt

module _ (text_of : Json → String) (p : String) (h : Option String) where
  branch-Follows :
      (o : Option Json) (d : Fields) (b : Fields)
      → get_field "result" b ≡ o
      → Follows
          (elim o [
            | none ↦ crash (no_branch p)
            | some v ↦ check_of (matches (branch_text (truthy v)) h)
          ])
          (check_of (matches (branch_of_body text_of (obj b) d) h))
  branch-Follows none d b e = tt
  branch-Follows (some v) d b e =
      rw (branch_of_body, e) (Follows-refl (check_of (matches (branch_text (truthy v)) h)))

  body-Follows :
      (j : Json) (d : Fields)
      → Follows (body_result p j h) (check_of (matches (branch_of_body text_of j d) h))
  body-Follows (obj b) d = branch-Follows (get_field "result" b) d b refl
  body-Follows null d = tt
  body-Follows (bool b) d = tt
  body-Follows (num n) d = tt
  body-Follows (str s) d = tt
  body-Follows (arr xs) d = tt

  condition-Follows :
      (j : Json)
      → Follows (check_condition p j h) (check_of (matches (extract_branch_value text_of j) h))
  condition-Follows (obj d) = body-Follows (get_or (obj end) "body" d) d
  condition-Follows null = tt
  condition-Follows (bool b) = tt
  condition-Follows (num n) = tt
  condition-Follows (str s) = tt
  condition-Follows (arr xs) = tt

module _ (text_of : Json → String) (s : Services) (c : Context) (id : String) where
  kind-Follows :
      (p : String) (b : Bool)
      → Follows
          (if b
            then check_condition p (get_node_result p c) (s.source_handle p id)
            else check_ordinary (get_node_result p c))
          (if b
            then check_of (
                matches (extract_branch_value text_of (get_node_result p c)) (s.source_handle p id))
            else check_ordinary (get_node_result p c))
  kind-Follows p true = condition-Follows text_of p (s.source_handle p id) (get_node_result p c)
  kind-Follows p false = Follows-refl (check_ordinary (get_node_result p c))

  found-Follows :
      (p : String) (o : Option Node)
      → Follows (check_found_path s c id p o) (stream_found text_of s c id p o)
  found-Follows p none = tt
  found-Follows p (some n) = kind-Follows p (is_condition n)

  paths-Follows :
      (ps : List String) → Follows (check_paths s c id ps) (stream_paths text_of s c id ps)
  paths-Follows [] = refl
  paths-Follows (p ∷ ps) =
      or_check-Follows (check_path s c id p) (stream_found text_of s c id p (node_map s.nodes p))
        (check_paths s c id ps) (stream_paths text_of s c id ps)
        (found-Follows p (node_map s.nodes p)) (paths-Follows ps)

  preds-Follows :
      (ps : List String) → Follows (check_preds s c id ps) (stream_preds text_of s c id ps)
  preds-Follows [] = refl
  preds-Follows (p ∷ ps) = paths-Follows (p ∷ ps)

  Follows-decided :
      (runs : Bool) (k l : Check) → Follows k l → k ≡ check_of runs → l ≡ check_of runs
  Follows-decided true k l f e = subst (λ x. Follows x l) e f
  Follows-decided false k l f e = subst (λ x. Follows x l) e f

  -- Wherever the executor decides that a node runs or is skipped, the streaming executor decides the
  -- same on the same context; where the executor raises, nothing is said.
  pub check_should_skip-check_node :
      (runs : Bool)
      → check_node s c id ≡ check_of runs
      → check_should_skip text_of s c id ≡ check_of runs
  check_should_skip-check_node runs e =
      Follows-decided runs (check_node s c id) (check_should_skip text_of s c id)
        (preds-Follows (s.predecessors id)) e
