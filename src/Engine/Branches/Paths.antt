-- ===== src/Engine/Branches/Paths.antt =====
-- The test of a node by its incoming paths taken together (packages/engine/workflow_engine.py).
use vanguard_runner.Base.{
  String, Bool, true, false, List, [], ◌∷◌, any, ◌||◌, ◌≡◌, refl, sym, ap, ◌∙◌, arith,
  if◌then◌else◌,
}
use vanguard_runner.Engine.Services.{Context, Services}
use vanguard_runner.Engine.Branches.{
  Check, active, inactive, crash, check_of, check_path, check_paths, check_preds, check_node,
  or_check,
}

abbrev pub is_active : Check → Bool
is_active active = true
is_active inactive = false
is_active (crash e) = false

abbrev pub is_root : List String → Bool
is_root [] = true
is_root (p ∷ ps) = false

is_active-check_of : (b : Bool) → is_active (check_of b) ≡ b
is_active-check_of true = refl
is_active-check_of false = refl

-- a decided loop is as active as any of its paths
or_check-any :
    (k rest : Check) (runs later : Bool)
    → or_check k rest ≡ check_of runs
    → (rest ≡ check_of runs → runs ≡ later)
    → runs ≡ (if is_active k then true else later)
or_check-any active rest runs later e f = sym (is_active-check_of runs) ∙ ap is_active (sym e)
or_check-any inactive rest runs later e f = f e
or_check-any (crash x) rest true later e f = absurd (ground (arith, e))
or_check-any (crash x) rest false later e f = absurd (ground (arith, e))

module _ (s : Services) (c : Context) (id : String) where
  check_paths-any :
      (ps : List String) (runs : Bool)
      → check_paths s c id ps ≡ check_of runs
      → runs ≡ any (λ p. is_active (check_path s c id p)) ps
  check_paths-any [] runs e = sym (is_active-check_of runs) ∙ ap is_active (sym e)
  check_paths-any (p ∷ ps) runs e =
      or_check-any (check_path s c id p) (check_paths s c id ps) runs _ e (check_paths-any ps runs)

  check_preds-any :
      (ps : List String) (runs : Bool)
      → check_preds s c id ps ≡ check_of runs
      → runs ≡ (is_root ps || any (λ p. is_active (check_path s c id p)) ps)
  check_preds-any [] runs e = sym (is_active-check_of runs) ∙ ap is_active (sym e)
  check_preds-any (p ∷ ps) runs e = check_paths-any (p ∷ ps) runs e

  -- Where the test of a node does not raise, the node runs exactly if it has no predecessor or any of
  -- its incoming paths is active, whatever the order of its predecessors.
  pub check_node-any :
      (runs : Bool)
      → check_node s c id ≡ check_of runs
      → runs ≡ (
          is_root (s.predecessors id)
          || any (λ p. is_active (check_path s c id p)) (s.predecessors id))
  check_node-any runs e = check_preds-any (s.predecessors id) runs e
