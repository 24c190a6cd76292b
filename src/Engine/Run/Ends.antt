-- ===== src/Engine/Run/Ends.antt =====
-- How an execution ends, as a predicate on its result and context or on what it raised, and what
-- `execute` raises about the branches (packages/engine/workflow_engine.py).
use vanguard_runner.Base.{
  String, Bool, true, false, arith, Option, none, some, List, [], ◌∷◌, ◌≡◌, refl, if◌then◌else◌,
}
use vanguard_runner.Model.{Json, null, bool, num, str, arr, obj, Fields, end, get_field, truthy}
use vanguard_runner.Model.Dicts.{get_or}
use vanguard_runner.Engine.Steps.{success, failed, StepResult, ExecutionResult}
use vanguard_runner.Engine.Services.{Node, Context, Services, node_map, get_node_result}
use vanguard_runner.Engine.Branches.{
  Check, Crash, missing_node, not_a_response, no_branch, active, inactive, crash, check_node,
  check_path, check_paths, check_preds, check_condition, check_found_path, check_ordinary, check_of,
  matches, branch_text, body_result, or_check, is_condition,
}
use vanguard_runner.Engine.Run.{
  Outcome, finished, crashed, with_node, with_check, with_end, NodeEnd, passed, broke,
}
use vanguard_runner.Engine.Run.Nodes.{EndsWith}

-- A response whose body holds a branch.
abbrev pub HasBranch : Json → Type 0
HasBranch j =
    (d : Fields) × ((b : Fields) × ((v : Json) × ((j ≡ obj d)
          × ((get_or (obj end) "body" d ≡ obj b) × (get_field "result" b ≡ some v)))))

-- A condition node of the workflow whose result, in a context, is no response with a branch.
abbrev pub NoBranch : Services → Context → String → Type 0
NoBranch s c id =
    ((n : Node) × ((node_map s.nodes id ≡ some n) × (is_condition n ≡ true)))
    × (¬ (HasBranch (get_node_result id c)))

-- What `execute` raises, in a context: a node is missing, or a condition node has no branch.
abbrev pub Blames : Services → Context → Crash → Type 0
Blames s c (missing_node id) = node_map s.nodes id ≡ none
Blames s c (not_a_response id) = NoBranch s c id
Blames s c (no_branch id) = NoBranch s c id

abbrev pub Excused : (Crash → Type 0) → Check → Type 0
Excused Q active = Unit
Excused Q inactive = Unit
Excused Q (crash e) = Q e

pub Excused-map :
    (k : Check) (Q Q2 : Crash → Type 0) → ((e : Crash) → Q e → Q2 e) → Excused Q k → Excused Q2 k
Excused-map active Q Q2 f h = tt
Excused-map inactive Q Q2 f h = tt
Excused-map (crash e) Q Q2 f h = f e h

abbrev pub Ends :
    (ExecutionResult → Context → Type 0)
    → (Crash → ExecutionResult → Context → Type 0)
    → Outcome
    → Type 0
Ends P Q (finished r c) = P r c
Ends P Q (crashed e r c) = Q e r c

pub Ends-weaken :
    (P P2 : ExecutionResult → Context → Type 0) (Q Q2 : Crash → ExecutionResult → Context → Type 0)
    (o : Outcome)
    → ((r : ExecutionResult) (c : Context) → P r c → P2 r c)
    → ((e : Crash) (r : ExecutionResult) (c : Context) → Q e r c → Q2 e r c)
    → Ends P Q o
    → Ends P2 Q2 o
Ends-weaken P P2 Q Q2 (finished r c) f g h = f r c h
Ends-weaken P P2 Q Q2 (crashed e r c) f g h = g e r c h

module _ (P : ExecutionResult → Context → Type 0)
    (Q : Crash → ExecutionResult → Context → Type 0) where
  pub with_node-Ends :
      (o : Option Node) (id : String) (r : ExecutionResult) (c : Context) (go_on : Node → Outcome)
      → (o ≡ none → Q (missing_node id) r c)
      → ((n : Node) → o ≡ some n → Ends P Q (go_on n))
      → Ends P Q (with_node o id r c go_on)
  with_node-Ends none id r c go_on f g = f refl
  with_node-Ends (some n) id r c go_on f g = g n refl

  pub with_check-Ends :
      (k : Check) (n : Node) (r : ExecutionResult) (c : Context) (skip run : Node → Outcome)
      → Excused (λ e. Q e r c) k
      → (k ≡ inactive → Ends P Q (skip n))
      → (k ≡ active → Ends P Q (run n))
      → Ends P Q (with_check k n r c skip run)
  with_check-Ends active n r c skip run f g h = h refl
  with_check-Ends inactive n r c skip run f g h = g refl
  with_check-Ends (crash e) n r c skip run f g h = f

  pub with_end-Ends :
      (node : Node) (x : NodeEnd) (go_on fail : StepResult → Context → Outcome)
      → EndsWith node x
      → ((step : StepResult) (c : Context)
          → x ≡ passed step c
          → step.node_id ≡ node.id
          → step.status ≡ success
          → Ends P Q (go_on step c))
      → ((step : StepResult) (c : Context)
          → x ≡ broke step c
          → step.node_id ≡ node.id
          → step.status ≡ failed
          → Ends P Q (fail step c))
      → Ends P Q (with_end x go_on fail)
  with_end-Ends node (passed step c) go_on fail w f g = f step c refl w.0 w.1
  with_end-Ends node (broke step c) go_on fail w f g = g step c refl w.0 w.1

check_of-Excused : (Q : Crash → Type 0) (b : Bool) → Excused Q (check_of b)
check_of-Excused Q true = tt
check_of-Excused Q false = tt

check_ordinary-Excused : (Q : Crash → Type 0) (j : Json) → Excused Q (check_ordinary j)
check_ordinary-Excused Q null = tt
check_ordinary-Excused Q (bool b) = tt
check_ordinary-Excused Q (num n) = tt
check_ordinary-Excused Q (str s) = tt
check_ordinary-Excused Q (arr xs) = tt
check_ordinary-Excused Q (obj d) = tt

-- what `check_condition` raises, for a response that has no branch
module _ (Q : Crash → Type 0) (p : String) (h : Option String) where
  branch-Excused :
      (d b : Fields) (o : Option Json)
      → get_or (obj end) "body" d ≡ obj b
      → get_field "result" b ≡ o
      → (¬ (HasBranch (obj d)) → Q (no_branch p))
      → Excused Q (elim o [
        | none ↦ crash (no_branch p)
        | some v ↦ check_of (matches (branch_text (truthy v)) h)
      ])
  branch-Excused d b none e k g = g (λ (d2, (b2, (v, (x, (y, z))))). ground (arith, e, k, x, y, z))
  branch-Excused d b (some v) e k g = check_of-Excused Q (matches (branch_text (truthy v)) h)

  body_result-Excused :
      (d : Fields) (j : Json)
      → get_or (obj end) "body" d ≡ j
      → (¬ (HasBranch (obj d)) → Q (no_branch p))
      → Excused Q (body_result p j h)
  body_result-Excused d (obj b) e g = branch-Excused d b (get_field "result" b) e refl g
  body_result-Excused d null e g = g (λ (d2, (b2, (v, (x, (y, z))))). ground (arith, e, x, y))
  body_result-Excused d (bool b) e g = g (λ (d2, (b2, (v, (x, (y, z))))). ground (arith, e, x, y))
  body_result-Excused d (num n) e g = g (λ (d2, (b2, (v, (x, (y, z))))). ground (arith, e, x, y))
  body_result-Excused d (str s) e g = g (λ (d2, (b2, (v, (x, (y, z))))). ground (arith, e, x, y))
  body_result-Excused d (arr xs) e g = g (λ (d2, (b2, (v, (x, (y, z))))). ground (arith, e, x, y))

  check_condition-Excused :
      (j : Json)
      → (¬ (HasBranch j) → Q (not_a_response p))
      → (¬ (HasBranch j) → Q (no_branch p))
      → Excused Q (check_condition p j h)
  check_condition-Excused (obj d) f g = body_result-Excused d (get_or (obj end) "body" d) refl g
  check_condition-Excused null f g = f (λ (d, (b, (v, (x, y)))). ground (arith, x))
  check_condition-Excused (bool b) f g = f (λ (d, (c, (v, (x, y)))). ground (arith, x))
  check_condition-Excused (num n) f g = f (λ (d, (b, (v, (x, y)))). ground (arith, x))
  check_condition-Excused (str s) f g = f (λ (d, (b, (v, (x, y)))). ground (arith, x))
  check_condition-Excused (arr xs) f g = f (λ (d, (b, (v, (x, y)))). ground (arith, x))

or_check-Excused :
    (Q : Crash → Type 0) (k l : Check) → Excused Q k → Excused Q l → Excused Q (or_check k l)
or_check-Excused Q active l f g = tt
or_check-Excused Q inactive l f g = g
or_check-Excused Q (crash e) l f g = f

module _ (s : Services) (c : Context) (id : String) where
  check_kind-Excused :
      (p : String) (n : Node) (b : Bool)
      → node_map s.nodes p ≡ some n
      → is_condition n ≡ b
      → Excused (Blames s c) (
          if b
          then check_condition p (get_node_result p c) (s.source_handle p id)
          else check_ordinary (get_node_result p c))
  check_kind-Excused p n true e k =
      check_condition-Excused (Blames s c) p (s.source_handle p id) (get_node_result p c)
        (λ h. ((n, (e, k)), h)) (λ h. ((n, (e, k)), h))
  check_kind-Excused p n false e k = check_ordinary-Excused (Blames s c) (get_node_result p c)

  check_found :
      (p : String) (o : Option Node)
      → node_map s.nodes p ≡ o
      → Excused (Blames s c) (check_found_path s c id p o)
  check_found p none e = e
  check_found p (some n) e = check_kind-Excused p n (is_condition n) e refl

  check_path-Excused : (p : String) → Excused (Blames s c) (check_path s c id p)
  check_path-Excused p = check_found p (node_map s.nodes p) refl

  check_paths-Excused : (ps : List String) → Excused (Blames s c) (check_paths s c id ps)
  check_paths-Excused [] = tt
  check_paths-Excused (p ∷ ps) =
      or_check-Excused (Blames s c) (check_path s c id p) (check_paths s c id ps)
        (check_path-Excused p) (check_paths-Excused ps)

  check_preds-Excused : (ps : List String) → Excused (Blames s c) (check_preds s c id ps)
  check_preds-Excused [] = tt
  check_preds-Excused (p ∷ ps) = check_paths-Excused (p ∷ ps)

  pub check_node-Excused : Excused (Blames s c) (check_node s c id)
  check_node-Excused = check_preds-Excused (s.predecessors id)
