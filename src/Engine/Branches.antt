-- ===== src/Engine/Branches.antt =====
-- The test that starts a node in `WorkflowExecutor.execute` (packages/engine/workflow_engine.py): a
-- node runs when it has no predecessor or at least one incoming path is active.
pub mod Paths
use vanguard_runner.Base.{
  String, Bool, true, false, ◌==◌, Option, none, some, List, [], ◌∷◌, if◌then◌else◌,
}
use vanguard_runner.Model.{Json, null, bool, num, str, arr, obj, end, get_field, truthy}
use vanguard_runner.Model.Dicts.{get_or}
use vanguard_runner.Engine.Services.{Node, Context, get_node_result, Services, node_map}

-- What leaves `execute` as an exception: `node_map[id]` without the node, and the two ValueErrors
-- about the result of a condition node.
pub data Crash : Type 0 where
  missing_node : String → Crash
  not_a_response : String → Crash
  no_branch : String → Crash

pub data Check : Type 0 where
  active : Check
  inactive : Check
  crash : Crash → Check

abbrev pub branch_text : Bool → String
branch_text true = "true"
branch_text false = "false"

abbrev pub matches : String → Option String → Bool
matches branch none = false
matches branch (some h) = branch == h

abbrev pub check_of : Bool → Check
check_of true = active
check_of false = inactive

-- `body = pred_result.get("body", {})` and `bool(body.get("result"))`
abbrev pub body_result : String → Json → Option String → Check
body_result p (obj b) h = elim (get_field "result" b) [
  | none ↦ crash (no_branch p)
  | some v ↦ check_of (matches (branch_text (truthy v)) h)
]
body_result p null h = crash (no_branch p)
body_result p (bool b) h = crash (no_branch p)
body_result p (num n) h = crash (no_branch p)
body_result p (str s) h = crash (no_branch p)
body_result p (arr xs) h = crash (no_branch p)

abbrev pub check_condition : String → Json → Option String → Check
check_condition p (obj d) h = body_result p (get_or (obj end) "body" d) h
check_condition p null h = crash (not_a_response p)
check_condition p (bool b) h = crash (not_a_response p)
check_condition p (num n) h = crash (not_a_response p)
check_condition p (str s) h = crash (not_a_response p)
check_condition p (arr xs) h = crash (not_a_response p)

-- `pred_result is not None`
abbrev pub check_ordinary : Json → Check
check_ordinary null = inactive
check_ordinary (bool b) = active
check_ordinary (num n) = active
check_ordinary (str s) = active
check_ordinary (arr xs) = active
check_ordinary (obj d) = active

abbrev pub is_condition : Node → Bool
is_condition p = p.type == "condition"

abbrev pub check_found_path : Services → Context → String → String → Option Node → Check
check_found_path s c id p none = crash (missing_node p)
check_found_path s c id p (some n) =
    if is_condition n
    then check_condition p (get_node_result p c) (s.source_handle p id)
    else check_ordinary (get_node_result p c)

abbrev pub check_path : Services → Context → String → String → Check
check_path s c id p = check_found_path s c id p (node_map s.nodes p)

-- the loop, which breaks at the first active path
abbrev pub or_check : Check → Check → Check
or_check active rest = active
or_check inactive rest = rest
or_check (crash e) rest = crash e

abbrev pub check_paths : Services → Context → String → List String → Check
check_paths s c id [] = inactive
check_paths s c id (p ∷ ps) = or_check (check_path s c id p) (check_paths s c id ps)

-- `active` is a node that runs, `inactive` one that is skipped.
abbrev pub check_preds : Services → Context → String → List String → Check
check_preds s c id [] = active
check_preds s c id (p ∷ ps) = check_paths s c id (p ∷ ps)

abbrev pub check_node : Services → Context → String → Check
check_node s c id = check_preds s c id (s.predecessors id)
