-- ===== src/Worker/Outputs.antt =====
-- What `WorkflowExecutor.execute_workflow` (apps/worker/executors/workflow_executor.py) reads out of
-- the output of a step, and the name that it gives the step. `lower` is Python's `str.lower`.
use vanguard_runner.Base.{
  String, Bool, true, false, not, ◌==◌, Option, none, some, List, [], ◌∷◌, any, if◌then◌else◌,
}
use vanguard_runner.Model.{
  Json, null, bool, num, str, arr, obj, Items, nil, cons, Fields, end, field, truthy,
}
use vanguard_runner.Model.Dicts.{get_json, get_or, or_json}

-- `del d[key]`
abbrev pub del_field : String → Fields → Fields
del_field k end = end
del_field k (field j v d) = if j == k then d else field j v (del_field k d)

-- `step.output if step.output else {}`, without its variables
abbrev pub without_variables : Json → Json
without_variables (obj d) = obj (del_field "variables" d)
without_variables null = null
without_variables (bool b) = bool b
without_variables (num n) = num n
without_variables (str s) = str s
without_variables (arr xs) = arr xs

abbrev pub step_output : Json → Json
step_output j = if truthy j then without_variables j else obj end

-- the assertions as a list
abbrev pub as_list : Json → Json
as_list (arr xs) = arr xs
as_list null = arr nil
as_list (bool b) = if b then arr (cons (bool b) nil) else arr nil
as_list (num n) = if truthy (num n) then arr (cons (num n) nil) else arr nil
as_list (str s) = if truthy (str s) then arr (cons (str s) nil) else arr nil
as_list (obj d) = if truthy (obj d) then arr (cons (obj d) nil) else arr nil

-- the fields of the metadata that make up the request of a processor's type
abbrev pub request_fields : String → List String
request_fields t =
    if t == "dubbo"
    then "application_name" ∷ "interface_name" ∷ "method_name" ∷ "params" ∷ "param_types"
      ∷ "site_tenant" ∷ []
    else if t == "rocketmq"
    then "topic" ∷ "tag" ∷ "key" ∷ "message_body" ∷ []
    else if t == "mysql"
    then "operation" ∷ "affected_rows" ∷ "sql" ∷ "params" ∷ "executed_sql" ∷ []
    else if t == "mongodb"
    then "operation" ∷ "collection" ∷ []
    else if t == "redis"
    then "operation" ∷ "key" ∷ []
    else []

abbrev pub keep_fields : (String → Bool) → Fields → Fields
keep_fields p end = end
keep_fields p (field k v d) = let rest = keep_fields p d in if p k then field k v rest else rest

abbrev pub request_metadata : List String → Fields → Fields
request_metadata [] d = keep_fields (λ k. not (k == "headers")) d
request_metadata (f ∷ fs) d = keep_fields (λ k. any (λ g. g == k) (f ∷ fs)) d

-- What the loop reads out of a step's output; `none` is metadata that is no dictionary, on which
-- the source raises.
pub record Extracted : Type 0 where
  pub request_data : Json
  pub response_data : Json
  pub assertion_logs : Json
  pub extract_vars : Json

abbrev pub is_http : String → Bool
is_http t = if t == "http" then true else t == "http_request"

abbrev pub http_request : Json → Fields → Option Json
http_request (obj m) d = some (or_json (get_json "request" m) (get_or (obj end) "request" d))
http_request null d = none
http_request (bool b) d = none
http_request (num n) d = none
http_request (str s) d = none
http_request (arr xs) d = none

abbrev pub other_request : String → Json → Option Json
other_request t (obj end) = some (obj end)
other_request t (obj (field k v m)) = some (obj (request_metadata (request_fields t) (field k v m)))
other_request t null = some (obj end)
other_request t (bool b) = if b then none else some (obj end)
other_request t (num n) = if truthy (num n) then none else some (obj end)
other_request t (str s) = if truthy (str s) then none else some (obj end)
other_request t (arr nil) = some (obj end)
other_request t (arr (cons x xs)) = none

-- `node.get('stepName') or node.get('data', {}).get('label') or step.node_id`; `none` is a node or
-- its data that is no dictionary
abbrev pub node_label : Json → Option Json
node_label (obj d) = some (get_json "label" d)
node_label null = none
node_label (bool b) = none
node_label (num n) = none
node_label (str s) = none
node_label (arr xs) = none

abbrev pub name_of : String → Fields → Option Json
name_of id node =
    if truthy (get_json "stepName" node)
    then some (get_json "stepName" node)
    else elim (node_label (get_or (obj end) "data" node)) [
      | none ↦ none
      | some label ↦ some (or_json label (str id))
    ]

abbrev pub is_text : String → Json → Bool
is_text id (str s) = s == id
is_text id null = false
is_text id (bool b) = false
is_text id (num n) = false
is_text id (arr xs) = false
is_text id (obj d) = false

abbrev pub step_name : String → Items → Option Json
step_name id nil = some (str id)
step_name id (cons (obj node) nodes) =
    let rest = step_name id nodes in
    if is_text id (get_json "id" node) then name_of id node else rest
step_name id (cons null nodes) = none
step_name id (cons (bool b) nodes) = none
step_name id (cons (num n) nodes) = none
step_name id (cons (str s) nodes) = none
step_name id (cons (arr xs) nodes) = none

-- The variables are later asked for their keys, which only a dictionary has.
abbrev pub with_variables : Json → Json → Json → Json → Option Extracted
with_variables request response logs (obj variables) = some (record {
  request_data = request;
  response_data = response;
  assertion_logs = logs;
  extract_vars = obj variables;
})
with_variables request response logs null = none
with_variables request response logs (bool b) = none
with_variables request response logs (num n) = none
with_variables request response logs (str t) = none
with_variables request response logs (arr xs) = none

module _ (lower : String → String) where
  abbrev pub extract_fields : String → Fields → Option Json → Json → Option Extracted
  extract_fields t d none response = none
  extract_fields t d (some request) response =
      with_variables request response (as_list (get_json "assertion" d))
        (or_json (get_json "extract_vars" d) (or_json (get_json "extracted_vars" d) (obj end)))

  abbrev pub extract_dict : String → Fields → Option Extracted
  extract_dict t d =
      let metadata = get_or (obj end) "metadata" d in
      if is_http t
      then extract_fields t d (http_request metadata d)
          (or_json (get_json "response" d) (get_or (obj end) "body" d))
      else extract_fields t d (other_request (lower t) metadata) (get_or (obj end) "body" d)

  abbrev pub plain_output : Json → Extracted
  plain_output j = record {
    request_data = obj end;
    response_data = j;
    assertion_logs = arr nil;
    extract_vars = obj end;
  }

  abbrev pub extract_output : String → Json → Option Extracted
  extract_output t (obj d) = extract_dict t d
  extract_output t null = some (plain_output null)
  extract_output t (bool b) = some (plain_output (bool b))
  extract_output t (num n) = some (plain_output (num n))
  extract_output t (str s) = some (plain_output (str s))
  extract_output t (arr xs) = some (plain_output (arr xs))
