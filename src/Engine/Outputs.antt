-- ===== src/Engine/Outputs.antt =====
-- The outputs that `WorkflowExecutor.execute` writes into a step
-- (packages/engine/workflow_engine.py): the enhanced result of a failed node, the results of an
-- inline assertion, and the response of each `except` clause.
use vanguard_runner.Base.{String, Bool, true, false, ◌==◌, Option, none, some, if◌then◌else◌}
use vanguard_runner.Model.{
  Json, null, bool, num, str, arr, obj, Items, nil, cons, Fields, end, field, has_field, truthy,
}
use vanguard_runner.Model.Dicts.{get_or, get_json, set_field, or_json}
use vanguard_runner.Engine.Services.{
  Node, Raised, ExceptionKind, validation_error, execution_error, other_error,
}
use Prim.Native.String.{◌++◌ as text_append}

-- `if key not in d: d[key] = value`
abbrev pub set_default : String → Json → Fields → Fields
set_default k v d = if has_field k d then d else set_field k v d

-- `d.get("body")` where it is a dictionary, and `{}` otherwise
abbrev pub as_dict : Json → Fields
as_dict (obj d) = d
as_dict null = end
as_dict (bool b) = end
as_dict (num n) = end
as_dict (str s) = end
as_dict (arr xs) = end

-- `if not isinstance(result, dict): result = {"body": result}`
abbrev pub wrap_result : Json → Fields
wrap_result (obj d) = d
wrap_result null = field "body" null end
wrap_result (bool b) = field "body" (bool b) end
wrap_result (num n) = field "body" (num n) end
wrap_result (str s) = field "body" (str s) end
wrap_result (arr xs) = field "body" (arr xs) end

-- an extraction or assertion that failed, on the result of the node
abbrev pub mark_error : String → String → Node → Raised → Fields → Fields
mark_error code category node e d = set_field "retryable" (bool true) (
    set_field "node_type" (str node.type) (
      set_field "node_id" (str node.id) (
        set_field "error_category" (str category) (
          set_field "error_type" (str e.type_name) (
            set_field "error_code" (str code)
              (set_field "error" (str e.text) (set_field "status" (str "error") d)))))))

-- `result_status in ["error", "failed"]`
abbrev pub is_error_status : Json → Bool
is_error_status (str s) = if s == "error" then true else s == "failed"
is_error_status null = false
is_error_status (bool b) = false
is_error_status (num n) = false
is_error_status (arr xs) = false
is_error_status (obj d) = false

abbrev pub failure_text : Json → Json
failure_text (str s) = str (text_append "节点执行失败: " s)
failure_text null = null
failure_text (bool b) = null
failure_text (num n) = null
failure_text (arr xs) = null
failure_text (obj d) = null

abbrev pub step_error : Fields → Json
step_error d =
    or_json (get_json "error" d)
      (or_json (get_json "message" d) (failure_text (get_or (str "success") "status" d)))

abbrev pub error_message : Fields → Json
error_message d = or_json (get_json "error" d) (
    or_json (get_json "message" d) (
      or_json (get_json "error" (as_dict (get_json "body" d)))
        (failure_text (get_or (str "success") "status" d))))

abbrev pub enhance : Node → Fields → Fields
enhance node d = set_default "traceback" null (
    set_default "retryable" (bool true) (
      set_default "node_type" (str node.type) (
        set_default "node_id" (str node.id) (
          set_default "error_category" (str "execution") (
            set_default "error_code" (get_or (str "PROCESSOR_ERROR") "status_code" d) (
              set_default "error_type" (str "ProcessorError")
                (set_default "error" (error_message d) d)))))))

-- `if enhanced_result.get("error_code"): step_result.metadata["error_code"] = ...`
abbrev pub code_metadata : Fields → Fields
code_metadata d =
    if truthy (get_json "error_code" d)
    then field "error_code" (get_json "error_code" d) end
    else end

abbrev pub text_or : String → Option String → Json
text_or default none = str default
text_or default (some t) = str t

abbrev pub bool_or : Bool → Option Bool → Json
bool_or default none = bool default
bool_or default (some b) = bool b

-- the responses of `except ValidationError`, `except ExecutionError` and `except Exception`
abbrev pub response_of : ExceptionKind → Node → Raised → Fields
response_of validation_error node e = field "status" (str "error") (
    field "processor_type" (str node.type) (
      field "error" (str e.message) (
        field "error_code" (text_or "VALIDATION_ERROR" e.code) (
          field "error_type" (str "ValidationError") (
            field "error_category" (text_or "validation" e.category) (
              field "node_id" (str node.id) (
                field "node_type" (str node.type) (
                  field "traceback" (str e.trace) (
                    field "suggestion" (text_or "请检查节点配置是否正确" e.suggestion)
                      (field "body" null end))))))))))
response_of execution_error node e = field "status" (str "error") (
    field "processor_type" (str node.type) (
      field "error" (str e.message) (
        field "error_code" (text_or "EXECUTION_ERROR" e.code) (
          field "error_type" (str e.type_name) (
            field "error_category" (text_or "execution" e.category) (
              field "node_id" (str node.id) (
                field "node_type" (str node.type) (
                  field "operation" e.operation (
                    field "retryable" (bool_or false e.retryable) (
                      field "traceback" (str e.trace)
                        (field "original_error" e.original_error (field "body" null end))))))))))))
response_of other_error node e = field "status" (str "error") (
    field "processor_type" (str node.type) (
      field "error" (str e.text) (
        field "error_code" (str "UNKNOWN_ERROR") (
          field "error_type" (str e.type_name) (
            field "error_category" (str "unknown") (
              field "node_id" (str node.id) (
                field "node_type" (str node.type) (
                  field "retryable" (bool false) (
                    field "traceback" (str e.trace) (
                      field "suggestion" (str "请检查节点配置和输入数据是否正确，或联系技术支持")
                        (field "body" null end)))))))))))

abbrev pub error_of : ExceptionKind → Raised → Json
error_of validation_error e = str (text_append "配置验证失败: " e.message)
error_of execution_error e = str e.message
error_of other_error e = str e.text

-- A value that the source enumerates or indexes: an empty text or dictionary has no entries, and
-- `none` is a value that raises.
abbrev pub entries_of : Json → Option Items
entries_of (arr xs) = some xs
entries_of (str s) = if s == "" then some nil else none
entries_of (obj end) = some nil
entries_of (obj (field k v d)) = none
entries_of null = none
entries_of (bool b) = none
entries_of (num n) = none

-- operator and target of the rule at an index; `none` is a rule that is no dictionary
abbrev pub rule_fields : Items → Option Fields
rule_fields nil = some end
rule_fields (cons (obj d) rs) = some d
rule_fields (cons null rs) = none
rule_fields (cons (bool b) rs) = none
rule_fields (cons (num n) rs) = none
rule_fields (cons (str s) rs) = none
rule_fields (cons (arr xs) rs) = none

abbrev pub tail_items : Items → Items
tail_items nil = nil
tail_items (cons r rs) = rs

abbrev pub assertion_entry : Fields → Fields → Json
assertion_entry raw rule = obj (
    field "operator" (get_json "operator" rule) (
      field "actual" (get_json "actual" raw) (
        field "target" (get_json "target" rule) (
          field "rule" (get_or (str "") "rule" raw) (field "passed" (get_json "passed" raw) end)))))

-- the loop over the raw results, next to the rules that are left: what it appended, and whether it
-- came to its end
abbrev pub assertion_entries : Items → Items → Items × Bool
assertion_entries nil rules = (nil, true)
assertion_entries (cons (obj raw) raws) rules = elim (rule_fields rules) [
  | none ↦ (nil, false)
  | some rule ↦
      let rest = assertion_entries raws (tail_items rules) in
      (cons (assertion_entry raw rule) (rest.0), rest.1)
]
assertion_entries (cons null raws) rules = (nil, false)
assertion_entries (cons (bool b) raws) rules = (nil, false)
assertion_entries (cons (num n) raws) rules = (nil, false)
assertion_entries (cons (str s) raws) rules = (nil, false)
assertion_entries (cons (arr xs) raws) rules = (nil, false)

-- rules are read only where there is a raw result
abbrev pub entries_with_rules : Items → Json → Items × Bool
entries_with_rules nil rules = (nil, true)
entries_with_rules (cons raw raws) rules = elim (entries_of rules) [
  | none ↦ (nil, false)
  | some rs ↦ assertion_entries (cons raw raws) rs
]

-- the part that follows `raw_results = body.get("results", [])`
abbrev pub entries_of_results : Json → Json → Json × Bool
entries_of_results results rules = elim (entries_of results) [
  | none ↦ (arr nil, false)
  | some raws ↦ let built = entries_with_rules raws rules in (arr (built.0), built.1)
]

-- a body that is no dictionary raises before the list is there
abbrev pub entries_of_body : Json → Json → Json × Bool
entries_of_body (obj b) rules = entries_of_results (get_or (arr nil) "results" b) rules
entries_of_body null rules = (null, false)
entries_of_body (bool b) rules = (null, false)
entries_of_body (num n) rules = (null, false)
entries_of_body (str s) rules = (null, false)
entries_of_body (arr xs) rules = (null, false)

-- `assertion_results` from what the assertion processor returned and the config of the assertion,
-- and whether the code that builds it ends without an exception
abbrev pub assertion_results : Json → Fields → Json × Bool
assertion_results (obj reply) config =
    entries_of_body (get_or (obj end) "body" reply) (get_or (arr nil) "rules" config)
assertion_results null config = (null, true)
assertion_results (bool b) config = (null, true)
assertion_results (num n) config = (null, true)
assertion_results (str s) config = (null, true)
assertion_results (arr xs) config = (null, true)
