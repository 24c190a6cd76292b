-- ===== src/Tests/EngineTests.antt =====
-- The theorems on the execution of a workflow and its reported result at sample data.
use Prim.Native.String.{◌∷◌ as text_cons, count as text_count}
use Prim.Native.String.count
use vanguard_runner.Base.{
  ◌||◌, any, ℕ, zero, suc, ◌+◌, ◌≡◌, refl, String, true, false, ◌==◌, Option, none, some, List, [],
  ◌∷◌, map, length, ◌-◌, not, ap, ◌∙◌, arith, eq_iff, Bool-cases, inl, inr, if◌then◌else◌,
}
use vanguard_runner.Model.{Json, null, bool, str, obj, nil, end, field, truthy}
use vanguard_runner.Engine.Steps.{pending, success, skipped, ExecutionResult}
use vanguard_runner.Engine.Services.{Node, Context, Raised, other_error, returned, Services}
use vanguard_runner.Engine.Branches.Paths.{is_active, is_root, check_node-any}
use vanguard_runner.Engine.Branches.{check_path, check_node, check_of}
use vanguard_runner.Engine.Run.{Outcome, finished, crashed, execute}
use vanguard_runner.Engine.Run.Ends.{Ends, Blames}
use vanguard_runner.Engine.Run.Order.{
  Statuses, Unfinished, step_ids, step_statuses, execute-Statuses,
}
use vanguard_runner.Engine.Run.Activation.{status_for, execute_as_active}
use vanguard_runner.Engine.Steps.RoundTrip.{result_from_dict-result_to_dict}
use vanguard_runner.Engine.Steps.Entries.{settle_result}
use vanguard_runner.Engine.Steps.Dictionaries.{result_to_dict, result_from_dict}
use vanguard_runner.Engine.Streaming.{check_should_skip}
use vanguard_runner.Engine.Streaming.Branching.{check_should_skip-check_node}
use vanguard_runner.Worker.Results.{RunResult, format_result}
use vanguard_runner.Worker.Results.Counts.{count_up, format_result-execute}
use vanguard_runner.Engine.Run.Termination.{execute_finishes}

abbrev pub a_node : String → String → Node
a_node id type = record { id = id; name = id; type = type; position = null; node_data = end }

-- a script, a condition on it, and a node on each branch
abbrev pub nodes : List Node
nodes = a_node "a" "script" ∷ a_node "b" "condition" ∷ a_node "d" "http" ∷ a_node "e" "http" ∷ []

abbrev preds : String → List String
preds id =
    if id == "b"
    then "a" ∷ []
    else if id == "d"
    then "b" ∷ []
    else if id == "e"
    then "b" ∷ []
    else []

abbrev handle : String → String → Option String
handle p id = if id == "d" then some "true" else if id == "e" then some "false" else none

abbrev answer : Node → Json
answer n = obj (field "body" (obj (field "result" (bool (n.type == "condition")) end)) end)

abbrev type_error : Raised
type_error = record {
  kind = other_error;
  message = "no list";
  text = "no list";
  type_name = "TypeError";
  code = none;
  category = none;
  suggestion = none;
  operation = null;
  retryable = none;
  original_error = null;
  trace = "";
}

abbrev services : Services
services = record {
  nodes = nodes;
  predecessors = preds;
  source_handle = handle;
  process = λ n ps c. (c, returned (answer n));
  inline = λ type id config input c. (c, returned null);
  started = λ id. 10;
  ended = λ id. 20;
  logs = λ id. "";
  malformed = type_error;
}

abbrev pub no_context : Context
no_context = record { variables = end; node_results = end }

abbrev new_result : ExecutionResult
new_result = record {
  workflow_id = "w";
  status = pending;
  start_time = none;
  end_time = none;
  duration = none;
  steps = [];
  variables = end;
  metadata = end;
}

abbrev order : List String
order = "a" ∷ "b" ∷ "d" ∷ "e" ∷ []

-- what an outcome leaves
abbrev left_result : Outcome → ExecutionResult
left_result (finished r c) = r
left_result (crashed e r c) = r

abbrev left_context : Outcome → Context
left_context (finished r c) = c
left_context (crashed e r c) = c

abbrev ran : Outcome
ran = execute services 1 2 order no_context new_result

-- the branch not taken is skipped
runs_one_branch : step_statuses (left_result ran).steps ≡ success ∷ success ∷ success ∷ skipped ∷ []
runs_one_branch = refl

execute-Statuses_example :
    Ends
      (λ r2 c2. (step_ids r2.steps ≡ order) × Statuses r2.status (step_statuses r2.steps))
      (λ e r2 c2. Blames services c2 e × Unfinished order r2)
      (execute services 1 2 order no_context new_result)
execute-Statuses_example = execute-Statuses services 1 2 order no_context new_result refl

execute_as_active_example :
    step_statuses (left_result ran).steps
    ≡ map (λ id. status_for (check_node services (left_context ran) id)) order
execute_as_active_example =
    execute_as_active services 1 2 order no_context (left_context ran) new_result (left_result ran)
      ((λ n ps c q. refl, λ type id config input c q. refl))
      (
        tt,
        (
          (refl, (refl, (refl, tt))),
          (
            ((refl, (refl, (refl, tt))), tt),
            (
              (refl, (refl, tt)),
              (((refl, (refl, tt)), tt), ((refl, tt), (((refl, tt), tt), (tt, tt)))),
            ),
          ),
        ),
      )
      refl refl refl

-- a workflow of two scripts, one after the other
abbrev line : Services
line = record services {
  nodes = a_node "a" "script" ∷ a_node "c" "script" ∷ [];
  predecessors = λ id. if id == "c" then "a" ∷ [] else [];
}

execute_finishes_example :
    (r2 : ExecutionResult) × ((c2 : Context) × (execute line 1 2
          ("a" ∷ "c" ∷ [])
          no_context
          new_result
        ≡ finished r2 c2))
execute_finishes_example = execute_finishes line 1 2 ("a" ∷ "c" ∷ []) no_context new_result (
  ((a_node "a" "script", refl), tt),
  (((a_node "c" "script", refl), ((a_node "a" "script", (refl, refl)), tt)), tt),
)

-- a condition on the branch that the first condition does not take, and a node behind it
abbrev nested : Services
nested = record services {
  nodes = a_node "b" "condition" ∷ a_node "c" "condition" ∷ a_node "d" "http" ∷ [];
  predecessors = λ id. if id == "c" then "b" ∷ [] else if id == "d" then "c" ∷ [] else [];
  source_handle = λ p id. if id == "c" then some "false" else some "true";
}

abbrev ran_nested : Outcome
ran_nested = execute nested 1 2 ("b" ∷ "c" ∷ "d" ∷ []) no_context new_result

-- the skipped condition has its step, and `execute` raises at the node behind it
raises_after_skip : step_statuses (left_result ran_nested).steps ≡ success ∷ skipped ∷ []
raises_after_skip = refl

abbrev same : String → String
same t = t

abbrev reported : Option RunResult → RunResult
reported (some r) = r
reported none = record {
  status = "";
  start_time = none;
  end_time = none;
  duration_ms = 0;
  total_steps = 0;
  passed_count = 0;
  failed_count = 0;
  skipped_count = 0;
  pending_count = 0;
  steps = [];
  logs = [];
  successful = false;
}

abbrev out : RunResult
out = reported (format_result (λ n. n) same same same (λ a b. false) 3 nil (left_result ran))

format_result-execute_example :
    ((map (λ x. x.step_id) out.steps ≡ order)
      × (map (λ x. x.order_num) out.steps ≡ count_up 1 (length order)))
    × ((out.passed_count + out.failed_count + out.skipped_count + out.pending_count ≡ length order)
        × ((out.total_steps ≡ length order)
            × (out.failed_count ≡ (if out.successful then 0 else 1))))
format_result-execute_example =
    format_result-execute (λ n. n) same same same (λ a b. false) nil services 1 2 3 order no_context
      (left_context ran) new_result (left_result ran) out refl refl refl

-- an instant as a text of that many letters, after a first one
abbrev isoformat : ℕ → String
isoformat zero = "t"
isoformat (suc n) = text_cons "t" (isoformat n)

abbrev fromisoformat : String → Option ℕ
fromisoformat t = some (text_count t - 1)

text_count-isoformat : (n : ℕ) → text_count (isoformat n) ≡ suc n
text_count-isoformat zero = refl
text_count-isoformat (suc n) =
    Prim.Native.String.count.cons "t" (isoformat n) ∙ ap suc (text_count-isoformat n)

isoformat-nonempty : (n : ℕ) → truthy (str (isoformat n)) ≡ true
isoformat-nonempty n = elim (Bool-cases (isoformat n == "")) [
  | inl e ↦
      let q : isoformat n ≡ "" = (eq_iff (isoformat n) "").0 e in
      absurd (ground (arith, text_count-isoformat n, ap text_count q))
  | inr e ↦ ap not e
]

result_from_dict-result_to_dict_example :
    result_from_dict isoformat fromisoformat
      (result_to_dict isoformat fromisoformat (left_result ran))
    ≡ some (settle_result (left_result ran))
result_from_dict-result_to_dict_example =
    result_from_dict-result_to_dict isoformat fromisoformat
      (λ t. ap (λ n. some (n - 1)) (text_count-isoformat t) ∙ ap some (omega arith))
      isoformat-nonempty (left_result ran)

check_should_skip-check_node_example :
    check_should_skip (λ j. "") services (left_context ran) "e" ≡ check_of false
check_should_skip-check_node_example =
    check_should_skip-check_node (λ j. "") services (left_context ran) "e" false refl

check_node-any_example : false ≡ (
    is_root (services.predecessors "e")
    || any
        (λ p. is_active (check_path services (left_context ran) "e" p))
        (services.predecessors "e"))
check_node-any_example = check_node-any services (left_context ran) "e" false refl
