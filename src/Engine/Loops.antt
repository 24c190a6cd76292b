-- ===== src/Engine/Loops.antt =====
-- The count and while loops of `LoopProcessor`
-- (packages/engine/src/core/processors/workflow/loop_processor.py). The pauses between iterations and
-- the timestamps are left out. `round` is what the processors of the sub nodes do in an iteration, by
-- its index: the context they leave, and their results. `contains part text` is `part in text`,
-- `split` is `text.split("<")`, and `parse_bound` is `int(text.strip())`, where a negative number is
-- given as 0, which bounds an iteration in the same way. A count is not negative, and a loop has a
-- context.
pub mod Bounds
pub mod Rounds
use vanguard_runner.Base.{
  ℕ, zero, suc, ◌+◌, ◌-◌, ◌&&◌, ltb, nat_eq, String, Bool, true, false, ◌==◌, Option, none, some,
  List, [], ◌∷◌, if◌then◌else◌,
}
use vanguard_runner.Model.{Json, bool, num, str, arr, obj, Items, nil, cons, end, field}
use vanguard_runner.Engine.Services.{Context, set_variable}

-- the context variables of an iteration
abbrev pub set_loop_variables : ℕ → ℕ → Bool → Context → Context
set_loop_variables i n last c = set_variable "is_last_iteration" (bool last) (
    set_variable "is_first_iteration" (bool (nat_eq i 0))
      (set_variable "loop_count" (num n) (set_variable "loop_index" (num i) c)))

-- What a loop gives back, and the context that it leaves.
pub record LoopEnd : Type 0 where
  pub iterations : ℕ
  pub results : Items
  pub context : Context

abbrev pub put_result : Json → LoopEnd → LoopEnd
put_result r e = record e { results = cons r e.results }

abbrev pub save_results : String → LoopEnd → LoopEnd
save_results name e = record e { context = set_variable name (arr e.results) e.context }

module _ (round : ℕ → Context → Context × Items) where
  abbrev pub count_entry : ℕ → Items → Json
  count_entry i subs = obj (field "iteration" (num (i + 1)) (field "sub_results" (arr subs) end))

  -- the iterations that are left, of `count`, from an index on
  abbrev pub count_from : ℕ → ℕ → ℕ → Context → LoopEnd
  count_from count zero i c = record { iterations = i; results = nil; context = c }
  count_from count (suc left) i c =
      let subs = round i (set_loop_variables i count (nat_eq i (count - 1)) c) in
      put_result (count_entry i (subs.1)) (count_from count left (suc i) (subs.0))

  -- `_execute_count_loop`
  abbrev pub execute_count_loop : ℕ → String → Context → LoopEnd
  execute_count_loop count output c =
      save_results output (record (count_from count count 0 c) { iterations = count })

  module _ (contains : String → String → Bool) (split : String → List String)
      (parse_bound : String → Option ℕ) where
    abbrev pub below_bound : List String → ℕ → Bool
    below_bound [] i = true
    below_bound (a ∷ []) i = true
    below_bound (a ∷ b ∷ []) i = elim (parse_bound b) [ some n ↦ ltb i n | none ↦ true ]
    below_bound (a ∷ b ∷ d ∷ ps) i = true

    -- `_evaluate_condition`
    abbrev pub evaluate_condition : String → ℕ → Bool
    evaluate_condition condition i =
        if condition == "iteration < 5"
        then ltb i 5
        else if condition == "iteration < 10"
        then ltb i 10
        else if contains "iteration" condition && contains "<" condition
        then below_bound (split condition) i
        else true

    abbrev pub while_entry : String → ℕ → Items → Json
    while_entry condition i subs = obj (
        field "iteration" (num (i + 1))
          (field "condition" (str condition) (field "sub_results" (arr subs) end)))

    abbrev pub stop_loop : ℕ → Context → LoopEnd
    stop_loop i c = record { iterations = i; results = nil; context = c }

    abbrev pub go_on_if : Bool → LoopEnd → (Context → LoopEnd) → Context → LoopEnd
    go_on_if false stop more c = stop
    go_on_if true stop more c = more c

    -- `left` iterations may still come before the limit
    abbrev pub while_from : String → ℕ → ℕ → Context → LoopEnd
    while_from condition zero i c = stop_loop i c
    while_from condition (suc left) i c =
        go_on_if (evaluate_condition condition i) (stop_loop i c)
          (λ c.
            let subs = round i (set_loop_variables i (i + 1) false c) in
            put_result (while_entry condition i (subs.1))
              (while_from condition left (suc i) (subs.0)))
          c

    -- `_execute_while_loop`
    abbrev pub execute_while_loop : String → ℕ → String → Context → LoopEnd
    execute_while_loop condition max_iterations output c =
        save_results output (while_from condition max_iterations 0 c)
