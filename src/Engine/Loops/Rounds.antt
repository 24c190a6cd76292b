-- ===== src/Engine/Loops/Rounds.antt =====
-- The iterations of a count loop of `LoopProcessor`
-- (packages/engine/src/core/processors/workflow/loop_processor.py): what the sub nodes see, and what
-- is kept of them.
use vanguard_runner.Base.{
  ℕ, zero, suc, ◌+◌, ◌-◌, ◌<◌, nat_eq, String, false, ◌==◌, some, ◌≡◌, refl, ap, ◌∙◌, arith,
}
use vanguard_runner.Model.{
  Json, bool, num, arr, obj, Items, nil, cons, Fields, end, field, get_field,
}
use vanguard_runner.Model.Dicts.{set_field, get_field-set_field, get_field-set_field_other}
use vanguard_runner.Engine.Services.{Context}
use vanguard_runner.Engine.Loops.{set_loop_variables, count_from, execute_count_loop}
use vanguard_runner.Engine.Loops.Bounds.{size}

-- The context of an iteration: its index, the count, whether it is the first and the last one, and
-- everything else as it was.
pub record Sees (count i : ℕ) (c v : Context) : Type 0 where
  pub index : get_field "loop_index" v.variables ≡ some (num i)
  pub total : get_field "loop_count" v.variables ≡ some (num count)
  pub is_first : get_field "is_first_iteration" v.variables ≡ some (bool (nat_eq i 0))
  pub is_last : get_field "is_last_iteration" v.variables ≡ some (bool (nat_eq (suc i) count))
  pub others :
      (k : String)
      → ("loop_index" == k) ≡ false
      → ("loop_count" == k) ≡ false
      → ("is_first_iteration" == k) ≡ false
      → ("is_last_iteration" == k) ≡ false
      → get_field k v.variables ≡ get_field k c.variables
  pub results : v.node_results ≡ c.node_results

last_index : (i count : ℕ) → i < count → nat_eq i (count - 1) ≡ nat_eq (suc i) count
last_index i count h = ground (arith, h)

module _ (count i : ℕ) (c : Context) (h : i < count) where
  abbrev seen : Context
  seen = set_loop_variables i count (nat_eq i (count - 1)) c

  abbrev d1 : Fields
  d1 = set_field "loop_index" (num i) c.variables

  abbrev d2 : Fields
  d2 = set_field "loop_count" (num count) d1

  abbrev d3 : Fields
  d3 = set_field "is_first_iteration" (bool (nat_eq i 0)) d2

  abbrev last : Json
  last = bool (nat_eq i (count - 1))

  set_loop_variables-Sees : Sees count i c seen
  set_loop_variables-Sees = record {
    index =
        get_field-set_field_other "loop_index" "is_last_iteration" last d3 refl
        ∙ get_field-set_field_other "loop_index" "is_first_iteration" _ d2 refl
        ∙ get_field-set_field_other "loop_index" "loop_count" _ d1 refl
        ∙ get_field-set_field "loop_index" _ c.variables;
    total =
        get_field-set_field_other "loop_count" "is_last_iteration" last d3 refl
        ∙ get_field-set_field_other "loop_count" "is_first_iteration" _ d2 refl
        ∙ get_field-set_field "loop_count" _ d1;
    is_first =
        get_field-set_field_other "is_first_iteration" "is_last_iteration" last d3 refl
        ∙ get_field-set_field "is_first_iteration" _ d2;
    is_last =
        get_field-set_field "is_last_iteration" last d3
        ∙ ap (λ b. some (bool b)) (last_index i count h);
    others = λ k e1 e2 e3 e4.
        get_field-set_field_other k "is_last_iteration" last d3 e4
        ∙ get_field-set_field_other k "is_first_iteration" _ d2 e3
        ∙ get_field-set_field_other k "loop_count" _ d1 e2
        ∙ get_field-set_field_other k "loop_index" _ c.variables e1;
    results = refl;
  }

module _ (round : ℕ → Context → Context × Items) (count : ℕ) where
  -- The iterations from an index on, from one context to another: each one runs the sub nodes in a
  -- context that has its loop variables, and keeps their results with its number.
  pub data Rounds : ℕ → Context → Items → Context → Type 0 where
    over : {i : ℕ} {c : Context} → i ≡ count → Rounds i c nil c
    next :
        {i : ℕ} {c v after : Context} {subs rest : Items} {end_context : Context}
        → i < count
        → Sees count i c v
        → round i v ≡ (after, subs)
        → Rounds (suc i) after rest end_context
        → Rounds i c
            (cons (obj (field "iteration" (num (i + 1)) (field "sub_results" (arr subs) end))) rest)
            end_context

  count_from-Rounds :
      (left i : ℕ) (c : Context)
      → i + left ≡ count
      → let e = count_from round count left i c in
        Rounds i c e.results e.context × (size e.results ≡ left)
  count_from-Rounds zero i c h = (over (omega (arith, h)), refl)
  count_from-Rounds (suc left) i c h =
      let p : i < count = omega (arith, h) in
      let rest =
        count_from-Rounds left (suc i)
          ((round i (set_loop_variables i count (nat_eq i (count - 1)) c)).0) (omega (arith, h)) in
      (next p (set_loop_variables-Sees count i c p) refl (rest.0), ap suc (rest.1))

  -- A count loop runs its sub nodes once for each index below its count, in order. Each run is in the
  -- context that the one before left, with the index, the count and the tests for the first and the
  -- last iteration as its loop variables and nothing else changed. The results are one entry for each
  -- iteration, with its number from 1 and what its sub nodes gave; they are saved under the output
  -- variable in the context that the last iteration left.
  pub execute_count_loop-Rounds :
      (output : String) (c : Context)
      → let e = execute_count_loop round count output c in
        ((e.iterations ≡ count) × (size e.results ≡ count))
        × ((last : Context) × (Rounds 0 c e.results last
              × ((e.context.variables ≡ set_field output (arr e.results) last.variables)
                  × (e.context.node_results ≡ last.node_results))))
  execute_count_loop-Rounds output c =
      let h = count_from-Rounds count 0 c (omega arith) in
      ((refl, h.1), ((count_from round count count 0 c).context, (h.0, (refl, refl))))
