-- ===== src/Engine/Run/Frame.antt =====
-- The results that a round of the executor's loop leaves alone (packages/engine/workflow_engine.py,
-- packages/engine/src/context.py).
use vanguard_runner.Base.{
  String, Bool, true, false, ◌==◌, Option, none, some, ◌≡◌, refl, ap, ◌∙◌, if◌then◌else◌,
}
use vanguard_runner.Model.{Json, null, bool, num, str, arr, obj, Fields, end, field, truthy}
use vanguard_runner.Model.Dicts.{get_json, or_json, get_field-set_field_other}
use vanguard_runner.Engine.Services.{
  Node, Context, get_node_result, set_node_result, set_variable, Raised, Reply, returned, raised,
  Services,
}
use vanguard_runner.Engine.Run.{
  NodeEnd, passed, broke, judge_status, judge, finish_node, after_result, after_reply, run_node,
  Inline, add_inline, set_variables, body_variables, write_back, extract_inline, save_output,
  set_named, assert_inline, run_assertion, run_extraction, asserted, extracted, predecessor_results,
  extractor_config,
}

-- the result of q is the same in both contexts
abbrev pub Same : String → Context → Context → Type 0
Same q c c2 = get_node_result q c2 ≡ get_node_result q c

abbrev pub Leaves : String → Context → NodeEnd → Type 0
Leaves q c (passed step c2) = Same q c c2
Leaves q c (broke step c2) = Same q c c2

-- A processor sets no result: that of its node is set by the executor.
abbrev pub Keeps : Services → Type 0
Keeps s =
    ((node : Node) (preds : Fields) (c : Context) (q : String)
      → Same q c (s.process node preds c).0)
    × ((type id : String) (config : Json) (input : Fields) (c : Context) (q : String)
        → Same q c (s.inline type id config input c).0)

Same-set_node_result :
    (q id : String) (v : Json) (c : Context) → (id == q) ≡ false → Same q c (set_node_result id v c)
Same-set_node_result q id v c h =
    ap (λ o. elim o [ none ↦ null | some w ↦ w ])
      (get_field-set_field_other q id v c.node_results h)

Same-set_variables : (q : String) (d : Fields) (c : Context) → Same q c (set_variables d c)
Same-set_variables q end c = refl
Same-set_variables q (field k v d) c = Same-set_variables q d (set_variable k v c)

Same-set_named : (q : String) (j v : Json) (c : Context) → Same q c (set_named j v c)
Same-set_named q (str k) v c = refl
Same-set_named q null v c = refl
Same-set_named q (bool b) v c = refl
Same-set_named q (num n) v c = refl
Same-set_named q (arr xs) v c = refl
Same-set_named q (obj d) v c = refl

Same-if : (q : String) (b : Bool) (c c2 : Context) → Same q c c2 → Same q c (if b then c2 else c)
Same-if q true c c2 h = h
Same-if q false c c2 h = refl

Same-save_output :
    (q : String) (node : Node) (v : Json) (c : Context) → Same q c (save_output node v c)
Same-save_output q node v c =
    let name =
      or_json (get_json "output_variable" node.node_data) (get_json "output_var" node.node_data) in
    Same-if q (truthy name) c (set_named name v c) (Same-set_named q name v c)

module _ (s : Services) (q : String) (keeps : Keeps s) where
  Same-extracted :
      (c c2 : Context) (reply : Reply) → Same q c c2 → Same q c (extracted c2 reply).context
  Same-extracted c c2 (raised e) h = h
  Same-extracted c c2 (returned v) h = h

  Same-asserted :
      (c c2 : Context) (config : Fields) (reply : Reply)
      → Same q c c2
      → Same q c (asserted s c2 config reply).context
  Same-asserted c c2 config (raised e) h = h
  Same-asserted c c2 config (returned v) h = h

  module _ (node : Node) where
    Same-run_extraction :
        (v config : Json) (c : Context) (b : Bool)
        → Same q c (run_extraction s node v config c b).context
    Same-run_extraction v config c false = refl
    Same-run_extraction v config c true =
        Same-extracted c _ _
          (keeps.1 "variable_extractor" node.id (extractor_config config) (field node.id v end) c q)

    Same-run_assertion :
        (v config : Json) (c : Context) → Same q c (run_assertion s node v config c).context
    Same-run_assertion v (obj end) c = refl
    Same-run_assertion v (obj (field k w d)) c =
        Same-asserted c _ _ _
          (keeps.1 "assertion" node.id (obj (field k w d)) (field node.id v end) c q)
    Same-run_assertion v null c = refl
    Same-run_assertion v (bool b) c = refl
    Same-run_assertion v (num n) c = refl
    Same-run_assertion v (str t) c = refl
    Same-run_assertion v (arr xs) c = refl

    module _ (other : (node.id == q) ≡ false) where
      Same-write_back : (v : Json) (d : Fields) (c : Context) → Same q c (write_back node v d c)
      Same-write_back (obj old) d c = Same-set_node_result q node.id (obj d) c other
      Same-write_back null d c = refl
      Same-write_back (bool b) d c = refl
      Same-write_back (num n) d c = refl
      Same-write_back (str t) d c = refl
      Same-write_back (arr xs) d c = refl

      judge_status-Leaves :
          (d : Fields) (c : Context) (b : Bool) → Leaves q c (judge_status s node d c b)
      judge_status-Leaves d c true = refl
      judge_status-Leaves d c false = refl

      judge-Leaves :
          (v : Json) (d : Fields) (c : Context) (x y : Option Raised)
          → Leaves q c (judge s node v d c x y)
      judge-Leaves v d c (some e) y = Same-write_back v _ c
      judge-Leaves v d c none (some e) = Same-write_back v _ c
      judge-Leaves v d c none none = judge_status-Leaves d c _

      Leaves-after : (c c2 : Context) (x : NodeEnd) → Same q c c2 → Leaves q c2 x → Leaves q c x
      Leaves-after c c2 (passed step c3) h l = l ∙ h
      Leaves-after c c2 (broke step c3) h l = l ∙ h

      finish_node-Leaves :
          (v : Json) (ex check : Inline) → Leaves q check.context (finish_node s node v ex check)
      finish_node-Leaves v ex check =
          let d = add_inline v check.value ex.value in
          let c2 = write_back node v d check.context in
          let c3 = set_variables (body_variables d) c2 in
          Leaves-after check.context c3 (judge s node v d c3 ex.error check.error)
            (Same-set_variables q (body_variables d) c2 ∙ Same-write_back v d check.context)
            (judge-Leaves v d c3 ex.error check.error)

      after_result-Leaves : (v : Json) (c : Context) → Leaves q c (after_result s node v c)
      after_result-Leaves v c =
          let c1 = set_node_result node.id v c in
          let c2 = save_output node v c1 in
          let ex = extract_inline s node v c2 in
          let check = assert_inline s node v ex.context in
          Leaves-after c check.context (finish_node s node v ex check)
            (Same-run_assertion v _ ex.context
              ∙ Same-run_extraction v _ c2 _
              ∙ Same-save_output q node v c1
              ∙ Same-set_node_result q node.id v c other)
            (finish_node-Leaves v ex check)

      after_reply-Leaves : (c : Context) (reply : Reply) → Leaves q c (after_reply s node c reply)
      after_reply-Leaves c (raised e) = refl
      after_reply-Leaves c (returned v) = after_result-Leaves v c

      pub run_node-Leaves : (c : Context) → Leaves q c (run_node s node c)
      run_node-Leaves c =
          let preds = predecessor_results c (s.predecessors node.id) in
          let reply = s.process node preds c in
          Leaves-after c (reply.0) (after_reply s node (reply.0) (reply.1)) (keeps.0 node preds c q)
            (after_reply-Leaves (reply.0) (reply.1))
