-- ===== src/Engine/Graph/Validation.antt =====
-- What an empty list of problems says of a workflow (packages/engine/src/models/workflow.py).
use vanguard_runner.Base.{
  ℕ, suc, ◌≤◌, not, String, Bool, true, false, ◌==◌, List, [], ◌∷◌, ◌++◌, map, length, any, ◌≡◌,
  ◌↔◌, refl, ap, All, arith, Bool-cases, inl, inr,
}
use vanguard_runner.Engine.Services.{Node}
use vanguard_runner.Engine.Graph.{
  Edge, Problem, distinct, report, has_node, edge_problems, repeats, is_acyclic, validate,
  node_ids_repeat, edge_ids_repeat, no_source, no_target, has_cycle,
}

-- no text stands in the list twice
abbrev pub Distinct : List String → Type 0
Distinct [] = Unit
Distinct (x ∷ xs) = (any (λ y. y == x) xs ≡ false) × Distinct xs

-- both ends of an edge are nodes of the workflow
abbrev pub Connected : List Node → Edge → Type 0
Connected ns e = (has_node ns e.source ≡ true) × (has_node ns e.target ≡ true)

distinct≤length : (xs : List String) → length (distinct xs) ≤ length xs
distinct≤length [] = omega arith
distinct≤length (x ∷ xs) = ground (arith, distinct≤length xs)

distinct-Distinct : (xs : List String) → Distinct xs → length (distinct xs) ≡ length xs
distinct-Distinct [] h = refl
distinct-Distinct (x ∷ xs) h = rw (h.0) (ap suc (distinct-Distinct xs h.1))

Distinct-distinct : (xs : List String) → length (distinct xs) ≡ length xs → Distinct xs
Distinct-distinct [] h = tt
Distinct-distinct (x ∷ xs) h = elim (Bool-cases (any (λ y. y == x) xs)) [
  | inl e ↦ absurd (ground (arith, h, e, distinct≤length xs))
  | inr e ↦ (e, Distinct-distinct xs (ground (arith, h, e)))
]

repeats-Distinct : (xs : List String) → (repeats xs ≡ false) ↔ Distinct xs
repeats-Distinct xs =
    (λ h. Distinct-distinct xs (ground (arith, h)), λ d. ground (arith, distinct-Distinct xs d))

report-nil : (b : Bool) (p : Problem) → (report b p ≡ []) ↔ (b ≡ false)
report-nil true p = (λ h. ground (arith, h), λ h. ground (arith, h))
report-nil false p = (λ h. refl, λ h. refl)

append-nil_iff : (xs ys : List Problem) → (xs ++ ys ≡ []) ↔ ((xs ≡ []) × (ys ≡ []))
append-nil_iff [] ys = (λ h. (refl, h), λ h. h.1)
append-nil_iff (x ∷ xs) ys = (λ h. ground (arith, h), λ h. ground (arith, h))

not-false_iff : (b : Bool) → (not b ≡ false) ↔ (b ≡ true)
not-false_iff true = (λ h. refl, λ h. refl)
not-false_iff false = (λ h. ground (arith, h), λ h. ground (arith, h))

edge_problems-nil :
    (ns : List Node) (es : List Edge) → (edge_problems ns es ≡ []) ↔ All (Connected ns) es
edge_problems-nil ns [] = (λ h. tt, λ h. refl)
edge_problems-nil ns (e ∷ es) =
    let s = report (not (has_node ns e.source)) (no_source e.id e.source) in
    let t = report (not (has_node ns e.target)) (no_target e.id e.target) in
    let rs = report-nil (not (has_node ns e.source)) (no_source e.id e.source) in
    let rt = report-nil (not (has_node ns e.target)) (no_target e.id e.target) in
    let ns_ = not-false_iff (has_node ns e.source) in
    let nt = not-false_iff (has_node ns e.target) in
    (
      λ h.
          let a = (append-nil_iff s (t ++ edge_problems ns es)).0 h in
          let b = (append-nil_iff t (edge_problems ns es)).0 a.1 in
          ((ns_.0 (rs.0 a.0), nt.0 (rt.0 b.0)), (edge_problems-nil ns es).0 b.1),
      λ h. (append-nil_iff s (t ++ edge_problems ns es)).1 (
        rs.1 (ns_.1 h.0.0),
        (append-nil_iff t (edge_problems ns es)).1
            (rt.1 (nt.1 h.0.1), (edge_problems-nil ns es).1 h.1),
      ),
    )

module _ {G : Type 0} (empty : G) (insert_node : Node → G → G) (insert_edge : Edge → G → G)
    (number_of_nodes : G → ℕ) (is_directed_acyclic : G → Bool) where
  -- Validation finds no problem exactly where no two nodes and no two edges share an id, both ends of
  -- every edge are nodes of the workflow, and the graph has no cycle.
  pub validate-nil :
      (ns : List Node) (es : List Edge) (g : G)
      → (validate empty insert_node insert_edge number_of_nodes is_directed_acyclic ns es g ≡ [])
        ↔ ((Distinct (map (λ n. n.id) ns) × Distinct (map (λ e. e.id) es))
            × (All (Connected ns) es
                × (is_acyclic empty insert_node insert_edge number_of_nodes is_directed_acyclic g
                    ≡ true)))
  validate-nil ns es g =
      let ids = map (λ n. n.id) ns in
      let edge_ids = map (λ e. e.id) es in
      let acyclic =
        is_acyclic empty insert_node insert_edge number_of_nodes is_directed_acyclic g in
      let d = report (not acyclic) has_cycle in
      let c = edge_problems ns es ++ d in
      let b = report (repeats edge_ids) edge_ids_repeat ++ c in
      let ia = append-nil_iff (report (repeats ids) node_ids_repeat) b in
      let ib = append-nil_iff (report (repeats edge_ids) edge_ids_repeat) c in
      let ic = append-nil_iff (edge_problems ns es) d in
      let ra = report-nil (repeats ids) node_ids_repeat in
      let rb = report-nil (repeats edge_ids) edge_ids_repeat in
      let rd = report-nil (not acyclic) has_cycle in
      (
        λ h.
            let x = ia.0 h in
            let y = ib.0 x.1 in
            let z = ic.0 y.1 in
            (
              ((repeats-Distinct ids).0 (ra.0 x.0), (repeats-Distinct edge_ids).0 (rb.0 y.0)),
              ((edge_problems-nil ns es).0 z.0, (not-false_iff acyclic).0 (rd.0 z.1)),
            ),
        λ h. ia.1 (
          ra.1 ((repeats-Distinct ids).1 h.0.0),
          ib.1 (
            rb.1 ((repeats-Distinct edge_ids).1 h.0.1),
            ic.1 ((edge_problems-nil ns es).1 h.1.0, rd.1 ((not-false_iff acyclic).1 h.1.1)),
          ),
        ),
      )
