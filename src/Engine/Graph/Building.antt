-- ===== src/Engine/Graph/Building.antt =====
-- `Workflow.add_node` and `add_edge` (packages/engine/src/models/workflow.py), and the round trip of
-- an edge's configuration.
use vanguard_runner.Base.{
  ℕ, ◌<◌, ◌≤◌, nat_eq, not, arith, Bool, false, Option, none, some, List, [], ◌∷◌, ◌++◌,
  if◌then◌else◌, ◌≡◌, refl, sym, ap, ◌∙◌,
}
use mathlib.Core.List.{append-nil, append_assoc}
use vanguard_runner.Model.{Json, null, end}
use vanguard_runner.Model.Dicts.{get_json, put_value, get_field-put_value, get_json-put_value}
use vanguard_runner.Engine.Services.{Node}
use vanguard_runner.Engine.Graph.{
  Edge, EdgeConfig, config_to_dict, config_from_dict, is_truthy, insert_nodes, insert_edges,
  build_graph,
}

module _ {G : Type 0} (empty : G) (insert_node : Node → G → G) (insert_edge : Edge → G → G)
    (number_of_nodes : G → ℕ) (is_directed_acyclic : G → Bool) where
  abbrev pub truthy_graph : G → Bool
  truthy_graph = is_truthy empty insert_node insert_edge number_of_nodes is_directed_acyclic

  -- the nodes, the edges and the graph of a workflow
  pub record Parts : Type 0 where
    pub nodes : List Node
    pub edges : List Edge
    pub graph : G

  abbrev pub add_node : Node → Parts → Parts
  add_node n w = record w {
    nodes = w.nodes ++ (n ∷ []);
    graph = if truthy_graph w.graph then insert_node n w.graph else w.graph;
  }

  abbrev pub add_edge : Edge → Parts → Parts
  add_edge e w = record w {
    edges = w.edges ++ (e ∷ []);
    graph = if truthy_graph w.graph then insert_edge e w.graph else w.graph;
  }

  abbrev pub add_nodes : List Node → Parts → Parts
  add_nodes [] w = w
  add_nodes (n ∷ ns) w = add_nodes ns (add_node n w)

  add_node-falsy :
      (n : Node) (w : Parts)
      → truthy_graph w.graph ≡ false
      → add_node n w ≡ record w { nodes = w.nodes ++ (n ∷ []) }
  add_node-falsy n w h =
      ap
        (λ b. record w {
          nodes = w.nodes ++ (n ∷ []);
          graph = if b then insert_node n w.graph else w.graph;
        })
        h

  add_nodes-falsy :
      (ns : List Node) (w : Parts)
      → truthy_graph w.graph ≡ false
      → add_nodes ns w ≡ record w { nodes = w.nodes ++ ns }
  add_nodes-falsy [] w h = ap (λ xs. record w { nodes = xs }) (sym (append-nil w.nodes))
  add_nodes-falsy (n ∷ ns) w h =
      ap (add_nodes ns) (add_node-falsy n w h)
      ∙ (add_nodes-falsy ns (record w { nodes = w.nodes ++ (n ∷ []) }) h
          ∙ ap (λ xs. record w { nodes = xs }) (append_assoc w.nodes (n ∷ []) ns))

  -- a workflow that begins without nodes and edges, with an empty graph
  abbrev pub new_parts : Parts
  new_parts = record { nodes = []; edges = []; graph = empty }

  -- What is relied on of networkx's graphs: an empty one has no nodes, and one into which a node was
  -- inserted has some, also after an edge was added.
  module _ (none_at_first : number_of_nodes empty ≡ 0)
      (some_after : (n : Node) (g : G) → 0 < number_of_nodes (insert_node n g))
      (no_fewer : (e : Edge) (g : G) → number_of_nodes g ≤ number_of_nodes (insert_edge e g)) where
    insert_nodes-some :
        (ns : List Node) (g : G)
        → 0 < number_of_nodes g
        → 0
          < number_of_nodes
              (insert_nodes empty insert_node insert_edge number_of_nodes is_directed_acyclic ns g)
    insert_nodes-some [] g h = h
    insert_nodes-some (n ∷ ns) g h = insert_nodes-some ns (insert_node n g) (some_after n g)

    insert_edges-some :
        (es : List Edge) (g : G)
        → 0 < number_of_nodes g
        → 0
          < number_of_nodes
              (insert_edges empty insert_node insert_edge number_of_nodes is_directed_acyclic es g)
    insert_edges-some [] g h = h
    insert_edges-some (e ∷ es) g h =
        insert_edges-some es (insert_edge e g) (omega (arith, h, no_fewer e g))

    -- A workflow that begins empty and is given nodes by `add_node`, at least one, has them all in its
    -- list, and a graph with no node; the graph that `build_graph` makes of that list, and of any
    -- edges, has at least one. The conditions are that an empty graph of networkx has no nodes, that
    -- one with a node inserted has some, and that an edge takes none away.
    pub add_nodes-misses :
        (n : Node) (ns : List Node) (es : List Edge)
        → let w = add_nodes (n ∷ ns) new_parts in
          (w.nodes ≡ n ∷ ns)
          × ((number_of_nodes w.graph ≡ 0)
              × (0
                  < number_of_nodes (
                      build_graph empty insert_node insert_edge number_of_nodes is_directed_acyclic
                        w.nodes es)))
    add_nodes-misses n ns es =
        let h : add_nodes (n ∷ ns) new_parts ≡ record new_parts { nodes = n ∷ ns } =
          add_nodes-falsy (n ∷ ns) new_parts (ap (λ k. not (nat_eq k 0)) none_at_first) in
        rw h (
          refl,
          (
            none_at_first,
            insert_edges-some es _
                (insert_nodes-some ns (insert_node n empty) (some_after n empty)),
          ),
        )

-- Reading the dictionary of an edge's configuration back gives the configuration.
pub config_from_dict-config_to_dict : (c : EdgeConfig) → config_from_dict (config_to_dict c) ≡ c
config_from_dict-config_to_dict c =
    let d3 = put_value "weight" c.weight end in
    let d2 = put_value "condition" c.condition d3 in
    let d1 = put_value "target_handle" c.target_handle d2 in
    let read : Option Json → Json = λ o. elim o [ none ↦ null | some v ↦ v ] in
    let a : get_json "source_handle" (config_to_dict c) ≡ c.source_handle =
      get_json-put_value "source_handle" c.source_handle d1 (
        get_field-put_value "target_handle" "source_handle" c.target_handle d2 refl
        ∙ get_field-put_value "condition" "source_handle" c.condition d3 refl
        ∙ get_field-put_value "weight" "source_handle" c.weight end refl) in
    let b : get_json "target_handle" (config_to_dict c) ≡ c.target_handle =
      ap read (get_field-put_value "source_handle" "target_handle" c.source_handle d1 refl)
      ∙ get_json-put_value "target_handle" c.target_handle d2 (
          get_field-put_value "condition" "target_handle" c.condition d3 refl
          ∙ get_field-put_value "weight" "target_handle" c.weight end refl) in
    let e : get_json "condition" (config_to_dict c) ≡ c.condition =
      ap read (
        get_field-put_value "source_handle" "condition" c.source_handle d1 refl
        ∙ get_field-put_value "target_handle" "condition" c.target_handle d2 refl)
      ∙ get_json-put_value "condition" c.condition d3
          (get_field-put_value "weight" "condition" c.weight end refl) in
    let w : get_json "weight" (config_to_dict c) ≡ c.weight =
      ap read (
        get_field-put_value "source_handle" "weight" c.source_handle d1 refl
        ∙ get_field-put_value "target_handle" "weight" c.target_handle d2 refl
        ∙ get_field-put_value "condition" "weight" c.condition d3 refl)
      ∙ get_json-put_value "weight" c.weight end refl in
    rw (a, b, e, w) refl
