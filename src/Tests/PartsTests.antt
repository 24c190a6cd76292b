-- ===== src/Tests/PartsTests.antt =====
-- The theorems on the graphs and the loops of the engine at sample data.
use vanguard_runner.Base.{
  ℕ, suc, arith, ◌<◌, ◌≡◌, ◌↔◌, refl, String, true, Option, some, List, [], ◌∷◌, map, All,
}
use vanguard_runner.Model.{Items, null, num, str, arr, nil, cons}
use vanguard_runner.Model.Dicts.{set_field}
use vanguard_runner.Engine.Services.{Node, Context, set_variable}
use vanguard_runner.Engine.Loops.{execute_count_loop, execute_while_loop}
use vanguard_runner.Engine.Loops.Bounds.{Bounded, holds, size, execute_while_loop-Bounded}
use vanguard_runner.Engine.Loops.Rounds.{Rounds, execute_count_loop-Rounds}
use vanguard_runner.Engine.Graph.{
  EdgeConfig, validate, build_graph, is_acyclic, config_to_dict, config_from_dict,
}
use vanguard_runner.Engine.Graph.Validation.{Distinct, Connected, validate-nil}
use vanguard_runner.Engine.Graph.Building.{
  new_parts, add_nodes, add_nodes-misses, config_from_dict-config_to_dict,
}
use vanguard_runner.Tests.EngineTests.{a_node, nodes, no_context}

-- a graph that only counts its nodes
validate-nil_example :
    (validate 0 (λ n g. suc g) (λ e g. g) (λ g. g) (λ g. true) nodes [] 4 ≡ []) ↔ (
      (Distinct (map (λ n. n.id) nodes) × Distinct [])
      × (All (Connected nodes) []
          × (is_acyclic 0 (λ n g. suc g) (λ e g. g) (λ g. g) (λ g. true) 4 ≡ true)))
validate-nil_example = validate-nil 0 (λ n g. suc g) (λ e g. g) (λ g. g) (λ g. true) nodes [] 4

abbrev two_nodes : List Node
two_nodes = a_node "a" "script" ∷ a_node "b" "condition" ∷ []

-- a graph that only counts its nodes, for which an edge changes nothing
add_nodes-misses_example :
    let w =
      add_nodes 0
        (λ n g. suc g)
        (λ e g. g)
        (λ g. g)
        (λ g. true)
        two_nodes
        (new_parts 0 (λ n g. suc g) (λ e g. g) (λ g. g) (λ g. true)) in
    (w.nodes ≡ two_nodes)
    × ((w.graph ≡ 0)
        × (0 < build_graph 0 (λ n g. suc g) (λ e g. g) (λ g. g) (λ g. true) w.nodes []))
add_nodes-misses_example =
    add_nodes-misses 0 (λ n g. suc g) (λ e g. g) (λ g. g) (λ g. true) refl (λ n g. omega arith)
      (λ e g. omega arith) (a_node "a" "script") (a_node "b" "condition" ∷ []) []

abbrev edge_config : EdgeConfig
edge_config = record {
  source_handle = str "true";
  target_handle = null;
  condition = null;
  weight = num 2;
}

config_from_dict-config_to_dict_example :
    config_from_dict (config_to_dict edge_config) ≡ edge_config
config_from_dict-config_to_dict_example = config_from_dict-config_to_dict edge_config

-- sub nodes that leave a variable and give a result
abbrev count_up : ℕ → Context → Context × Items
count_up i c = (set_variable "total" (num i) c, cons (num i) nil)

-- sub nodes without an effect
abbrev round : ℕ → Context → Context × Items
round i c = (c, nil)

abbrev parts : String → List String
parts t = "iteration " ∷ " 3" ∷ []

abbrev three : String → Option ℕ
three t = some 3

execute_count_loop-Rounds_example :
    let e = execute_count_loop count_up 4 "loop_result" no_context in
    ((e.iterations ≡ 4) × (size e.results ≡ 4))
    × ((last : Context) × (Rounds count_up 4 0 no_context e.results last
          × ((e.context.variables ≡ set_field "loop_result" (arr e.results) last.variables)
              × (e.context.node_results ≡ last.node_results))))
execute_count_loop-Rounds_example = execute_count_loop-Rounds count_up 4 "loop_result" no_context

execute_while_loop-Bounded_example :
    Bounded (holds round (λ a b. true) parts three "iteration < 3") 0 10 (
      execute_while_loop round
        (λ a b. true)
        parts
        three
        "iteration < 3"
        10
        "loop_result"
        no_context)
execute_while_loop-Bounded_example =
    execute_while_loop-Bounded round (λ a b. true) parts three "iteration < 3" 10 "loop_result"
      no_context
