-- ===== src/Tests/Agents.antt =====
-- The theorems of AgentTree at examples.
use ai_engineering_productiv.Prelude.{
  ℕ, String, ◌≡◌, ◌⊎◌, refl, Option, some, List, [], ◌∷◌, get_elem?, arith,
}
use ai_engineering_productiv.Canonical.{end, AgentRelation}
use ai_engineering_productiv.AgentTree.{Node, unknown}
use ai_engineering_productiv.AgentTree.Cycles.{mark_cycles}
use ai_engineering_productiv.AgentTree.Cycles.Graph.{OnLoop}
use ai_engineering_productiv.AgentTree.Cycles.Loops.{flagged}
use ai_engineering_productiv.AgentTree.Cycles.Correct.{mark_cycles_lem}
use ai_engineering_productiv.AgentTree.Nest.{Forest, build}
use ai_engineering_productiv.AgentTree.Nest.Built.{build_ends}
use ai_engineering_productiv.AgentTree.Nest.Whole.{InForest, build-Has}
use ai_engineering_productiv.Tests.{trace}

-- Two agents that name each other as parents, and one below them.
abbrev agent : String → String → AgentRelation
agent id parent = record {
  relation_id = id;
  session_id = "s1";
  trace_id = "t1";
  tool = "claude-code";
  agent_id = id;
  parent_agent_id = some parent;
  provider_extensions = end;
}

abbrev agents : List AgentRelation
agents = agent "a" "b" ∷ agent "b" "a" ∷ agent "c" "a" ∷ []

abbrev agent_node : AgentRelation → Node
agent_node r = record {
  relation = r;
  parent_state = unknown;
  parent_candidates = [];
  evidence = [];
}

abbrev agent_nodes : List Node
agent_nodes =
    agent_node (agent "a" "b") ∷ agent_node (agent "b" "a") ∷ agent_node (agent "c" "a") ∷ []

abbrev agent_parents : List (Option ℕ)
agent_parents = some 1 ∷ some 0 ∷ some 0 ∷ []

mark_cycles_lem_example :
    (OnLoop agent_parents 2
      × (get_elem? (mark_cycles agent_nodes agent_parents).0 2 ≡ flagged (get_elem? agent_nodes 2)))
    ⊎ (¬ (OnLoop agent_parents 2)
        × (get_elem? (mark_cycles agent_nodes agent_parents).0 2 ≡ get_elem? agent_nodes 2))
mark_cycles_lem_example =
    mark_cycles_lem agent_parents agent_nodes (omega arith, (omega arith, (omega arith, tt))) 2
      (omega arith)

build_ends_example : (f : Forest) × (build agents trace ≡ some f)
build_ends_example = build_ends agents trace

build-Has_example : InForest (agent "c" "a") (build_ends agents trace).0
build-Has_example =
    build-Has agents trace 2 (agent "c" "a") (build_ends agents trace).0 refl
      (build_ends agents trace).1
