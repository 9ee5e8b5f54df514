-- ===== src/AgentTree/Nest.antt =====
-- internal/agenttree/tree.go: nest and Build.
pub mod Total
pub mod Built
pub mod Whole
use ai_engineering_productiv.Prelude.{
  ℕ, zero, suc, Bool, true, false, Option, none, some, List, [], ◌∷◌, if◌then◌else◌, nat_eq, length,
  get_elem?, map,
}
use ai_engineering_productiv.Canonical.{Event, AgentRelation}
use ai_engineering_productiv.AgentTree.{Node, classify, evidence_for}
use ai_engineering_productiv.AgentTree.Cycles.{mark_cycles}

-- A Node with its children.
mutual
  pub data Tree : Type 0 where
    tree : Node → Forest → Tree

  pub data Forest : Type 0 where
    bare : Forest
    plant : Tree → Forest → Forest

abbrev pub is_parent : ℕ → Option ℕ → Bool
is_parent i none = false
is_parent i (some j) = nat_eq i j

-- `children[i]`, from the parents of the indices from `start` on.
unfoldable pub children_of : ℕ → ℕ → List (Option ℕ) → List ℕ
children_of i start [] = []
children_of i start (p ∷ ps) =
    let rest = children_of i (suc start) ps in if is_parent i p then start ∷ rest else rest

unfoldable pub roots_of : ℕ → List (Option ℕ) → List ℕ
roots_of start [] = []
roots_of start (none ∷ ps) = start ∷ roots_of (suc start) ps
roots_of start (some p ∷ ps) = roots_of (suc start) ps

abbrev pub plant_both : Option Tree → Option Forest → Option Forest
plant_both (some t) (some f) = some (plant t f)
plant_both _ _ = none

abbrev pub make_tree : Option Node → Option Forest → Option Tree
make_tree (some n) (some f) = some (tree n f)
make_tree _ _ = none

-- The children that the loop appends, each built.
unfoldable pub plant_all : (ℕ → Option Tree) → List ℕ → Option Forest
plant_all grow [] = some bare
plant_all grow (i ∷ is) = plant_both (grow i) (plant_all grow is)

-- The recursive `build`, on fuel; `none` where the fuel is used up.
unfoldable pub build_tree : ℕ → List Node → List (Option ℕ) → ℕ → Option Tree
unfolding children_of plant_all
build_tree zero nodes parents i = none
build_tree (suc fuel) nodes parents i =
    make_tree (get_elem? nodes i)
      (plant_all (build_tree fuel nodes parents) (children_of i 0 parents))

-- nest
unfoldable pub nest : List Node → List (Option ℕ) → Option Forest
unfolding build_tree plant_all roots_of
nest nodes parents = plant_all (build_tree (length nodes) nodes parents) (roots_of 0 parents)

unfoldable pub make_node : List AgentRelation → List Event → AgentRelation → Node
unfolding classify evidence_for
make_node relations events r = record {
  relation = r;
  parent_state = (classify relations r).state;
  parent_candidates = (classify relations r).candidates;
  evidence = evidence_for events r;
}

-- Build
unfoldable pub build : List AgentRelation → List Event → Option Forest
unfolding make_node classify mark_cycles nest
build relations events =
    let (nodes, parents) =
      mark_cycles (map (make_node relations events) relations)
        (map (λ r. (classify relations r).parent) relations) in
    nest nodes parents
