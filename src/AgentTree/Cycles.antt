-- ===== src/AgentTree/Cycles.antt =====
-- internal/agenttree/tree.go: markCycles and flagLoop. The path of a walk is kept with its last node
-- first. Every index that is read is one of the list.
pub mod Graph
pub mod Walked
pub mod Loops
pub mod Correct
use ai_engineering_productiv.Prelude.{
  ℕ, zero, suc, Bool, true, false, Option, none, some, List, [], ◌∷◌, if◌then◌else◌, nat_eq, length,
  get_elem?, set,
}
use ai_engineering_productiv.AgentTree.{ParentState, cycle, Node}

pub data Mark : Type 0 where
  unvisited on_path settled : Mark

abbrev pub is_unvisited : Option Mark → Bool
is_unvisited (some unvisited) = true
is_unvisited _ = false

abbrev pub is_on_path : Option Mark → Bool
is_on_path (some on_path) = true
is_on_path _ = false

-- `parents[i]`
abbrev pub join {ℓ} : {A : Type ℓ} → Option (Option A) → Option A
join none = none
join (some o) = o

abbrev pub parent_of : List (Option ℕ) → ℕ → Option ℕ
parent_of parents i = join (get_elem? parents i)

pub record Walk : Type 0 where
  pub marks : List Mark
  pub path : List ℕ
  pub current : Option ℕ

-- The body of the inner loop.
abbrev pub advance : List (Option ℕ) → Walk → ℕ → Walk
advance parents w i = record {
  marks = set w.marks i on_path;
  path = i ∷ w.path;
  current = parent_of parents i;
}

-- The inner loop, on fuel.
unfoldable pub walk : ℕ → List (Option ℕ) → Walk → Walk
walk zero parents w = w
walk (suc fuel) parents w = elim (w.current) [
  | none ↦ w
  | some i ↦
      let rest = walk fuel parents (advance parents w i) in
      if is_unvisited (get_elem? w.marks i) then rest else w
]

abbrev pub flag_node : Node → Node
flag_node n = record n { parent_state = cycle }

-- `nodes[i].ParentState = ParentCycle`
unfoldable pub flag : List Node → ℕ → List Node
flag [] i = []
flag (n ∷ ns) zero = flag_node n ∷ ns
flag (n ∷ ns) (suc i) = n ∷ flag ns i

-- flagLoop
unfoldable pub flag_loop : List Node → List ℕ → ℕ → List Node
unfolding flag
flag_loop nodes [] reentered = nodes
flag_loop nodes (i ∷ path) reentered =
    let rest = flag_loop (flag nodes i) path reentered in
    if nat_eq i reentered then flag nodes i else rest

unfoldable pub settle : List ℕ → List Mark → List Mark
settle [] marks = marks
settle (i ∷ path) marks = settle path (set marks i settled)

-- The nodes after the walk: a loop is flagged where the walk met itself.
unfoldable pub after_walk : List Node → Walk → List Node
unfolding flag_loop
after_walk nodes w = elim (w.current) [
  | none ↦ nodes
  | some i ↦ if is_on_path (get_elem? w.marks i) then flag_loop nodes w.path i else nodes
]

-- The outer loop over the starts that are left.
unfoldable pub mark_from : ℕ → ℕ → List (Option ℕ) → List Mark → List Node → List Node
unfolding walk settle after_walk
mark_from zero start parents marks nodes = nodes
mark_from (suc left) start parents marks nodes =
    let w =
      walk (suc (length nodes)) parents
        (record { marks = marks; path = []; current = some start }) in
    mark_from left (suc start) parents (settle w.path w.marks) (after_walk nodes w)

abbrev pub all_unvisited : List Node → List Mark
all_unvisited [] = []
all_unvisited (n ∷ ns) = unvisited ∷ all_unvisited ns

abbrev pub is_cycle : ParentState → Bool
is_cycle cycle = true
is_cycle _ = false

-- The last loop: a flagged node has no parent.
unfoldable pub cut_parents : List Node → List (Option ℕ) → List (Option ℕ)
cut_parents [] parents = parents
cut_parents (n ∷ ns) [] = []
cut_parents (n ∷ ns) (p ∷ parents) =
    (if is_cycle n.parent_state then none else p) ∷ cut_parents ns parents

-- markCycles: the nodes and the parents it leaves.
unfoldable pub mark_cycles : List Node → List (Option ℕ) → List Node × List (Option ℕ)
unfolding mark_from cut_parents
mark_cycles nodes parents =
    let marked = mark_from (length nodes) 0 parents (all_unvisited nodes) nodes in
    (marked, cut_parents marked parents)
