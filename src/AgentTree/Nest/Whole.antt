-- ===== src/AgentTree/Nest/Whole.antt =====
-- Build loses no relation: each of them is at a node of the forest.
use mathlib.Core.Path.{subst}
use ai_engineering_productiv.Prelude.{
  ℕ, zero, suc, ◌+◌, ◌≤◌, ◌<◌, ◌≡◌, ◌≢◌, refl, sym, ap, ◌∙◌, ◌⊎◌, inl, inr, true, Option, none,
  some, List, [], ◌∷◌, arith, nat_eq, nat_eq_iff, Bool-cases, Option-cases, Has, All, All-imp,
  Apart, length, get_elem?, get_elem?-in, lt_of_get_elem?, length-Apart, map,
}
use ai_engineering_productiv.Canonical.{Event, AgentRelation}
use ai_engineering_productiv.AgentTree.{Node, classify}
use ai_engineering_productiv.AgentTree.Cycles.{join, parent_of, flag_node}
use ai_engineering_productiv.AgentTree.Cycles.Graph.{Leads, here, step, Leads-trans}
use ai_engineering_productiv.AgentTree.Cycles.Loops.{flagged}
use ai_engineering_productiv.AgentTree.Cycles.Correct.{mark_cycles_lem}
use ai_engineering_productiv.AgentTree.Nest.{
  Tree, tree, Forest, bare, plant, is_parent, children_of, roots_of, plant_all, build_tree, nest,
  make_node, build,
}
use ai_engineering_productiv.AgentTree.Nest.Total.{IsAcyclic}
use ai_engineering_productiv.AgentTree.Nest.Built.{
  left_nodes, left_parents, left-IsAcyclic, length-map, classify-All,
}

-- The relation is at a node of the tree; of a tree of the forest.
abbrev mutual
  pub InTree : AgentRelation → Tree → Type 0
  InTree r (tree n f) = (n.relation ≡ r) ⊎ InForest r f

  pub InForest : AgentRelation → Forest → Type 0
  InForest r bare = ⊥
  InForest r (plant t f) = InTree r t ⊎ InForest r f

-- The last step of the way.
Leads-last :
    (parents : List (Option ℕ)) (i j : ℕ)
    → Leads parents i j
    → (i ≡ j) ⊎ ((k : ℕ) × Leads parents i k × (parent_of parents k ≡ some j))
Leads-last parents i j here = inl refl
Leads-last parents i j (step {j = m} e l) = elim (Leads-last parents m j l) [
  | inl q ↦ inr (i, here, subst (λ z. parent_of parents i ≡ some z) q e)
  | inr (k, w, f) ↦ inr (k, step e w, f)
]

children_of-Has :
    (i start k : ℕ) (ps : List (Option ℕ))
    → join (get_elem? ps k) ≡ some i
    → Has (λ c. c ≡ start + k) (children_of i start ps)
unfolding children_of
children_of-Has i start k [] e = absurd (cc e)
children_of-Has i start zero (p ∷ ps) e =
    let same : nat_eq i i ≡ true = (nat_eq_iff i i).1 refl in rw e (rw same (inl (omega arith)))
children_of-Has i start (suc k) (p ∷ ps) e =
    let later : Has (λ c. c ≡ start + suc k) (children_of i (suc start) ps) =
      subst (λ z. Has (λ c. c ≡ z) (children_of i (suc start) ps)) (omega arith)
        (children_of-Has i (suc start) k ps e) in
    elim (Bool-cases (is_parent i p)) [ inl q ↦ rw q (inr later) | inr q ↦ rw q later ]

roots_of-Has :
    (start k : ℕ) (ps : List (Option ℕ))
    → get_elem? ps k ≡ some none
    → Has (λ c. c ≡ start + k) (roots_of start ps)
unfolding roots_of
roots_of-Has start k [] e = absurd (cc e)
roots_of-Has start zero (none ∷ ps) e = inl (omega arith)
roots_of-Has start zero (some p ∷ ps) e = absurd (cc e)
roots_of-Has start (suc k) (none ∷ ps) e = inr (
    subst (λ z. Has (λ c. c ≡ z) (roots_of (suc start) ps)) (omega arith)
      (roots_of-Has (suc start) k ps e))
roots_of-Has start (suc k) (some p ∷ ps) e =
    subst (λ z. Has (λ c. c ≡ z) (roots_of (suc start) ps)) (omega arith)
      (roots_of-Has (suc start) k ps e)

from_zero : (k : ℕ) (is : List ℕ) → Has (λ c. c ≡ 0 + k) is → Has (λ c. c ≡ k) is
from_zero k is m = let plain : 0 + k ≡ k = omega arith in subst (λ z. Has (λ c. c ≡ z) is) plain m

plant_all-Has :
    (grow : ℕ → Option Tree) (is : List ℕ) (i : ℕ) (r : AgentRelation) (f : Forest)
    → plant_all grow is ≡ some f
    → Has (λ c. c ≡ i) is
    → ((t : Tree) → grow i ≡ some t → InTree r t)
    → InForest r f
unfolding plant_all
plant_all-Has grow [] i r f e m h = absurd m
plant_all-Has grow (c ∷ is) i r f e m h = elim (Option-cases (grow c)) [
  | inl g ↦ absurd (cc (rw g at e))
  | inr (t, g) ↦ elim (Option-cases (plant_all grow is)) [
    | inl n ↦ absurd (cc (rw (g, n) at e))
    | inr (rest, n) ↦
        let made : plant t rest ≡ f = cc (rw (g, n) at e) in
        subst (InForest r) made (elim m [
          | inl q ↦ inl (h t (ap grow (sym q) ∙ g))
          | inr later ↦ inr (plant_all-Has grow is i r rest n later h)
        ])
  ]
]

-- What build_tree returns is the node of the index over the forest of its children.
build_tree-some :
    (fuel : ℕ) (nodes : List Node) (parents : List (Option ℕ)) (i : ℕ) (t : Tree)
    → build_tree (suc fuel) nodes parents i ≡ some t
    → (n : Node) × (f : Forest) × (get_elem? nodes i ≡ some n)
      × (plant_all (build_tree fuel nodes parents) (children_of i 0 parents) ≡ some f)
      × (t ≡ tree n f)
unfolding build_tree
build_tree-some fuel nodes parents i t e = elim (Option-cases (get_elem? nodes i)) [
  | inl g ↦ absurd (cc (rw g at e))
  | inr (n, g) ↦
      elim (Option-cases (plant_all (build_tree fuel nodes parents) (children_of i 0 parents))) [
        | inl p ↦ absurd (cc (rw (g, p) at e))
        | inr (f, p) ↦ (n, f, g, p, cc (rw (g, p) at e))
      ]
]

module _ (nodes : List Node) (parents : List (Option ℕ)) (i : ℕ) (n : Node)
    (at : get_elem? nodes i ≡ some n) where
  build_tree-Has :
      (fuel j : ℕ) (t : Tree)
      → Leads parents i j
      → build_tree fuel nodes parents j ≡ some t
      → InTree n.relation t
  unfolding build_tree
  build_tree-Has zero j t l e = absurd (cc e)
  build_tree-Has (suc fuel) j t l e =
      let (m, f, there, grown, made) = build_tree-some fuel nodes parents j t e in
      subst (InTree (n.relation)) (sym made) (elim (Leads-last parents i j l) [
        | inl q ↦
            let same : m ≡ n = cc (there, ap (get_elem? nodes) q, at) in
            inl (ap (λ z. z.relation) same)
        | inr (k, way, last) ↦ inr (
            plant_all-Has (build_tree fuel nodes parents) (children_of j 0 parents) k (n.relation) f
              grown (from_zero k (children_of j 0 parents) (children_of-Has j 0 k parents last))
              (λ u g. build_tree-Has fuel k u way g))
      ])

module _ (nodes : List Node) (parents : List (Option ℕ)) (acyclic : IsAcyclic nodes parents) where
  not_seen :
      (i j : ℕ) (seen : List ℕ)
      → parent_of parents i ≡ some j
      → All (λ a. Leads parents a i) seen
      → All (λ a. j ≢ a) seen
  not_seen i j seen e h =
      All-imp (λ a. Leads parents a i) (λ a. j ≢ a)
        (λ a l q. acyclic.no_loop i (j, e, subst (λ z. Leads parents z i) (sym q) l)) seen h

  -- Every index leads to a root.
  root_above :
      (fuel i : ℕ) (seen : List ℕ)
      → Apart (λ a b. a ≢ b) (i ∷ seen)
      → All (λ a. a < length nodes) (i ∷ seen)
      → All (λ a. Leads parents a i) seen
      → length nodes ≤ fuel + length seen
      → (r : ℕ) × Leads parents i r × (get_elem? parents r ≡ some none)
  root_above zero i seen apart below leads enough =
      absurd (omega (arith, length-Apart (length nodes) (i ∷ seen) apart below))
  root_above (suc fuel) i seen apart below leads enough =
      let (o, there) = get_elem?-in parents i (rw (acyclic.same_size) below.0) in
      elim (Option-cases o) [
        | inl q ↦ (i, here, there ∙ ap some q)
        | inr (j, q) ↦
            let e : parent_of parents i ≡ some j = ap join there ∙ q in
            let (r, way, top) =
              root_above fuel j (i ∷ seen) (not_seen i j (i ∷ seen) e (here, leads), apart)
                (acyclic.inside i j e, below)
                (All-imp (λ a. Leads parents a i) (λ a. Leads parents a j)
                  (λ a l. Leads-trans parents l (step e here)) (i ∷ seen) (here, leads))
                (omega arith) in
            (r, step e way, top)
      ]

  nest-Has :
      (i : ℕ) (n : Node) (f : Forest)
      → get_elem? nodes i ≡ some n
      → nest nodes parents ≡ some f
      → InForest n.relation f
  unfolding nest
  nest-Has i n f at e =
      let (r, way, top) =
        root_above (length nodes) i [] (tt, tt) (lt_of_get_elem? nodes i n at, tt) tt
          (omega arith) in
      plant_all-Has (build_tree (length nodes) nodes parents) (roots_of 0 parents) r (n.relation) f
        e (from_zero r (roots_of 0 parents) (roots_of-Has 0 r parents top))
        (λ t g. build_tree-Has nodes parents i n at (length nodes) r t way g)

get_elem?-map :
    (rs : List AgentRelation) (make : AgentRelation → Node) (i : ℕ) (r : AgentRelation)
    → get_elem? rs i ≡ some r
    → get_elem? (map make rs) i ≡ some (make r)
get_elem?-map [] make i r e = absurd (cc e)
get_elem?-map (q ∷ rs) make zero r e = ap some (ap make (let same : q ≡ r = cc e in same))
get_elem?-map (q ∷ rs) make (suc i) r e = get_elem?-map rs make i r e

-- Every relation that Build is given is at a node of the forest it returns, whatever the relations
-- name as parents.
pub build-Has :
    (relations : List AgentRelation) (events : List Event) (i : ℕ) (r : AgentRelation) (f : Forest)
    → get_elem? relations i ≡ some r
    → build relations events ≡ some f
    → InForest r f
unfolding build make_node
build-Has relations events i r f at e =
    let make = make_node relations events in
    let nodes = map make relations in
    let parents = map (λ q. (classify relations q).parent) relations in
    let below = classify-All relations relations (length nodes) (length-map relations make) in
    let size =
      length-map relations (λ q. (classify relations q).parent) ∙ sym (length-map relations make) in
    let there = get_elem?-map relations make i r at in
    let held =
      nest-Has (left_nodes nodes parents below) (left_parents nodes parents below)
        (left-IsAcyclic nodes parents below size) i in
    elim (mark_cycles_lem parents nodes below i (lt_of_get_elem? nodes i (make r) there)) [
      | inl (loop, g) ↦ held (flag_node (make r)) f (g ∙ ap flagged there) e
      | inr (no_loop, g) ↦ held (make r) f (g ∙ there) e
    ]
