-- ===== src/AgentTree/Nest/Total.antt =====
-- Without loops among the parents, the recursion of nest ends.
use mathlib.Core.Path.{subst}
use ai_engineering_productiv.Prelude.{
  ℕ, zero, suc, ◌+◌, ◌≤◌, ◌<◌, ◌≡◌, ◌≢◌, refl, sym, ap, ◌∙◌, inl, inr, true, Option, none, some,
  List, [], ◌∷◌, arith, nat_eq_iff, Bool-cases, All, All-imp, Apart, length, get_elem?,
  get_elem?-in, length-Apart,
}
use ai_engineering_productiv.AgentTree.{Node}
use ai_engineering_productiv.AgentTree.Cycles.{join, parent_of}
use ai_engineering_productiv.AgentTree.Cycles.Graph.{Leads, here, step, OnLoop}
use ai_engineering_productiv.AgentTree.Nest.{
  Tree, tree, Forest, bare, plant, is_parent, children_of, roots_of, plant_all, build_tree, nest,
}

is_parent-some : (i : ℕ) (p : Option ℕ) → is_parent i p ≡ true → some p ≡ some (some i)
is_parent-some i none e = absurd (cc e)
is_parent-some i (some j) e = ap (λ z. some (some z)) (sym ((nat_eq_iff i j).0 e))

children_of-at :
    (i start : ℕ) (ps : List (Option ℕ))
    → All
        (λ c. (k : ℕ) × (c ≡ start + k) × (get_elem? ps k ≡ some (some i)))
        (children_of i start ps)
unfolding children_of
children_of-at i start [] = tt
children_of-at i start (p ∷ ps) =
    let later =
      All-imp (λ c. (k : ℕ) × (c ≡ suc start + k) × (get_elem? ps k ≡ some (some i)))
        (λ c. (k : ℕ) × (c ≡ start + k) × (get_elem? (p ∷ ps) k ≡ some (some i)))
        (λ c (k, e, g). (suc k, e ∙ omega arith, g)) (children_of i (suc start) ps)
        (children_of-at i (suc start) ps) in
    elim (Bool-cases (is_parent i p)) [
      | inl e ↦ rw e ((0, omega arith, is_parent-some i p e), later)
      | inr e ↦ rw e later
    ]

pub children_of-parent :
    (i : ℕ) (parents : List (Option ℕ))
    → All (λ c. parent_of parents c ≡ some i) (children_of i 0 parents)
children_of-parent i parents =
    All-imp (λ c. (k : ℕ) × (c ≡ 0 + k) × (get_elem? parents k ≡ some (some i)))
      (λ c. parent_of parents c ≡ some i)
      (λ c (k, e, g). let plain : c ≡ k = e ∙ omega arith in rw plain (ap join g))
      (children_of i 0 parents) (children_of-at i 0 parents)

roots_of-in :
    (start : ℕ) (ps : List (Option ℕ)) → All (λ r. r < start + length ps) (roots_of start ps)
unfolding roots_of
roots_of-in start [] = tt
roots_of-in start (none ∷ ps) = (
  omega arith,
  All-imp (λ r. r < suc start + length ps) (λ r. r < start + suc (length ps)) (λ r l. omega arith)
      (roots_of (suc start) ps) (roots_of-in (suc start) ps),
)
roots_of-in start (some p ∷ ps) =
    All-imp (λ r. r < suc start + length ps) (λ r. r < start + suc (length ps)) (λ r l. omega arith)
      (roots_of (suc start) ps) (roots_of-in (suc start) ps)

pub plant_all-total :
    (grow : ℕ → Option Tree) (is : List ℕ)
    → All (λ i. (t : Tree) × (grow i ≡ some t)) is
    → (f : Forest) × (plant_all grow is ≡ some f)
unfolding plant_all
plant_all-total grow [] h = (bare, refl)
plant_all-total grow (i ∷ is) ((t, e), h) =
    let (f, g) = plant_all-total grow is h in (plant t f, rw (e, g) refl)

-- Every parent is an index, every index has a parent entry, and nothing is on a loop.
pub record IsAcyclic (nodes : List Node) (parents : List (Option ℕ)) : Type 0 where
  pub same_size : length parents ≡ length nodes
  pub inside : (i j : ℕ) → parent_of parents i ≡ some j → j < length nodes
  pub no_loop : (i : ℕ) → ¬ (OnLoop parents i)

pub parent_of-lt :
    (parents : List (Option ℕ)) (i j : ℕ) → parent_of parents i ≡ some j → i < length parents
parent_of-lt [] i j e = absurd (cc e)
parent_of-lt (p ∷ ps) zero j e = omega arith
parent_of-lt (p ∷ ps) (suc i) j e = omega (arith, parent_of-lt ps i j e)

All-step :
    (parents : List (Option ℕ)) (c i : ℕ) (above : List ℕ)
    → parent_of parents c ≡ some i
    → All (Leads parents i) above
    → All (Leads parents c) above
All-step parents c i above e h =
    All-imp (Leads parents i) (Leads parents c) (λ a l. step e l) above h

module _ (nodes : List Node) (parents : List (Option ℕ)) (acyclic : IsAcyclic nodes parents) where
  not_above :
      (c i : ℕ) (above : List ℕ)
      → parent_of parents c ≡ some i
      → All (Leads parents i) above
      → All (λ a. c ≢ a) above
  not_above c i above e h =
      All-imp (Leads parents i) (λ a. c ≢ a)
        (λ a l q. acyclic.no_loop c (i, e, subst (Leads parents i) (sym q) l)) above h

  build_tree-total :
      (fuel i : ℕ) (above : List ℕ)
      → Apart (λ a b. a ≢ b) (i ∷ above)
      → All (λ a. a < length nodes) (i ∷ above)
      → All (Leads parents i) above
      → length nodes ≤ fuel + length above
      → (t : Tree) × (build_tree fuel nodes parents i ≡ some t)
  unfolding build_tree
  build_tree-total zero i above apart below leads enough =
      absurd (omega (arith, length-Apart (length nodes) (i ∷ above) apart below))
  build_tree-total (suc fuel) i above apart below leads enough =
      let (n, there) = get_elem?-in nodes i below.0 in
      let (f, grown) = plant_all-total (build_tree fuel nodes parents) (children_of i 0 parents) (
        All-imp (λ c. parent_of parents c ≡ some i)
          (λ c. (t : Tree) × (build_tree fuel nodes parents c ≡ some t))
          (λ c e.
            build_tree-total fuel c (i ∷ above) ((not_above c i (i ∷ above) e (here, leads)), apart)
              (rw⁻¹ acyclic.same_size (parent_of-lt parents c i e), below)
              (All-step parents c i (i ∷ above) e (here, leads)) (omega arith))
          (children_of i 0 parents) (children_of-parent i parents)) in
      (tree n f, rw (there, grown) refl)

  -- The recursion of nest ends: a forest comes out within as many levels as there are nodes.
  pub nest_ends : (f : Forest) × (nest nodes parents ≡ some f)
  unfolding nest
  nest_ends = plant_all-total (build_tree (length nodes) nodes parents) (roots_of 0 parents) (
      All-imp (λ r. r < 0 + length parents)
        (λ r. (t : Tree) × (build_tree (length nodes) nodes parents r ≡ some t))
        (λ r l.
          build_tree-total (length nodes) r [] (tt, tt) (omega (arith, acyclic.same_size), tt) tt
            (omega arith))
        (roots_of 0 parents) (roots_of-in 0 parents))
