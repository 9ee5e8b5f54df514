-- ===== src/AgentTree/Nest/Built.antt =====
-- Build ends on every input: markCycles leaves no loop for nest.
use mathlib.Core.Path.{subst}
use ai_engineering_productiv.Prelude.{
  ℕ, zero, suc, String, ◌==◌, ltb, ◌+◌, ◌≤◌, ◌<◌, ◌≡◌, refl, sym, ap, ◌∙◌, inl, inr, Bool, false,
  ◌&&◌, not, Option, none, some, List, [], ◌∷◌, arith, Bool-cases, Option-cases, All, length,
  get_elem?, get_elem?-in, map,
}
use ai_engineering_productiv.Canonical.{
  get_field, text_or_empty, as_object, object_or_empty, Event, AgentRelation,
}
use ai_engineering_productiv.AgentTree.{
  Node, is_some, string_list, index_of, relation_key, classify, classify_child, classify_orphan,
}
use ai_engineering_productiv.AgentTree.Cycles.{
  Mark, Walk, walk, settle, after_walk, is_on_path, parent_of, flag_node, is_cycle, mark_from,
  cut_parents, mark_cycles,
}
use ai_engineering_productiv.AgentTree.Cycles.Graph.{Leads, here, step, OnLoop}
use ai_engineering_productiv.AgentTree.Cycles.Loops.{flagged, length-flag_loop}
use ai_engineering_productiv.AgentTree.Cycles.Correct.{IsBelow, IsBelow-of_All, mark_cycles_lem}
use ai_engineering_productiv.AgentTree.Nest.{Forest, make_node, build}
use ai_engineering_productiv.AgentTree.Nest.Total.{IsAcyclic, parent_of-lt, nest_ends}

length-after_walk : (nodes : List Node) (w : Walk) → length (after_walk nodes w) ≡ length nodes
unfolding after_walk
length-after_walk nodes w = elim (Option-cases (w.current)) [
  | inl e ↦ rw e refl
  | inr (c, e) ↦ elim (Bool-cases (is_on_path (get_elem? w.marks c))) [
    | inl p ↦ rw e (rw p (length-flag_loop w.path nodes c))
    | inr p ↦ rw e (rw p refl)
  ]
]

length-mark_from :
    (left start : ℕ) (parents : List (Option ℕ)) (marks : List Mark) (nodes : List Node)
    → length (mark_from left start parents marks nodes) ≡ length nodes
unfolding mark_from
length-mark_from zero start parents marks nodes = refl
length-mark_from (suc left) start parents marks nodes =
    let w =
      walk (suc (length nodes)) parents
        (record { marks = marks; path = []; current = some start }) in
    length-mark_from left (suc start) parents (settle w.path w.marks) (after_walk nodes w)
    ∙ length-after_walk nodes w

length-cut_parents :
    (nodes : List Node) (parents : List (Option ℕ))
    → length (cut_parents nodes parents) ≡ length parents
unfolding cut_parents
length-cut_parents [] parents = refl
length-cut_parents (n ∷ ns) [] = refl
length-cut_parents (n ∷ ns) (p ∷ parents) = ap suc (length-cut_parents ns parents)

-- A parent that is left was there before, and its node is not flagged.
cut_parents-parent :
    (nodes : List Node) (parents : List (Option ℕ)) (i j : ℕ)
    → parent_of (cut_parents nodes parents) i ≡ some j
    → (parent_of parents i ≡ some j)
      × ((n : Node) → get_elem? nodes i ≡ some n → is_cycle n.parent_state ≡ false)
unfolding cut_parents
cut_parents-parent [] parents i j e = (e, λ n g. absurd (cc g))
cut_parents-parent (m ∷ ns) [] i j e = absurd (cc e)
cut_parents-parent (m ∷ ns) (p ∷ parents) zero j e = elim (Bool-cases (is_cycle m.parent_state)) [
  | inl c ↦ absurd (cc (rw c at e))
  | inr c ↦
      (rw c at e, λ n g. let q : m ≡ n = cc g in subst (λ z. is_cycle z.parent_state ≡ false) q c)
]
cut_parents-parent (m ∷ ns) (p ∷ parents) (suc i) j e = cut_parents-parent ns parents i j e

module _ (nodes : List Node) (parents : List (Option ℕ))
    (below : All (IsBelow (length nodes)) parents) where
  abbrev pub left_nodes : List Node
  left_nodes = (mark_cycles nodes parents).0

  abbrev pub left_parents : List (Option ℕ)
  left_parents = (mark_cycles nodes parents).1

  left-parent :
      (i j : ℕ)
      → parent_of left_parents i ≡ some j
      → (parent_of parents i ≡ some j)
        × ((n : Node) → get_elem? left_nodes i ≡ some n → is_cycle n.parent_state ≡ false)
  unfolding mark_cycles
  left-parent i j e = cut_parents-parent left_nodes parents i j e

  left-Leads : (i j : ℕ) → Leads left_parents i j → Leads parents i j
  left-Leads i j here = here
  left-Leads i j (step {j = k} e l) = step (left-parent i k e).0 (left-Leads k j l)

  left-not_OnLoop : length parents ≡ length nodes → (i : ℕ) → ¬ (OnLoop left_parents i)
  left-not_OnLoop size i (j, e, l) =
      let (old, free) = left-parent i j e in
      let inside : i < length nodes = rw⁻¹ size (parent_of-lt parents i j old) in
      let (n, there) = get_elem?-in nodes i inside in
      elim (mark_cycles_lem parents nodes below i inside) [
        | inl (loop, f) ↦ absurd (cc (free (flag_node n) (f ∙ ap flagged there)))
        | inr (no_loop, f) ↦ no_loop (j, old, left-Leads j i l)
      ]

  pub left-IsAcyclic : length parents ≡ length nodes → IsAcyclic left_nodes left_parents
  unfolding mark_cycles
  left-IsAcyclic size =
      let same : length left_nodes ≡ length nodes =
        length-mark_from (length nodes) 0 parents _ nodes in
      record {
        same_size = length-cut_parents left_nodes parents ∙ size ∙ sym same;
        inside = λ i j e.
            rw same (IsBelow-of_All (length nodes) parents i j below (left-parent i j e).0);
        no_loop = left-not_OnLoop size;
      }

index_of-IsBelow :
    (relations : List AgentRelation) (start n : ℕ) (key : String)
    → start + length relations ≤ n
    → IsBelow n (index_of relations start key)
unfolding index_of
index_of-IsBelow [] start n key h = tt
index_of-IsBelow (r ∷ rs) start n key h = elim (Option-cases (index_of rs (suc start) key)) [
  | inr (j, e) ↦ rw e (subst (IsBelow n) e (index_of-IsBelow rs (suc start) n key (omega arith)))
  | inl e ↦ elim (Bool-cases (relation_key r.trace_id r.agent_id == key)) [
    | inl q ↦ rw (e, q) (omega arith)
    | inr q ↦ rw (e, q) tt
  ]
]

classify_orphan-parent :
    (has_spawn : Bool) (spawner : String) → (classify_orphan has_spawn spawner).parent ≡ none
unfolding classify_orphan
classify_orphan-parent has_spawn spawner = ground arith

classify_child-IsBelow :
    (relations : List AgentRelation) (trace parent spawner : String)
    → IsBelow (length relations) (classify_child relations trace parent spawner).parent
unfolding classify_child
classify_child-IsBelow relations trace parent spawner =
    elim (Bool-cases (not (spawner == "") && not (spawner == parent))) [
      | inl c ↦ rw c tt
      | inr c ↦ rw c (elim (Option-cases (index_of relations 0 (relation_key trace parent))) [
        | inl e ↦ rw e tt
        | inr (j, e) ↦ rw e (
            subst (IsBelow (length relations)) e (
              index_of-IsBelow relations 0 (length relations) (relation_key trace parent)
                (omega arith)))
      ])
    ]

classify-IsBelow :
    (relations : List AgentRelation) (r : AgentRelation)
    → IsBelow (length relations) (classify relations r).parent
unfolding classify
classify-IsBelow relations r =
    let spawn = get_field r.provider_extensions "spawn" in
    elim (Bool-cases
      (ltb 1 (length (string_list (get_field r.provider_extensions "parent_agent_ids"))))) [
        | inl c ↦ rw c tt
        | inr c ↦ rw c (elim (Option-cases (r.parent_agent_id)) [
          | inl e ↦ rw e (
              rw
                (classify_orphan-parent (is_some (as_object spawn))
                  (text_or_empty (get_field (object_or_empty spawn) "agent_id")))
                tt)
          | inr (p, e) ↦ rw e (
              classify_child-IsBelow relations r.trace_id p
                (text_or_empty (get_field (object_or_empty spawn) "agent_id")))
        ])
      ]

pub length-map :
    {B : Type 0} (rs : List AgentRelation) (f : AgentRelation → B) → length (map f rs) ≡ length rs
length-map [] f = refl
length-map (r ∷ rs) f = ap suc (length-map rs f)

pub classify-All :
    (relations rs : List AgentRelation) (n : ℕ)
    → n ≡ length relations
    → All (IsBelow n) (map (λ r. (classify relations r).parent) rs)
classify-All relations [] n e = tt
classify-All relations (r ∷ rs) n e = (
  subst (λ z. IsBelow z (classify relations r).parent) (sym e) (classify-IsBelow relations r),
  classify-All relations rs n e,
)

-- Build returns a forest, for all relations and events: its recursion ends even where the parents
-- that the relations name go around in a loop.
pub build_ends :
    (relations : List AgentRelation) (events : List Event)
    → (f : Forest) × (build relations events ≡ some f)
unfolding build
build_ends relations events =
    let nodes = map (make_node relations events) relations in
    let parents = map (λ r. (classify relations r).parent) relations in
    let size =
      length-map relations (λ r. (classify relations r).parent)
      ∙ sym (length-map relations (make_node relations events)) in
    nest_ends (mark_cycles nodes parents).0 (mark_cycles nodes parents).1 (
      left-IsAcyclic nodes parents
        (classify-All relations relations (length nodes)
          (length-map relations (make_node relations events)))
        size)
