-- ===== src/AgentTree/Cycles/Walked.antt =====
-- One walk: it ends, and it says which of its nodes are on a loop.
use mathlib.Core.Path.{subst}
use ai_engineering_productiv.Prelude.{
  ℕ, zero, suc, ◌≤◌, ◌<◌, ◌≡◌, refl, sym, ap, ◌∙◌, ◌⊎◌, inl, inr, true, false, Option, none, some,
  List, [], ◌∷◌, arith, Bool-cases, Option-cases, Has, Has-cases, length, get_elem?, set,
  length-set, get_elem?-set, get_elem?-set_ne,
}
use ai_engineering_productiv.AgentTree.Cycles.{
  Mark, unvisited, on_path, settled, is_unvisited, parent_of, Walk, advance, walk, settle,
}
use ai_engineering_productiv.AgentTree.Cycles.Graph.{Chain}

abbrev pub On : List ℕ → ℕ → Type 0
On path i = Has (λ j. j ≡ i) path

abbrev pub count_unvisited : List Mark → ℕ
count_unvisited [] = 0
count_unvisited (unvisited ∷ ms) = suc (count_unvisited ms)
count_unvisited (on_path ∷ ms) = count_unvisited ms
count_unvisited (settled ∷ ms) = count_unvisited ms

count_unvisited-set :
    (ms : List Mark) (i : ℕ)
    → get_elem? ms i ≡ some unvisited
    → suc (count_unvisited (set ms i on_path)) ≡ count_unvisited ms
count_unvisited-set [] i h = absurd (cc h)
count_unvisited-set (unvisited ∷ ms) zero h = refl
count_unvisited-set (on_path ∷ ms) zero h = absurd (cc h)
count_unvisited-set (settled ∷ ms) zero h = absurd (cc h)
count_unvisited-set (unvisited ∷ ms) (suc i) h = ap suc (count_unvisited-set ms i h)
count_unvisited-set (on_path ∷ ms) (suc i) h = count_unvisited-set ms i h
count_unvisited-set (settled ∷ ms) (suc i) h = count_unvisited-set ms i h

pub count_unvisited-le : (ms : List Mark) → count_unvisited ms ≤ length ms
count_unvisited-le [] = omega arith
count_unvisited-le (unvisited ∷ ms) = omega (arith, count_unvisited-le ms)
count_unvisited-le (on_path ∷ ms) = omega (arith, count_unvisited-le ms)
count_unvisited-le (settled ∷ ms) = omega (arith, count_unvisited-le ms)

pub is_unvisited-true : (o : Option Mark) → is_unvisited o ≡ true → o ≡ some unvisited
is_unvisited-true none h = absurd (cc h)
is_unvisited-true (some unvisited) h = refl
is_unvisited-true (some on_path) h = absurd (cc h)
is_unvisited-true (some settled) h = absurd (cc h)

module _ (parents : List (Option ℕ)) (before : List Mark) where
  -- The path is a chain to the current node, its nodes are marked and were unvisited before, and
  -- the other marks are as before.
  pub record IsWalk (w : Walk) : Type 0 where
    pub chain : Chain parents w.current w.path
    pub size : length w.marks ≡ length before
    pub marked : (i : ℕ) → On w.path i → get_elem? w.marks i ≡ some on_path
    pub unmarked : (i : ℕ) → ¬ (On w.path i) → get_elem? w.marks i ≡ get_elem? before i
    pub fresh : (i : ℕ) → On w.path i → get_elem? before i ≡ some unvisited

  advance-IsWalk :
      (w : Walk) (i : ℕ)
      → IsWalk w
      → w.current ≡ some i
      → get_elem? w.marks i ≡ some unvisited
      → IsWalk (advance parents w i)
  advance-IsWalk w i h c u = record {
    chain = (refl, subst (λ o. Chain parents o w.path) c h.chain);
    size = length-set w.marks i on_path ∙ h.size;
    marked = λ j m. elim m [
      | inl e ↦
          subst (λ k. get_elem? (set w.marks i on_path) k ≡ some on_path) e
            (get_elem?-set w.marks i on_path unvisited u)
      | inr k ↦ elim (Has-cases j (i ∷ [])) [
        | inl (inl e) ↦
            subst (λ k. get_elem? (set w.marks i on_path) k ≡ some on_path) e
              (get_elem?-set w.marks i on_path unvisited u)
        | inl (inr x) ↦ absurd x
        | inr n ↦ get_elem?-set_ne w.marks i j on_path (λ e. n (inl e)) ∙ h.marked j k
      ]
    ];
    unmarked = λ j n.
        get_elem?-set_ne w.marks i j on_path (λ e. n (inl e)) ∙ h.unmarked j (λ k. n (inr k));
    fresh = λ j m. elim m [
      | inl e ↦ elim (Has-cases i w.path) [
        | inl k ↦ absurd (cc (h.marked i k, u))
        | inr n ↦ subst (λ k. get_elem? before k ≡ some unvisited) e (sym (h.unmarked i n) ∙ u)
      ]
      | inr k ↦ h.fresh j k
    ];
  }

  -- Why a walk ends: there is no parent, or the next node was visited.
  abbrev pub IsOver : Walk → Type 0
  IsOver w =
      (w.current ≡ none)
      ⊎ ((c : ℕ) × (w.current ≡ some c) × (is_unvisited (get_elem? w.marks c) ≡ false))

  walk-stops :
      (fuel : ℕ) (w : Walk) (c : ℕ)
      → w.current ≡ some c
      → is_unvisited (get_elem? w.marks c) ≡ false
      → walk (suc fuel) parents w ≡ w
  unfolding walk
  walk-stops fuel w c s v = rw (s, walk) (rw v (ap (λ o. record w { current = o }) s))

  walk-goes :
      (fuel : ℕ) (w : Walk) (c : ℕ)
      → w.current ≡ some c
      → is_unvisited (get_elem? w.marks c) ≡ true
      → walk (suc fuel) parents w ≡ walk fuel parents (advance parents w c)
  unfolding walk
  walk-goes fuel w c s u = rw (s, walk) (rw u refl)

  -- With as much fuel as there are unvisited nodes, and one more, a walk ends.
  pub walk_ends :
      (fuel : ℕ) (w : Walk)
      → IsWalk w
      → count_unvisited w.marks < fuel
      → IsWalk (walk fuel parents w)
        × IsOver (walk fuel parents w)
        × ((i : ℕ) → On w.path i → On (walk fuel parents w).path i)
  unfolding walk
  walk_ends zero w h k = absurd (omega arith)
  walk_ends (suc fuel) w h k = elim (Option-cases (w.current)) [
    | inl n ↦ rw (n, walk) (h, inl n, λ i m. m)
    | inr (c, s) ↦ elim (Bool-cases (is_unvisited (get_elem? w.marks c))) [
      | inr v ↦ rw (walk-stops fuel w c s v) (h, inr (c, s, v), λ i m. m)
      | inl u ↦
          let unseen = is_unvisited-true (get_elem? w.marks c) u in
          let (kept, over, longer) =
            walk_ends fuel (advance parents w c) (advance-IsWalk w c h s unseen)
              (omega (arith, count_unvisited-set w.marks c unseen)) in
          rw (walk-goes fuel w c s u) (kept, over, λ i m. longer i (inr m))
    ]
  ]

  -- A walk covers the node it starts at, where that was not visited before.
  pub walk-covers :
      (fuel : ℕ) (w : Walk) (c : ℕ)
      → IsWalk w
      → w.current ≡ some c
      → get_elem? w.marks c ≡ some unvisited
      → count_unvisited w.marks ≤ fuel
      → On (walk (suc fuel) parents w).path c
  walk-covers fuel w c h s u k =
      let (kept, over, longer) =
        walk_ends fuel (advance parents w c) (advance-IsWalk w c h s u)
          (omega (arith, count_unvisited-set w.marks c u)) in
      rw (walk-goes fuel w c s (ap is_unvisited u)) (longer c (inl refl))

  pub walk-current :
      (n fuel : ℕ) (w : Walk)
      → ((i j : ℕ) → parent_of parents i ≡ some j → j < n)
      → ((c : ℕ) → w.current ≡ some c → c < n)
      → (c : ℕ) → (walk fuel parents w).current ≡ some c
      → c < n
  unfolding walk
  walk-current n zero w below h c = h c
  walk-current n (suc fuel) w below h c = elim (Option-cases (w.current)) [
    | inl e ↦ rw (e, walk) (λ q. absurd (cc (e, q)))
    | inr (d, s) ↦ elim (Bool-cases (is_unvisited (get_elem? w.marks d))) [
      | inr v ↦ rw (walk-stops fuel w d s v) (h c)
      | inl u ↦
          rw (walk-goes fuel w d s u) (walk-current n fuel (advance parents w d) below (below d) c)
    ]
  ]

settle-settled :
    (path : List ℕ) (marks : List Mark) (i : ℕ)
    → get_elem? marks i ≡ some settled
    → get_elem? (settle path marks) i ≡ some settled
unfolding settle
settle-settled [] marks i h = h
settle-settled (p ∷ path) marks i h =
    settle-settled path (set marks p settled) i (elim (Has-cases i (p ∷ [])) [
      | inl (inl e) ↦
          subst (λ k. get_elem? (set marks p settled) k ≡ some settled) e
            (get_elem?-set marks p settled settled
              (subst (λ k. get_elem? marks k ≡ some settled) (sym e) h))
      | inl (inr x) ↦ absurd x
      | inr n ↦ get_elem?-set_ne marks p i settled (λ e. n (inl e)) ∙ h
    ])

-- The nodes of the path are settled, and the marks of the others stay.
pub settle-On :
    (path : List ℕ) (marks : List Mark) (i : ℕ) (m : Mark)
    → get_elem? marks i ≡ some m
    → On path i
    → get_elem? (settle path marks) i ≡ some settled
unfolding settle
settle-On [] marks i m h k = absurd k
settle-On (p ∷ path) marks i m h k = elim (Has-cases i (p ∷ [])) [
  | inl (inl e) ↦ settle-settled path (set marks p settled) i (
      subst (λ z. get_elem? (set marks p settled) z ≡ some settled) e
        (get_elem?-set marks p settled m (subst (λ z. get_elem? marks z ≡ some m) (sym e) h)))
  | inl (inr x) ↦ absurd x
  | inr n ↦
      settle-On path (set marks p settled) i m
        (get_elem?-set_ne marks p i settled (λ e. n (inl e)) ∙ h)
        (elim k [ inl e ↦ absurd (n (inl e)) | inr q ↦ q ])
]

pub settle-off :
    (path : List ℕ) (marks : List Mark) (i : ℕ)
    → ¬ (On path i)
    → get_elem? (settle path marks) i ≡ get_elem? marks i
unfolding settle
settle-off [] marks i n = refl
settle-off (p ∷ path) marks i n =
    settle-off path (set marks p settled) i (λ k. n (inr k))
    ∙ get_elem?-set_ne marks p i settled (λ e. n (inl e))

pub length-settle : (path : List ℕ) (marks : List Mark) → length (settle path marks) ≡ length marks
unfolding settle
length-settle [] marks = refl
length-settle (p ∷ path) marks =
    length-settle path (set marks p settled) ∙ length-set marks p settled
