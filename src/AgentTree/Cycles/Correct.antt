-- ===== src/AgentTree/Cycles/Correct.antt =====
-- markCycles flags exactly the nodes that are on a loop, and takes their parents away.
use mathlib.Core.Path.{subst}
use ai_engineering_productiv.Prelude.{
  ℕ, zero, suc, ◌+◌, ◌<◌, ◌≡◌, ◌≢◌, refl, sym, ap, ◌∙◌, ◌⊎◌, inl, inr, false, Option, none, some,
  List, [], ◌∷◌, arith, nat_eq, Bool-cases, Has-cases, All, length, get_elem?, get_elem?-in,
}
use ai_engineering_productiv.AgentTree.{Node}
use ai_engineering_productiv.AgentTree.Cycles.{
  Mark, unvisited, on_path, settled, is_unvisited, parent_of, Walk, walk, settle, after_walk,
  mark_from, all_unvisited, flag_loop, mark_cycles,
}
use ai_engineering_productiv.AgentTree.Cycles.Graph.{here, OnLoop, some_eq, Chain}
use ai_engineering_productiv.AgentTree.Cycles.Walked.{
  On, count_unvisited, count_unvisited-le, IsWalk, IsOver, walk_ends, walk-current, walk-covers,
  is_unvisited-true, settle-On, settle-off, length-settle,
}
use ai_engineering_productiv.AgentTree.Cycles.Loops.{
  front, flagged, flag_loop-On, flag_loop-off, length-flag_loop, front-OnLoop, behind-not_OnLoop,
  into-not_OnLoop, root-not_OnLoop,
}

-- Every parent is an index of the list.
abbrev pub IsBelow : ℕ → Option ℕ → Type 0
IsBelow n none = Unit
IsBelow n (some j) = j < n

pub IsBelow-of_All :
    (n : ℕ) (parents : List (Option ℕ)) (i j : ℕ)
    → All (IsBelow n) parents
    → parent_of parents i ≡ some j
    → j < n
IsBelow-of_All n [] i j h e = absurd (cc e)
IsBelow-of_All n (p ∷ ps) zero j (b, h) e = subst (IsBelow n) e b
IsBelow-of_All n (p ∷ ps) (suc i) j (b, h) e = IsBelow-of_All n ps i j h e

front-On : (path : List ℕ) (r j : ℕ) → On (front path r) j → On path j
front-On [] r j m = m
front-On (p ∷ ps) r j m = elim (Bool-cases (nat_eq p r)) [
  | inl q ↦ elim (rw q at m) [ inl u ↦ inl u | inr x ↦ absurd x ]
  | inr q ↦ elim (rw q at m) [ inl u ↦ inl u | inr d ↦ inr (front-On ps r j d) ]
]

Chain-parents :
    (parents : List (Option ℕ)) (path : List ℕ) (c : Option ℕ) (x y : ℕ)
    → Chain parents c path
    → On path x
    → parent_of parents x ≡ some y
    → (c ≡ some y) ⊎ On path y
Chain-parents parents [] c x y h m e = absurd m
Chain-parents parents (p ∷ ps) c x y (a, h) (inl u) e = inl (sym a ∙ ap (parent_of parents) u ∙ e)
Chain-parents parents (p ∷ ps) c x y (a, h) (inr d) e =
    elim (Chain-parents parents ps (some p) x y h d e) [
      | inl q ↦ inr (inl (some_eq parents q))
      | inr k ↦ inr (inr k)
    ]

nat-lt_cases : (j n : ℕ) → j < suc n → (j < n) ⊎ (j ≡ n)
nat-lt_cases j n h = ground arith

module _ (parents : List (Option ℕ)) (initial : List Node)
    (below : All (IsBelow (length initial)) parents) where
  -- The node at the index is as the loops of the graph demand.
  abbrev pub IsDecided : List Node → ℕ → Type 0
  IsDecided nodes i =
      (OnLoop parents i × (get_elem? nodes i ≡ flagged (get_elem? initial i)))
      ⊎ (¬ (OnLoop parents i) × (get_elem? nodes i ≡ get_elem? initial i))

  -- Between two walks nothing is on a path, the settled nodes have settled parents and are decided,
  -- and the others are as they were.
  record IsBetween (marks : List Mark) (nodes : List Node) : Type 0 where
    marks_size : length marks ≡ length initial
    nodes_size : length nodes ≡ length initial
    no_path : (i : ℕ) → get_elem? marks i ≢ some on_path
    closed :
        (i j : ℕ)
        → get_elem? marks i ≡ some settled
        → parent_of parents i ≡ some j
        → get_elem? marks j ≡ some settled
    decided : (i : ℕ) → get_elem? marks i ≡ some settled → IsDecided nodes i
    untouched :
        (i : ℕ) → ¬ (get_elem? marks i ≡ some settled) → get_elem? nodes i ≡ get_elem? initial i

  mark-cases :
      (o : Option Mark)
      → o ≢ none
      → is_unvisited o ≡ false
      → (o ≡ some on_path) ⊎ (o ≡ some settled)
  mark-cases none n h = absurd (n refl)
  mark-cases (some unvisited) n h = absurd (cc h)
  mark-cases (some on_path) n h = inl refl
  mark-cases (some settled) n h = inr refl

  module _ (marks : List Mark) (nodes : List Node) (between : IsBetween marks nodes) (w : Walk)
      (walked : IsWalk parents marks w) where
    met_on_path : (c : ℕ) → get_elem? w.marks c ≡ some on_path → On w.path c
    met_on_path c e = elim (Has-cases c w.path) [
      | inl m ↦ m
      | inr n ↦ absurd (between.no_path c (sym (walked.unmarked c n) ∙ e))
    ]

    met_settled : (c : ℕ) → get_elem? w.marks c ≡ some settled → get_elem? marks c ≡ some settled
    met_settled c e = elim (Has-cases c w.path) [
      | inl m ↦ absurd (cc (walked.marked c m, e))
      | inr n ↦ sym (walked.unmarked c n) ∙ e
    ]

    fresh-not_settled : (i : ℕ) → On w.path i → ¬ (get_elem? marks i ≡ some settled)
    fresh-not_settled i m s = cc (walked.fresh i m, s)

    same : (i : ℕ) → On w.path i → get_elem? nodes i ≡ get_elem? initial i
    same i m = between.untouched i (fresh-not_settled i m)

    -- The nodes of the path are decided by what follows the walk, and no other node changes.
    abbrev Decides : List Node → Type 0
    Decides after =
        (length after ≡ length nodes)
        × ((i : ℕ) → On w.path i → IsDecided after i)
        × ((i : ℕ) → ¬ (On w.path i) → get_elem? after i ≡ get_elem? nodes i)

    met-itself : (c : ℕ) → w.current ≡ some c → On w.path c → Decides (flag_loop nodes w.path c)
    met-itself c e m =
        let chain = subst (λ o. Chain parents o w.path) e walked.chain in
        (
          length-flag_loop w.path nodes c,
          λ i k. elim (Has-cases i (front w.path c)) [
            | inl f ↦ inl (
              front-OnLoop parents w.path c c i chain here m f,
              flag_loop-On w.path nodes c i f ∙ ap flagged (same i k),
            )
            | inr n ↦ inr (
              behind-not_OnLoop parents w.path c i chain m k n,
              flag_loop-off w.path nodes c i n ∙ same i k,
            )
          ],
          λ i n. flag_loop-off w.path nodes c i (λ f. n (front-On w.path c i f)),
        )

    met-nothing : ((i : ℕ) → On w.path i → ¬ (OnLoop parents i)) → Decides nodes
    met-nothing no_loop = (refl, λ i k. inr (no_loop i k, same i k), λ i n. refl)

    after_walk-Decides :
        IsOver parents marks w
        → ((c : ℕ) → w.current ≡ some c → c < length initial)
        → Decides (after_walk nodes w)
    unfolding after_walk
    after_walk-Decides (inl e) range =
        rw (e, after_walk)
          (met-nothing (λ i k.
            root-not_OnLoop parents w.path i (subst (λ o. Chain parents o w.path) e walked.chain)
              k))
    after_walk-Decides (inr (c, e, v)) range =
        let inside : c < length w.marks = rw (walked.size ∙ between.marks_size) (range c e) in
        let (m, there) = get_elem?-in w.marks c inside in
        elim (mark-cases (get_elem? w.marks c) (λ q. cc (q, there)) v) [
          | inl p ↦ rw (e, after_walk) (rw p (met-itself c e (met_on_path c p)))
          | inr s ↦
              rw (e, after_walk)
                (rw s (
                  met-nothing (λ i k.
                    into-not_OnLoop parents (λ x. get_elem? marks x ≡ some settled) between.closed
                      w.path c i (subst (λ o. Chain parents o w.path) e walked.chain)
                      (met_settled c s) k (fresh-not_settled i k))))
        ]

    -- The nodes that are settled when the path is.
    settled-cases :
        (i : ℕ)
        → get_elem? (settle w.path w.marks) i ≡ some settled
        → On w.path i ⊎ (get_elem? marks i ≡ some settled)
    settled-cases i e = elim (Has-cases i w.path) [
      | inl m ↦ inl m
      | inr n ↦ inr (sym (walked.unmarked i n) ∙ sym (settle-off w.path w.marks i n) ∙ e)
    ]

    settled_of_On : (i : ℕ) → On w.path i → get_elem? (settle w.path w.marks) i ≡ some settled
    settled_of_On i m = settle-On w.path w.marks i on_path (walked.marked i m) m

    settled_before :
        (i : ℕ)
        → get_elem? marks i ≡ some settled
        → get_elem? (settle w.path w.marks) i ≡ some settled
    settled_before i s = elim (Has-cases i w.path) [
      | inl m ↦ settled_of_On i m
      | inr n ↦ settle-off w.path w.marks i n ∙ walked.unmarked i n ∙ s
    ]

    current-settled :
        IsOver parents marks w
        → ((c : ℕ) → w.current ≡ some c → c < length initial)
        → (y : ℕ) → w.current ≡ some y
        → get_elem? (settle w.path w.marks) y ≡ some settled
    current-settled over range y e =
        let inside : y < length w.marks = rw (walked.size ∙ between.marks_size) (range y e) in
        let (m, there) = get_elem?-in w.marks y inside in
        let visited : is_unvisited (get_elem? w.marks y) ≡ false = elim over [
          | inl n ↦ absurd (cc (n, e))
          | inr (c, f, v) ↦
              subst (λ z. is_unvisited (get_elem? w.marks z) ≡ false) (some_eq parents (sym f ∙ e))
                v
        ] in
        elim (mark-cases (get_elem? w.marks y) (λ q. cc (q, there)) visited) [
          | inl p ↦ settled_of_On y (met_on_path y p)
          | inr s ↦ settled_before y (met_settled y s)
        ]

    settle-IsBetween :
        IsOver parents marks w
        → ((c : ℕ) → w.current ≡ some c → c < length initial)
        → IsBetween (settle w.path w.marks) (after_walk nodes w)
    settle-IsBetween over range =
        let (size, on, off) = after_walk-Decides over range in
        record {
          marks_size = length-settle w.path w.marks ∙ walked.size ∙ between.marks_size;
          nodes_size = size ∙ between.nodes_size;
          no_path = λ i e. elim (Has-cases i w.path) [
            | inl m ↦ cc (settled_of_On i m, e)
            | inr n ↦
                between.no_path i
                  (sym (walked.unmarked i n) ∙ sym (settle-off w.path w.marks i n) ∙ e)
          ];
          closed = λ i j s e. elim (settled-cases i s) [
            | inl m ↦ elim (Chain-parents parents w.path (w.current) i j walked.chain m e) [
              | inl c ↦ current-settled over range j c
              | inr k ↦ settled_of_On j k
            ]
            | inr b ↦ settled_before j (between.closed i j b e)
          ];
          decided = λ i s. elim (Has-cases i w.path) [
            | inl m ↦ on i m
            | inr n ↦ elim (settled-cases i s) [
              | inl m ↦ absurd (n m)
              | inr b ↦
                  subst
                    (λ o.
                      (OnLoop parents i × (o ≡ flagged (get_elem? initial i)))
                      ⊎ (¬ (OnLoop parents i) × (o ≡ get_elem? initial i)))
                    (sym (off i n)) (between.decided i b)
            ]
          ];
          untouched = λ i n.
              let apart : ¬ (On w.path i) = λ m. n (settled_of_On i m) in
              off i apart ∙ between.untouched i (λ s. n (settled_before i s));
        }

  start_walk : List Mark → ℕ → Walk
  start_walk marks start = record { marks = marks; path = []; current = some start }

  start-IsWalk : (marks : List Mark) (start : ℕ) → IsWalk parents marks (start_walk marks start)
  unfolding start_walk
  start-IsWalk marks start = record {
    chain = tt;
    size = refl;
    marked = λ i m. absurd m;
    unmarked = λ i n. refl;
    fresh = λ i m. absurd m;
  }

  first_walk :
      (marks : List Mark) (nodes : List Node) (start : ℕ)
      → IsBetween marks nodes
      → start < length initial
      → IsWalk parents marks (walk (suc (length nodes)) parents (start_walk marks start))
        × IsOver parents marks (walk (suc (length nodes)) parents (start_walk marks start))
        × ((c : ℕ)
            → (walk (suc (length nodes)) parents (start_walk marks start)).current ≡ some c
            → c < length initial)
        × ((get_elem? marks start ≡ some settled)
            ⊎ On (walk (suc (length nodes)) parents (start_walk marks start)).path start)
  unfolding start_walk
  first_walk marks nodes start between k =
      let enough : count_unvisited marks < suc (length nodes) =
        omega (arith, count_unvisited-le marks, between.marks_size, between.nodes_size) in
      let (walked, over, longer) =
        walk_ends parents marks (suc (length nodes)) (start_walk marks start)
          (start-IsWalk marks start) enough in
      let inside : start < length marks = rw between.marks_size k in
      let (m, there) = get_elem?-in marks start inside in
      (
        walked,
        over,
        walk-current parents marks (length initial) (suc (length nodes)) (start_walk marks start)
            (λ i j. IsBelow-of_All (length initial) parents i j below)
            (λ c e. subst (λ z. z < length initial) (some_eq parents e) k),
        elim (Bool-cases (is_unvisited (get_elem? marks start))) [
          | inr v ↦ elim (mark-cases (get_elem? marks start) (λ q. cc (q, there)) v) [
            | inl p ↦ absurd (between.no_path start p)
            | inr s ↦ inl s
          ]
          | inl u ↦ inr (
              walk-covers parents marks (length nodes) (start_walk marks start) start
                (start-IsWalk marks start) refl (is_unvisited-true (get_elem? marks start) u)
                (omega arith))
        ],
      )

  mark_from-decides :
      (left start : ℕ) (marks : List Mark) (nodes : List Node)
      → IsBetween marks nodes
      → ((i : ℕ) → i < start → get_elem? marks i ≡ some settled)
      → start + left ≡ length initial
      → (i : ℕ) → i < length initial
      → IsDecided (mark_from left start parents marks nodes) i
  unfolding mark_from walk start_walk
  mark_from-decides zero start marks nodes between seen total i k =
      between.decided i (seen i (omega arith))
  mark_from-decides (suc left) start marks nodes between seen total i k =
      let w = walk (suc (length nodes)) parents (start_walk marks start) in
      let (walked, over, range, covered) = first_walk marks nodes start between (omega arith) in
      mark_from-decides left (suc start) (settle w.path w.marks) (after_walk nodes w)
        (settle-IsBetween marks nodes between w walked over range)
        (λ j l. elim (nat-lt_cases j start l) [
          | inl b ↦ settled_before marks nodes between w walked j (seen j b)
          | inr q ↦
              subst (λ z. get_elem? (settle w.path w.marks) z ≡ some settled) (sym q)
                (elim covered [
                  | inl s ↦ settled_before marks nodes between w walked start s
                  | inr m ↦ settled_of_On marks nodes between w walked start m
                ])
        ])
        (omega arith) i k

  -- Before the loops, nothing was visited.
  all_unvisited-get_elem? :
      (ns : List Node) (i : ℕ) (m : Mark) → get_elem? (all_unvisited ns) i ≡ some m → m ≡ unvisited
  all_unvisited-get_elem? [] i m e = absurd (cc e)
  all_unvisited-get_elem? (n ∷ ns) zero m e = cc
  all_unvisited-get_elem? (n ∷ ns) (suc i) m e = all_unvisited-get_elem? ns i m e

  length-all_unvisited : (ns : List Node) → length (all_unvisited ns) ≡ length ns
  length-all_unvisited [] = refl
  length-all_unvisited (n ∷ ns) = ap suc (length-all_unvisited ns)

  initial-IsBetween : IsBetween (all_unvisited initial) initial
  initial-IsBetween =
      let never = all_unvisited-get_elem? initial in
      record {
        marks_size = length-all_unvisited initial;
        nodes_size = refl;
        no_path = λ i e. cc (never i on_path e);
        closed = λ i j e f. absurd (cc (never i settled e));
        decided = λ i e. absurd (cc (never i settled e));
        untouched = λ i n. refl;
      }

  -- Where every parent is an index of the list: markCycles flags a node that is on a loop of the
  -- parents, and leaves every other node as it was.
  pub mark_cycles_lem :
      (i : ℕ)
      → i < length initial
      → (OnLoop parents i
          × (get_elem? (mark_cycles initial parents).0 i ≡ flagged (get_elem? initial i)))
        ⊎ (¬ (OnLoop parents i)
            × (get_elem? (mark_cycles initial parents).0 i ≡ get_elem? initial i))
  unfolding mark_cycles
  mark_cycles_lem i k =
      mark_from-decides (length initial) 0 (all_unvisited initial) initial initial-IsBetween
        (λ j l. absurd (omega arith)) (omega arith) i k
