-- ===== src/AgentTree/Cycles/Loops.antt =====
-- Where a walk met itself, exactly the nodes up to the one it met are on a loop; where it ended
-- otherwise, none is.
use mathlib.Core.Path.{subst}
use ai_engineering_productiv.Prelude.{
  ℕ, zero, suc, ◌≡◌, ◌≢◌, refl, sym, ap, ◌∙◌, ◌⊎◌, inl, inr, Option, none, some, List, [], ◌∷◌,
  if◌then◌else◌, nat_eq, nat_eq_iff, Bool-cases, Has-cases, length, get_elem?,
}
use ai_engineering_productiv.AgentTree.{Node}
use ai_engineering_productiv.AgentTree.Cycles.{flag_node, flag, flag_loop, parent_of}
use ai_engineering_productiv.AgentTree.Cycles.Graph.{
  Leads, here, step, OnLoop, some_eq, Leads-trans, Leads-back, Leads-closed, Chain, Chain-Leads,
}
use ai_engineering_productiv.AgentTree.Cycles.Walked.{On}

-- The path up to the node, the node included.
abbrev pub front : List ℕ → ℕ → List ℕ
front [] r = []
front (p ∷ ps) r = let rest = front ps r in if nat_eq p r then p ∷ [] else p ∷ rest

abbrev pub flagged : Option Node → Option Node
flagged none = none
flagged (some n) = some (flag_node n)

flagged-flagged : (o : Option Node) → flagged (flagged o) ≡ flagged o
flagged-flagged none = refl
flagged-flagged (some n) = refl

get_elem?-flag : (ns : List Node) (i : ℕ) → get_elem? (flag ns i) i ≡ flagged (get_elem? ns i)
unfolding flag
get_elem?-flag [] i = refl
get_elem?-flag (n ∷ ns) zero = refl
get_elem?-flag (n ∷ ns) (suc i) = get_elem?-flag ns i

get_elem?-flag_ne : (ns : List Node) (i j : ℕ) → i ≢ j → get_elem? (flag ns i) j ≡ get_elem? ns j
unfolding flag
get_elem?-flag_ne [] i j h = refl
get_elem?-flag_ne (n ∷ ns) zero zero h = absurd (h refl)
get_elem?-flag_ne (n ∷ ns) zero (suc j) h = refl
get_elem?-flag_ne (n ∷ ns) (suc i) zero h = refl
get_elem?-flag_ne (n ∷ ns) (suc i) (suc j) h = get_elem?-flag_ne ns i j (λ e. h (ap suc e))

length-flag : (ns : List Node) (i : ℕ) → length (flag ns i) ≡ length ns
unfolding flag
length-flag [] i = refl
length-flag (n ∷ ns) zero = refl
length-flag (n ∷ ns) (suc i) = ap suc (length-flag ns i)

pub length-flag_loop :
    (path : List ℕ) (ns : List Node) (r : ℕ) → length (flag_loop ns path r) ≡ length ns
unfolding flag_loop
length-flag_loop [] ns r = refl
length-flag_loop (p ∷ ps) ns r = elim (Bool-cases (nat_eq p r)) [
  | inl e ↦ rw e (length-flag ns p)
  | inr e ↦ rw e (length-flag_loop ps (flag ns p) r ∙ length-flag ns p)
]

pub flag_loop-off :
    (path : List ℕ) (ns : List Node) (r j : ℕ)
    → ¬ (On (front path r) j)
    → get_elem? (flag_loop ns path r) j ≡ get_elem? ns j
unfolding flag_loop
flag_loop-off [] ns r j n = refl
flag_loop-off (p ∷ ps) ns r j n = elim (Bool-cases (nat_eq p r)) [
  | inl e ↦ rw e (get_elem?-flag_ne ns p j (λ q. (rw e at n) (inl q)))
  | inr e ↦ rw e (
      flag_loop-off ps (flag ns p) r j (λ k. (rw e at n) (inr k))
      ∙ get_elem?-flag_ne ns p j (λ q. (rw e at n) (inl q)))
]

flag-flagged :
    (ns : List Node) (i j : ℕ) (o : Option Node)
    → get_elem? ns j ≡ flagged o
    → get_elem? (flag ns i) j ≡ flagged o
flag-flagged ns i j o h = elim (Has-cases j (i ∷ [])) [
  | inl (inl q) ↦
      subst (λ z. get_elem? (flag ns i) z ≡ flagged (get_elem? ns z)) q (get_elem?-flag ns i)
      ∙ ap flagged h
      ∙ flagged-flagged o
  | inl (inr x) ↦ absurd x
  | inr n ↦ get_elem?-flag_ne ns i j (λ q. n (inl q)) ∙ h
]

flag_loop-flagged :
    (path : List ℕ) (ns : List Node) (r j : ℕ) (o : Option Node)
    → get_elem? ns j ≡ flagged o
    → get_elem? (flag_loop ns path r) j ≡ flagged o
unfolding flag_loop
flag_loop-flagged [] ns r j o h = h
flag_loop-flagged (p ∷ ps) ns r j o h = elim (Bool-cases (nat_eq p r)) [
  | inl e ↦ rw e (flag-flagged ns p j o h)
  | inr e ↦ rw e (flag_loop-flagged ps (flag ns p) r j o (flag-flagged ns p j o h))
]

pub flag_loop-On :
    (path : List ℕ) (ns : List Node) (r j : ℕ)
    → On (front path r) j
    → get_elem? (flag_loop ns path r) j ≡ flagged (get_elem? ns j)
unfolding flag_loop
flag_loop-On [] ns r j m = absurd m
flag_loop-On (p ∷ ps) ns r j m = elim (Has-cases j (p ∷ [])) [
  | inl (inr x) ↦ absurd x
  | inl (inl q) ↦ elim (Bool-cases (nat_eq p r)) [
    | inl e ↦
        rw e
          (subst (λ z. get_elem? (flag ns p) z ≡ flagged (get_elem? ns z)) q (get_elem?-flag ns p))
    | inr e ↦ rw e (
        flag_loop-flagged ps (flag ns p) r j (get_elem? ns j)
          (subst (λ z. get_elem? (flag ns p) z ≡ flagged (get_elem? ns z)) q (get_elem?-flag ns p)))
  ]
  | inr n ↦ elim (Bool-cases (nat_eq p r)) [
    | inl e ↦ absurd (n (rw e at m))
    | inr e ↦ rw e (
        flag_loop-On ps (flag ns p) r j
          (elim (rw e at m) [ inl q ↦ absurd (n (inl q)) | inr k ↦ k ])
        ∙ ap flagged (get_elem?-flag_ne ns p j (λ q. n (inl q))))
  ]
]

module _ (parents : List (Option ℕ)) where
  -- The nodes up to the one that was met are on the loop: each leads to it, and it to each.
  pub front-OnLoop :
      (path : List ℕ) (y r j : ℕ)
      → Chain parents (some y) path
      → Leads parents y r
      → On path r
      → On (front path r) j
      → OnLoop parents j
  front-OnLoop [] y r j h l k m = absurd m
  front-OnLoop (p ∷ ps) y r j (e, h) l k m = elim (Bool-cases (nat_eq p r)) [
    | inl q ↦
        let same = (nat_eq_iff p r).0 q in
        elim (rw q at m) [
          | inl u ↦ subst (OnLoop parents) u (y, e, subst (Leads parents y) (sym same) l)
          | inr x ↦ absurd x
        ]
    | inr q ↦
        let deeper : On ps r = elim k [
          | inl u ↦ absurd (cc (q, (nat_eq_iff p r).1 u))
          | inr d ↦ d
        ] in
        elim (rw q at m) [
          | inl u ↦
              subst (OnLoop parents) u
                (y, e, Leads-trans parents l (Chain-Leads parents p ps r h deeper))
          | inr d ↦ front-OnLoop ps p r j h (step e l) deeper d
        ]
  ]

  -- The front holds the parents of its nodes, the given parent of the last one aside.
  front-parents :
      (path : List ℕ) (c : Option ℕ) (r x y : ℕ)
      → Chain parents c path
      → On (front path r) x
      → parent_of parents x ≡ some y
      → (c ≡ some y) ⊎ On (front path r) y
  front-parents [] c r x y h m e = absurd m
  front-parents (p ∷ ps) c r x y (a, h) m e = elim (Bool-cases (nat_eq p r)) [
    | inl q ↦ elim (rw q at m) [
      | inl u ↦ inl (sym a ∙ ap (parent_of parents) u ∙ e)
      | inr z ↦ absurd z
    ]
    | inr q ↦ rw q (elim (rw q at m) [
      | inl u ↦ inl (sym a ∙ ap (parent_of parents) u ∙ e)
      | inr d ↦ elim (front-parents ps (some p) r x y h d e) [
        | inl s ↦ inr (inl (some_eq parents s))
        | inr f ↦ inr (inr f)
      ]
    ])
  ]

  front_self : (path : List ℕ) (r : ℕ) → On path r → On (front path r) r
  front_self [] r k = k
  front_self (p ∷ ps) r k = elim (Bool-cases (nat_eq p r)) [
    | inl q ↦ rw q (inl ((nat_eq_iff p r).0 q))
    | inr q ↦
        rw q (elim k [
          | inl u ↦ absurd (cc (q, (nat_eq_iff p r).1 u))
          | inr d ↦ inr (front_self ps r d)
        ])
  ]

  behind-Leads :
      (path : List ℕ) (c : Option ℕ) (r x : ℕ)
      → Chain parents c path
      → On path x
      → ¬ (On (front path r) x)
      → Leads parents x r
  behind-Leads [] c r x h k n = absurd k
  behind-Leads (p ∷ ps) c r x (a, h) k n = elim (Bool-cases (nat_eq p r)) [
    | inl q ↦
        let same = (nat_eq_iff p r).0 q in
        elim k [
          | inl u ↦ absurd ((rw q at n) (inl u))
          | inr d ↦ subst (Leads parents x) same (Chain-Leads parents p ps x h d)
        ]
    | inr q ↦ elim k [
      | inl u ↦ absurd ((rw q at n) (inl u))
      | inr d ↦ behind-Leads ps (some p) r x h d (λ f. (rw q at n) (inr f))
    ]
  ]

  -- The nodes behind the one that was met only lead into the loop.
  pub behind-not_OnLoop :
      (path : List ℕ) (r x : ℕ)
      → Chain parents (some r) path
      → On path r
      → On path x
      → ¬ (On (front path r) x)
      → ¬ (OnLoop parents x)
  behind-not_OnLoop path r x h met k n loop =
      let into = behind-Leads path (some r) r x h k n in
      n (
        Leads-closed parents (On (front path r))
          (λ a b s e. elim (front-parents path (some r) r a b h s e) [
            | inl q ↦ subst (On (front path r)) (some_eq parents q) (front_self path r met)
            | inr f ↦ f
          ])
          (front_self path r met) (Leads-back parents loop here into))

  Chain-Leads_head :
      (path : List ℕ) (c x : ℕ) → Chain parents (some c) path → On path x → Leads parents x c
  Chain-Leads_head [] c x h k = absurd k
  Chain-Leads_head (p ∷ ps) c x (a, h) (inl u) = subst (λ z. Leads parents z c) u (step a here)
  Chain-Leads_head (p ∷ ps) c x (a, h) (inr d) =
      Leads-trans parents (Chain-Leads parents p ps x h d) (step a here)

  -- A walk that ended in a set which holds the parents of its members, and none of the path.
  pub into-not_OnLoop :
      (S : ℕ → Type 0)
      → ((a b : ℕ) → S a → parent_of parents a ≡ some b → S b)
      → (path : List ℕ) (c x : ℕ) → Chain parents (some c) path
      → S c
      → On path x
      → ¬ (S x)
      → ¬ (OnLoop parents x)
  into-not_OnLoop S closed path c x h s k n loop = n (
      Leads-closed parents S closed s
        (Leads-back parents loop here (Chain-Leads_head path c x h k)))

  root-not_Leads : (p x : ℕ) → parent_of parents p ≡ none → Leads parents p x → p ≡ x
  root-not_Leads p x e here = refl
  root-not_Leads p x e (step f q) = absurd (cc (e, f))

  -- A walk that ended at a root.
  pub root-not_OnLoop :
      (path : List ℕ) (x : ℕ) → Chain parents none path → On path x → ¬ (OnLoop parents x)
  root-not_OnLoop [] x h k loop = absurd k
  root-not_OnLoop (p ∷ ps) x (a, h) (inl u) (j, e, l) = cc (a, e, ap (parent_of parents) u)
  root-not_OnLoop (p ∷ ps) x (a, h) (inr d) (j, e, l) =
      let same =
        root-not_Leads p x a (Leads-back parents (j, e, l) here (Chain-Leads parents p ps x h d)) in
      cc (a, e, ap (parent_of parents) same)
