-- ===== src/Governance/Glob/Correct.antt =====
-- The matcher decides the documented meaning of a glob.
use mathlib.Core.Path.{subst}
use ai_engineering_productiv.Prelude.{
  ℕ, zero, suc, ◌<◌, String, ◌≡◌, refl, ap, ◌∙◌, ◌↔◌, inl, inr, Bool, ◌||◌, ◌&&◌, true, false, List,
  [], ◌∷◌, ◌++◌, arith, nat_eq, if◌then◌else◌, Bool-cases, length, codes,
}
use ai_engineering_productiv.Governance.Glob.{
  is_empty, scan_across, scan_segment, skips_group, match_star, match_question, match_literal,
  match, path_glob_match,
}
use ai_engineering_productiv.Governance.Glob.Meaning.{
  Token, literal, question, star, double_star, group, single, tokens, Describes, NoSlash,
}

-- A matcher of what stands behind a token.
abbrev Decides : (List ℕ → Bool) → List Token → Type 0
Decides m ts = (w : List ℕ) → (m w ≡ true) ↔ Describes ts w

module _ (m : List ℕ → Bool) where
  across_sound :
      (v : List ℕ)
      → scan_across m v ≡ true
      → (run : List ℕ) × (w : List ℕ) × (v ≡ run ++ w) × (m w ≡ true)
  unfolding scan_across
  across_sound [] e = ([], [], refl, e)
  across_sound (x ∷ v) e = elim (Bool-cases (m (x ∷ v))) [
    | inl stop ↦ ([], x ∷ v, refl, stop)
    | inr go ↦
        (let (run, w, same, found) = across_sound v (ground arith) in
          (x ∷ run, w, ap (λ l. x ∷ l) same, found))
  ]

  across_complete : (run w : List ℕ) → m w ≡ true → scan_across m (run ++ w) ≡ true
  unfolding scan_across
  across_complete [] [] e = e
  across_complete [] (x ∷ w) e = ground arith
  across_complete (x ∷ run) w e = ground (arith, across_complete run w e)

  segment_sound :
      (v : List ℕ)
      → scan_segment m v ≡ true
      → (run : List ℕ) × (w : List ℕ) × (v ≡ run ++ w) × NoSlash run × (m w ≡ true)
  unfolding scan_segment
  segment_sound [] e = ([], [], refl, tt, e)
  segment_sound (x ∷ v) e = elim (Bool-cases (m (x ∷ v))) [
    | inl stop ↦ ([], x ∷ v, refl, tt, stop)
    | inr go ↦
        (let (run, w, same, none, found) = segment_sound v (ground arith) in
          (x ∷ run, w, ap (λ l. x ∷ l) same, (ground arith, none), found))
  ]

  segment_complete : (run w : List ℕ) → NoSlash run → m w ≡ true → scan_segment m (run ++ w) ≡ true
  unfolding scan_segment
  segment_complete [] [] n e = e
  segment_complete [] (x ∷ w) n e = ground arith
  segment_complete (x ∷ run) w (n, ns) e = ground (arith, segment_complete run w ns e)

module _ (m : List ℕ → Bool) (ts : List Token) (h : Decides m ts) where
  across_step : Decides (scan_across m) (double_star ∷ ts)
  across_step v = (
    λ e. (let (run, w, same, found) = across_sound m v e in (run, w, same, (h w).0 found)),
    λ (run, w, same, d). rw same (across_complete m run w ((h w).1 d)),
  )

  segment_step : Decides (scan_segment m) (star ∷ ts)
  segment_step v = (
    λ e.
        (let (run, w, same, free, found) = segment_sound m v e in
          (run, w, same, free, (h w).0 found)),
    λ (run, w, same, free, d). rw same (segment_complete m run w free ((h w).1 d)),
  )

module _ (m : List ℕ → List ℕ → Bool) (rest : List ℕ) (ts : List Token)
    (h : Decides (m rest) ts) where
  question_step : Decides (match_question m rest) (question ∷ ts)
  unfolding match_question
  question_step [] = (λ e. cc, λ (x, w, same, _, _). cc)
  question_step (x ∷ v) = (
    λ e. (x, v, refl, ground arith, (h v).0 (ground arith)),
    λ (y, w, same, free, d). ground (arith, (h w).1 d),
  )

  literal_step : (c : ℕ) → Decides (match_literal m c rest) (literal c ∷ ts)
  unfolding match_literal
  literal_step c [] = (λ e. cc, λ (w, same, _). cc)
  literal_step c (x ∷ v) =
      (λ e. (v, ground arith, (h v).0 (ground arith)), λ (w, same, d). ground (arith, (h w).1 d))

  group_step :
      (b : List ℕ → Bool)
      → Decides b (literal b'/' ∷ ts)
      → (v : List ℕ) → ((m rest v || scan_across b v) ≡ true) ↔ Describes (group ∷ ts) v
  group_step b hb v = (
    λ e. elim (Bool-cases (m rest v)) [
      | inl skipped ↦ inl ((h v).0 skipped)
      | inr other ↦
          (let (run, w, same, found) = across_sound b v (ground arith) in
            let (w', next, d) = (hb w).0 found in inr (run, w', same ∙ ap (λ l. run ++ l) next, d))
    ],
    λ s. elim s [
      | inl d ↦ ground (arith, (h v).1 d)
      | inr (run, w, same, d) ↦ ground (
        arith,
        rw (← same) at (across_complete b run (b'/' ∷ w) ((hb (b'/' ∷ w)).1 (w, refl, d))),
      )
    ],
  )

-- One character of the pattern that begins no double star.
single_step :
    (m : List ℕ → List ℕ → Bool) (rest : List ℕ) (ts : List Token)
    → Decides (m rest) ts
    → (c : ℕ)
    → Decides
        (λ v.
          if nat_eq c b'*'
          then scan_segment (m rest) v
          else if nat_eq c b'?'
          then match_question m rest v
          else match_literal m c rest v)
        (single c ∷ ts)
single_step m rest ts h c v = elim (Bool-cases (nat_eq c b'*')) [
  | inl s ↦ rw s (segment_step (m rest) ts h v)
  | inr n ↦ rw n (elim (Bool-cases (nat_eq c b'?')) [
    | inl q ↦ rw q (question_step m rest ts h v)
    | inr l ↦ rw l (literal_step m rest ts h c v)
  ])
]

-- The tests for two stars in a row, `x` and `y`, in the matcher and in the tokens.
pair_step :
    (x y : Bool) (across segment other : List ℕ → Bool) (double one : List Token)
    → Decides across double
    → Decides (λ v. if x then segment v else other v) one
    → Decides
        (λ v. if x then (if y then across v else segment v) else other v)
        (if x && y then double else one)
pair_step true true across segment other double one h k = h
pair_step true false across segment other double one h k = k
pair_step false _ across segment other double one h k = k

-- The test for a slash behind the two stars.
slash_step :
    (slash : Bool) (skip across : List ℕ → Bool) (with_slash without : List Token)
    → (slash ≡ true → Decides (λ v. skip v || across v) with_slash)
    → Decides across without
    → Decides (λ v. slash && skip v || across v) (if slash then with_slash else without)
slash_step true skip across with_slash without h k = h refl
slash_step false skip across with_slash without h k = k

-- A slash is a token of its own.
tokens-slash :
    (e : ℕ) (rest : List ℕ) → nat_eq e b'/' ≡ true → tokens (e ∷ rest) ≡ literal b'/' ∷ tokens rest
unfolding tokens
tokens-slash e [] s = ground arith
tokens-slash e (d ∷ []) s = ground arith
tokens-slash e (d ∷ c ∷ rest) s = ground arith

-- With more fuel than pattern, the matcher decides the meaning of the tokens.
match-Decides : (fuel : ℕ) (p : List ℕ) → length p < fuel → Decides (match fuel p) (tokens p)
unfolding match is_empty match_star skips_group tokens
match-Decides zero p h v = absurd (omega arith)
match-Decides (suc fuel) [] h [] = (λ e. refl, λ e. refl)
match-Decides (suc fuel) [] h (x ∷ v) = (λ e. cc, λ e. cc)
match-Decides (suc fuel) (c ∷ []) h v =
    single_step (match fuel) [] [] (match-Decides fuel [] (omega arith)) c v
match-Decides (suc fuel) (c ∷ d ∷ []) h v =
    pair_step (nat_eq c b'*') (nat_eq d b'*') (scan_across (match fuel []))
      (scan_segment (match fuel (d ∷ [])))
      (λ v.
        if nat_eq c b'?'
        then match_question (match fuel) (d ∷ []) v
        else match_literal (match fuel) c (d ∷ []) v)
      (double_star ∷ []) (single c ∷ single d ∷ [])
      (across_step (match fuel []) [] (match-Decides fuel [] (omega arith)))
      (single_step (match fuel) (d ∷ []) (single d ∷ []) (match-Decides fuel (d ∷ []) (omega arith))
        c)
      v
match-Decides (suc fuel) (c ∷ d ∷ e ∷ rest) h v =
    let one = match-Decides fuel (d ∷ e ∷ rest) (omega arith) in
    let two = match-Decides fuel (e ∷ rest) (omega arith) in
    let three = match-Decides fuel rest (omega arith) in
    pair_step (nat_eq c b'*') (nat_eq d b'*')
      (λ v. nat_eq e b'/' && match fuel rest v || scan_across (match fuel (e ∷ rest)) v)
      (scan_segment (match fuel (d ∷ e ∷ rest)))
      (λ v.
        if nat_eq c b'?'
        then match_question (match fuel) (d ∷ e ∷ rest) v
        else match_literal (match fuel) c (d ∷ e ∷ rest) v)
      (if nat_eq e b'/' then group ∷ tokens rest else double_star ∷ tokens (e ∷ rest))
      (single c ∷ tokens (d ∷ e ∷ rest))
      (slash_step (nat_eq e b'/') (match fuel rest) (scan_across (match fuel (e ∷ rest)))
        (group ∷ tokens rest) (double_star ∷ tokens (e ∷ rest))
        (λ s.
          group_step (match fuel) rest (tokens rest) three (match fuel (e ∷ rest))
            (subst (Decides (match fuel (e ∷ rest))) (tokens-slash e rest s) two))
        (across_step (match fuel (e ∷ rest)) (tokens (e ∷ rest)) two))
      (single_step (match fuel) (d ∷ e ∷ rest) (tokens (d ∷ e ∷ rest)) one c) v

-- A path glob matches a path exactly when the documented tokens of the pattern describe it.
pub path_glob_match_iff :
    (pattern value : String)
    → (path_glob_match pattern value ≡ true) ↔ Describes (tokens (codes pattern)) (codes value)
unfolding path_glob_match
path_glob_match_iff pattern value =
    match-Decides (suc (length (codes pattern))) (codes pattern) (omega arith) (codes value)
