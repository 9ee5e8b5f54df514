-- ===== src/Privacy/Commands.antt =====
-- ClassifyCommandAccess against the tokens of the command line, and the placement of a path.
use mathlib.Core.Path.{subst}
use mathlib.Core.List.{append-nil, append_assoc}
use ai_engineering_productiv.Prelude.{
  ℕ, Bool, ◌≡◌, ◌≢◌, refl, ap, ◌↔◌, ◌⊎◌, inl, inr, true, ◌&&◌, List, [], ◌∷◌, ◌++◌, arith,
  Bool-cases, if◌then◌else◌, All, All-append, Has, is_space, any, nat_eq,
}
use ai_engineering_productiv.Privacy.{
  indeterminate, non_project, trim, trim_start, trim_end, is_nil, classify_path, is_secret_class,
  credential_access, first_secret, is_separator, close_word, split_words, command_split,
  classify_command_access,
}

abbrev IsBlank : List ℕ → Type 0
IsBlank = All (λ c. is_space c ≡ true)

trim_start-IsBlank : (cs : List ℕ) → IsBlank cs → trim_start cs ≡ []
unfolding trim_start
trim_start-IsBlank [] h = refl
trim_start-IsBlank (c ∷ cs) (s, h) = rw s (trim_start-IsBlank cs h)

trim-IsBlank : (cs : List ℕ) → IsBlank cs → trim cs ≡ []
unfolding trim
trim-IsBlank cs h = rw (trim_start-IsBlank cs h) (unfold trim_end in refl)

IsBlank-of_trim_end : (cs : List ℕ) → is_nil (trim_end cs) ≡ true → IsBlank cs
unfolding trim_end
IsBlank-of_trim_end [] h = tt
IsBlank-of_trim_end (c ∷ cs) h = elim (Bool-cases (is_space c && is_nil (trim_end cs))) [
  | inl e ↦ (ground arith, IsBlank-of_trim_end cs (ground arith))
  | inr e ↦ cc (rw e at h)
]

IsBlank-of_trim_start : (cs : List ℕ) → IsBlank (trim_start cs) → IsBlank cs
unfolding trim_start
IsBlank-of_trim_start [] h = tt
IsBlank-of_trim_start (c ∷ cs) h = elim (Bool-cases (is_space c)) [
  | inl e ↦ (e, IsBlank-of_trim_start cs (rw e at h))
  | inr e ↦ rw e at h
]

IsBlank-of_trim : (cs : List ℕ) → is_nil (trim cs) ≡ true → IsBlank cs
unfolding trim
IsBlank-of_trim cs h = IsBlank-of_trim_start cs (IsBlank-of_trim_end (trim_start cs) h)

-- Whitespace (space, tab, line feed, carriage return), the quotes, the six brackets, < > | & ; , =
-- and the backtick.
unfoldable pub is_cut : ℕ → Bool
is_cut c = any (nat_eq c) (
    32 ∷ 9 ∷ 10 ∷ 13 ∷ 34 ∷ 39 ∷ 40 ∷ 41 ∷ 91 ∷ 93 ∷ 123 ∷ 125 ∷ 60 ∷ 62 ∷ 124 ∷ 38 ∷ 59 ∷ 44 ∷ 61
    ∷ 96 ∷ [])

-- The runes up to the first cut.
unfoldable pub word_of : List ℕ → List ℕ
word_of [] = []
word_of (c ∷ cs) = let rest = word_of cs in if is_cut c then [] else c ∷ rest

is_separator-is_cut : (c : ℕ) → is_separator c ≡ is_cut c
unfolding is_separator is_cut
is_separator-is_cut c = refl

module _ (P : List ℕ → Type 0) where
  -- The word at the front of the runes, and one behind some cut.
  abbrev pub FrontToken : List ℕ → Type 0
  FrontToken raw = (word_of raw ≢ []) × P (word_of raw)

  abbrev pub LaterToken : List ℕ → Type 0
  LaterToken raw =
      (before : List ℕ) × (c : ℕ) × (rest : List ℕ) × (raw ≡ before ++ c ∷ rest)
      × (is_cut c ≡ true)
      × FrontToken rest

  abbrev pub HasToken : List ℕ → Type 0
  HasToken raw = FrontToken raw ⊎ LaterToken raw

  LaterToken-nil : ¬ (LaterToken [])
  LaterToken-nil ([], c, rest, e, k, h) = cc e
  LaterToken-nil (b ∷ before, c, rest, e, k, h) = cc e

  LaterToken-split :
      (c : ℕ) (cs : List ℕ)
      → LaterToken (c ∷ cs)
      → ((is_cut c ≡ true) × FrontToken cs) ⊎ LaterToken cs
  LaterToken-split c cs ([], d, rest, e, k, f) =
      inl (subst (λ z. is_cut z ≡ true) (cc e) k, subst FrontToken (cc e) f)
  LaterToken-split c cs (b ∷ before, d, rest, e, k, f) = inr (before, d, rest, cc e, k, f)

  LaterToken-join :
      (c : ℕ) (cs : List ℕ)
      → ((is_cut c ≡ true) × FrontToken cs) ⊎ LaterToken cs
      → LaterToken (c ∷ cs)
  LaterToken-join c cs (inl (k, f)) = ([], c, cs, refl, k, f)
  LaterToken-join c cs (inr (before, d, rest, e, k, f)) =
      (c ∷ before, d, rest, ap (λ z. c ∷ z) e, k, f)

  close_word-Has :
      (word : List ℕ) (rest : List (List ℕ))
      → Has P (close_word word rest) ↔ (((word ≢ []) × P word) ⊎ Has P rest)
  unfolding close_word
  close_word-Has [] rest = (λ h. inr h, λ h. elim h [ inl (n, p) ↦ absurd (n refl) | inr k ↦ k ])
  close_word-Has (c ∷ cs) rest = (
    λ h. elim h [ inl p ↦ inl ((λ e. cc e), p) | inr k ↦ inr k ],
    λ h. elim h [ inl (n, p) ↦ inl p | inr k ↦ inr k ],
  )

  -- The tokens from a place on, with a part of the first one read.
  split_words-Has :
      (word cs : List ℕ)
      → Has P (split_words word cs)
        ↔ (((word ++ word_of cs ≢ []) × P (word ++ word_of cs)) ⊎ LaterToken cs)
  unfolding split_words word_of
  split_words-Has word [] =
      rw (append-nil word) (ground (arith, close_word-Has word [], LaterToken-nil))
  split_words-Has word (c ∷ cs) =
      let split = LaterToken-split c cs in
      let join = LaterToken-join c cs in
      elim (Bool-cases (is_cut c)) [
        | inl e ↦
            let closed = close_word-Has word (split_words [] cs) in
            let rest = split_words-Has [] cs in
            rw (is_separator-is_cut c, e)
              (rw (append-nil word) (
                λ h. elim (closed.0 h) [
                  | inl w ↦ inl w
                  | inr k ↦ elim (rest.0 k) [
                    | inl f ↦ inr (join (inl (e, f)))
                    | inr l ↦ inr (join (inr l))
                  ]
                ],
                λ h. elim h [
                  | inl w ↦ closed.1 (inl w)
                  | inr k ↦ elim (split k) [
                    | inl (q, f) ↦ closed.1 (inr (rest.1 (inl f)))
                    | inr l ↦ closed.1 (inr (rest.1 (inr l)))
                  ]
                ],
              ))
        | inr e ↦
            let same : (word ++ c ∷ []) ++ word_of cs ≡ word ++ c ∷ word_of cs =
              append_assoc word (c ∷ []) (word_of cs) in
            let go =
              subst
                (λ w. Has P (split_words (word ++ c ∷ []) cs) ↔ (((w ≢ []) × P w) ⊎ LaterToken cs))
                same (split_words-Has (word ++ c ∷ []) cs) in
            rw (is_separator-is_cut c, e)
              (
                λ h. elim (go.0 h) [ inl w ↦ inl w | inr l ↦ inr (join (inr l)) ],
                λ h. elim h [
                  | inl w ↦ go.1 (inl w)
                  | inr k ↦ elim (split k) [ inl (q, f) ↦ cc (e, q) | inr l ↦ go.1 (inr l) ]
                ],
              )
      ]

-- What holds of every rune of a command holds of every rune of its tokens.
module _ (P : ℕ → Type 0) where
  close_word-All :
      (word : List ℕ) (rest : List (List ℕ))
      → All P word
      → All (All P) rest
      → All (All P) (close_word word rest)
  unfolding close_word
  close_word-All [] rest h k = k
  close_word-All (c ∷ cs) rest h k = (h, k)

  split_words-All : (word cs : List ℕ) → All P word → All P cs → All (All P) (split_words word cs)
  unfolding split_words
  split_words-All word [] h k = close_word-All word [] h tt
  split_words-All word (c ∷ cs) h (p, k) = elim (Bool-cases (is_separator c)) [
    | inl e ↦ rw e (close_word-All word _ h (split_words-All [] cs tt k))
    | inr e ↦ rw e (split_words-All (word ++ c ∷ []) cs (All-append P word (c ∷ []) h (p, tt)) k)
  ]

module _ (unicode_lower : ℕ → ℕ) where
  classify_path-IsBlank :
      (cs : List ℕ) → IsBlank cs → classify_path unicode_lower cs ≡ (non_project, indeterminate)
  unfolding classify_path
  classify_path-IsBlank cs h = rw (trim-IsBlank cs h)

  -- A secret file among the tokens.
  abbrev pub IsSecret : List ℕ → Type 0
  IsSecret token = is_secret_class (classify_path unicode_lower token).0 ≡ true

  first_secret_iff :
      (tokens : List (List ℕ))
      → ((first_secret unicode_lower tokens).0 ≡ credential_access) ↔ Has IsSecret tokens
  unfolding first_secret
  first_secret_iff [] = (λ h. cc, λ h. absurd h)
  first_secret_iff (t ∷ ts) =
      elim (Bool-cases (is_secret_class (classify_path unicode_lower t).0)) [
        | inl e ↦ (λ h. inl e, λ h. rw e)
        | inr e ↦ rw e (
          λ h. inr ((first_secret_iff ts).0 h),
          λ h. elim h [ inl now ↦ cc | inr later ↦ (first_secret_iff ts).1 later ],
        )
      ]

  no-IsSecret_of_IsBlank : (tokens : List (List ℕ)) → All IsBlank tokens → ¬ (Has IsSecret tokens)
  unfolding is_secret_class
  no-IsSecret_of_IsBlank [] h k = k
  no-IsSecret_of_IsBlank (t ∷ ts) (b, h) k = elim k [
    | inl now ↦ cc (rw (classify_path-IsBlank t b) at now)
    | inr later ↦ no-IsSecret_of_IsBlank ts h later
  ]

  -- A command line is a credential access exactly when one of its tokens is classified as a secret
  -- file: a token is a run of runes other than whitespace, quotes, brackets and the shell
  -- metacharacters, at the front or right behind one of these, up to the next of them or the end.
  pub classify_command_access_iff :
      (raw : List ℕ)
      → ((classify_command_access unicode_lower raw).0 ≡ credential_access) ↔ HasToken IsSecret raw
  unfolding classify_command_access command_split
  classify_command_access_iff raw =
      let found = split_words-Has IsSecret [] raw in
      elim (Bool-cases (is_nil (trim raw))) [
        | inl e ↦ rw e (
          λ h. cc,
          λ h. absurd (
              no-IsSecret_of_IsBlank (split_words [] raw)
                (split_words-All (λ c. is_space c ≡ true) [] raw tt (IsBlank-of_trim raw e))
                (found.1 h)),
        )
        | inr e ↦
            let first = first_secret_iff (split_words [] raw) in
            rw e (λ h. found.0 (first.0 h), λ h. first.1 (found.1 h))
      ]
