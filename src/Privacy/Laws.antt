-- ===== src/Privacy/Laws.antt =====
-- What a classification depends on.
use ai_engineering_productiv.Prelude.{
  ℕ, ◌≡◌, refl, sym, ◌↔◌, inl, inr, true, false, List, [], ◌∷◌, map, arith, leb, nat_eq,
  if◌then◌else◌, Bool-cases, is_space, ◌&&◌, ◌+◌, ◌≤◌, ◌∙◌, nat_eq_iff,
}
use ai_engineering_productiv.Privacy.{
  PathBoundary, project, project_relative, trim, trim_start, trim_end, is_nil, to_lower,
  normal_rune, classify_path, classify_name, classify_normalized, is_secret_class,
}

-- Trimming commutes with a change of runes that keeps spaces.
module _ (g : ℕ → ℕ) (keeps : (c : ℕ) → is_space (g c) ≡ is_space c) where
  trim_start-map : (cs : List ℕ) → trim_start (map g cs) ≡ map g (trim_start cs)
  unfolding trim_start
  trim_start-map [] = refl
  trim_start-map (c ∷ cs) =
      rw (keeps c)
        (elim (Bool-cases (is_space c)) [ inl e ↦ rw e (trim_start-map cs) | inr e ↦ rw e ])

  is_nil-map : (cs : List ℕ) → is_nil (map g cs) ≡ is_nil cs
  is_nil-map [] = refl
  is_nil-map (c ∷ cs) = refl

  trim_end-map : (cs : List ℕ) → trim_end (map g cs) ≡ map g (trim_end cs)
  unfolding trim_end
  trim_end-map [] = refl
  trim_end-map (c ∷ cs) =
      rw (keeps c, trim_end-map cs, is_nil-map (trim_end cs))
        (elim (Bool-cases (is_space c && is_nil (trim_end cs))) [ inl e ↦ rw e | inr e ↦ rw e ])

  trim-map : (cs : List ℕ) → trim (map g cs) ≡ map g (trim cs)
  unfolding trim
  trim-map cs = rw (trim_start-map cs) (trim_end-map (trim_start cs))

map_of_same :
    (f g : ℕ → ℕ) → ((c : ℕ) → f (g c) ≡ f c) → (cs : List ℕ) → map f (map g cs) ≡ map f cs
map_of_same f g same [] = refl
map_of_same f g same (c ∷ cs) = cc (same c, map_of_same f g same cs)

abbrev pub forward_slash : ℕ → ℕ
forward_slash c = if nat_eq c 92 then b'/' else c

abbrev pub ascii_lower : ℕ → ℕ
ascii_lower c = if leb b'A' c && leb c b'Z' then c + 32 else c

forward_slash-is_space : (c : ℕ) → is_space (forward_slash c) ≡ is_space c
forward_slash-is_space c = elim (Bool-cases (nat_eq c 92)) [
  | inl e ↦ rw e (rw ((nat_eq_iff c 92).0 e) (unfold is_space in refl))
  | inr e ↦ rw e
]

upper_not_space : (c : ℕ) → b'A' ≤ c → c ≤ b'z' → is_space c ≡ false
unfolding is_space
upper_not_space c h k = ground arith

ascii_lower-is_space : (c : ℕ) → is_space (ascii_lower c) ≡ is_space c
ascii_lower-is_space c = elim (Bool-cases (leb b'A' c && leb c b'Z')) [
  | inl e ↦ rw e (
      upper_not_space (c + 32) (ground arith) (ground arith)
      ∙ sym (upper_not_space c (ground arith) (ground arith)))
  | inr e ↦ rw e
]

module _ (unicode_lower : ℕ → ℕ) where
  classify_path-map :
      (g : ℕ → ℕ)
      → ((c : ℕ) → is_space (g c) ≡ is_space c)
      → ((c : ℕ) → normal_rune unicode_lower (g c) ≡ normal_rune unicode_lower c)
      → (raw : List ℕ) → classify_path unicode_lower (map g raw) ≡ classify_path unicode_lower raw
  unfolding classify_path
  classify_path-map g keeps same raw =
      rw (trim-map g keeps raw, is_nil-map g keeps (trim raw))
        (rw (map_of_same (normal_rune unicode_lower) g same (trim raw)))

  -- A path has the same class and boundary with its backslashes written as slashes, and with its
  -- ASCII capitals written small.
  pub classify_path_insensitive :
      (raw : List ℕ)
      → (classify_path unicode_lower (map forward_slash raw) ≡ classify_path unicode_lower raw)
        × (classify_path unicode_lower (map ascii_lower raw) ≡ classify_path unicode_lower raw)
  unfolding normal_rune to_lower
  classify_path_insensitive raw = (
    classify_path-map forward_slash forward_slash-is_space (λ c. ground arith) raw,
    classify_path-map ascii_lower ascii_lower-is_space (λ c. ground arith) raw,
  )

  -- A path is reported as project relative exactly when it is no secret file and lies in the
  -- project.
  pub project_relative_iff :
      (raw : List ℕ)
      → ((classify_path unicode_lower raw).0 ≡ project_relative) ↔ (
          (is_secret_class (classify_path unicode_lower raw).0 ≡ false)
          × ((classify_path unicode_lower raw).1 ≡ project))
  unfolding classify_path classify_normalized classify_name is_secret_class
  project_relative_iff raw = ground arith

-- The class of a secret file is the same wherever it lies.
pub secret_class_location :
    (segments : List (List ℕ)) (base : List ℕ) (b b' : PathBoundary)
    → is_secret_class (classify_name segments base b) ≡ true
    → classify_name segments base b ≡ classify_name segments base b'
unfolding classify_name is_secret_class
secret_class_location segments base b b' h = ground arith
