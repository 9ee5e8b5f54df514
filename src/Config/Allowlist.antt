-- ===== src/Config/Allowlist.antt =====
-- internal/config/manager.go, normalizedAllowlist: trimmed, one entry for each key, sorted by key.
-- The key is the lower-case text, as runes; unicode.ToLower is an argument.
pub mod Laws
use ai_engineering_productiv.Prelude.{
  ℕ, suc, String, ◌≡◌, ◌≢◌, refl, sym, ap, ◌∙◌, ◌↔◌, ◌⊎◌, inl, inr, Bool, true, false, not, ◌&&◌,
  ◌||◌, List, [], ◌∷◌, ◌++◌, map, arith, if◌then◌else◌, ltb, nat_eq, Bool-cases, All, Has, any,
  codes, codes_eq, codes_eq_iff, trim_space, sort_by, insert_by,
}

-- `<` on texts by their runes
unfoldable pub codes_lt : List ℕ → List ℕ → Bool
codes_lt [] [] = false
codes_lt [] (y ∷ ys) = true
codes_lt (x ∷ xs) [] = false
codes_lt (x ∷ xs) (y ∷ ys) = ltb x y || nat_eq x y && codes_lt xs ys

codes_lt_asym : (xs ys : List ℕ) → codes_lt xs ys ≡ true → codes_lt ys xs ≡ false
unfolding codes_lt
codes_lt_asym [] [] h = refl
codes_lt_asym [] (y ∷ ys) h = refl
codes_lt_asym (x ∷ xs) [] h = cc
codes_lt_asym (x ∷ xs) (y ∷ ys) h = ground (arith, codes_lt_asym xs ys)

module _ (lower : ℕ → ℕ) where
  -- strings.ToLower, as runes
  abbrev pub key_of : String → List ℕ
  key_of name = map lower (codes name)

  -- The loop: a name is taken unless its key was seen.
  unfoldable pub distinct_names : List (List ℕ) → List String → List String
  distinct_names seen [] = []
  distinct_names seen (name ∷ names) =
      let trimmed = trim_space name in
      let skipped = distinct_names seen names in
      let taken = trimmed ∷ distinct_names (key_of trimmed ∷ seen) names in
      if any (codes_eq (key_of trimmed)) seen then skipped else taken

  unfoldable pub normalized_allowlist : List String → List String
  normalized_allowlist names =
      sort_by (λ a b. codes_lt (key_of a) (key_of b)) (distinct_names [] names)
