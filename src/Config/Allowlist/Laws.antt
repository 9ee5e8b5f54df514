-- ===== src/Config/Allowlist/Laws.antt =====
-- The stored MCP allowlist names every key that was given, once, in order.
use ai_engineering_productiv.Prelude.{
  ℕ, String, ◌≡◌, ◌≢◌, sym, ap, ◌∙◌, ◌↔◌, ◌⊎◌, inl, inr, true, false, List, [], ◌∷◌, arith,
  Bool-cases, All, Has, any, codes_eq, codes_eq_iff, trim_space, sort_by-Has, sort_by-Apart,
  sort_by-Ascending, Apart, Ascending,
}
use ai_engineering_productiv.Config.Allowlist.{
  codes_lt, codes_lt_asym, key_of, distinct_names, normalized_allowlist,
}

module _ (lower : ℕ → ℕ) where
  seen_iff :
      (k : List ℕ) (seen : List (List ℕ)) → (any (codes_eq k) seen ≡ true) ↔ Has (λ s. k ≡ s) seen
  seen_iff k [] = ((λ h. cc), λ h. absurd h)
  seen_iff k (s ∷ seen) = ground (arith, seen_iff k seen, codes_eq_iff k s)

  abbrev Unseen : List (List ℕ) → String → Type 0
  Unseen seen name = any (codes_eq (key_of lower name)) seen ≡ false

  Unseen-tail :
      (k : List ℕ) (seen : List (List ℕ)) (names : List String)
      → All (Unseen (k ∷ seen)) names
      → All (Unseen seen) names × All (λ b. k ≢ key_of lower b) names
  Unseen-tail k seen [] h = (tt, tt)
  Unseen-tail k seen (n ∷ names) (h, hs) =
      ground (arith, Unseen-tail k seen names hs, codes_eq_iff (key_of lower n) k)

  distinct_names-Apart :
      (seen : List (List ℕ)) (names : List String)
      → All (Unseen seen) (distinct_names lower seen names)
        × Apart (λ a b. key_of lower a ≢ key_of lower b) (distinct_names lower seen names)
  unfolding distinct_names
  distinct_names-Apart seen [] = (tt, tt)
  distinct_names-Apart seen (name ∷ names) =
      elim (Bool-cases (any (codes_eq (key_of lower (trim_space name))) seen)) [
        | inl e ↦ rw e (distinct_names-Apart seen names)
        | inr e ↦ rw e (
            let k = key_of lower (trim_space name) in
            let (fresh, apart) = distinct_names-Apart (k ∷ seen) names in
            let (unseen, other) =
              Unseen-tail k seen (distinct_names lower (k ∷ seen) names) fresh in
            ((e, unseen), (other, apart)))
      ]

  distinct_names-Has :
      (k : List ℕ) (seen : List (List ℕ)) (names : List String)
      → (Has (λ s. k ≡ s) seen ⊎ Has (λ b. key_of lower b ≡ k) (distinct_names lower seen names))
        ↔ (Has (λ s. k ≡ s) seen ⊎ Has (λ n. key_of lower (trim_space n) ≡ k) names)
  unfolding distinct_names
  distinct_names-Has k seen [] = ((λ h. h), λ h. h)
  distinct_names-Has k seen (name ∷ names) =
      let k2 = key_of lower (trim_space name) in
      elim (Bool-cases (any (codes_eq k2) seen)) [
        | inl e ↦ rw e (
            let i = distinct_names-Has k seen names in
            (
              λ h. elim (i.0 h) [ inl p ↦ inl p | inr q ↦ inr (inr q) ],
              λ h. elim h [
                | inl p ↦ inl p
                | inr (inl q) ↦
                    inl ((seen_iff k seen).0 (sym (ap (λ z. any (codes_eq z) seen) q) ∙ e))
                | inr (inr q) ↦ i.1 (inr q)
              ],
            ))
        | inr e ↦ rw e (
            let i = distinct_names-Has k (k2 ∷ seen) names in
            (
              λ h. elim h [
                | inl p ↦ inl p
                | inr (inl q) ↦ inr (inl q)
                | inr (inr q) ↦ elim (i.0 (inr q)) [
                  | inl (inl p) ↦ inr (inl (sym p))
                  | inl (inr p) ↦ inl p
                  | inr p ↦ inr (inr p)
                ]
              ],
              λ h. elim h [
                | inl p ↦ inl p
                | inr (inl q) ↦ inr (inl q)
                | inr (inr q) ↦ elim (i.1 (inr q)) [
                  | inl (inl p) ↦ inr (inl (sym p))
                  | inl (inr p) ↦ inl p
                  | inr p ↦ inr (inr p)
                ]
              ],
            ))
      ]

  normalized_allowlist-Has :
      (names : List String) (k : List ℕ)
      → Has (λ b. key_of lower b ≡ k) (normalized_allowlist lower names)
        ↔ Has (λ n. key_of lower (trim_space n) ≡ k) names
  unfolding normalized_allowlist
  normalized_allowlist-Has names k =
      let s =
        sort_by-Has (λ a b. codes_lt (key_of lower a) (key_of lower b)) (λ b. key_of lower b ≡ k)
          (distinct_names lower [] names) in
      let i = distinct_names-Has k [] names in
      (
        λ h. elim (i.0 (inr (s.0 h))) [ inl p ↦ absurd p | inr q ↦ q ],
        λ h. elim (i.1 (inr h)) [ inl p ↦ absurd p | inr q ↦ s.1 q ],
      )

  -- The normalised allowlist has no two entries with one key, has an entry for a key exactly when
  -- some given name has that key once trimmed, and lists the keys in ascending order.
  pub normalized_allowlist_lem :
      (names : List String) (k : List ℕ)
      → Apart (λ a b. key_of lower a ≢ key_of lower b) (normalized_allowlist lower names)
        × (Has (λ b. key_of lower b ≡ k) (normalized_allowlist lower names)
            ↔ Has (λ n. key_of lower (trim_space n) ≡ k) names)
        × Ascending
            (λ a b. codes_lt (key_of lower a) (key_of lower b))
            (normalized_allowlist lower names)
  unfolding normalized_allowlist
  normalized_allowlist_lem names k = (
    sort_by-Apart _ _ (λ a b h e. h (sym e)) (distinct_names lower [] names)
        (distinct_names-Apart [] names).1,
    normalized_allowlist-Has names k,
    sort_by-Ascending _ (λ a b. codes_lt_asym (key_of lower a) (key_of lower b))
        (distinct_names lower [] names),
  )
