-- ===== src/Cost/Select/Laws.antt =====
-- selectPrice chooses the best of the records that apply.
use Prim.Native.String
use Prim.Native.String.{len}
use Prim.Native.Char.{code}
use text.Mathlib.TextEquality.{Char-path}
use ai_engineering_productiv.Prelude.{
  ℕ, ◌≤◌, ◌<◌, String, ◌≡◌, refl, sym, ap, ◌∙◌, ◌⊎◌, inl, inr, true, false, Option, none, some,
  List, [], ◌∷◌, eq_iff, arith, nat_eq, All, Has, Bool-cases, nat_eq_iff, and_iff,
}
use ai_engineering_productiv.Cost.{PriceRecord}
use ai_engineering_productiv.Cost.Catalog.{ends_with_star}
use ai_engineering_productiv.Cost.Select.{
  starts_with, without_star, match_price, score_of, applies, better, select_from, select_price,
}

module _ (provider model : String) (at : ℕ) where
  -- A higher score, or the same one and at least as recent.
  abbrev pub AtLeast : PriceRecord → PriceRecord → Type 0
  AtLeast s r =
      (score_of provider model r < score_of provider model s)
      ⊎ ((score_of provider model r ≡ score_of provider model s)
          × (r.effective_at ≤ s.effective_at))

  abbrev pub Beaten : PriceRecord → PriceRecord → Type 0
  Beaten s r = (applies provider model at r ≡ false) ⊎ AtLeast s r

  -- What a selection promises: nothing applies, or the selected one applies and beats all others.
  abbrev pub Chosen : Option PriceRecord → List PriceRecord → Type 0
  Chosen none rs = All (λ r. applies provider model at r ≡ false) rs
  Chosen (some s) rs =
      Has (λ r. r ≡ s) rs × (applies provider model at s ≡ true) × All (Beaten s) rs

  AtLeast-trans : (a b c : PriceRecord) → AtLeast a b → AtLeast b c → AtLeast a c
  AtLeast-trans a b c h k = ground arith

  better-cases :
      (s r : PriceRecord)
      → ((better provider model (some s) r ≡ true) × AtLeast r s)
        ⊎ ((better provider model (some s) r ≡ false) × AtLeast s r)
  unfolding better
  better-cases s r = ground arith

  abbrev Continues : PriceRecord → List PriceRecord → PriceRecord → Type 0
  Continues s rs s2 =
      (select_from provider model at (some s) rs ≡ some s2)
      × ((s ≡ s2) ⊎ (Has (λ r. r ≡ s2) rs × (applies provider model at s2 ≡ true)))
      × AtLeast s2 s
      × All (Beaten s2) rs

  select_from-some :
      (s : PriceRecord) (rs : List PriceRecord) → (s2 : PriceRecord) × Continues s rs s2
  unfolding select_from
  select_from-some s [] = (s, (refl, inl refl, inr (refl, omega arith), tt))
  select_from-some s (r ∷ rs) = elim (Bool-cases (applies provider model at r)) [
    | inr n ↦ let (s2, (e, o, b, h)) = select_from-some s rs in (s2, ground arith)
    | inl y ↦ elim (better-cases s r) [
      | inl (q, w) ↦
          let (s2, (e, o, b, h)) = select_from-some r rs in
          (s2, ground (arith, AtLeast-trans s2 r s b w))
      | inr (q, w) ↦
          let (s2, (e, o, b, h)) = select_from-some s rs in
          (s2, ground (arith, AtLeast-trans s2 s r b w))
    ]
  ]

  Chosen-skip :
      (o : Option PriceRecord) (r : PriceRecord) (rs : List PriceRecord)
      → applies provider model at r ≡ false
      → Chosen o rs
      → Chosen o (r ∷ rs)
  Chosen-skip none r rs n h = (n, h)
  Chosen-skip (some s) r rs n (m, y, h) = (inr m, y, (inl n, h))

  -- The selected price record is one of the catalog's, is of the provider and matches the model, is
  -- in force at the time, and no record that applies has a higher score, or the same score and a
  -- later start. Nothing is selected only where no record applies.
  pub select_price_lem : (rs : List PriceRecord) → Chosen (select_price rs provider model at) rs
  unfolding select_price select_from better
  select_price_lem [] = tt
  select_price_lem (r ∷ rs) = elim (Bool-cases (applies provider model at r)) [
    | inr n ↦ rw n (Chosen-skip (select_price rs provider model at) r rs n (select_price_lem rs))
    | inl y ↦
        let (s2, (e, o, b, h)) = select_from-some r rs in
        rw (y, e)
          (
            elim o [ inl q ↦ inl q | inr (k, a) ↦ inr k ],
            elim o [ inl q ↦ sym (ap (applies provider model at) q) ∙ y | inr (k, a) ↦ a ],
            (inr b, h),
          )
  ]

starts_with-len : (s p : String) → starts_with s p ≡ true → len p ≤ len s
unfolding starts_with
starts_with-len s String.[] h = omega arith
starts_with-len String.[] (String.◌∷◌ c p) h = absurd (cc h)
starts_with-len (String.◌∷◌ d s) (String.◌∷◌ c p) h =
    let both = (and_iff (nat_eq (code d) (code c)) (starts_with s p)).0 h in
    let same = Char-path d c ((nat_eq_iff (code d) (code c)).0 both.0) in
    rw same (omega (arith, starts_with-len s p both.1, String.len.cons c p, String.len.cons c s))

-- A record that names the model exactly scores above any record that matches it by a prefix.
pub match_price-exact :
    (provider model : String) (exact prefix : PriceRecord)
    → ends_with_star exact.model_matcher ≡ false
    → ends_with_star prefix.model_matcher ≡ true
    → (match_price exact.provider provider exact.model_matcher model).1 ≡ true
    → (match_price prefix.provider provider prefix.model_matcher model).1 ≡ true
    → score_of provider model prefix < score_of provider model exact
unfolding match_price
match_price-exact provider model exact prefix plain starred h k = ground (
  arith,
  eq_iff exact.provider provider,
  eq_iff prefix.provider provider,
  eq_iff exact.model_matcher model,
  starts_with-len model (without_star prefix.model_matcher),
)
