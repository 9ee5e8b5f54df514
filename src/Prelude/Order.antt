-- ===== src/Prelude/Order.antt =====
-- The order of texts is strict and total.
use Prim.Native.Nat.{ℕ, compare as compare_ℕ, Ordering}
use Prim.Native.Char.{Char, code}
use Prim.Native.String
use Prim.Native.String.{String, [], ◌∷◌, compare, then}
use mathlib.Core.Path.{◌≡◌, refl, ap, ◌∙◌, subst}
use mathlib.Core.Logic.{◌⊎◌, inl, inr}
use mathlib.Core.Bool.{Bool, true, false, ◌||◌, ◌&&◌}
use native.Mathlib.Omega.{arith}
use text.Mathlib.TextEquality.{codes_equal}
use text.Mathlib.TextPositions.{compare_refl}
use ai_engineering_productiv.Prelude.Tests.{ltb, nat_eq}
use ai_engineering_productiv.Prelude.Text.{text_lt}

abbrev is_lt : Ordering → Bool
is_lt Ordering.lt = true
is_lt _ = false

abbrev is_eq : Ordering → Bool
is_eq Ordering.eq = true
is_eq _ = false

is_lt-then : (o r : Ordering) → is_lt (then o r) ≡ (is_lt o || (is_eq o && is_lt r))
is_lt-then Ordering.lt r = refl
is_lt-then Ordering.eq r = refl
is_lt-then Ordering.gt r = refl

text_lt-compare : (s t : String) → text_lt s t ≡ is_lt (compare s t)
unfolding text_lt
text_lt-compare s t = refl

text_lt-cons :
    (c d : Char) (s t : String)
    → text_lt (c ∷ s) (d ∷ t) ≡ (ltb (code c) (code d) || (nat_eq (code c) (code d) && text_lt s t))
unfolding text_lt
text_lt-cons c d s t =
    ap is_lt (String.compare.cons-cons c d s t)
    ∙ is_lt-then (compare_ℕ (code c) (code d)) (compare s t)

text_lt-nil : (s : String) → text_lt s [] ≡ false
unfolding text_lt
text_lt-nil [] = refl
text_lt-nil (c ∷ s) = ap is_lt (String.compare.cons-nil c s)

pub text_lt-nil_cons : (c : Char) (s : String) → text_lt [] (c ∷ s) ≡ true
unfolding text_lt
text_lt-nil_cons c s = ap is_lt (String.compare.nil-cons c s)

pub text_lt_irrefl : (s : String) → text_lt s s ≡ false
unfolding text_lt
text_lt_irrefl s = ap is_lt (compare_refl s)

pub text_lt_trans : (s t u : String) → text_lt s t ≡ true → text_lt t u ≡ true → text_lt s u ≡ true
text_lt_trans s t [] h k = absurd (cc (k, text_lt-nil t))
text_lt_trans s [] (e ∷ u) h k = absurd (cc (h, text_lt-nil s))
text_lt_trans [] (d ∷ t) (e ∷ u) h k = text_lt-nil_cons e u
text_lt_trans (c ∷ s) (d ∷ t) (e ∷ u) h k =
    ground
      (arith, text_lt-cons c e s u, text_lt-cons c d s t, text_lt-cons d e t u, text_lt_trans s t u)

code_cases : (m n : ℕ) → (ltb m n ≡ true) ⊎ (compare_ℕ m n ≡ Ordering.eq) ⊎ (ltb n m ≡ true)
code_cases m n = ground arith

pub text_lt-tail : (c : Char) (s t : String) → text_lt s t ≡ true → text_lt (c ∷ s) (c ∷ t) ≡ true
text_lt-tail c s t h = ground (arith, text_lt-cons c c s t)

pub text_lt_total : (s t : String) → (text_lt s t ≡ true) ⊎ (s ≡ t) ⊎ (text_lt t s ≡ true)
text_lt_total [] [] = inr (inl refl)
text_lt_total [] (d ∷ t) = inl (text_lt-nil_cons d t)
text_lt_total (c ∷ s) [] = inr (inr (text_lt-nil_cons c s))
text_lt_total (c ∷ s) (d ∷ t) = elim (code_cases (code c) (code d)) [
  | inl h ↦ inl (text_lt-cons c d s t ∙ rw h refl)
  | inr (inr h) ↦ inr (inr (text_lt-cons d c t s ∙ rw h refl))
  | inr (inl h) ↦
      let same : c ≡ d = codes_equal c d h in
      elim (text_lt_total s t) [
        | inl l ↦ inl (subst (λ z. text_lt (c ∷ s) (z ∷ t) ≡ true) same (text_lt-tail c s t l))
        | inr (inl e) ↦ inr (inl (λ i. same i ∷ e i))
        | inr (inr l) ↦
            inr (inr (subst (λ z. text_lt (z ∷ t) (c ∷ s) ≡ true) same (text_lt-tail c t s l)))
      ]
]
