-- ===== src/Prelude/Members.antt =====
-- Has and All across map, append and a weaker property.
use mathlib.Core.Path.{◌≡◌}
use mathlib.Core.Bool.{true}
use mathlib.Core.Logic.{◌↔◌, ◌⊎◌, inl, inr}
use mathlib.Core.List.{List, [], ◌∷◌, ◌++◌, map}
use native.Mathlib.Omega.{arith}
use Prim.Native.String.{String}
use text.Mathlib.TextEquality.{eq_iff}
use ai_engineering_productiv.Prelude.Lists.{All, Has}
use ai_engineering_productiv.Prelude.Text.{contains}
use ai_engineering_productiv.Prelude.Sort.{Apart}

module _ {ℓ} {A : Type ℓ} where
  pub Has-append : (P : A → Type 0) (xs ys : List A) → Has P (xs ++ ys) ↔ (Has P xs ⊎ Has P ys)
  Has-append P [] ys = (λ h. inr h, λ h. elim h [ inl e ↦ absurd e | inr k ↦ k ])
  Has-append P (x ∷ xs) ys = ground (arith, Has-append P xs ys)

  pub Has-iff : (P Q : A → Type 0) → ((a : A) → P a ↔ Q a) → (xs : List A) → Has P xs ↔ Has Q xs
  Has-iff P Q i [] = (λ h. h, λ h. h)
  Has-iff P Q i (x ∷ xs) = ground (arith, i x, Has-iff P Q i xs)

  pub All-imp {κ κ2} :
      (P : A → Type κ) (Q : A → Type κ2)
      → ((a : A) → P a → Q a)
      → (xs : List A) → All P xs
      → All Q xs
  All-imp P Q f [] h = tt
  All-imp P Q f (x ∷ xs) (p, h) = (f x p, All-imp P Q f xs h)

  pub Apart-imp :
      (R S : A → A → Type 0) → ((a b : A) → R a b → S a b) → (xs : List A) → Apart R xs → Apart S xs
  Apart-imp R S f [] h = tt
  Apart-imp R S f (x ∷ xs) (p, h) = (All-imp (R x) (S x) (f x) xs p, Apart-imp R S f xs h)

  module _ {ℓ2} {B : Type ℓ2} (f : A → B) where
    pub Has-map : (P : B → Type 0) (xs : List A) → Has P (map f xs) ↔ Has (λ a. P (f a)) xs
    Has-map P [] = (λ h. h, λ h. h)
    Has-map P (x ∷ xs) = ground (arith, Has-map P xs)

    pub All-map {κ} : (P : B → Type κ) (xs : List A) → All (λ a. P (f a)) xs → All P (map f xs)
    All-map P [] h = tt
    All-map P (x ∷ xs) (p, h) = (p, All-map P xs h)

    pub Apart-map :
        (R : B → B → Type 0) (xs : List A) → Apart (λ a b. R (f a) (f b)) xs → Apart R (map f xs)
    Apart-map R [] h = tt
    Apart-map R (x ∷ xs) (p, h) = (All-map (R (f x)) xs p, Apart-map R xs h)

pub contains_iff : (xs : List String) (s : String) → (contains xs s ≡ true) ↔ Has (λ x. x ≡ s) xs
unfolding contains
contains_iff [] s = (λ h. cc, λ h. absurd h)
contains_iff (x ∷ xs) s = ground (arith, contains_iff xs s, eq_iff x s)
