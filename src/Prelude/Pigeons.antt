-- ===== src/Prelude/Pigeons.antt =====
-- Different numbers below a bound are no more than the bound.
use Prim.Native.Nat.{ℕ, zero, suc, ◌≤◌, ◌<◌}
use mathlib.Core.Path.{◌≡◌}
use mathlib.Core.Logic.{◌≢◌, inl, inr}
use mathlib.Core.List.{List, [], ◌∷◌}
use native.Mathlib.Omega.{arith}
use ai_engineering_productiv.Prelude.Tests.{nat_eq, nat_eq_iff, if◌then◌else◌, Bool-cases}
use ai_engineering_productiv.Prelude.Lists.{length, All}
use ai_engineering_productiv.Prelude.Sort.{Apart}

abbrev without : ℕ → List ℕ → List ℕ
without k [] = []
without k (x ∷ xs) = let rest = without k xs in if nat_eq x k then xs else x ∷ rest

length-without : (k : ℕ) (xs : List ℕ) → length xs ≤ suc (length (without k xs))
length-without k [] = omega arith
length-without k (x ∷ xs) = elim (Bool-cases (nat_eq x k)) [
  | inl e ↦ rw e (omega arith)
  | inr e ↦ rw e (omega (arith, length-without k xs))
]

below_and_not :
    (k : ℕ) (xs : List ℕ) → All (λ x. k ≢ x) xs → All (λ x. x < suc k) xs → All (λ x. x < k) xs
below_and_not k [] a h = tt
below_and_not k (x ∷ xs) (n, a) (l, h) = (ground (arith, n), below_and_not k xs a h)

without-below :
    (k : ℕ) (xs : List ℕ)
    → Apart (λ a b. a ≢ b) xs
    → All (λ x. x < suc k) xs
    → All (λ x. x < k) (without k xs)
without-below k [] a h = tt
without-below k (x ∷ xs) (n, a) (l, h) = elim (Bool-cases (nat_eq x k)) [
  | inl e ↦ let same : x ≡ k = (nat_eq_iff x k).0 e in rw e (below_and_not k xs (rw same at n) h)
  | inr e ↦ rw e (ground (arith, nat_eq_iff x k), without-below k xs a h)
]

without-All : (P : ℕ → Type 0) (k : ℕ) (xs : List ℕ) → All P xs → All P (without k xs)
without-All P k [] h = tt
without-All P k (x ∷ xs) (p, h) = elim (Bool-cases (nat_eq x k)) [
  | inl e ↦ rw e h
  | inr e ↦ rw e (p, without-All P k xs h)
]

without-Apart :
    (k : ℕ) (xs : List ℕ) → Apart (λ a b. a ≢ b) xs → Apart (λ a b. a ≢ b) (without k xs)
without-Apart k [] a = tt
without-Apart k (x ∷ xs) (n, a) = elim (Bool-cases (nat_eq x k)) [
  | inl e ↦ rw e a
  | inr e ↦ rw e (without-All (λ b. x ≢ b) k xs n, without-Apart k xs a)
]

pub length-Apart :
    (n : ℕ) (xs : List ℕ) → Apart (λ a b. a ≢ b) xs → All (λ x. x < n) xs → length xs ≤ n
length-Apart zero [] a h = omega arith
length-Apart zero (x ∷ xs) a (l, h) = absurd (omega arith)
length-Apart (suc n) xs a h = omega (
  arith,
  length-without n xs,
  length-Apart n (without n xs) (without-Apart n xs a) (without-below n xs a h),
)
