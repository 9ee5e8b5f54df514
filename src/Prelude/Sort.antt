-- ===== src/Prelude/Sort.antt =====
-- sort.Slice and sort.SliceStable, as a stable insertion sort by a "less" test.
use mathlib.Core.Bool.{Bool, true, false}
use mathlib.Core.Path.{◌≡◌}
use native.Mathlib.Omega.{arith}
use mathlib.Core.List.{List, [], ◌∷◌, Perm}
use mathlib.Core.List.Perm
use ai_engineering_productiv.Prelude.Lists.{All, Has}
use ai_engineering_productiv.Prelude.Tests.{if◌then◌else◌, Bool-cases}
use mathlib.Core.Logic.{◌↔◌, ◌⊎◌, inl, inr}

module _ {ℓ} {A : Type ℓ} where
  unfoldable pub insert_by : (A → A → Bool) → A → List A → List A
  insert_by less x [] = x ∷ []
  insert_by less x (y ∷ ys) =
      let rest = insert_by less x ys in if less y x then y ∷ rest else x ∷ y ∷ ys

  unfoldable pub sort_by : (A → A → Bool) → List A → List A
  unfolding insert_by
  sort_by less [] = []
  sort_by less (x ∷ xs) = insert_by less x (sort_by less xs)

  insert_by-perm : (less : A → A → Bool) (x : A) (ys : List A) → Perm (insert_by less x ys) (x ∷ ys)
  unfolding insert_by
  insert_by-perm less x [] = Perm.refl _
  insert_by-perm less x (y ∷ ys) = elim (Bool-cases (less y x)) [
    | inl e ↦ rw e (Perm.trans (Perm.cons y (insert_by-perm less x ys)) (Perm.swap x y ys))
    | inr e ↦ rw e (Perm.refl _)
  ]

  pub sort_by-perm : (less : A → A → Bool) (xs : List A) → Perm (sort_by less xs) xs
  unfolding sort_by
  sort_by-perm less [] = Perm.refl _
  sort_by-perm less (x ∷ xs) =
      Perm.trans (insert_by-perm less x (sort_by less xs)) (Perm.cons x (sort_by-perm less xs))

  -- A property of the elements is kept by sorting, and one of them has it as before.
  pub insert_by-All :
      (less : A → A → Bool) (P : A → Type 0) (x : A) (ys : List A)
      → P x
      → All P ys
      → All P (insert_by less x ys)
  unfolding insert_by
  insert_by-All less P x [] p h = (p, tt)
  insert_by-All less P x (y ∷ ys) p (q, h) = elim (Bool-cases (less y x)) [
    | inl e ↦ rw e (q, insert_by-All less P x ys p h)
    | inr e ↦ rw e (p, (q, h))
  ]

  insert_by-Has :
      (less : A → A → Bool) (P : A → Type 0) (x : A) (ys : List A)
      → Has P (insert_by less x ys) ↔ (P x ⊎ Has P ys)
  unfolding insert_by
  insert_by-Has less P x [] = ((λ h. h), λ h. h)
  insert_by-Has less P x (y ∷ ys) = elim (Bool-cases (less y x)) [
    | inl e ↦ rw e (ground (arith, insert_by-Has less P x ys))
    | inr e ↦ rw e ((λ h. h), λ h. h)
  ]

  pub sort_by-Has :
      (less : A → A → Bool) (P : A → Type 0) (xs : List A) → Has P (sort_by less xs) ↔ Has P xs
  unfolding sort_by
  sort_by-Has less P [] = ((λ h. h), λ h. h)
  sort_by-Has less P (x ∷ xs) =
      let i = insert_by-Has less P x (sort_by less xs) in
      let r = sort_by-Has less P xs in
      (
        λ h. elim (i.0 h) [ inl p ↦ inl p | inr q ↦ inr (r.0 q) ],
        λ h. i.1 (elim h [ inl p ↦ inl p | inr q ↦ inr (r.1 q) ]),
      )

  -- Any two elements, in either order, are apart.
  abbrev pub Apart : (A → A → Type 0) → List A → Type 0
  Apart R [] = Unit
  Apart R (x ∷ xs) = All (R x) xs × Apart R xs

  insert_by-Apart :
      (less : A → A → Bool) (R : A → A → Type 0)
      → ((a b : A) → R a b → R b a)
      → (x : A) (ys : List A) → All (R x) ys
      → Apart R ys
      → Apart R (insert_by less x ys)
  unfolding insert_by
  insert_by-Apart less R flip x [] p h = (tt, tt)
  insert_by-Apart less R flip x (y ∷ ys) (p, ps) (q, h) = elim (Bool-cases (less y x)) [
    | inl e ↦
        rw e (insert_by-All less (R y) x ys (flip x y p) q, insert_by-Apart less R flip x ys ps h)
    | inr e ↦ rw e ((p, ps), (q, h))
  ]

  pub sort_by-All :
      (less : A → A → Bool) (P : A → Type 0) (xs : List A) → All P xs → All P (sort_by less xs)
  unfolding sort_by
  sort_by-All less P [] h = tt
  sort_by-All less P (x ∷ xs) (p, h) =
      insert_by-All less P x (sort_by less xs) p (sort_by-All less P xs h)

  pub sort_by-Apart :
      (less : A → A → Bool) (R : A → A → Type 0)
      → ((a b : A) → R a b → R b a)
      → (xs : List A) → Apart R xs
      → Apart R (sort_by less xs)
  unfolding sort_by
  sort_by-Apart less R flip [] h = tt
  sort_by-Apart less R flip (x ∷ xs) (p, h) =
      insert_by-Apart less R flip x (sort_by less xs) (sort_by-All less (R x) xs p)
        (sort_by-Apart less R flip xs h)

  -- No element is less than the one before it.
  abbrev pub Ascending : (A → A → Bool) → List A → Type 0
  Ascending less [] = Unit
  Ascending less (x ∷ []) = Unit
  Ascending less (x ∷ y ∷ ys) = (less y x ≡ false) × Ascending less (y ∷ ys)

  module _ (less : A → A → Bool) (asym : (a b : A) → less a b ≡ true → less b a ≡ false) where
    insert_by-Ascending :
        (x : A) (ys : List A) → Ascending less ys → Ascending less (insert_by less x ys)
    unfolding insert_by
    insert_by-Ascending x [] h = tt
    insert_by-Ascending x (y ∷ []) h = elim (Bool-cases (less y x)) [
      | inl e ↦ rw e (asym y x e, tt)
      | inr e ↦ rw e (e, tt)
    ]
    insert_by-Ascending x (y ∷ z ∷ ys) (p, h) =
        let ih = insert_by-Ascending x (z ∷ ys) h in
        elim (Bool-cases (less y x)) [
          | inl e ↦ rw e (elim (Bool-cases (less z x)) [
            | inl g ↦ rw g (p, rw g at ih)
            | inr g ↦ rw g (asym y x e, rw g at ih)
          ])
          | inr e ↦ rw e (e, (p, h))
        ]

    pub sort_by-Ascending : (xs : List A) → Ascending less (sort_by less xs)
    unfolding sort_by
    sort_by-Ascending [] = tt
    sort_by-Ascending (x ∷ xs) = insert_by-Ascending x (sort_by less xs) (sort_by-Ascending xs)
