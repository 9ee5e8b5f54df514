-- ===== src/Prelude/Sorted.antt =====
-- Sorting by a strict order: the result is in order where any two elements are comparable, and it
-- commutes with a choice of elements.
use mathlib.Core.Bool.{Bool, true, false}
use mathlib.Core.Path.{◌≡◌, refl, sym, ap}
use mathlib.Core.List.{List, [], ◌∷◌}
use mathlib.Core.Logic.{◌⊎◌, inl, inr}
use ai_engineering_productiv.Prelude.Lists.{All, keep}
use ai_engineering_productiv.Prelude.Tests.{if◌then◌else◌, Bool-cases}
use ai_engineering_productiv.Prelude.Members.{All-imp}
use ai_engineering_productiv.Prelude.Sort.{Apart, insert_by, sort_by, insert_by-All, sort_by-All}

module _ {ℓ} {A : Type ℓ} where
  pub keep-adds :
      (p : A → Bool) (x : A) (xs : List A) → p x ≡ true → keep p (x ∷ xs) ≡ x ∷ keep p xs
  keep-adds p x xs e = rw (e, keep) refl

  pub keep-skips : (p : A → Bool) (x : A) (xs : List A) → p x ≡ false → keep p (x ∷ xs) ≡ keep p xs
  keep-skips p x xs e = rw (e, keep) refl

  pub keep-All : (p : A → Bool) (P : A → Type 0) (xs : List A) → All P xs → All P (keep p xs)
  keep-All p P [] h = tt
  keep-All p P (x ∷ xs) (q, h) = elim (Bool-cases (p x)) [
    | inl e ↦ rw (keep-adds p x xs e) (q, keep-All p P xs h)
    | inr e ↦ rw (keep-skips p x xs e) (keep-All p P xs h)
  ]

  pub keep-Apart :
      (R : A → A → Type 0) (p : A → Bool) (xs : List A) → Apart R xs → Apart R (keep p xs)
  keep-Apart R p [] h = tt
  keep-Apart R p (x ∷ xs) (q, h) = elim (Bool-cases (p x)) [
    | inl e ↦ rw (keep-adds p x xs e) (keep-All p (R x) xs q, keep-Apart R p xs h)
    | inr e ↦ rw (keep-skips p x xs e) (keep-Apart R p xs h)
  ]

  insert_by-after :
      (less : A → A → Bool) (x y : A) (ys : List A)
      → less y x ≡ true
      → insert_by less x (y ∷ ys) ≡ y ∷ insert_by less x ys
  unfolding insert_by
  insert_by-after less x y ys e = rw e refl

module _ {ℓ} {A : Type ℓ} (less : A → A → Bool)
    (trans : (a b c : A) → less a b ≡ true → less b c ≡ true → less a c ≡ true)
    (irrefl : (a : A) → less a a ≡ false) where
  insert_by-IsSorted :
      (x : A) (ys : List A)
      → All (λ y. (less x y ≡ true) ⊎ (less y x ≡ true)) ys
      → Apart (λ a b. less a b ≡ true) ys
      → Apart (λ a b. less a b ≡ true) (insert_by less x ys)
  unfolding insert_by
  insert_by-IsSorted x [] comparable sorted = (tt, tt)
  insert_by-IsSorted x (y ∷ ys) (c, comparable) (first, sorted) = elim (Bool-cases (less y x)) [
    | inl e ↦ rw e (
      insert_by-All less (λ z. less y z ≡ true) x ys e first,
      insert_by-IsSorted x ys comparable sorted,
    )
    | inr e ↦
        let lower : less x y ≡ true = elim c [ inl h ↦ h | inr h ↦ absurd (cc (h, e)) ] in
        rw e (
          (
            lower,
            All-imp (λ z. less y z ≡ true) (λ z. less x z ≡ true) (λ z h. trans x y z lower h) ys
                first,
          ),
          (first, sorted),
        )
  ]

  pub sort_by-IsSorted :
      (xs : List A)
      → Apart (λ a b. (less a b ≡ true) ⊎ (less b a ≡ true)) xs
      → Apart (λ a b. less a b ≡ true) (sort_by less xs)
  unfolding sort_by
  sort_by-IsSorted [] h = tt
  sort_by-IsSorted (x ∷ xs) (c, h) =
      insert_by-IsSorted x (sort_by less xs)
        (sort_by-All less (λ y. (less x y ≡ true) ⊎ (less y x ≡ true)) xs c) (sort_by-IsSorted xs h)

  insert_by-front :
      (x : A) (ys : List A) → All (λ y. less y x ≡ false) ys → insert_by less x ys ≡ x ∷ ys
  unfolding insert_by
  insert_by-front x [] h = refl
  insert_by-front x (y ∷ ys) (e, h) = rw e refl

  not_before : (x y z : A) → less y x ≡ false → less y z ≡ true → less z x ≡ false
  not_before x y z e h = elim (Bool-cases (less z x)) [
    | inl q ↦ absurd (cc (trans y z x h q, e))
    | inr q ↦ q
  ]

  insert_by-keep :
      (p : A → Bool) (x : A) (ys : List A)
      → Apart (λ a b. less a b ≡ true) ys
      → keep p (insert_by less x ys) ≡ (if p x then insert_by less x (keep p ys) else keep p ys)
  unfolding insert_by
  insert_by-keep p x [] h = elim (Bool-cases (p x)) [ inl e ↦ rw e refl | inr e ↦ rw e refl ]
  insert_by-keep p x (y ∷ ys) (first, sorted) = elim (Bool-cases (less y x)) [
    | inl e ↦ elim (Bool-cases (p y)) [
      | inl q ↦
          rw
            (
              insert_by-after less x y ys e,
              keep-adds p y ys q,
              keep-adds p y (insert_by less x ys) q,
            )
            (rw (insert_by-keep p x ys sorted, insert_by-after less x y (keep p ys) e)
              (elim (Bool-cases (p x)) [ inl r ↦ rw r refl | inr r ↦ rw r refl ]))
      | inr q ↦
          rw
            (
              insert_by-after less x y ys e,
              keep-skips p y ys q,
              keep-skips p y (insert_by less x ys) q,
            )
            (insert_by-keep p x ys sorted)
    ]
    | inr e ↦
        let above : All (λ z. less z x ≡ false) (keep p (y ∷ ys)) =
          keep-All p (λ z. less z x ≡ false) (y ∷ ys)
            (
              e,
              All-imp (λ z. less y z ≡ true) (λ z. less z x ≡ false) (λ z. not_before x y z e) ys
                  first,
            ) in
        rw e (elim (Bool-cases (p x)) [
          | inl r ↦
              rw (keep-adds p x (y ∷ ys) r, r) (sym (insert_by-front x (keep p (y ∷ ys)) above))
          | inr r ↦ rw (keep-skips p x (y ∷ ys) r, r) refl
        ])
  ]

  pub sort_by-keep :
      (p : A → Bool) (xs : List A)
      → Apart (λ a b. (less a b ≡ true) ⊎ (less b a ≡ true)) xs
      → sort_by less (keep p xs) ≡ keep p (sort_by less xs)
  unfolding sort_by
  sort_by-keep p [] h = refl
  sort_by-keep p (x ∷ xs) (c, h) =
      rw (insert_by-keep p x (sort_by less xs) (sort_by-IsSorted xs h)) (elim (Bool-cases (p x)) [
        | inl e ↦ rw (keep-adds p x xs e, e) (ap (insert_by less x) (sort_by-keep p xs h))
        | inr e ↦ rw (keep-skips p x xs e, e) (sort_by-keep p xs h)
      ])
