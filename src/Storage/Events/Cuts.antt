-- ===== src/Storage/Events/Cuts.antt =====
-- Lists that are cut at an element: the rows behind it, and the page that ends with it.
use ai_engineering_productiv.Prelude.{
  ℕ, zero, suc, ◌≤◌, ◌<◌, ◌≡◌, refl, sym, ap, ◌∙◌, inl, inr, arith, Bool, true, false, ◌&&◌, none,
  some, List, [], ◌∷◌, ◌++◌, leb, Bool-cases, length, map, keep, take, keep-adds, keep-skips,
  take-length_le, All, Apart,
}
use ai_engineering_productiv.Canonical.{Event}
use ai_engineering_productiv.Storage.Tables.{EventRow, row_before}
use ai_engineering_productiv.Storage.Events.{cursor_of, last_of, event_page}
use ai_engineering_productiv.Storage.Events.Laws.{row_before_trans, row_before_irrefl}

pub keep-keep :
    (p q : EventRow → Bool) (xs : List EventRow) → keep (λ r. p r && q r) xs ≡ keep q (keep p xs)
keep-keep p q [] = refl
keep-keep p q (x ∷ xs) = ground (arith, keep-keep p q xs)

pub keep-All_rows :
    (p : EventRow → Bool) (xs : List EventRow) → All (λ r. p r ≡ true) xs → keep p xs ≡ xs
keep-All_rows p [] h = refl
keep-All_rows p (x ∷ xs) (e, h) = keep-adds p x xs e ∙ ap (λ z. x ∷ z) (keep-All_rows p xs h)

pub All-middle :
    (P : EventRow → Type 0) (pre : List EventRow) (c : EventRow) (post : List EventRow)
    → All P (pre ++ c ∷ post)
    → P c
All-middle P [] c post (p, h) = p
All-middle P (x ∷ pre) c post (p, h) = All-middle P pre c post h

pub not_back : (a b : EventRow) → row_before a b ≡ true → row_before b a ≡ false
not_back a b h = elim (Bool-cases (row_before b a)) [
  | inl e ↦ absurd (cc (row_before_trans a b a h e, row_before_irrefl a))
  | inr e ↦ e
]

pub keep-true : (xs : List EventRow) → keep (λ r. true) xs ≡ xs
keep-true [] = refl
keep-true (x ∷ xs) = ap (λ z. x ∷ z) (keep-true xs)

pub keep-cong :
    (p q : EventRow → Bool)
    → ((r : EventRow) → p r ≡ q r)
    → (xs : List EventRow) → keep p xs ≡ keep q xs
keep-cong p q h [] = refl
keep-cong p q h (x ∷ xs) = ground (arith, h x, keep-cong p q h xs)

pub end-append :
    (p : List EventRow) (m : EventRow) (rest : List EventRow)
    → (p ++ m ∷ []) ++ rest ≡ p ++ m ∷ rest
end-append [] m rest = refl
end-append (x ∷ p) m rest = ap (λ z. x ∷ z) (end-append p m rest)

pub append-append : (xs ys zs : List EventRow) → xs ++ (ys ++ zs) ≡ (xs ++ ys) ++ zs
append-append [] ys zs = refl
append-append (x ∷ xs) ys zs = ap (λ z. x ∷ z) (append-append xs ys zs)

pub moved :
    (pre a : List EventRow) (m : EventRow) (b : List EventRow)
    → pre ++ (a ++ m ∷ b) ≡ (pre ++ (a ++ m ∷ [])) ++ b
moved pre a m b = ap (λ z. pre ++ z) (sym (end-append a m b)) ∙ append-append pre (a ++ m ∷ []) b

-- What lies behind an element of a sorted list.
pub keep-behind :
    (pre : List EventRow) (c : EventRow) (post : List EventRow)
    → Apart (λ a b. row_before a b ≡ true) (pre ++ c ∷ post)
    → keep (row_before c) (pre ++ c ∷ post) ≡ post
keep-behind [] c post (first, sorted) =
    keep-skips (row_before c) c post (row_before_irrefl c) ∙ keep-All_rows (row_before c) post first
keep-behind (x ∷ pre) c post (first, sorted) =
    let ahead : row_before x c ≡ true = All-middle (λ b. row_before x b ≡ true) pre c post first in
    keep-skips (row_before c) x (pre ++ c ∷ post) (not_back x c ahead)
    ∙ keep-behind pre c post sorted

-- A full page ends with an element of the list.
pub take-last :
    (n : ℕ) (xs : List EventRow)
    → n < length xs
    → (a : List EventRow) × (m : EventRow) × (b : List EventRow) × (xs ≡ a ++ m ∷ b)
      × (take (suc n) xs ≡ a ++ m ∷ [])
      × (length b < length xs)
take-last n [] h = absurd (omega arith)
take-last zero (x ∷ xs) h = ([], x, xs, refl, refl, omega arith)
take-last (suc n) (x ∷ xs) h =
    let (a, m, b, e, t, l) = take-last n xs (omega arith) in
    (x ∷ a, m, b, ap (λ z. x ∷ z) e, ap (λ z. x ∷ z) t, omega arith)

abbrev pub events_of : List EventRow → List Event
events_of rs = map (λ r. r.event) rs

pub events_of-append :
    (a : List EventRow) (m : EventRow) (b : List EventRow)
    → events_of (a ++ m ∷ []) ++ events_of b ≡ events_of (a ++ m ∷ b)
events_of-append [] m b = refl
events_of-append (x ∷ a) m b = ap (λ z. x.event ∷ z) (events_of-append a m b)

pub take-page :
    (limit : ℕ) (xs : List EventRow)
    → 1 ≤ limit
    → limit < length xs
    → (a : List EventRow) × (m : EventRow) × (b : List EventRow) × (xs ≡ a ++ m ∷ b)
      × (take limit xs ≡ a ++ m ∷ [])
      × (length b < length xs)
take-page zero xs positive h = absurd (omega arith)
take-page (suc n) xs positive h = take-last n xs (omega arith)

pub length-events_of : (xs : List EventRow) → length (events_of xs) ≡ length xs
length-events_of [] = refl
length-events_of (x ∷ xs) = ap suc (length-events_of xs)

pub length-take : (n : ℕ) (xs : List EventRow) → n ≤ length xs → length (take n xs) ≡ n
length-take zero xs h = refl
length-take (suc n) [] h = absurd (omega arith)
length-take (suc n) (x ∷ xs) h = ap suc (length-take n xs (omega arith))

pub take-events_of :
    (n : ℕ) (xs : List EventRow) → take n (events_of (take (suc n) xs)) ≡ events_of (take n xs)
take-events_of zero xs = refl
take-events_of (suc n) [] = refl
take-events_of (suc n) (x ∷ xs) = ap (λ z. x.event ∷ z) (take-events_of n xs)

pub last_of-events_of :
    (a : List EventRow) (m : EventRow) → last_of (events_of (a ++ m ∷ [])) ≡ some m.event
unfolding last_of
last_of-events_of [] m = refl
last_of-events_of (x ∷ []) m = refl
last_of-events_of (x ∷ y ∷ a) m = last_of-events_of (y ∷ a) m

-- The page of a listing that is not cut, and of one that is.
pub event_page-whole :
    (xs : List EventRow) (limit : ℕ)
    → length xs ≤ limit
    → event_page (events_of (take (suc limit) xs)) limit ≡ (events_of xs, none)
unfolding event_page
event_page-whole xs limit h =
    let fits : leb (length (events_of xs)) limit ≡ true = ground (arith, length-events_of xs) in
    rw (take-length_le (suc limit) xs (omega arith), fits) refl

pub event_page-cut :
    (xs a : List EventRow) (m : EventRow) (limit : ℕ)
    → limit < length xs
    → take limit xs ≡ a ++ m ∷ []
    → event_page (events_of (take (suc limit) xs)) limit
      ≡ (events_of (a ++ m ∷ []), some (cursor_of m.event))
unfolding event_page
event_page-cut xs a m limit h e =
    let long : leb (length (events_of (take (suc limit) xs))) limit ≡ false =
      ground (arith, length-events_of (take (suc limit) xs), length-take (suc limit) xs) in
    rw (long, take-events_of limit xs, e, last_of-events_of a m) refl
