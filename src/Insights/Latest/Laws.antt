-- ===== src/Insights/Latest/Laws.antt =====
-- What is shown is the latest state of its key, and each key is shown.
use mathlib.Core.Path.{subst}
use ai_engineering_productiv.Prelude.{
  ℕ, String, ◌≡◌, ◌≢◌, ◌⊎◌, refl, sym, ◌∙◌, inl, inr, arith, true, false, List, [], ◌∷◌, ◌==◌,
  if◌then◌else◌, Bool-cases, eq_iff, text_lt_irrefl, text_lt_trans, All, All-imp, Apart, Has,
  sort_by, sort_by-Has, sort_by-All, sort_by-Apart,
}
use ai_engineering_productiv.Canonical.{Event}
use ai_engineering_productiv.Insights.Latest.{
  state_is_later, put_latest, put_all_latest, shown_before, states_of, latest_observed_states,
}

module _ {A : Type 0} (key : A → String) (observed_at : A → ℕ) (source_event_id : A → String) where
  later_irrefl : (a : A) → state_is_later key observed_at source_event_id a a ≡ false
  unfolding state_is_later
  later_irrefl a = ground (arith, text_lt_irrefl (source_event_id a))

  later_trans :
      (a b c : A)
      → state_is_later key observed_at source_event_id a b ≡ true
      → state_is_later key observed_at source_event_id b c ≡ true
      → state_is_later key observed_at source_event_id a c ≡ true
  unfolding state_is_later
  later_trans a b c h k =
      ground (arith, text_lt_trans (source_event_id c) (source_event_id b) (source_event_id a))

  -- The state is one of those seen, and none of its key is later.
  abbrev pub IsLatest : List A → A → Type 0
  IsLatest seen t =
      Has (λ u. u ≡ t) seen
      × All (λ u. (key u ≢ key t) ⊎ (state_is_later key observed_at source_event_id u t ≡ false))
          seen

  abbrev put : List A → A → List A
  put acc s = put_latest key observed_at source_event_id acc s

  -- Either the key is there, and its state is replaced or kept, or it is not there yet.
  chosen : A → A → A
  unfolding state_is_later
  chosen s c = if state_is_later key observed_at source_event_id s c then s else c

  put-same :
      (c : A) (cs : List A) (s : A) → (key c == key s) ≡ true → put (c ∷ cs) s ≡ chosen s c ∷ cs
  unfolding put_latest chosen
  put-same c cs s e = rw (e, put_latest) refl

  put-other :
      (c : A) (cs : List A) (s : A) → (key c == key s) ≡ false → put (c ∷ cs) s ≡ c ∷ put cs s
  unfolding put_latest
  put-other c cs s e = rw (e, put_latest) refl

  chosen-key : (s c : A) → key c ≡ key s → key (chosen s c) ≡ key s
  unfolding chosen
  chosen-key s c e = elim (Bool-cases (state_is_later key observed_at source_event_id s c)) [
    | inl q ↦ rw q refl
    | inr q ↦ rw q e
  ]

  differ : (c s : A) → (key c == key s) ≡ false → key c ≢ key s
  differ c s e q = cc ((eq_iff (key c) (key s)).1 q, e)

  put-key :
      (acc : List A) (s : A) (k : String)
      → Has (λ r. key r ≡ k) acc ⊎ (key s ≡ k)
      → Has (λ r. key r ≡ k) (put acc s)
  unfolding put_latest
  put-key [] s k h = elim h [ inl n ↦ absurd n | inr e ↦ inl e ]
  put-key (c ∷ cs) s k h = elim (Bool-cases (key c == key s)) [
    | inl e ↦
        let same : key c ≡ key s = (eq_iff (key c) (key s)).0 e in
        rw (put-same c cs s e) (elim h [
          | inl (inl q) ↦ inl (chosen-key s c same ∙ sym same ∙ q)
          | inl (inr m) ↦ inr m
          | inr q ↦ inl (chosen-key s c same ∙ q)
        ])
    | inr e ↦ rw (put-other c cs s e) (elim h [
      | inl (inl q) ↦ inl q
      | inl (inr m) ↦ inr (put-key cs s k (inl m))
      | inr q ↦ inr (put-key cs s k (inr q))
    ])
  ]

  put-All_key :
      (acc : List A) (s : A) (k : String)
      → All (λ r. k ≢ key r) acc
      → k ≢ key s
      → All (λ r. k ≢ key r) (put acc s)
  unfolding put_latest
  put-All_key [] s k h n = (n, tt)
  put-All_key (c ∷ cs) s k (a, h) n = elim (Bool-cases (key c == key s)) [
    | inl e ↦
        rw (put-same c cs s e) ((λ q. n (q ∙ chosen-key s c ((eq_iff (key c) (key s)).0 e))), h)
    | inr e ↦ rw (put-other c cs s e) (a, put-All_key cs s k h n)
  ]

  put-Apart :
      (acc : List A) (s : A)
      → Apart (λ a b. key a ≢ key b) acc
      → Apart (λ a b. key a ≢ key b) (put acc s)
  unfolding put_latest
  put-Apart [] s h = (tt, tt)
  put-Apart (c ∷ cs) s (a, h) = elim (Bool-cases (key c == key s)) [
    | inl e ↦
        let same : key c ≡ key s = (eq_iff (key c) (key s)).0 e in
        rw (put-same c cs s e) (
          All-imp (λ r. key c ≢ key r) (λ r. key (chosen s c) ≢ key r)
              (λ r n q. n (same ∙ sym (chosen-key s c same) ∙ q)) cs a,
          h,
        )
    | inr e ↦ rw (put-other c cs s e) (put-All_key cs s (key c) a (differ c s e), put-Apart cs s h)
  ]

  more : (seen : List A) (s t : A) → IsLatest seen t → key s ≢ key t → IsLatest (s ∷ seen) t
  more seen s t (h, c) n = (inr h, (inl n, c))

  chosen-later :
      (s c : A) → state_is_later key observed_at source_event_id s c ≡ true → chosen s c ≡ s
  unfolding chosen
  chosen-later s c q = rw q refl

  chosen-kept :
      (s c : A) → state_is_later key observed_at source_event_id s c ≡ false → chosen s c ≡ c
  unfolding chosen
  chosen-kept s c q = rw q refl

  -- The one of the two that is chosen is the latest.
  chosen-IsLatest :
      (seen : List A) (s c : A) → key c ≡ key s → IsLatest seen c → IsLatest (s ∷ seen) (chosen s c)
  chosen-IsLatest seen s c same (h, covers) =
      elim (Bool-cases (state_is_later key observed_at source_event_id s c)) [
        | inr q ↦ subst (IsLatest (s ∷ seen)) (sym (chosen-kept s c q)) (inr h, (inr q, covers))
        | inl q ↦ subst (IsLatest (s ∷ seen)) (sym (chosen-later s c q)) (
          inl refl,
          (
            inr (later_irrefl s),
            All-imp
                (λ u.
                  (key u ≢ key c) ⊎ (state_is_later key observed_at source_event_id u c ≡ false))
                (λ u.
                  (key u ≢ key s) ⊎ (state_is_later key observed_at source_event_id u s ≡ false))
                (λ u k. elim k [
                  | inl n ↦ inl (λ e. n (e ∙ sym same))
                  | inr f ↦ elim (Bool-cases (state_is_later key observed_at source_event_id u s)) [
                    | inl l ↦ absurd (cc (later_trans u s c l q, f))
                    | inr l ↦ inr l
                  ]
                ])
                seen covers,
          ),
        )
      ]

  others :
      (seen cs : List A) (s c : A)
      → key c ≡ key s
      → All (IsLatest seen) cs
      → All (λ r. key c ≢ key r) cs
      → All (IsLatest (s ∷ seen)) cs
  others seen [] s c same h a = tt
  others seen (t ∷ ts) s c same (l, h) (n, a) =
      (more seen s t l (λ q. n (same ∙ q)), others seen ts s c same h a)

  known :
      (u s : A) (acc : List A)
      → Has (λ r. key r ≡ key u) acc
      → (key u ≢ key s) ⊎ Has (λ r. key r ≡ key s) acc
  known u s acc m = elim (Bool-cases (key u == key s)) [
    | inl e ↦ inr (subst (λ k. Has (λ r. key r ≡ k) acc) ((eq_iff (key u) (key s)).0 e) m)
    | inr e ↦ inl (differ u s e)
  ]

  put-IsLatest :
      (seen acc : List A) (s : A)
      → All (IsLatest seen) acc
      → Apart (λ a b. key a ≢ key b) acc
      → All (λ u. (key u ≢ key s) ⊎ Has (λ r. key r ≡ key s) acc) seen
      → All (IsLatest (s ∷ seen)) (put acc s)
  unfolding put_latest
  put-IsLatest seen [] s h apart known = (
    (
      inl refl,
      (
        inr (later_irrefl s),
        All-imp (λ u. (key u ≢ key s) ⊎ Has (λ r. key r ≡ key s) [])
            (λ u. (key u ≢ key s) ⊎ (state_is_later key observed_at source_event_id u s ≡ false))
            (λ u k. elim k [ inl n ↦ inl n | inr m ↦ absurd m ]) seen known,
      ),
    ),
    tt,
  )
  put-IsLatest seen (c ∷ cs) s (l, h) (a, apart) known = elim (Bool-cases (key c == key s)) [
    | inl e ↦
        let same : key c ≡ key s = (eq_iff (key c) (key s)).0 e in
        rw (put-same c cs s e) (chosen-IsLatest seen s c same l, others seen cs s c same h a)
    | inr e ↦ rw (put-other c cs s e) (
      more seen s c l (λ q. differ c s e (sym q)),
      put-IsLatest seen cs s h apart (
          All-imp (λ u. (key u ≢ key s) ⊎ Has (λ r. key r ≡ key s) (c ∷ cs))
            (λ u. (key u ≢ key s) ⊎ Has (λ r. key r ≡ key s) cs)
            (λ u k. elim k [
              | inl n ↦ inl n
              | inr (inl q) ↦ absurd (differ c s e q)
              | inr (inr m) ↦ inr m
            ])
            seen known),
    )
  ]

  seen_after : List A → List A → List A
  seen_after seen [] = seen
  seen_after seen (s ∷ ss) = seen_after (s ∷ seen) ss

  record IsCurrent (seen acc : List A) : Type 0 where
    latest : All (IsLatest seen) acc
    apart : Apart (λ a b. key a ≢ key b) acc
    shown : All (λ u. Has (λ r. key r ≡ key u) acc) seen

  put-IsCurrent :
      (seen acc : List A) (s : A) → IsCurrent seen acc → IsCurrent (s ∷ seen) (put acc s)
  put-IsCurrent seen acc s h = record {
    latest = put-IsLatest seen acc s h.latest h.apart (
        All-imp (λ u. Has (λ r. key r ≡ key u) acc)
          (λ u. (key u ≢ key s) ⊎ Has (λ r. key r ≡ key s) acc) (λ u m. known u s acc m) seen
          h.shown);
    apart = put-Apart acc s h.apart;
    shown = (
      put-key acc s (key s) (inr refl),
      All-imp (λ u. Has (λ r. key r ≡ key u) acc) (λ u. Has (λ r. key r ≡ key u) (put acc s))
          (λ u m. put-key acc s (key u) (inl m)) seen h.shown,
    );
  }

  put_all-IsCurrent :
      (seen acc ss : List A)
      → IsCurrent seen acc
      → IsCurrent (seen_after seen ss) (put_all_latest key observed_at source_event_id acc ss)
  unfolding put_all_latest seen_after
  put_all-IsCurrent seen acc [] h = h
  put_all-IsCurrent seen acc (s ∷ ss) h =
      put_all-IsCurrent (s ∷ seen) (put acc s) ss (put-IsCurrent seen acc s h)

  seen_after-Has :
      (P : A → Type 0) (seen ss : List A) → Has P (seen_after seen ss) → Has P seen ⊎ Has P ss
  unfolding seen_after
  seen_after-Has P seen [] h = inl h
  seen_after-Has P seen (s ∷ ss) h = elim (seen_after-Has P (s ∷ seen) ss h) [
    | inl (inl p) ↦ inr (inl p)
    | inl (inr m) ↦ inl m
    | inr m ↦ inr (inr m)
  ]

  seen_after-All :
      (P : A → Type 0) (seen ss : List A) → All P (seen_after seen ss) → All P seen × All P ss
  unfolding seen_after
  seen_after-All P seen [] h = (h, tt)
  seen_after-All P seen (s ∷ ss) h =
      let ((p, old), later) = seen_after-All P (s ∷ seen) ss h in (old, (p, later))

  all_seen : (ss : List A) (t : A) → IsLatest (seen_after [] ss) t → IsLatest ss t
  all_seen ss t (h, c) = (
    elim (seen_after-Has (λ u. u ≡ t) [] ss h) [ inl n ↦ absurd n | inr m ↦ m ],
    (seen_after-All
        (λ u. (key u ≢ key t) ⊎ (state_is_later key observed_at source_event_id u t ≡ false)) [] ss
        c).1,
  )

  empty-IsCurrent : IsCurrent [] []
  empty-IsCurrent = record { latest = tt; apart = tt; shown = tt }

  -- Each state that is returned is one that the events show, and none of its key is later; every key
  -- that the events show is returned, and none twice.
  pub latest_observed_states_lem :
      (states_from_event : Event → List A) (events : List Event)
      → All
          (IsLatest (states_of key observed_at source_event_id states_from_event events))
          (latest_observed_states key observed_at source_event_id states_from_event events)
        × All
            (λ u.
              Has
                (λ r. key r ≡ key u)
                (latest_observed_states key observed_at source_event_id states_from_event events))
            (states_of key observed_at source_event_id states_from_event events)
        × Apart
            (λ a b. key a ≢ key b)
            (latest_observed_states key observed_at source_event_id states_from_event events)
  unfolding latest_observed_states
  latest_observed_states_lem states_from_event events =
      let all = states_of key observed_at source_event_id states_from_event events in
      let acc = put_all_latest key observed_at source_event_id [] all in
      let current = put_all-IsCurrent [] [] all empty-IsCurrent in
      let before = shown_before key observed_at source_event_id in
      (
        sort_by-All before (IsLatest all) acc (
            All-imp (IsLatest (seen_after [] all)) (IsLatest all) (λ t h. all_seen all t h) acc
              current.latest),
        All-imp (λ u. Has (λ r. key r ≡ key u) acc)
            (λ u. Has (λ r. key r ≡ key u) (sort_by before acc))
            (λ u m. (sort_by-Has before (λ r. key r ≡ key u) acc).1 m) all
            (seen_after-All (λ u. Has (λ r. key r ≡ key u) acc) [] all current.shown).1,
        sort_by-Apart before (λ a b. key a ≢ key b) (λ a b n q. n (sym q)) acc current.apart,
      )
