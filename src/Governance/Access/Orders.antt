-- ===== src/Governance/Access/Orders.antt =====
-- internal/governance/risky_access.go: the accesses of an event when every iteration over a map takes
-- an order of its own, as Go's do.
use mathlib.Core.List.{append_assoc, perm_append_comm, Perm}
use mathlib.Core.List.Perm
use mathlib.Core.Path.{subst}
use ai_engineering_productiv.Prelude.{String, ◌≡◌, refl, sym, ap, ◌∙◌, List, [], ◌∷◌, ◌++◌}
use ai_engineering_productiv.Canonical.{
  Value, object, array, Values, nil, cons, Fields, end, field, Event,
}
use ai_engineering_productiv.Governance.Access.{
  AccessObservation, leaf_access, or_walk, walk_accesses, walk_values, walk_fields,
  collect_accesses, all_accesses,
}

-- The same values, the entries of each map in any order.
mutual
  pub data SameValue : Value → Value → Type 0 where
    itself : (v : Value) → SameValue v v
    in_object : (fs gs : Fields) → SameFields fs gs → SameValue (object fs) (object gs)
    in_array : (vs ws : Values) → SameValues vs ws → SameValue (array vs) (array ws)

  pub data SameValues : Values → Values → Type 0 where
    no_value : SameValues nil nil
    value :
        (v w : Value) (vs ws : Values)
        → SameValue v w
        → SameValues vs ws
        → SameValues (cons v vs) (cons w ws)

  pub data SameFields : Fields → Fields → Type 0 where
    no_field : SameFields end end
    entry :
        (k : String) (v w : Value) (fs gs : Fields)
        → SameValue v w
        → SameFields fs gs
        → SameFields (field k v fs) (field k w gs)
    swapped :
        (k l : String) (v w : Value) (fs : Fields)
        → SameFields (field k v (field l w fs)) (field l w (field k v fs))
    both : (fs gs hs : Fields) → SameFields fs gs → SameFields gs hs → SameFields fs hs

module _ {B : Type 0} (g : AccessObservation → List B) where
  -- What `g` gives for each access, in order.
  abbrev pub spread : List AccessObservation → List B
  spread [] = []
  spread (a ∷ l) = g a ++ spread l

  spread-append : (l r : List AccessObservation) → spread (l ++ r) ≡ spread l ++ spread r
  spread-append [] r = refl
  spread-append (a ∷ l) r =
      ap (λ z. g a ++ z) (spread-append l r) ∙ sym (append_assoc (g a) (spread l) (spread r))

  spread-both :
      (a b c d : List AccessObservation)
      → Perm (spread a) (spread c)
      → Perm (spread b) (spread d)
      → Perm (spread (a ++ b)) (spread (c ++ d))
  spread-both a b c d p q = rw (spread-append a b, spread-append c d) (Perm.append p q)

  spread-swapped :
      (a b c : List AccessObservation) → Perm (spread (a ++ (b ++ c))) (spread (b ++ (a ++ c)))
  spread-swapped a b c =
      rw
        (
          spread-append a (b ++ c),
          spread-append b c,
          spread-append b (a ++ c),
          spread-append a c,
          ← append_assoc (spread a) (spread b) (spread c),
          ← append_assoc (spread b) (spread a) (spread c),
        )
        (Perm.append_right (spread c) (perm_append_comm (spread a) (spread b)))

  mutual
    unfolding walk_accesses leaf_access

    walk_accesses-Same :
        (v w : Value) → SameValue v w → Perm (spread (walk_accesses v)) (spread (walk_accesses w))
    walk_accesses-Same v w (itself u) = Perm.refl _
    walk_accesses-Same v w (in_object fs gs s) = walk_fields-Same fs gs s
    walk_accesses-Same v w (in_array vs ws s) = walk_values-Same vs ws s

    walk_values-Same :
        (vs ws : Values)
        → SameValues vs ws
        → Perm (spread (walk_values vs)) (spread (walk_values ws))
    walk_values-Same vs ws no_value = Perm.refl _
    walk_values-Same vs ws (value v w xs ys s t) =
        spread-both (walk_accesses v) (walk_values xs) (walk_accesses w) (walk_values ys)
          (walk_accesses-Same v w s) (walk_values-Same xs ys t)

    entry-Same :
        (k : String) (v w : Value)
        → SameValue v w
        → Perm
            (spread (or_walk (leaf_access k v) (walk_accesses v)))
            (spread (or_walk (leaf_access k w) (walk_accesses w)))
    entry-Same k v w (itself u) = Perm.refl _
    entry-Same k v w (in_object fs gs s) = walk_fields-Same fs gs s
    entry-Same k v w (in_array vs ws s) = walk_values-Same vs ws s

    walk_fields-Same :
        (fs gs : Fields)
        → SameFields fs gs
        → Perm (spread (walk_fields fs)) (spread (walk_fields gs))
    walk_fields-Same fs gs no_field = Perm.refl _
    walk_fields-Same fs gs (entry k v w xs ys s t) =
        spread-both (or_walk (leaf_access k v) (walk_accesses v)) (walk_fields xs)
          (or_walk (leaf_access k w) (walk_accesses w)) (walk_fields ys) (entry-Same k v w s)
          (walk_fields-Same xs ys t)
    walk_fields-Same fs gs (swapped k l v w xs) =
        spread-swapped (or_walk (leaf_access k v) (walk_accesses v))
          (or_walk (leaf_access l w) (walk_accesses w)) (walk_fields xs)
    walk_fields-Same fs gs (both xs ys zs s t) =
        Perm.trans (walk_fields-Same xs ys s) (walk_fields-Same ys zs t)

  pub collect_accesses-Same :
      (e f : Event)
      → SameFields e.attributes f.attributes
      → SameFields e.provider_extensions f.provider_extensions
      → Perm (spread (collect_accesses e)) (spread (collect_accesses f))
  unfolding collect_accesses
  collect_accesses-Same e f s t =
      spread-both (walk_fields e.attributes) (walk_fields e.provider_extensions)
        (walk_fields f.attributes) (walk_fields f.provider_extensions)
        (walk_fields-Same e.attributes f.attributes s)
        (walk_fields-Same e.provider_extensions f.provider_extensions t)

-- The same events, with the entries of their maps in any order.
abbrev pub SameEvents : List Event → List Event → Type 0
SameEvents [] [] = Unit
SameEvents [] (f ∷ fs) = ⊥
SameEvents (e ∷ es) [] = ⊥
SameEvents (e ∷ es) (f ∷ fs) =
    ((e.occurred_at ≡ f.occurred_at)
      × (e.session_id ≡ f.session_id)
      × SameFields e.attributes f.attributes
      × SameFields e.provider_extensions f.provider_extensions)
    × SameEvents es fs

spread-itself : (l : List AccessObservation) → spread (λ a. a ∷ []) l ≡ l
spread-itself [] = refl
spread-itself (a ∷ l) = ap (λ z. a ∷ z) (spread-itself l)

pub all_accesses-Same :
    (es fs : List Event) → SameEvents es fs → Perm (all_accesses es) (all_accesses fs)
unfolding all_accesses
all_accesses-Same [] [] h = Perm.refl []
all_accesses-Same [] (f ∷ fs) h = absurd h
all_accesses-Same (e ∷ es) [] h = absurd h
all_accesses-Same (e ∷ es) (f ∷ fs) ((p, q, s, t), h) =
    let here =
      subst (λ z. Perm z (spread (λ a. a ∷ []) (collect_accesses f)))
        (spread-itself (collect_accesses e)) (collect_accesses-Same (λ a. a ∷ []) e f s t) in
    Perm.append (subst (λ z. Perm (collect_accesses e) z) (spread-itself (collect_accesses f)) here)
      (all_accesses-Same es fs h)
