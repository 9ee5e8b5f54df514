-- ===== src/AgentTree/Cycles/Graph.antt =====
-- The graph of the parents: every index has one parent at most.
use mathlib.Core.Path.{subst}
use ai_engineering_productiv.Prelude.{ℕ, ◌≡◌, sym, ◌∙◌, inl, inr, Option, some, List, [], ◌∷◌, Has}
use ai_engineering_productiv.AgentTree.Cycles.{parent_of}

module _ (parents : List (Option ℕ)) where
  -- Following parents leads from one index to the other.
  pub data Leads : ℕ → ℕ → Type 0 where
    here : {i : ℕ} → Leads i i
    step : {i j k : ℕ} → parent_of parents i ≡ some j → Leads j k → Leads i k

  -- Following parents leads back to the index, in one step or more.
  abbrev pub OnLoop : ℕ → Type 0
  OnLoop i = (j : ℕ) × (parent_of parents i ≡ some j) × Leads j i

  pub Leads-trans : {i j k : ℕ} → Leads i j → Leads j k → Leads i k
  Leads-trans here q = q
  Leads-trans (step e p) q = step e (Leads-trans p q)

  pub some_eq : {i j : ℕ} → some i ≡ some j → i ≡ j
  some_eq e = cc

  -- From a loop one comes back, wherever one is led.
  back_step : {i x y : ℕ} → OnLoop i → parent_of parents x ≡ some y → Leads x i → Leads y i
  back_step {i} (j, e, p) f here = subst (λ z. Leads z i) (some_eq (sym e ∙ f)) p
  back_step {i} loop f (step e p) = subst (λ z. Leads z i) (some_eq (sym e ∙ f)) p

  pub Leads-back : {i x y : ℕ} → OnLoop i → Leads x i → Leads x y → Leads y i
  Leads-back loop p here = p
  Leads-back loop p (step f q) = Leads-back loop (back_step loop f p) q

  -- A set of indices that holds the parents of its members holds all they lead to.
  pub Leads-closed :
      (S : ℕ → Type 0)
      → ((x y : ℕ) → S x → parent_of parents x ≡ some y → S y)
      → {i j : ℕ} → S i
      → Leads i j
      → S j
  Leads-closed S closed s here = s
  Leads-closed S closed s (step e p) = Leads-closed S closed (closed _ _ s e) p

  -- The indices of a path, the last one first, each the parent of the next in the list; the last
  -- one's parent is given.
  abbrev pub Chain : Option ℕ → List ℕ → Type 0
  Chain c [] = Unit
  Chain c (p ∷ ps) = (parent_of parents p ≡ c) × Chain (some p) ps

  pub Chain-Leads :
      (p : ℕ) (ps : List ℕ) (x : ℕ) → Chain (some p) ps → Has (λ y. y ≡ x) ps → Leads x p
  Chain-Leads p [] x h m = absurd m
  Chain-Leads p (q ∷ qs) x (e, h) (inl m) = subst (λ z. Leads z p) m (step e here)
  Chain-Leads p (q ∷ qs) x (e, h) (inr m) = Leads-trans (Chain-Leads q qs x h m) (step e here)
