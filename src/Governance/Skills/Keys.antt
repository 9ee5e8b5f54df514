-- ===== src/Governance/Skills/Keys.antt =====
-- internal/governance/unapproved_skills.go: the key of a finding tells its provider, tool and skill
-- apart, as the NUL between them is in neither of the first two.
use Prim.Native.Char.{Char, code, nul}
use Prim.Native.String
use Prim.Native.String.{[], ◌∷◌}
use ai_engineering_productiv.Prelude.{
  String, ◌≡◌, ◌≢◌, sym, ◌∙◌, ap, false, if◌then◌else◌, arith, nat_eq, nat_eq_iff,
}
use ai_engineering_productiv.Governance.Skills.{skill_key}

-- No rune of the text is the NUL.
abbrev pub NoNul : String → Type 0
NoNul [] = Unit
NoNul (c ∷ s) = (code c ≢ 0) × NoNul s

-- What is before the first NUL, and what is behind it.
unfoldable before : String → String
before [] = []
before (c ∷ s) = let rest = before s in if nat_eq (code c) 0 then [] else c ∷ rest

unfoldable behind : String → String
behind [] = []
behind (c ∷ s) = let rest = behind s in if nat_eq (code c) 0 then s else rest

is_nul : (c : Char) → code c ≢ 0 → nat_eq (code c) 0 ≡ false
is_nul c h = ground (arith, nat_eq_iff (code c) 0)

cut : (t : String) → String.◌++◌ "\0" t ≡ nul ∷ t
cut t = String.append.cons nul [] t ∙ ap (λ z. nul ∷ z) (String.append.nil t)

before-NoNul : (s t : String) → NoNul s → before (String.◌++◌ s (String.◌++◌ "\0" t)) ≡ s
unfolding before
before-NoNul [] t h = ap before (String.append.nil (String.◌++◌ "\0" t) ∙ cut t)
before-NoNul (c ∷ s) t (n, h) =
    ap before (String.append.cons c s (String.◌++◌ "\0" t))
    ∙ rw (is_nul c n) (ap (λ z. c ∷ z) (before-NoNul s t h))

behind-NoNul : (s t : String) → NoNul s → behind (String.◌++◌ s (String.◌++◌ "\0" t)) ≡ t
unfolding behind
behind-NoNul [] t h = ap behind (String.append.nil (String.◌++◌ "\0" t) ∙ cut t)
behind-NoNul (c ∷ s) t (n, h) =
    ap behind (String.append.cons c s (String.◌++◌ "\0" t)) ∙ rw (is_nul c n) (behind-NoNul s t h)

pub skill_key-parts :
    (p q t u n m : String)
    → NoNul p
    → NoNul q
    → NoNul t
    → NoNul u
    → skill_key p t n ≡ skill_key q u m
    → (p ≡ q) × (t ≡ u) × (n ≡ m)
unfolding skill_key
skill_key-parts p q t u n m hp hq ht hu e =
    let rest : String.◌++◌ t (String.◌++◌ "\0" n) ≡ String.◌++◌ u (String.◌++◌ "\0" m) =
      sym (behind-NoNul p _ hp) ∙ ap behind e ∙ behind-NoNul q _ hq in
    (
      sym (before-NoNul p _ hp) ∙ ap before e ∙ before-NoNul q _ hq,
      sym (before-NoNul t _ ht) ∙ ap before rest ∙ before-NoNul u _ hu,
      sym (behind-NoNul t _ ht) ∙ ap behind rest ∙ behind-NoNul u _ hu,
    )
