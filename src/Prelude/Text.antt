-- ===== src/Prelude/Text.antt =====
-- Text. Go strings are `String`; a function that walks one by its runes works on `codes`.
use Prim.Native.Nat.{ℕ, Ordering}
use Prim.Native.Char.{code}
use Prim.Native.String
use Prim.Native.String.{String}
use mathlib.Core.Path.{◌≡◌, refl}
use mathlib.Core.Bool.{Bool, true, false, ◌||◌, ◌&&◌}
use mathlib.Core.Logic.{◌↔◌}
use mathlib.Core.List.{List, [], ◌∷◌}
use native.Mathlib.Omega.{arith}
use text.Mathlib.Text.{◌==◌}
use ai_engineering_productiv.Prelude.Tests.{leb, nat_eq, if◌then◌else◌}

-- The code points of a text, Go's `[]rune(s)`.
abbrev pub codes : String → List ℕ
codes String.[] = []
codes (String.◌∷◌ c s) = code c ∷ codes s

-- unicode.IsSpace
unfoldable pub is_space : ℕ → Bool
is_space c =
    leb 9 c && leb c 13
    || nat_eq c 32
    || nat_eq c 0x85
    || nat_eq c 0xa0
    || nat_eq c 0x1680
    || leb 0x2000 c && leb c 0x200a
    || nat_eq c 0x2028
    || nat_eq c 0x2029
    || nat_eq c 0x202f
    || nat_eq c 0x205f
    || nat_eq c 0x3000

-- strings.TrimSpace
unfoldable pub trim_left : String → String
unfolding is_space
trim_left String.[] = ""
trim_left (String.◌∷◌ c s) =
    let rest = trim_left s in if is_space (code c) then rest else String.◌∷◌ c s

unfoldable pub trim_right : String → String
unfolding is_space
trim_right String.[] = ""
trim_right (String.◌∷◌ c s) =
    let rest = trim_right s in if is_space (code c) && rest == "" then "" else String.◌∷◌ c rest

unfoldable pub trim_space : String → String
unfolding trim_left trim_right
trim_space s = trim_right (trim_left s)

-- Equality of two rune lists.
unfoldable pub codes_eq : List ℕ → List ℕ → Bool
codes_eq [] [] = true
codes_eq [] (y ∷ ys) = false
codes_eq (x ∷ xs) [] = false
codes_eq (x ∷ xs) (y ∷ ys) = nat_eq x y && codes_eq xs ys

pub codes_eq_iff : (xs ys : List ℕ) → (codes_eq xs ys ≡ true) ↔ (xs ≡ ys)
unfolding codes_eq
codes_eq_iff [] [] = (λ h. refl, λ h. refl)
codes_eq_iff [] (y ∷ ys) = (λ h. cc, λ h. cc)
codes_eq_iff (x ∷ xs) [] = (λ h. cc, λ h. cc)
codes_eq_iff (x ∷ xs) (y ∷ ys) = ground (arith, codes_eq_iff xs ys)

-- strings.HasPrefix on runes
unfoldable pub has_prefix : List ℕ → List ℕ → Bool
has_prefix xs [] = true
has_prefix [] (p ∷ ps) = false
has_prefix (x ∷ xs) (p ∷ ps) = nat_eq x p && has_prefix xs ps

-- `s < t` on Go strings: bytewise, which is the order of the code points.
unfoldable pub text_lt : String → String → Bool
text_lt s t = elim (String.compare s t) [ Ordering.lt ↦ true | _ ↦ false ]

-- Membership in a list of texts.
unfoldable pub contains : List String → String → Bool
contains [] s = false
contains (x ∷ xs) s = x == s || contains xs s
