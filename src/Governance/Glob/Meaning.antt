-- ===== src/Governance/Glob/Meaning.antt =====
-- What a path glob means, apart from the matcher: the documented tokens of a pattern, and the
-- values that a list of tokens describes.
use ai_engineering_productiv.Prelude.{
  ℕ, ◌≡◌, ◌≢◌, ◌⊎◌, List, [], ◌∷◌, ◌++◌, nat_eq, ◌&&◌, if◌then◌else◌, All,
}

pub data Token : Type 0 where
  literal : ℕ → Token
  question star double_star : Token
  -- a double star and its slash
  group : Token

abbrev pub single : ℕ → Token
single c = if nat_eq c b'*' then star else if nat_eq c b'?' then question else literal c

-- Tokens from the left; two stars in a row are one token, which takes a slash behind it along.
unfoldable pub tokens : List ℕ → List Token
tokens [] = []
tokens (c ∷ []) = single c ∷ []
tokens (c ∷ d ∷ []) =
    if nat_eq c b'*' && nat_eq d b'*' then double_star ∷ [] else single c ∷ single d ∷ []
tokens (c ∷ d ∷ e ∷ rest) =
    let one = tokens (d ∷ e ∷ rest) in
    let two = tokens (e ∷ rest) in
    let three = tokens rest in
    if nat_eq c b'*' && nat_eq d b'*'
    then (if nat_eq e b'/' then group ∷ three else double_star ∷ two)
    else single c ∷ one

abbrev pub NoSlash : List ℕ → Type 0
NoSlash = All (λ x. x ≢ b'/')

-- A question mark is one character that is no slash, a star any run of such characters, a double
-- star any run at all. A group is any run that ends in a slash, or nothing.
abbrev pub Describes : List Token → List ℕ → Type 0
Describes [] v = v ≡ []
Describes (literal c ∷ ts) v = (w : List ℕ) × (v ≡ c ∷ w) × Describes ts w
Describes (question ∷ ts) v = (x : ℕ) × (w : List ℕ) × (v ≡ x ∷ w) × (x ≢ b'/') × Describes ts w
Describes (star ∷ ts) v =
    (run : List ℕ) × (w : List ℕ) × (v ≡ run ++ w) × NoSlash run × Describes ts w
Describes (double_star ∷ ts) v = (run : List ℕ) × (w : List ℕ) × (v ≡ run ++ w) × Describes ts w
Describes (group ∷ ts) v =
    Describes ts v ⊎ ((run : List ℕ) × (w : List ℕ) × (v ≡ run ++ b'/' ∷ w) × Describes ts w)
