-- ===== src/Governance/Glob.antt =====
-- internal/governance/path_rules.go, pathGlobMatch and pathMatcher. The matcher's indices only move
-- to the right, so (pi, vi) is the pair of what is left of the pattern and of the value; each
-- method takes the recursive call `m` of `match` as an argument, and `match` runs on fuel.
pub mod Meaning
pub mod Correct
use ai_engineering_productiv.Prelude.{
  ℕ, zero, suc, String, Bool, true, false, ◌&&◌, ◌||◌, List, [], ◌∷◌, nat_eq, if◌then◌else◌, length,
  codes,
}

unfoldable pub is_empty : List ℕ → Bool
is_empty [] = true
is_empty (x ∷ xs) = false

-- The loop of matchStar where a star crosses segments: `end` runs to the end of the value.
unfoldable pub scan_across : (List ℕ → Bool) → List ℕ → Bool
scan_across m [] = m []
scan_across m (x ∷ v) = m (x ∷ v) || scan_across m v

-- The same loop for a single star: it breaks once the character before `end` is a slash.
unfoldable pub scan_segment : (List ℕ → Bool) → List ℕ → Bool
scan_segment m [] = m []
scan_segment m (x ∷ v) = m (x ∷ v) || (if nat_eq x b'/' then false else scan_segment m v)

-- A **/ group may consume zero complete segments, including its slash.
unfoldable pub skips_group : (List ℕ → List ℕ → Bool) → List ℕ → List ℕ → Bool
skips_group m [] v = false
skips_group m (c ∷ rest) v = nat_eq c b'/' && m rest v

-- matchStar, with the pattern behind the first star.
unfoldable pub match_star : (List ℕ → List ℕ → Bool) → List ℕ → List ℕ → Bool
unfolding scan_across scan_segment skips_group
match_star m [] v = scan_segment (m []) v
match_star m (c ∷ next) v =
    if nat_eq c b'*'
    then skips_group m next v || scan_across (m next) v
    else scan_segment (m (c ∷ next)) v

unfoldable pub match_question : (List ℕ → List ℕ → Bool) → List ℕ → List ℕ → Bool
match_question m rest [] = false
match_question m rest (x ∷ v) = if nat_eq x b'/' then false else m rest v

unfoldable pub match_literal : (List ℕ → List ℕ → Bool) → ℕ → List ℕ → List ℕ → Bool
match_literal m c rest [] = false
match_literal m c rest (x ∷ v) = nat_eq c x && m rest v

-- pathMatcher.match
unfoldable pub match : ℕ → List ℕ → List ℕ → Bool
unfolding is_empty match_star match_question match_literal
match zero p v = false
match (suc fuel) [] v = is_empty v
match (suc fuel) (c ∷ rest) v =
    if nat_eq c b'*'
    then match_star (match fuel) rest v
    else if nat_eq c b'?'
    then match_question (match fuel) rest v
    else match_literal (match fuel) c rest v

unfoldable pub path_glob_match : String → String → Bool
unfolding match
path_glob_match pattern value = match (suc (length (codes pattern))) (codes pattern) (codes value)
