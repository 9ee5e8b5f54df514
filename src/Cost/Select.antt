-- ===== src/Cost/Select.antt =====
-- internal/cost/cost.go: match and selectPrice.
pub mod Laws
use Prim.Native.String
use Prim.Native.String.{len}
use Prim.Native.Char.{code}
use ai_engineering_productiv.Prelude.{
  ℕ, ◌+◌, String, Bool, true, false, Option, none, some, List, [], ◌∷◌, ◌==◌, ◌||◌, ◌&&◌, not,
  if◌then◌else◌, ltb, nat_eq,
}
use ai_engineering_productiv.Cost.{PriceRecord}
use ai_engineering_productiv.Cost.Catalog.{ends_with_star}

-- strings.HasPrefix
unfoldable pub starts_with : String → String → Bool
starts_with s String.[] = true
starts_with String.[] (String.◌∷◌ c p) = false
starts_with (String.◌∷◌ d s) (String.◌∷◌ c p) = nat_eq (code d) (code c) && starts_with s p

-- strings.TrimSuffix(s, "*")
unfoldable pub without_star : String → String
without_star String.[] = ""
without_star (String.◌∷◌ c s) =
    let rest = without_star s in if nat_eq (code c) 42 && s == "" then "" else String.◌∷◌ c rest

-- match: the score and whether it matches.
unfoldable pub match_price : String → String → String → String → ℕ × Bool
unfolding starts_with without_star ends_with_star
match_price provider value matcher model =
    if not (provider == value)
    then (0, false)
    else if ends_with_star matcher
    then (len (without_star matcher), starts_with model (without_star matcher))
    else (len matcher + 10000, matcher == model)

abbrev pub score_of : String → String → PriceRecord → ℕ
score_of provider model r = (match_price r.provider provider r.model_matcher model).0

-- Does the record match, and is it in force at that time?
unfoldable pub applies : String → String → ℕ → PriceRecord → Bool
unfolding match_price
applies provider model at r =
    (match_price r.provider provider r.model_matcher model).1 && not (ltb at r.effective_at)

-- `score > best || (score == best && selected != nil && r.EffectiveAt.After(...))`, best being -1
-- as long as nothing is selected.
unfoldable pub better : String → String → Option PriceRecord → PriceRecord → Bool
unfolding match_price
better provider model none r = true
better provider model (some s) r =
    ltb (score_of provider model s) (score_of provider model r)
    || nat_eq (score_of provider model r) (score_of provider model s)
      && ltb s.effective_at r.effective_at

unfoldable pub select_from :
    String → String → ℕ → Option PriceRecord → List PriceRecord → Option PriceRecord
unfolding applies better
select_from provider model at selected [] = selected
select_from provider model at selected (r ∷ rs) =
    let keeps = select_from provider model at selected rs in
    let takes = select_from provider model at (some r) rs in
    if applies provider model at r && better provider model selected r then takes else keeps

-- selectPrice
unfoldable pub select_price : List PriceRecord → String → String → ℕ → Option PriceRecord
unfolding select_from
select_price records provider model at = select_from provider model at none records
