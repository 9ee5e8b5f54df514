-- ===== src/Cost/Summary/Laws.antt =====
-- What the summary of some cost records counts and adds.
use ai_engineering_productiv.Prelude.{
  ℕ, ◌+◌, ◌<◌, ◌^◌, String, ◌≡◌, refl, ◌∙◌, inl, inr, Bool, true, false, Option, none, some, List,
  [], ◌∷◌, ◌==◌, eq_iff, arith, if◌then◌else◌, length, any, keep, All, Bool-cases,
}
use ai_engineering_productiv.Prelude.Int.{ℤ, pos, negsuc}
use ai_engineering_productiv.Cost.{CostRecord}
use ai_engineering_productiv.Cost.Calculate.Laws.{add_int64-pos}
use ai_engineering_productiv.Cost.Summary.{
  StatusCount, Summary, count_status, add_amount, summarize_from, summarize_records,
}

-- `statuses[s]`, zero where the key is missing.
abbrev pub count_of : List StatusCount → String → ℕ
count_of [] s = 0
count_of (c ∷ cs) s = if c.status == s then c.count else count_of cs s

count_of-count_status :
    (cs : List StatusCount) (t s : String)
    → count_of (count_status cs t) s ≡ (if t == s then 1 else 0) + count_of cs s
unfolding count_status
count_of-count_status [] t s = ground arith
count_of-count_status (c ∷ cs) t s =
    ground (arith, count_of-count_status cs t s, eq_iff c.status t, eq_iff c.status s, eq_iff t s)

abbrev pub has_status : String → CostRecord → Bool
has_status s r = r.status == s

summarize_from-statuses :
    (m : Summary) (rs : List CostRecord) (s : String)
    → count_of ((summarize_from m rs).statuses) s
      ≡ count_of m.statuses s + length (keep (has_status s) rs)
unfolding summarize_from
summarize_from-statuses m [] s = omega arith
summarize_from-statuses m (r ∷ rs) s = ground (
  arith,
  summarize_from-statuses
      (record {
        currency = if m.currency == "" then r.currency else m.currency;
        amount = add_amount m.amount r.amount_microusd;
        statuses = count_status m.statuses r.status;
      })
      rs s,
  count_of-count_status m.statuses r.status s,
)

-- The value of an amount that is there and not negative.
abbrev pub known : Option ℤ → ℕ
known (some (pos n)) = n
known _ = 0

abbrev pub sum_of : List CostRecord → ℕ
sum_of [] = 0
sum_of (r ∷ rs) = known r.amount_microusd + sum_of rs

-- The amount is missing or not negative.
abbrev pub IsAmount : Option ℤ → Type 0
IsAmount none = Unit
IsAmount (some (pos n)) = Unit
IsAmount (some _) = ⊥

abbrev pub is_given : Option ℤ → Bool
is_given none = false
is_given (some n) = true

abbrev add_amounts : Option ℤ → List CostRecord → Option ℤ
add_amounts o [] = o
add_amounts o (r ∷ rs) = add_amounts (add_amount o r.amount_microusd) rs

summarize_from-amount :
    (rs : List CostRecord) (m : Summary) → (summarize_from m rs).amount ≡ add_amounts m.amount rs
unfolding summarize_from
summarize_from-amount [] m = refl
summarize_from-amount (r ∷ rs) m = summarize_from-amount rs _

add_amount-some :
    (a : ℕ) (o : Option ℤ)
    → IsAmount o
    → a + known o < 2 ^ 63
    → add_amount (some (pos a)) o ≡ some (pos (a + known o))
unfolding add_amount
add_amount-some a none h k = ground arith
add_amount-some a (some (pos n)) h k = ground (arith, add_int64-pos a n)
add_amount-some a (some (negsuc n)) h k = absurd h

add_amounts-some :
    (a : ℕ) (rs : List CostRecord)
    → All (λ r. IsAmount r.amount_microusd) rs
    → a + sum_of rs < 2 ^ 63
    → add_amounts (some (pos a)) rs ≡ some (pos (a + sum_of rs))
add_amounts-some a [] h k = ground arith
add_amounts-some a (r ∷ rs) (h, hs) k =
    rw (add_amount-some a r.amount_microusd h (omega arith))
      (ground (arith, add_amounts-some (a + known r.amount_microusd) rs hs))

add_amount-none :
    (o : Option ℤ)
    → IsAmount o
    → known o < 2 ^ 63
    → add_amount none o ≡ (if is_given o then some (pos (known o)) else none)
unfolding add_amount
add_amount-none none h k = refl
add_amount-none (some (pos n)) h k = ground (arith, add_int64-pos 0 n)
add_amount-none (some (negsuc n)) h k = absurd h

abbrev pub gives_amount : CostRecord → Bool
gives_amount r = is_given r.amount_microusd

not_given : (o : Option ℤ) → is_given o ≡ false → known o ≡ 0
not_given none e = refl
not_given (some n) e = absurd (cc e)

add_amounts-none :
    (rs : List CostRecord)
    → All (λ r. IsAmount r.amount_microusd) rs
    → sum_of rs < 2 ^ 63
    → add_amounts none rs ≡ (if any gives_amount rs then some (pos (sum_of rs)) else none)
add_amounts-none [] h k = refl
add_amounts-none (r ∷ rs) (h, hs) k = elim (Bool-cases (gives_amount r)) [
  | inl e ↦
      rw (add_amount-none r.amount_microusd h (omega arith), e)
        (add_amounts-some (known r.amount_microusd) rs hs k)
  | inr e ↦
      rw (add_amount-none r.amount_microusd h (omega arith), e)
        (ground (arith, add_amounts-none rs hs, not_given r.amount_microusd e))
]

-- The summary counts, for every status, the records that have it.
pub summarize_records-statuses :
    (rs : List CostRecord) (s : String)
    → count_of ((summarize_records rs).statuses) s ≡ length (keep (has_status s) rs)
unfolding summarize_records
summarize_records-statuses rs s =
    summarize_from-statuses (record { currency = ""; amount = none; statuses = [] }) rs s
    ∙ omega arith

-- Where no amount is negative and their sum fits an int64, the summary's amount is the sum of the
-- amounts that are there, and it is missing where none is.
pub summarize_records-amount :
    (rs : List CostRecord)
    → All (λ r. IsAmount r.amount_microusd) rs
    → sum_of rs < 2 ^ 63
    → (summarize_records rs).amount ≡ (if any gives_amount rs then some (pos (sum_of rs)) else none)
unfolding summarize_records
summarize_records-amount rs h k = summarize_from-amount rs _ ∙ add_amounts-none rs h k
