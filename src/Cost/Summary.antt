-- ===== src/Cost/Summary.antt =====
-- internal/cost/cost.go: SummarizeRecords.
pub mod Laws
use ai_engineering_productiv.Prelude.{
  ℕ, suc, String, Option, none, some, List, [], ◌∷◌, ◌==◌, if◌then◌else◌,
}
use ai_engineering_productiv.Prelude.Int.{ℤ, pos}
use ai_engineering_productiv.Cost.{CostRecord}
use ai_engineering_productiv.Cost.Calculate.{add_int64}

pub record StatusCount : Type 0 where
  pub status : String
  pub count : ℕ

pub record Summary : Type 0 where
  pub currency : String
  pub amount : Option ℤ
  pub statuses : List StatusCount

-- `statuses[status]++`
unfoldable pub count_status : List StatusCount → String → List StatusCount
count_status [] s = record { status = s; count = 1 } ∷ []
count_status (c ∷ cs) s =
    let rest = count_status cs s in
    if c.status == s then record c { count = suc c.count } ∷ cs else c ∷ rest

abbrev pub or_zero : Option ℤ → ℤ
or_zero none = pos 0
or_zero (some n) = n

abbrev pub add_amount : Option ℤ → Option ℤ → Option ℤ
unfolding add_int64
add_amount total none = total
add_amount total (some n) = some (add_int64 (or_zero total) n)

unfoldable pub summarize_from : Summary → List CostRecord → Summary
unfolding count_status add_amount
summarize_from s [] = s
summarize_from s (r ∷ rs) =
    summarize_from
      (record {
        currency = if s.currency == "" then r.currency else s.currency;
        amount = add_amount s.amount r.amount_microusd;
        statuses = count_status s.statuses r.status;
      })
      rs

-- SummarizeRecords
unfoldable pub summarize_records : List CostRecord → Summary
unfolding summarize_from
summarize_records rs = summarize_from (record { currency = ""; amount = none; statuses = [] }) rs
