-- ===== src/Sales/Tests/Desk/Sale.antt =====
-- A second sale of a customer, and the theorem on active outcomes at it.
use atabak_gold.Base.{ℕ, ◌≡◌, ◌≤◌, refl, none, some, [], ◌∷◌, String, arith}
use atabak_gold.Base.Dict.{lookup}
use atabak_gold.Base.Texts.{trim, trim_start, trim_end, is_white}
use atabak_gold.Sales.Lifecycle.{converted}
use atabak_gold.Sales.Lead.Defs.{
  ok, utf16_length, is_control, collapse_runs, collapse_whitespace, normalize_operator_note,
}
use atabak_gold.Sales.Desk.Types.{SalesOutcomeRecord, LeadRecord}
use atabak_gold.Sales.Desk.Store.{SalesStore}
use atabak_gold.Sales.Desk.Updates.{by_id}
use atabak_gold.Sales.Desk.Sale.{sale_of, amount_accepted, SalesOutcomeInput, record_sale}
use atabak_gold.Sales.Desk.Outcomes.{active_count, OneActive}
use atabak_gold.Sales.Desk.Active.{record_sale-OneActive}
use atabak_gold.Sales.Tests.Desk.{strokes, desk, turn, amounts, lead}

abbrev customer : LeadRecord
customer = record lead { lead_id = "l"; status = converted }

abbrev earlier_sale : SalesOutcomeRecord ℕ
earlier_sale = sale_of turn customer (some 5) none none "x"

-- A customer with a sale.
abbrev sold_before : SalesStore ℕ
sold_before = record {
  leads = ("l", customer) ∷ [];
  references = ("SL-AAAAAAAA", "l") ∷ [];
  submissions = ("k", "l") ∷ [];
  identities = ("bale:7", "l" ∷ []) ∷ [];
  activities = [];
  outcomes = ("x", earlier_sale) ∷ [];
  sequences = [];
}

abbrev unpriced : SalesOutcomeInput ℕ
unpriced = record { amount = none; currency = none; note = none }

abbrev later_sale : SalesOutcomeRecord ℕ
later_sale = sale_of turn customer none none none (strokes 1)

sells_again :
    (record_sale desk amounts turn (by_id "l") unpriced sold_before sold_before).0 ≡ ok later_sale
unfolding record_sale amount_accepted lookup normalize_operator_note collapse_whitespace
    collapse_runs trim trim_start trim_end is_white is_control utf16_length
sells_again = refl

free_number : lookup (strokes 1) sold_before.outcomes ≡ none
unfolding lookup strokes
free_number = refl

one_before : (i : String) → active_count i sold_before.outcomes ≤ 1
one_before i = ground arith

record_sale-OneActive_example :
    OneActive "l"
      (record_sale desk amounts turn (by_id "l") unpriced sold_before sold_before).1.outcomes
unfolding lookup
record_sale-OneActive_example =
    record_sale-OneActive desk amounts turn (by_id "l") unpriced sold_before later_sale
      ((λ xs o h. h), (λ xs o h. h)) (refl, (refl, tt)) one_before free_number sells_again
