-- ===== src/Sales/Desk/Kept.antt =====
-- The list of leads of src/sales/sales.store.ts, over a write and the commit of a transaction.
use text.Mathlib.Text.{◌==◌ as str_eq}
use text.Mathlib.TextEquality.{eq_iff}
use atabak_gold.Base.{
  ◌≡◌, refl, Option, none, some, List, [], ◌∷◌, String, arith, sym, inl, inr, Bool-cases,
}
use atabak_gold.Base.Dict.{lookup, insert, values, lookup-insert}
use atabak_gold.Sales.Desk.Types.{LeadRecord}
use atabak_gold.Sales.Desk.Store.{leads_of}

abbrev pub AreKept : List (String × LeadRecord) → Type 0
AreKept [] = Unit
AreKept ((id, lead) ∷ m) = (lead.lead_id ≡ id) × ((lookup id m ≡ none) × AreKept m)

-- A write of a lead under its own id keeps the list so.
pub insert-AreKept :
    (lead : LeadRecord) (m : List (String × LeadRecord))
    → AreKept m
    → AreKept (insert lead.lead_id lead m)
unfolding lookup insert
insert-AreKept lead [] h = (refl, (refl, tt))
insert-AreKept lead ((id, old) ∷ m) (own, (once, rest)) =
    elim (Bool-cases (str_eq id lead.lead_id)) [
      | inl same ↦ rw same ((refl, (rw (sym ((eq_iff id lead.lead_id).0 same)) once, rest)))
      | inr other ↦ rw other (
          (
            own,
            (
              ground (
                arith,
                lookup-insert lead.lead_id id lead m,
                eq_iff id lead.lead_id,
                eq_iff lead.lead_id id,
              ),
              insert-AreKept lead m rest,
            ),
          ))
    ]

pub leads_of-AreKept :
    (leads : List LeadRecord) (m : List (String × LeadRecord))
    → AreKept m
    → AreKept (leads_of leads m)
unfolding leads_of
leads_of-AreKept [] m h = h
leads_of-AreKept (lead ∷ leads) m h =
    leads_of-AreKept leads (insert lead.lead_id lead m) (insert-AreKept lead m h)

abbrev first_of : Option LeadRecord → Option LeadRecord → Option LeadRecord
first_of none other = other
first_of (some lead) other = some lead

-- The commit finds what the draft finds.
pub lookup-leads_of :
    (at : String) (m acc : List (String × LeadRecord))
    → AreKept m
    → lookup at (leads_of (values m) acc) ≡ first_of (lookup at m) (lookup at acc)
unfolding lookup leads_of
lookup-leads_of at [] acc h = refl
lookup-leads_of at ((id, lead) ∷ m) acc (own, (once, rest)) = ground (
  arith,
  lookup-leads_of at m (insert lead.lead_id lead acc) rest,
  lookup-insert lead.lead_id at lead acc,
  eq_iff id at,
  eq_iff lead.lead_id at,
)
