-- ===== src/Sales/Desk/Active.antt =====
-- The active outcomes of the leads of src/sales/sales.service.ts over a sale.
use text.Mathlib.Text.{◌==◌ as str_eq}
use text.Mathlib.TextEquality.{eq_iff}
use mathlib.Core.Path.{subst}
use atabak_gold.Base.{
  ◌≤◌, ◌≡◌, refl, ap, ◌∙◌, Bool, true, false, not, Option, none, some, [], String, if◌then◌else◌,
  arith, or_else,
}
use atabak_gold.Base.Texts.{Text}
use atabak_gold.Base.Dict.{lookup, insert, lookup-insert, length-filter-insert_old}
use atabak_gold.Sales.Lead.Defs.{SalesResult, ok, fail, normalize_operator_note}
use atabak_gold.Sales.Desk.Types.{LeadRecord, SalesOutcomeRecord, outcome_active, outcome_corrected}
use atabak_gold.Sales.Desk.Store.{
  SalesStore, save_lead, save_outcome, commit_draft, count_id, append_activity, next_number,
}
use atabak_gold.Sales.Desk.Input.{SalesEnv}
use atabak_gold.Sales.Desk.Create.{write_lead}
use atabak_gold.Sales.Desk.Updates.{Turn, LeadKey, find_lead, is_converted}
use atabak_gold.Sales.Desk.Sale.{
  Amounts, SalesOutcomeInput, record_sale, sell_found, sell_noted, save_sale, corrected_by, sale_of,
  is_active, active_outcome, amount_accepted, upper_of,
}
use atabak_gold.Sales.Desk.Outcomes.{
  active_for, active_count, AreOwn, IsSort, OneActive, active_outcome-none, active_outcome-some,
  insert-OneActive,
}

module _ {N : Type 0} where
  -- The correction of the active outcome of a lead leaves none for it, and no more than one for any.
  corrected_by-count :
      (id : String) (o : SalesOutcomeRecord N) (new : String) (s : SalesStore N)
      → lookup o.outcome_id s.outcomes ≡ some o
      → str_eq o.lead_id id ≡ true
      → is_active o.status ≡ true
      → ((i : String) → active_count i s.outcomes ≤ 1)
      → ((i : String) → active_count i (corrected_by new (some o) s).outcomes ≤ 1)
        × (active_count id (corrected_by new (some o) s).outcomes ≡ 0)
  unfolding save_outcome
  corrected_by-count id o new s there its active bound =
      let fixed = record o { status = outcome_corrected; superseded_by = some new } in
      (
        (λ i. ground (
          arith,
          length-filter-insert_old (active_for i) o.outcome_id fixed o s.outcomes there,
          bound i,
        )),
        ground (
          arith,
          length-filter-insert_old (active_for id) o.outcome_id fixed o s.outcomes there,
          bound id,
          its,
          active,
        ),
      )

  save_sale-OneActive :
      (env : SalesEnv) (amounts : Amounts N) (turn : Turn) (lead : LeadRecord)
      (existing : Option (SalesOutcomeRecord N)) (o : SalesOutcomeRecord N) (s : SalesStore N)
      → IsSort amounts.newest_first
      → AreOwn s.outcomes
      → ((i : String) → active_count i s.outcomes ≤ 1)
      → active_outcome amounts lead.lead_id s ≡ existing
      → lookup o.outcome_id s.outcomes ≡ none
      → o.status ≡ outcome_active
      → o.lead_id ≡ lead.lead_id
      → OneActive o.lead_id (save_sale env turn lead existing o s).outcomes
  unfolding save_sale save_outcome count_id write_lead append_activity save_lead commit_draft
  save_sale-OneActive env amounts turn lead none o s sorted own bound h new active its =
      insert-OneActive o s.outcomes new active
        (ap (λ i. active_count i s.outcomes) its
          ∙ active_outcome-none amounts lead.lead_id s sorted h)
        bound
  save_sale-OneActive env amounts turn lead (some e) o s sorted own bound h new active its =
      let (there, (hers, on)) = active_outcome-some amounts lead.lead_id s e sorted own h in
      let (rest, zero_count) =
        corrected_by-count lead.lead_id e o.outcome_id s there hers on bound in
      let fixed = record e { status = outcome_corrected; superseded_by = some o.outcome_id } in
      insert-OneActive o (insert e.outcome_id fixed s.outcomes)
        (ground (
          arith,
          lookup-insert e.outcome_id o.outcome_id fixed s.outcomes,
          eq_iff e.outcome_id o.outcome_id,
          there,
          new,
        ))
        active (ap (λ i. active_count i (insert e.outcome_id fixed s.outcomes)) its ∙ zero_count)
        rest

  -- What a sale that succeeds leaves.
  abbrev Sold : SalesResult (SalesOutcomeRecord N) × SalesStore N → Type 0
  Sold answer =
      (outcome : SalesOutcomeRecord N)
      → answer.0 ≡ ok outcome
      → OneActive outcome.lead_id answer.1.outcomes

  if-Sold :
      (b : Bool) (x y : SalesResult (SalesOutcomeRecord N) × SalesStore N)
      → Sold x
      → Sold y
      → Sold (if b then x else y)
  if-Sold true x y h k = h
  if-Sold false x y h k = k

  sell_noted-Sold :
      (env : SalesEnv) (amounts : Amounts N) (turn : Turn) (lead : LeadRecord) (amount : Option N)
      (currency : Option Text) (remark : SalesResult (Option Text)) (s : SalesStore N)
      → IsSort amounts.newest_first
      → AreOwn s.outcomes
      → ((i : String) → active_count i s.outcomes ≤ 1)
      → lookup (env.id_text "sale" (next_number "sale" s)) s.outcomes ≡ none
      → Sold (
          sell_noted env turn lead (active_outcome amounts lead.lead_id s) amount currency remark s)
  sell_noted-Sold env amounts turn lead amount currency (fail f) s sorted own bound new =
      λ outcome h. ground arith
  sell_noted-Sold env amounts turn lead amount currency (ok remark) s sorted own bound new =
      let o =
        sale_of turn lead amount currency remark (env.id_text "sale" (next_number "sale" s)) in
      if-Sold (not turn.persists) _ _ (λ outcome h. ground arith)
        (λ outcome h.
          let same : o ≡ outcome = cc in
          subst
            (λ x.
              OneActive x.lead_id
                (save_sale env turn lead (active_outcome amounts lead.lead_id s) o s).outcomes)
            same
            (save_sale-OneActive env amounts turn lead (active_outcome amounts lead.lead_id s) o s
              sorted own bound refl new refl refl))

  sell_found-Sold :
      (env : SalesEnv) (amounts : Amounts N) (turn : Turn) (input : SalesOutcomeInput N)
      (found : Option LeadRecord) (s : SalesStore N)
      → IsSort amounts.newest_first
      → AreOwn s.outcomes
      → ((i : String) → active_count i s.outcomes ≤ 1)
      → lookup (env.id_text "sale" (next_number "sale" s)) s.outcomes ≡ none
      → Sold (sell_found env amounts turn input found s s)
  sell_found-Sold env amounts turn input none s sorted own bound new = λ outcome h. ground arith
  sell_found-Sold env amounts turn input (some lead) s sorted own bound new =
      if-Sold (not (is_converted lead.status)) _ _ (λ outcome h. ground arith)
        (if-Sold (not (amount_accepted amounts input.amount (upper_of env input.currency))) _ _
          (λ outcome h. ground arith)
          (sell_noted-Sold env amounts turn lead input.amount (upper_of env input.currency)
            (normalize_operator_note (or_else input.note [])) s sorted own bound new))

  -- When no transaction runs between the read of the call and its write, the sort of the outcomes
  -- keeps its elements, each outcome is listed once under its own id, the next id is free and no lead
  -- has two active outcomes: a sale that succeeds leaves one active outcome for the lead of the
  -- outcome that it answers, also where it corrects an earlier one, and at most one for every lead.
  pub record_sale-OneActive :
      (env : SalesEnv) (amounts : Amounts N) (turn : Turn) (key : LeadKey)
      (input : SalesOutcomeInput N) (s : SalesStore N) (outcome : SalesOutcomeRecord N)
      → IsSort amounts.newest_first
      → AreOwn s.outcomes
      → ((i : String) → active_count i s.outcomes ≤ 1)
      → lookup (env.id_text "sale" (next_number "sale" s)) s.outcomes ≡ none
      → (record_sale env amounts turn key input s s).0 ≡ ok outcome
      → OneActive outcome.lead_id (record_sale env amounts turn key input s s).1.outcomes
  unfolding record_sale
  record_sale-OneActive env amounts turn key input s outcome sorted own bound new h =
      sell_found-Sold env amounts turn input (find_lead key s) s sorted own bound new outcome h
