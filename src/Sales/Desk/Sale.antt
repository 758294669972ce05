-- ===== src/Sales/Desk/Sale.antt =====
-- `recordSale` of src/sales/sales.service.ts. `is_amount` stands for `Number.isFinite(amount) && amount > 0` and
-- `newest_first` for the sort by `recordedAt`, since the model has no floating point numbers and no
-- locale.
use atabak_gold.Base.{
  ℕ, Bool, true, false, not, ◌&&◌, ◌||◌, Option, none, some, List, [], ◌∷◌, String, if◌then◌else◌,
  or_else, is_some, leb,
}
use atabak_gold.Base.Texts.{Text, trim}
use atabak_gold.Sales.Lead.Defs.{
  SalesResult, ok, fail, not_found, persistence_failed, invalid_status_transition, invalid_amount,
  normalize_operator_note,
}
use atabak_gold.Sales.Desk.Types.{
  LeadRecord, LeadActivityRecord, SalesOutcomeRecord, OutcomeStatus, outcome_active,
  outcome_corrected, sale_recorded, sale_corrected,
}
use atabak_gold.Sales.Desk.Store.{
  SalesStore, next_number, count_id, save_outcome, list_outcomes, commit_draft,
}
use atabak_gold.Sales.Desk.Input.{SalesEnv, text_eq}
use atabak_gold.Sales.Desk.Create.{write_lead}
use atabak_gold.Sales.Desk.Updates.{Turn, LeadKey, find_lead, is_converted}

-- What the language computes of an amount and of a list of outcomes.
pub record Amounts (N : Type 0) : Type 0 where
  pub is_amount : N → Bool
  pub newest_first : List (SalesOutcomeRecord N) → List (SalesOutcomeRecord N)

pub record SalesOutcomeInput (N : Type 0) : Type 0 where
  pub amount : Option N
  pub currency : Option Text
  pub note : Option Text

abbrev toman_code : Text
toman_code = 84 ∷ 79 ∷ 77 ∷ 65 ∷ 78 ∷ []

abbrev rial_code : Text
rial_code = 82 ∷ 73 ∷ 65 ∷ 76 ∷ []

abbrev is_capital : ℕ → Bool
is_capital c = leb 65 c && leb c 90

abbrev is_iso_code : Text → Bool
is_iso_code (a ∷ b ∷ c ∷ []) = is_capital a && is_capital b && is_capital c
is_iso_code _ = false

-- `/^(TOMAN|RIAL|[A-Z]{3})$/u`.
unfoldable pub is_currency : Option Text → Bool
is_currency none = false
is_currency (some t) = text_eq t toman_code || text_eq t rial_code || is_iso_code t

abbrev pub upper_of : SalesEnv → Option Text → Option Text
upper_of env none = none
upper_of env (some t) = some (env.to_upper (trim t))

abbrev pub is_active : OutcomeStatus → Bool
is_active outcome_active = true
is_active outcome_corrected = false

abbrev pub sold : LeadRecord → String → String → LeadRecord
sold lead id at = record lead { sale_outcome_id = some id; updated_at = at }

module _ {N : Type 0} where
  abbrev pub first_active : List (SalesOutcomeRecord N) → Option (SalesOutcomeRecord N)
  first_active [] = none
  first_active (outcome ∷ outcomes) =
      let rest = first_active outcomes in if is_active outcome.status then some outcome else rest

  unfoldable pub active_outcome : Amounts N → String → SalesStore N → Option (SalesOutcomeRecord N)
  active_outcome amounts id s = first_active (amounts.newest_first (list_outcomes id s))

  -- The tests of the amount: a given amount is positive and has a currency.
  unfoldable pub amount_accepted : Amounts N → Option N → Option Text → Bool
  unfolding is_currency
  amount_accepted amounts none currency = true
  amount_accepted amounts (some n) currency = amounts.is_amount n && is_currency currency

  abbrev currency_of : Option N → Option Text → Option Text
  currency_of none currency = none
  currency_of (some n) currency = currency

  abbrev pub corrected_by : String → Option (SalesOutcomeRecord N) → SalesStore N → SalesStore N
  corrected_by id none s = s
  corrected_by id (some existing) s =
      save_outcome (record existing { status = outcome_corrected; superseded_by = some id }) s

  abbrev pub sale_of :
      Turn → LeadRecord → Option N → Option Text → Option Text → String → SalesOutcomeRecord N
  sale_of turn lead amount currency remark id = record {
    outcome_id = id;
    lead_id = lead.lead_id;
    lead_reference = lead.reference;
    amount = amount;
    currency = currency_of amount currency;
    recorded_at = turn.at;
    recorded_by = turn.actor;
    note = remark;
    status = outcome_active;
    superseded_by = none;
  }

  abbrev pub sale_row :
      Turn → LeadRecord → Option (SalesOutcomeRecord N) → String → LeadActivityRecord
  sale_row turn lead existing id = record {
    activity_id = id;
    lead_id = lead.lead_id;
    action = if is_some existing then sale_corrected else sale_recorded;
    actor = turn.actor;
    at = turn.at;
    from_status = some lead.status;
    to_status = some lead.status;
  }

  -- The transaction: `lead` and `existing` were read before it.
  unfoldable pub save_sale :
      SalesEnv
      → Turn
      → LeadRecord
      → Option (SalesOutcomeRecord N)
      → SalesOutcomeRecord N
      → SalesStore N
      → SalesStore N
  unfolding write_lead
  save_sale env turn lead existing outcome s = commit_draft (
      write_lead env (sold lead outcome.outcome_id turn.at) (sale_row turn lead existing)
        (save_outcome outcome (corrected_by outcome.outcome_id existing (count_id "sale" s))))

  abbrev pub sell :
      SalesEnv
      → Turn
      → LeadRecord
      → Option (SalesOutcomeRecord N)
      → SalesOutcomeRecord N
      → SalesStore N
      → SalesResult (SalesOutcomeRecord N) × SalesStore N
  sell env turn lead existing outcome s =
      if not turn.persists
      then (fail persistence_failed, s)
      else (ok outcome, save_sale env turn lead existing outcome s)

  abbrev pub sell_noted :
      SalesEnv
      → Turn
      → LeadRecord
      → Option (SalesOutcomeRecord N)
      → Option N
      → Option Text
      → SalesResult (Option Text)
      → SalesStore N
      → SalesResult (SalesOutcomeRecord N) × SalesStore N
  sell_noted env turn lead existing amount currency (fail f) s = (fail f, s)
  sell_noted env turn lead existing amount currency (ok remark) s =
      sell env turn lead existing
        (sale_of turn lead amount currency remark (env.id_text "sale" (next_number "sale" s))) s

  abbrev pub sell_found :
      SalesEnv
      → Amounts N
      → Turn
      → SalesOutcomeInput N
      → Option LeadRecord
      → SalesStore N
      → SalesStore N
      → SalesResult (SalesOutcomeRecord N) × SalesStore N
  sell_found env amounts turn input none seen s = (fail not_found, s)
  sell_found env amounts turn input (some lead) seen s =
      if not (is_converted lead.status)
      then (fail invalid_status_transition, s)
      else if not (amount_accepted amounts input.amount (upper_of env input.currency))
      then (fail invalid_amount, s)
      else sell_noted env turn lead (active_outcome amounts lead.lead_id seen) input.amount
          (upper_of env input.currency) (normalize_operator_note (or_else input.note [])) s

  unfoldable pub record_sale :
      SalesEnv
      → Amounts N
      → Turn
      → LeadKey
      → SalesOutcomeInput N
      → SalesStore N
      → SalesStore N
      → SalesResult (SalesOutcomeRecord N) × SalesStore N
  record_sale env amounts turn key input seen s =
      sell_found env amounts turn input (find_lead key seen) seen s
