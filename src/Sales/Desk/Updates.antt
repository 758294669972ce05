-- ===== src/Sales/Desk/Updates.antt =====
-- The operations of src/sales/sales.service.ts on a stored lead. Each reads the lead before its
-- transaction (`seen`) and writes in it (`s`), since other transactions run in between. A reference
-- is given as `findLead` reads it: a public reference or an id.
use atabak_gold.Base.{
  ◌+◌, Bool, true, false, not, ◌||◌, Option, none, some, List, [], ◌∷◌, String, if◌then◌else◌,
  or_else, filter,
}
use atabak_gold.Base.Texts.{Text}
use atabak_gold.Base.Sets.{has}
use atabak_gold.Sales.Lifecycle.{LeadStatus, converted, lost}
use atabak_gold.Sales.Lead.Defs.{
  SalesResult, ok, fail, disabled, not_found, persistence_failed, invalid_note, unauthorized,
  normalize_operator_note,
}
use atabak_gold.Sales.Desk.Types.{
  LeadRecord, LeadActivityRecord, LeadAction, LeadPhase8Link, LossReason, recorded, Phase8LeadLink,
  status_changed, assigned, note_added, contact_logged, reopened,
}
use atabak_gold.Sales.Desk.Reference.{is_lead_reference}
use atabak_gold.Sales.Desk.Store.{SalesStore, find_lead_by_id, find_lead_by_reference, commit_draft}
use atabak_gold.Sales.Desk.Input.{SalesEnv}
use atabak_gold.Sales.Desk.Create.{write_lead}

pub data LeadKey : Type 0 where
  by_reference by_id : String → LeadKey

-- `findLead` reads a text as a public reference, if it is one, or as an id.
unfoldable pub key_of : SalesEnv → String → LeadKey
key_of env text =
    let value = env.trimmed text in
    if is_lead_reference value then by_reference value else by_id value

-- The operator, the time of the transaction and whether its write succeeds.
pub record Turn : Type 0 where
  pub actor : String
  pub at : String
  pub persists : Bool

abbrev pub is_converted : LeadStatus → Bool
is_converted converted = true
is_converted _ = false

abbrev pub is_lost : LeadStatus → Bool
is_lost lost = true
is_lost _ = false

-- The row that a write of a lead leaves in its history.
abbrev pub history_row :
    Turn → (LeadRecord → LeadAction) → LeadRecord → LeadRecord → String → LeadActivityRecord
history_row turn action before after id = record {
  activity_id = id;
  lead_id = before.lead_id;
  action = action before;
  actor = turn.actor;
  at = turn.at;
  from_status = some before.status;
  to_status = some after.status;
}

abbrev pub contact_made : String → LeadRecord → LeadRecord
contact_made at lead = record lead {
  last_contact_at = some at;
  contact_attempts = lead.contact_attempts + 1;
  updated_at = at;
}

abbrev pub touched : String → LeadRecord → LeadRecord
touched at lead = record lead { updated_at = at }

abbrev pub assigned_to_admin : Option String → String → LeadRecord → LeadRecord
assigned_to_admin admin at lead = record lead { assigned_to = admin; updated_at = at }

abbrev pub lost_for : LossReason → Option Text → String → LeadRecord → LeadRecord
lost_for reason note at lead = record lead {
  status = lost;
  loss_reason = some reason;
  loss_note = note;
  updated_at = at;
}

-- `applyStatusChange`; its callers give it a status other than `LOST`.
abbrev pub status_set : LeadStatus → String → LeadRecord → LeadRecord
status_set next at lead = record lead {
  status = next;
  loss_reason = if is_lost next then lead.loss_reason else none;
  loss_note = if is_lost next then lead.loss_note else none;
  updated_at = at;
}

abbrev pub status_action : LeadRecord → LeadAction
status_action lead =
    if is_lost lead.status || is_converted lead.status then reopened else status_changed

abbrev pub customer_of : String → LeadRecord → LeadRecord
customer_of at lead = record lead {
  status = converted;
  customer_converted_at = some at;
  updated_at = at;
}

abbrev pub is_recorded : Phase8LeadLink → Bool
is_recorded recorded = true
is_recorded _ = false

abbrev pub customer_linked : LeadPhase8Link → String → LeadRecord → LeadRecord
customer_linked link at lead = record lead {
  customer_conversion_id =
      if is_recorded link.status then link.conversion_id else lead.customer_conversion_id;
  phase8_customer = some link;
  updated_at = at;
}

-- The entries that end with `:` and the text: the one that there is, if there is one.
abbrev pub only_one : List String → Option String
only_one (entry ∷ []) = some entry
only_one _ = none

unfoldable pub canonical_assignee : SalesEnv → String → Option String
canonical_assignee env input =
    let name = env.trimmed input in
    if has name env.admin_ids
    then some name
    else only_one (filter (λ entry. env.ends_with_id entry name) env.admin_ids)

abbrev pub note_given : SalesResult (Option Text) → SalesResult (Option Text)
note_given (fail f) = fail invalid_note
note_given (ok none) = fail invalid_note
note_given (ok (some remark)) = ok (some remark)

-- `none` for an assignee that is given and is no administrator.
abbrev pub chosen : SalesEnv → Option String → Option (Option String)
chosen env none = some none
chosen env (some name) = elim (canonical_assignee env name) [
  | none ↦ none
  | some admin ↦ some (some admin)
]

module _ {N : Type 0} where
  abbrev pub find_lead : LeadKey → SalesStore N → Option LeadRecord
  find_lead (by_reference reference) s = find_lead_by_reference reference s
  find_lead (by_id id) s = find_lead_by_id id s

  -- What the transaction of `mutate` does with the current record of the lead.
  abbrev pub change_lead :
      SalesEnv
      → Turn
      → (LeadRecord → LeadRecord)
      → (LeadRecord → LeadAction)
      → Option LeadRecord
      → SalesStore N
      → SalesResult LeadRecord × SalesStore N
  change_lead env turn change action none s = (fail not_found, s)
  change_lead env turn change action (some current) s =
      if not turn.persists then (fail persistence_failed, s) else (
        ok (change current),
        commit_draft
            (write_lead env (change current) (history_row turn action current (change current)) s),
      )

  abbrev pub mutate_found :
      SalesEnv
      → Turn
      → (LeadRecord → LeadRecord)
      → (LeadRecord → LeadAction)
      → Option LeadRecord
      → SalesStore N
      → SalesResult LeadRecord × SalesStore N
  mutate_found env turn change action none s = (fail not_found, s)
  mutate_found env turn change action (some lead) s =
      change_lead env turn change action (find_lead_by_id lead.lead_id s) s

  unfoldable pub mutate :
      SalesEnv
      → Turn
      → LeadKey
      → (LeadRecord → LeadRecord)
      → (LeadRecord → LeadAction)
      → SalesStore N
      → SalesStore N
      → SalesResult LeadRecord × SalesStore N
  mutate env turn key change action seen s =
      if not env.enabled
      then (fail disabled, s)
      else mutate_found env turn change action (find_lead key seen) s

  abbrev pub with_note :
      SalesResult (Option Text)
      → (Option Text → SalesResult LeadRecord × SalesStore N)
      → SalesStore N
      → SalesResult LeadRecord × SalesStore N
  with_note (fail f) next s = (fail f, s)
  with_note (ok remark) next s = next remark

  unfoldable pub log_contact :
      SalesEnv
      → Turn
      → LeadKey
      → Option Text
      → SalesStore N
      → SalesStore N
      → SalesResult LeadRecord × SalesStore N
  log_contact env turn key remark seen s =
      with_note (normalize_operator_note (or_else remark []))
        (λ text. mutate env turn key (contact_made turn.at) (λ lead. contact_logged) seen s) s

  unfoldable pub add_note :
      SalesEnv
      → Turn
      → LeadKey
      → Text
      → SalesStore N
      → SalesStore N
      → SalesResult LeadRecord × SalesStore N
  add_note env turn key remark seen s =
      with_note (note_given (normalize_operator_note remark))
        (λ text. mutate env turn key (touched turn.at) (λ lead. note_added) seen s) s

  abbrev pub assign_to :
      SalesEnv
      → Turn
      → LeadKey
      → Option (Option String)
      → SalesStore N
      → SalesStore N
      → SalesResult LeadRecord × SalesStore N
  assign_to env turn key none seen s = (fail unauthorized, s)
  assign_to env turn key (some admin) seen s =
      mutate env turn key (assigned_to_admin admin turn.at) (λ lead. assigned) seen s

  unfoldable pub assign :
      SalesEnv
      → Turn
      → LeadKey
      → Option String
      → SalesStore N
      → SalesStore N
      → SalesResult LeadRecord × SalesStore N
  assign env turn key assignee seen s = assign_to env turn key (chosen env assignee) seen s
