-- ===== src/Sales/Desk/Statuses.antt =====
-- The changes of status of src/sales/sales.service.ts: the loss, `changeStatus`, the conversion and
-- its link to the campaigns.
use atabak_gold.Base.{not, Option, none, some, [], if◌then◌else◌, or_else}
use atabak_gold.Base.Texts.{Text}
use atabak_gold.Sales.Lifecycle.{LeadStatus, converted, lost, can_transition}
use atabak_gold.Sales.Lead.Defs.{
  SalesResult, ok, fail, not_found, conflict, invalid_status_transition, invalid_loss_reason,
  normalize_operator_note,
}
use atabak_gold.Sales.Desk.Types.{
  LeadRecord, LeadPhase8Link, LossReason, customer_converted, marked_lost,
}
use atabak_gold.Sales.Desk.Store.{SalesStore, find_lead_by_id, save_lead, commit_draft}
use atabak_gold.Sales.Desk.Input.{SalesEnv, Registered, link_to_phase8}
use atabak_gold.Sales.Desk.Updates.{
  is_converted, is_lost, lost_for, status_set, status_action, customer_of, customer_linked,
  find_lead, mutate, with_note, Turn, LeadKey, key_of,
}

-- What a conversion answers after its second transaction: the stored lead, or the one of the first
-- transaction when there is none under its id. `none`: the write failed and the call throws.
abbrev pub link_answered :
    LeadPhase8Link → Turn → LeadRecord → Option LeadRecord → Option (SalesResult LeadRecord)
link_answered link turn updated none = some (ok updated)
link_answered link turn updated (some current) =
    if not turn.persists then none else some (ok (customer_linked link turn.at current))

module _ {N : Type 0} where
  abbrev pub lose_found :
      SalesEnv
      → Turn
      → LeadKey
      → LossReason
      → Option Text
      → Option LeadRecord
      → SalesStore N
      → SalesStore N
      → SalesResult LeadRecord × SalesStore N
  lose_found env turn key reason remark none seen s = (fail not_found, s)
  lose_found env turn key reason remark (some lead) seen s =
      if not (can_transition lead.status lost)
      then (fail invalid_status_transition, s)
      else with_note (normalize_operator_note (or_else remark []))
          (λ text. mutate env turn key (lost_for reason text turn.at) (λ x. marked_lost) seen s) s

  -- A reason that is not in the vocabulary is `none`.
  unfoldable pub mark_lost :
      SalesEnv
      → Turn
      → LeadKey
      → Option LossReason
      → Option Text
      → SalesStore N
      → SalesStore N
      → SalesResult LeadRecord × SalesStore N
  mark_lost env turn key none remark seen s = (fail invalid_loss_reason, s)
  mark_lost env turn key (some reason) remark seen s =
      lose_found env turn key reason remark (find_lead key seen) seen s

  abbrev pub status_found :
      SalesEnv
      → Turn
      → LeadKey
      → LeadStatus
      → Option LossReason
      → Option Text
      → Option LeadRecord
      → SalesStore N
      → SalesStore N
      → SalesResult LeadRecord × SalesStore N
  status_found env turn key next reason remark none seen s = (fail not_found, s)
  status_found env turn key next reason remark (some lead) seen s =
      if not (can_transition lead.status next)
      then (fail invalid_status_transition, s)
      else if is_lost next
      then mark_lost env turn key reason remark seen s
      else mutate env turn (key_of env lead.reference) (status_set next turn.at) status_action seen
          s

  unfoldable pub change_status :
      SalesEnv
      → Turn
      → LeadKey
      → LeadStatus
      → Option LossReason
      → Option Text
      → SalesStore N
      → SalesStore N
      → SalesResult LeadRecord × SalesStore N
  change_status env turn key next reason remark seen s =
      if is_converted next
      then (fail invalid_status_transition, s)
      else status_found env turn key next reason remark (find_lead key seen) seen s

  abbrev pub convert_found :
      SalesEnv
      → Turn
      → LeadKey
      → Option Text
      → Option LeadRecord
      → SalesStore N
      → SalesStore N
      → SalesResult LeadRecord × SalesStore N
  convert_found env turn key remark none seen s = (fail not_found, s)
  convert_found env turn key remark (some lead) seen s =
      if is_converted lead.status
      then (fail conflict, s)
      else if not (can_transition lead.status converted)
      then (fail invalid_status_transition, s)
      else with_note (normalize_operator_note (or_else remark []))
          (λ text. mutate env turn key (customer_of turn.at) (λ x. customer_converted) seen s) s

  -- The first transaction of `convertToCustomer`.
  unfoldable pub begin_conversion :
      SalesEnv
      → Turn
      → LeadKey
      → Option Text
      → SalesStore N
      → SalesStore N
      → SalesResult LeadRecord × SalesStore N
  begin_conversion env turn key remark seen s =
      convert_found env turn key remark (find_lead key seen) seen s

  -- Its second transaction, which stores the link: what it leaves. A write that fails changes nothing.
  abbrev pub link_stored : LeadPhase8Link → Turn → Option LeadRecord → SalesStore N → SalesStore N
  link_stored link turn none s = s
  link_stored link turn (some current) s =
      if not turn.persists
      then s
      else commit_draft (save_lead (customer_linked link turn.at current) s)

  unfoldable pub link_customer :
      SalesEnv → Turn → LeadRecord → Registered → SalesStore N → SalesStore N
  link_customer env turn lead answer s =
      link_stored (link_to_phase8 env lead answer turn.at) turn (find_lead_by_id lead.lead_id s) s

  -- What follows the first transaction. Other transactions run in between (`meanwhile`).
  abbrev pub link_converted :
      SalesEnv
      → Turn
      → Registered
      → (SalesStore N → SalesStore N)
      → SalesResult LeadRecord
      → SalesStore N
      → Option (SalesResult LeadRecord) × SalesStore N
  link_converted env turn answer meanwhile (fail f) s = (some (fail f), s)
  link_converted env turn answer meanwhile (ok updated) s =
      let t = meanwhile s in
      (
        link_answered (link_to_phase8 env updated answer turn.at) turn updated
            (find_lead_by_id updated.lead_id t),
        link_customer env turn updated answer t,
      )

  -- `convertToCustomer`: the conversion, the registration with the campaigns and the link, each
  -- transaction with its own time and write. `none` as the answer: the call throws.
  unfoldable pub convert_to_customer :
      SalesEnv
      → Turn
      → Turn
      → LeadKey
      → Option Text
      → Registered
      → (SalesStore N → SalesStore N)
      → SalesStore N
      → SalesStore N
      → Option (SalesResult LeadRecord) × SalesStore N
  convert_to_customer env turn linking key remark answer meanwhile seen s =
      let (first, t) = begin_conversion env turn key remark seen s in
      link_converted env linking answer meanwhile first t
