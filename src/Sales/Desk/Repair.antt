-- ===== src/Sales/Desk/Repair.antt =====
-- The repair of the campaign links and the history of notifications of src/sales/sales.service.ts.
use atabak_gold.Base.{
  Bool, true, false, not, ◌&&◌, ◌||◌, Option, none, some, List, String, if◌then◌else◌, filter,
  is_some, take,
}
use atabak_gold.Sales.Lead.Defs.{SalesResult, ok, fail, not_found}
use atabak_gold.Sales.Desk.Types.{
  LeadRecord, LeadAction, LeadPhase8Link, Phase8LeadLink, unattributed, link_failed,
}
use atabak_gold.Sales.Desk.Store.{
  SalesStore, find_lead_by_id, next_number, count_id, append_activity, save_lead, list_leads,
  commit_draft,
}
use atabak_gold.Sales.Desk.Input.{SalesEnv, Registered, link_to_phase8}
use atabak_gold.Sales.Desk.Updates.{Turn, LeadKey, find_lead, is_converted, is_recorded}

abbrev is_failed : Phase8LeadLink → Bool
is_failed link_failed = true
is_failed _ = false

abbrev is_unattributed : Phase8LeadLink → Bool
is_unattributed unattributed = true
is_unattributed _ = false

abbrev link_failing : Option LeadPhase8Link → Bool
link_failing none = true
link_failing (some link) = is_failed link.status

-- The filter of `repairPendingIntegrations` and its batch.
unfoldable pub needs_repair : LeadRecord → Bool
needs_repair lead =
    is_failed lead.phase8.status
    || is_some lead.campaign_id && is_unattributed lead.phase8.status
    || is_converted lead.status && link_failing lead.phase8_customer

abbrev pub repaired : LeadPhase8Link → Option LeadPhase8Link → String → LeadRecord → LeadRecord
repaired link none at lead = record lead { phase8 = link; updated_at = at }
repaired link (some customer) at lead = record lead {
  phase8 = link;
  phase8_customer = some customer;
  customer_conversion_id =
      if is_recorded customer.status then customer.conversion_id else lead.customer_conversion_id;
  updated_at = at;
}

module _ {N : Type 0} where
  unfoldable pub repair_candidates : SalesStore N → List LeadRecord
  unfolding needs_repair
  repair_candidates s = take 50 (filter needs_repair (list_leads s))

  abbrev pub notified :
      SalesEnv → Turn → LeadAction → Option LeadRecord → SalesStore N → SalesStore N
  notified env turn action none s = s
  notified env turn action (some lead) s =
      if not turn.persists
      then s
      else commit_draft (
          append_activity
            (record {
              activity_id = env.id_text "act" (next_number "act" s);
              lead_id = lead.lead_id;
              action = action;
              actor = turn.actor;
              at = turn.at;
              from_status = none;
              to_status = none;
            })
            (count_id "act" s))

  -- The actor is `system:sales`.
  unfoldable pub record_notification_activity :
      SalesEnv → Turn → String → LeadAction → SalesStore N → SalesStore N
  record_notification_activity env turn id action s =
      notified env turn action (find_lead_by_id id s) s

  -- The transaction of `repairIntegrations`; a write that fails throws and changes nothing.
  abbrev pub repair_stored :
      LeadPhase8Link
      → Option LeadPhase8Link
      → Turn
      → Option LeadRecord
      → SalesStore N
      → SalesStore N
  repair_stored link customer turn none s = s
  repair_stored link customer turn (some current) s =
      if not turn.persists
      then s
      else commit_draft (save_lead (repaired link customer turn.at current) s)

  abbrev pub repair_found :
      SalesEnv
      → Turn
      → Registered
      → Registered
      → Option LeadRecord
      → SalesStore N
      → SalesResult LeadPhase8Link × SalesStore N
  repair_found env turn answer customer_answer none s = (fail not_found, s)
  repair_found env turn answer customer_answer (some lead) s =
      let link = link_to_phase8 env lead answer turn.at in
      let customer =
        if is_converted lead.status
        then some (link_to_phase8 env lead customer_answer turn.at)
        else none in
      (ok link, repair_stored link customer turn (find_lead_by_id lead.lead_id s) s)

  unfoldable pub repair_integrations :
      SalesEnv
      → Turn
      → LeadKey
      → Registered
      → Registered
      → SalesStore N
      → SalesStore N
      → SalesResult LeadPhase8Link × SalesStore N
  repair_integrations env turn key answer customer_answer seen s =
      repair_found env turn answer customer_answer (find_lead key seen) s
