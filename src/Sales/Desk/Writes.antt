-- ===== src/Sales/Desk/Writes.antt =====
-- The operations of src/sales/sales.service.ts that do not go through `mutate`, in the terms of
-- `Follows`: the links and the notifications.
use atabak_gold.Base.{◌≡◌, refl, sym, ap, not, Option, none, some, [], ◌∷◌, String, arith}
use mathlib.Core.List.{append-nil}
use atabak_gold.Base.Dict.{lookup-insert}
use atabak_gold.Sales.Desk.Types.{LeadRecord, LeadAction, LeadPhase8Link}
use atabak_gold.Sales.Desk.Store.{
  SalesStore, find_lead_by_id, save_lead, commit_draft, count_id, append_activity, next_number,
}
use atabak_gold.Sales.Desk.Input.{SalesEnv, Registered, link_to_phase8}
use atabak_gold.Sales.Desk.Updates.{Turn, LeadKey, find_lead, customer_linked}
use atabak_gold.Sales.Desk.Statuses.{link_stored, link_customer}
use atabak_gold.Sales.Desk.Repair.{
  notified, record_notification_activity, repaired, repair_stored, repair_found,
  repair_integrations,
}
use atabak_gold.Sales.Desk.Advance.{
  submission_of, submission_at, given, commit_draft-Advance, commit_draft-Advance_rows,
}
use atabak_gold.Sales.Desk.Sound.{IsSound, commit_draft-IsSound, commit_draft-IsSound_rows}
use atabak_gold.Sales.Desk.Follow.{Follows, stays, if-kept, own_id, drawn_id}

module _ {N : Type 0} (env : SalesEnv) where
  save_lead-Follows :
      (lead : LeadRecord) (s : SalesStore N)
      → IsSound env s
      → submission_at lead.lead_id s ≡ some (submission_of lead)
      → Follows env s (commit_draft (save_lead lead s))
  unfolding save_lead
  save_lead-Follows lead s sound has = (
    commit_draft-Advance lead s (save_lead lead s) [] sound.kept refl
        (sym (append-nil s.activities)) (λ x h. cc),
    commit_draft-IsSound env lead s (save_lead lead s) sound refl (ground arith)
        (drawn_id env lead.lead_id s (submission_of lead) sound has),
  )

  link_stored-Follows :
      (link : LeadPhase8Link) (turn : Turn) (id : String) (found : Option LeadRecord)
      (s : SalesStore N)
      → IsSound env s
      → find_lead_by_id id s ≡ found
      → Follows env s (link_stored link turn found s)
  link_stored-Follows link turn id none s sound h = stays env s sound
  link_stored-Follows link turn id (some lead) s sound h =
      if-kept env s (not turn.persists) _ _ (stays env s sound) (
        save_lead-Follows (customer_linked link turn.at lead) s sound
          (ap given (own_id env id s lead sound h)))

  pub link_customer-Follows :
      (turn : Turn) (lead : LeadRecord) (answer : Registered) (s : SalesStore N)
      → IsSound env s
      → Follows env s (link_customer env turn lead answer s)
  unfolding link_customer
  link_customer-Follows turn lead answer s sound =
      link_stored-Follows (link_to_phase8 env lead answer turn.at) turn lead.lead_id
        (find_lead_by_id lead.lead_id s) s sound refl

  notified-Follows :
      (turn : Turn) (action : LeadAction) (found : Option LeadRecord) (s : SalesStore N)
      → IsSound env s
      → Follows env s (notified env turn action found s)
  unfolding append_activity count_id
  notified-Follows turn action none s sound = stays env s sound
  notified-Follows turn action (some lead) s sound =
      if-kept env s (not turn.persists) _ _ (stays env s sound) (
        commit_draft-Advance_rows s _
            (record {
              activity_id = env.id_text "act" (next_number "act" s);
              lead_id = lead.lead_id;
              action = action;
              actor = turn.actor;
              at = turn.at;
              from_status = none;
              to_status = none;
            }
              ∷ [])
            sound.kept refl refl,
        commit_draft-IsSound_rows env s _ sound refl
            (ground (arith, lookup-insert "act" "lead" (next_number "act" s) s.sequences)),
      )

  pub record_notification_activity-Follows :
      (turn : Turn) (id : String) (action : LeadAction) (s : SalesStore N)
      → IsSound env s
      → Follows env s (record_notification_activity env turn id action s)
  unfolding record_notification_activity
  record_notification_activity-Follows turn id action s sound =
      notified-Follows turn action (find_lead_by_id id s) s sound

  repair_stored-Follows :
      (link : LeadPhase8Link) (customer : Option LeadPhase8Link) (turn : Turn) (id : String)
      (found : Option LeadRecord) (s : SalesStore N)
      → IsSound env s
      → find_lead_by_id id s ≡ found
      → Follows env s (repair_stored link customer turn found s)
  repair_stored-Follows link customer turn id none s sound h = stays env s sound
  repair_stored-Follows link none turn id (some lead) s sound h =
      if-kept env s (not turn.persists) _ _ (stays env s sound) (
        save_lead-Follows (repaired link none turn.at lead) s sound
          (ap given (own_id env id s lead sound h)))
  repair_stored-Follows link (some customer) turn id (some lead) s sound h =
      if-kept env s (not turn.persists) _ _ (stays env s sound) (
        save_lead-Follows (repaired link (some customer) turn.at lead) s sound
          (ap given (own_id env id s lead sound h)))

  repair_found-Follows :
      (turn : Turn) (answer customer_answer : Registered) (found : Option LeadRecord)
      (s : SalesStore N)
      → IsSound env s
      → Follows env s (repair_found env turn answer customer_answer found s).1
  repair_found-Follows turn answer customer_answer none s sound = stays env s sound
  repair_found-Follows turn answer customer_answer (some lead) s sound =
      repair_stored-Follows _ _ turn lead.lead_id (find_lead_by_id lead.lead_id s) s sound refl

  pub repair_integrations-Follows :
      (turn : Turn) (key : LeadKey) (answer customer_answer : Registered) (seen s : SalesStore N)
      → IsSound env s
      → Follows env s (repair_integrations env turn key answer customer_answer seen s).1
  unfolding repair_integrations
  repair_integrations-Follows turn key answer customer_answer seen s sound =
      repair_found-Follows turn answer customer_answer (find_lead key seen) s sound
