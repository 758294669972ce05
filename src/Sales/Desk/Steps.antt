-- ===== src/Sales/Desk/Steps.antt =====
-- The operations of src/sales/sales.service.ts that go through `mutate`, in the terms of `Follows`.
use atabak_gold.Base.{refl, not, Option, none, some, [], String, or_else}
use atabak_gold.Base.Texts.{Text}
use atabak_gold.Sales.Lifecycle.{LeadStatus, lost, converted, can_transition}
use atabak_gold.Sales.Lead.Defs.{normalize_operator_note}
use atabak_gold.Sales.Desk.Types.{
  LeadRecord, LossReason, assigned, note_added, contact_logged, customer_converted, marked_lost,
}
use atabak_gold.Sales.Desk.Store.{SalesStore}
use atabak_gold.Sales.Desk.Input.{SalesEnv}
use atabak_gold.Sales.Desk.Updates.{
  Turn, LeadKey, key_of, find_lead, log_contact, add_note, assign, contact_made, touched,
  assigned_to_admin, lost_for, status_set, status_action, customer_of, mutate, note_given, is_lost,
  is_converted, chosen, assign_to,
}
use atabak_gold.Sales.Desk.Statuses.{
  mark_lost, change_status, begin_conversion, lose_found, status_found, convert_found,
}
use atabak_gold.Sales.Desk.Sound.{IsSound}
use atabak_gold.Sales.Desk.Follow.{Follows, stays, if-Follows, mutate-Follows, with_note-Follows}

module _ {N : Type 0} (env : SalesEnv) (turn : Turn) (key : LeadKey) (seen s : SalesStore N)
    (sound : IsSound env s) where
  pub log_contact-Follows :
      (remark : Option Text) → Follows env s (log_contact env turn key remark seen s).1
  unfolding log_contact
  log_contact-Follows remark =
      with_note-Follows env (normalize_operator_note (or_else remark []))
        (λ x. mutate env turn key (contact_made turn.at) (λ lead. contact_logged) seen s) s sound
        (λ x.
          mutate-Follows env turn key (contact_made turn.at) (λ lead. contact_logged) seen s
            (λ lead. refl) sound)

  pub add_note-Follows : (remark : Text) → Follows env s (add_note env turn key remark seen s).1
  unfolding add_note
  add_note-Follows remark =
      with_note-Follows env (note_given (normalize_operator_note remark))
        (λ x. mutate env turn key (touched turn.at) (λ lead. note_added) seen s) s sound
        (λ x.
          mutate-Follows env turn key (touched turn.at) (λ lead. note_added) seen s (λ lead. refl)
            sound)

  assign_to-Follows :
      (admin : Option (Option String)) → Follows env s (assign_to env turn key admin seen s).1
  assign_to-Follows none = stays env s sound
  assign_to-Follows (some admin) =
      mutate-Follows env turn key (assigned_to_admin admin turn.at) (λ lead. assigned) seen s
        (λ lead. refl) sound

  pub assign-Follows :
      (assignee : Option String) → Follows env s (assign env turn key assignee seen s).1
  unfolding assign
  assign-Follows assignee = assign_to-Follows (chosen env assignee)

  lose_found-Follows :
      (reason : LossReason) (remark : Option Text) (found : Option LeadRecord)
      → Follows env s (lose_found env turn key reason remark found seen s).1
  lose_found-Follows reason remark none = stays env s sound
  lose_found-Follows reason remark (some lead) =
      if-Follows env s (not (can_transition lead.status lost)) _ _ (stays env s sound) (
        with_note-Follows env (normalize_operator_note (or_else remark []))
          (λ x. mutate env turn key (lost_for reason x turn.at) (λ y. marked_lost) seen s) s sound
          (λ x.
            mutate-Follows env turn key (lost_for reason x turn.at) (λ y. marked_lost) seen s
              (λ y. refl) sound))

  pub mark_lost-Follows :
      (reason : Option LossReason) (remark : Option Text)
      → Follows env s (mark_lost env turn key reason remark seen s).1
  unfolding mark_lost
  mark_lost-Follows none remark = stays env s sound
  mark_lost-Follows (some reason) remark = lose_found-Follows reason remark (find_lead key seen)

  status_found-Follows :
      (next : LeadStatus) (reason : Option LossReason) (remark : Option Text)
      (found : Option LeadRecord)
      → Follows env s (status_found env turn key next reason remark found seen s).1
  status_found-Follows next reason remark none = stays env s sound
  status_found-Follows next reason remark (some lead) =
      if-Follows env s (not (can_transition lead.status next)) _ _ (stays env s sound) (
        if-Follows env s (is_lost next) _ _ (mark_lost-Follows reason remark) (
          mutate-Follows env turn (key_of env lead.reference) (status_set next turn.at)
            status_action seen s (λ y. refl) sound))

  pub change_status-Follows :
      (next : LeadStatus) (reason : Option LossReason) (remark : Option Text)
      → Follows env s (change_status env turn key next reason remark seen s).1
  unfolding change_status
  change_status-Follows next reason remark =
      if-Follows env s (is_converted next) _ _ (stays env s sound)
        (status_found-Follows next reason remark (find_lead key seen))

  convert_found-Follows :
      (remark : Option Text) (found : Option LeadRecord)
      → Follows env s (convert_found env turn key remark found seen s).1
  convert_found-Follows remark none = stays env s sound
  convert_found-Follows remark (some lead) =
      if-Follows env s (is_converted lead.status) _ _ (stays env s sound) (
        if-Follows env s (not (can_transition lead.status converted)) _ _ (stays env s sound) (
          with_note-Follows env (normalize_operator_note (or_else remark []))
            (λ x. mutate env turn key (customer_of turn.at) (λ y. customer_converted) seen s) s
            sound
            (λ x.
              mutate-Follows env turn key (customer_of turn.at) (λ y. customer_converted) seen s
                (λ y. refl) sound)))

  pub begin_conversion-Follows :
      (remark : Option Text) → Follows env s (begin_conversion env turn key remark seen s).1
  unfolding begin_conversion
  begin_conversion-Follows remark = convert_found-Follows remark (find_lead key seen)
