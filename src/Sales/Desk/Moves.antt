-- ===== src/Sales/Desk/Moves.antt =====
-- The changes of status of src/sales/sales.service.ts when no other transaction runs between the
-- read of the call and its write.
use mathlib.Core.Path.{subst}
use text.Mathlib.TextEquality.{eq_iff}
use atabak_gold.Base.{
  ◌≡◌, refl, sym, ap, ◌∙◌, Bool, true, false, not, Option, none, some, [], String, inl, inr,
  Bool-cases, or_else, arith, if◌then◌else◌,
}
use atabak_gold.Base.Texts.{Text}
use atabak_gold.Base.Dict.{lookup}
use atabak_gold.Sales.Lifecycle.{LeadStatus, lost, converted, can_transition}
use atabak_gold.Sales.Lead.Defs.{SalesResult, ok, fail, normalize_operator_note}
use atabak_gold.Sales.Desk.Types.{
  LeadRecord, LeadAction, LossReason, marked_lost, customer_converted, LeadPhase8Link,
}
use atabak_gold.Sales.Desk.Store.{
  SalesStore, save_lead, commit_draft, count_id, append_activity, find_lead_by_id,
}
use atabak_gold.Sales.Desk.Input.{SalesEnv, Registered, link_to_phase8}
use atabak_gold.Sales.Desk.Create.{write_lead}
use atabak_gold.Sales.Desk.Updates.{
  Turn, LeadKey, key_of, find_lead, history_row, change_lead, mutate_found, mutate, with_note,
  is_lost, is_converted, lost_for, status_set, status_action, customer_of, customer_linked,
}
use atabak_gold.Sales.Desk.Statuses.{
  mark_lost, lose_found, change_status, status_found, convert_found, begin_conversion,
  convert_to_customer, link_converted, link_customer, link_answered, link_stored,
}
use atabak_gold.Sales.Desk.Advance.{submission_of, lookup-commit_draft}
use atabak_gold.Sales.Desk.Kept.{AreKept}
use atabak_gold.Sales.Desk.Steps.{begin_conversion-Follows}
use atabak_gold.Sales.Desk.Sound.{IsSound, lead_id-lookup}

is_lost-lost : (next : LeadStatus) → is_lost next ≡ true → next ≡ lost
is_lost-lost lost h = refl
is_lost-lost _ h = ground arith

module _ {N : Type 0} where
  -- A success has the status, and the store has what it answers.
  abbrev Moved : LeadStatus → String → SalesResult LeadRecord × SalesStore N → Type 0
  Moved next id answer =
      (after : LeadRecord)
      → answer.0 ≡ ok after
      → (after.status ≡ next) × (find_lead_by_id id answer.1 ≡ some after)

  if-Moved :
      (next : LeadStatus) (id : String) (b : Bool) (x y : SalesResult LeadRecord × SalesStore N)
      → Moved next id x
      → Moved next id y
      → Moved next id (if b then x else y)
  if-Moved next id true x y h k = h
  if-Moved next id false x y h k = k

  -- A success has moved the lead that the key finds along the transition table to the status,
  -- and the store has the lead that it answers.
  abbrev pub Allowed :
      SalesStore N → LeadKey → LeadStatus → SalesResult LeadRecord × SalesStore N → Type 0
  Allowed s key next answer =
      (after : LeadRecord)
      → answer.0 ≡ ok after
      → (before : LeadRecord) × ((find_lead key s ≡ some before)
          × ((can_transition before.status next ≡ true)
              × ((after.status ≡ next) × (find_lead_by_id before.lead_id answer.1 ≡ some after))))

  module _ (env : SalesEnv) (turn : Turn) (s : SalesStore N) (sound : IsSound env s) where
    change_lead-Moved :
        (next : LeadStatus) (change : LeadRecord → LeadRecord) (action : LeadRecord → LeadAction)
        (id : String) (found : Option LeadRecord)
        → ((l : LeadRecord) → submission_of (change l) ≡ submission_of l)
        → ((l : LeadRecord) → (change l).status ≡ next)
        → find_lead_by_id id s ≡ found
        → Moved next id (change_lead env turn change action found s)
    unfolding write_lead append_activity count_id save_lead
    change_lead-Moved next change action id none same sets h = λ after k. ground arith
    change_lead-Moved next change action id (some l) same sets h =
        if-Moved next id (not turn.persists) _ _ (λ after k. ground arith)
          (λ after k.
            let own : (change l).lead_id ≡ id =
              ap (λ x. x.lead_id) (same l) ∙ lead_id-lookup id l s.leads sound.kept h in
            let answer : change l ≡ after = cc in
            let draft = write_lead env (change l) (history_row turn action l (change l)) s in
            let found : lookup id (commit_draft draft).leads ≡ some (change l) = ground (
              arith,
              lookup-commit_draft (change l) s draft id sound.kept refl,
              eq_iff (change l).lead_id id,
              own,
            ) in
            (ap (λ x. x.status) (sym answer) ∙ sets l, found ∙ ap some answer))

    mutate_found-Moved :
        (next : LeadStatus) (change : LeadRecord → LeadRecord) (action : LeadRecord → LeadAction)
        (l : LeadRecord) (found : Option LeadRecord)
        → ((x : LeadRecord) → submission_of (change x) ≡ submission_of x)
        → ((x : LeadRecord) → (change x).status ≡ next)
        → found ≡ some l
        → Moved next l.lead_id (mutate_found env turn change action found s)
    mutate_found-Moved next change action l none same sets h = λ after k. ground arith
    mutate_found-Moved next change action l (some x) same sets h =
        let lead : x ≡ l = cc in
        rw lead (
          change_lead-Moved next change action l.lead_id (find_lead_by_id l.lead_id s) same sets
            refl)

    mutate-Moved :
        (next : LeadStatus) (change : LeadRecord → LeadRecord) (action : LeadRecord → LeadAction)
        (key : LeadKey) (l : LeadRecord)
        → ((x : LeadRecord) → submission_of (change x) ≡ submission_of x)
        → ((x : LeadRecord) → (change x).status ≡ next)
        → find_lead key s ≡ some l
        → Moved next l.lead_id (mutate env turn key change action s s)
    unfolding mutate
    mutate-Moved next change action key l same sets h =
        if-Moved next l.lead_id (not env.enabled) _ _ (λ after k. ground arith)
          (mutate_found-Moved next change action l (find_lead key s) same sets h)

    with_note-Moved :
        (next : LeadStatus) (id : String) (text : SalesResult (Option Text))
        (go : Option Text → SalesResult LeadRecord × SalesStore N)
        → ((x : Option Text) → Moved next id (go x))
        → Moved next id (with_note text go s)
    with_note-Moved next id (fail f) go h = λ after k. ground arith
    with_note-Moved next id (ok x) go h = h x

    lose_found-Allowed :
        (key : LeadKey) (reason : LossReason) (remark : Option Text) (found : Option LeadRecord)
        → find_lead key s ≡ found
        → Allowed s key lost (lose_found env turn key reason remark found s s)
    lose_found-Allowed key reason remark none h = λ after k. ground arith
    lose_found-Allowed key reason remark (some l) h =
        elim (Bool-cases (can_transition l.status lost)) [
          | inr e ↦ rw e (λ after k. ground arith)
          | inl e ↦ λ after k.
              let moved =
                with_note-Moved lost l.lead_id (normalize_operator_note (or_else remark []))
                  (λ x. mutate env turn key (lost_for reason x turn.at) (λ y. marked_lost) s s)
                  (λ x.
                    mutate-Moved lost (lost_for reason x turn.at) (λ y. marked_lost) key l
                      (λ y. refl) (λ y. refl) h) in
              (l, (h, (e, rw e (moved after (rw e at k)))))
        ]

    mark_lost-Allowed :
        (key : LeadKey) (reason : Option LossReason) (remark : Option Text)
        → Allowed s key lost (mark_lost env turn key reason remark s s)
    unfolding mark_lost
    mark_lost-Allowed key none remark = λ after k. ground arith
    mark_lost-Allowed key (some reason) remark =
        lose_found-Allowed key reason remark (find_lead key s) refl

    status_found-Allowed :
        (key : LeadKey) (next : LeadStatus) (reason : Option LossReason) (remark : Option Text)
        (found : Option LeadRecord)
        → ((l : LeadRecord)
            → find_lead key s ≡ some l
            → find_lead (key_of env l.reference) s ≡ some l)
        → find_lead key s ≡ found
        → Allowed s key next (status_found env turn key next reason remark found s s)
    status_found-Allowed key next reason remark none refers h = λ after k. ground arith
    status_found-Allowed key next reason remark (some l) refers h =
        elim (Bool-cases (can_transition l.status next)) [
          | inr e ↦ rw e (λ after k. ground arith)
          | inl e ↦ elim (Bool-cases (is_lost next)) [
            | inl f ↦ rw (e, f, is_lost-lost next f) (mark_lost-Allowed key reason remark)
            | inr f ↦ λ after k.
                let moved =
                  mutate-Moved next (status_set next turn.at) status_action (key_of env l.reference)
                    l (λ y. refl) (λ y. refl) (refers l h) in
                (l, (h, (e, rw (e, f) (moved after (rw (e, f) at k)))))
          ]
        ]

    change_status-Allowed :
        (key : LeadKey) (next : LeadStatus) (reason : Option LossReason) (remark : Option Text)
        → ((l : LeadRecord)
            → find_lead key s ≡ some l
            → find_lead (key_of env l.reference) s ≡ some l)
        → Allowed s key next (change_status env turn key next reason remark s s)
    unfolding change_status
    change_status-Allowed key next reason remark refers = elim (Bool-cases (is_converted next)) [
      | inl e ↦ rw e (λ after k. ground arith)
      | inr e ↦ rw e (status_found-Allowed key next reason remark (find_lead key s) refers refl)
    ]

    convert_found-Allowed :
        (key : LeadKey) (remark : Option Text) (found : Option LeadRecord)
        → find_lead key s ≡ found
        → Allowed s key converted (convert_found env turn key remark found s s)
    convert_found-Allowed key remark none h = λ after k. ground arith
    convert_found-Allowed key remark (some l) h = elim (Bool-cases (is_converted l.status)) [
      | inl f ↦ rw f (λ after k. ground arith)
      | inr f ↦ elim (Bool-cases (can_transition l.status converted)) [
        | inr e ↦ rw (f, e) (λ after k. ground arith)
        | inl e ↦ λ after k.
            let moved =
              with_note-Moved converted l.lead_id (normalize_operator_note (or_else remark []))
                (λ x. mutate env turn key (customer_of turn.at) (λ y. customer_converted) s s)
                (λ x.
                  mutate-Moved converted (customer_of turn.at) (λ y. customer_converted) key l
                    (λ y. refl) (λ y. refl) h) in
            (l, (h, (e, rw (f, e) (moved after (rw (f, e) at k)))))
      ]
    ]

  -- The same for a conversion, which may throw instead of an answer.
  abbrev pub AllowedCall :
      SalesStore N → LeadKey → LeadStatus → Option (SalesResult LeadRecord) × SalesStore N → Type 0
  AllowedCall s key next answer =
      (after : LeadRecord)
      → answer.0 ≡ some (ok after)
      → (before : LeadRecord) × (find_lead key s ≡ some before)
        × (can_transition before.status next ≡ true)
        × (after.status ≡ next)
        × (find_lead_by_id before.lead_id answer.1 ≡ some after)

  -- A link that is stored is found under the id of the lead, with the status of before.
  link_stored-found :
      (link : LeadPhase8Link) (turn : Turn) (id : String) (updated after : LeadRecord)
      (s : SalesStore N)
      → AreKept s.leads
      → find_lead_by_id id s ≡ some updated
      → link_answered link turn updated (some updated) ≡ some (ok after)
      → (after.status ≡ updated.status)
        × (find_lead_by_id id (link_stored link turn (some updated) s) ≡ some after)
  unfolding save_lead
  link_stored-found link turn id updated after s kept h k = elim (Bool-cases turn.persists) [
    | inr e ↦ ground (arith, k, e)
    | inl e ↦
        let linked = customer_linked link turn.at updated in
        let own : linked.lead_id ≡ id = lead_id-lookup id updated s.leads kept h in
        let answer : linked ≡ after = cc in
        let draft = save_lead linked s in
        let found : lookup id (commit_draft draft).leads ≡ some linked =
          ground (
            arith,
            lookup-commit_draft linked s draft id kept refl,
            eq_iff linked.lead_id id,
            own,
          ) in
        (ap (λ x. x.status) (sym answer), rw e (found ∙ ap some answer))
  ]

  link_converted-AllowedCall :
      (env : SalesEnv) (turn : Turn) (answer : Registered) (key : LeadKey)
      (first : SalesResult LeadRecord) (s t : SalesStore N)
      → AreKept t.leads
      → Allowed s key converted (first, t)
      → AllowedCall s key converted (link_converted env turn answer (λ u. u) first t)
  unfolding link_customer
  link_converted-AllowedCall env turn answer key (fail f) s t kept h = λ after k. ground arith
  link_converted-AllowedCall env turn answer key (ok updated) s t kept h = λ after k.
      let (before, (found, (allowed, (status, there)))) = h updated refl in
      let own : updated.lead_id ≡ before.lead_id =
        lead_id-lookup before.lead_id updated t.leads kept there in
      let link = link_to_phase8 env updated answer turn.at in
      let here : find_lead_by_id updated.lead_id t ≡ some updated =
        subst (λ i. find_lead_by_id i t ≡ some updated) (sym own) there in
      let (same, stored) =
        link_stored-found link turn updated.lead_id updated after t kept here (rw here at k) in
      let final =
        subst
          (λ i.
            find_lead_by_id i (link_stored link turn (find_lead_by_id updated.lead_id t) t)
            ≡ some after)
          own (rw here stored) in
      (before, found, allowed, same ∙ status, final)

  -- On a sound store, when no transaction runs between the reads of the call and its writes: a
  -- `change_status` (where the reference of the lead finds that lead), a `mark_lost` or the first
  -- transaction of a `convert_to_customer` that succeeds has found the lead by its key, the
  -- transition table allows the step from its status to the new one, the answer has the new status
  -- and the store has the answer under the id of the lead. The same holds for the whole
  -- `convert_to_customer`, link included, when it answers with success.
  pub changes-Allowed :
      (env : SalesEnv) (turn linking : Turn) (s : SalesStore N) (sound : IsSound env s)
      (key : LeadKey) (next : LeadStatus) (reason : Option LossReason) (remark : Option Text)
      (answer : Registered)
      → ((l : LeadRecord)
          → find_lead key s ≡ some l
          → find_lead (key_of env l.reference) s ≡ some l)
      → Allowed s key next (change_status env turn key next reason remark s s)
        × Allowed s key lost (mark_lost env turn key reason remark s s)
        × Allowed s key converted (begin_conversion env turn key remark s s)
        × AllowedCall s key converted
            (convert_to_customer env turn linking key remark answer (λ t. t) s s)
  unfolding begin_conversion convert_to_customer
  changes-Allowed env turn linking s sound key next reason remark answer refers =
      let first = begin_conversion env turn key remark s s in
      let begun = convert_found-Allowed env turn s sound key remark (find_lead key s) refl in
      let kept = (begin_conversion-Follows env turn key s s sound remark).1.kept in
      (
        change_status-Allowed env turn s sound key next reason remark refers,
        mark_lost-Allowed env turn s sound key reason remark,
        begun,
        link_converted-AllowedCall env linking answer key first.0 s first.1 kept begun,
      )
