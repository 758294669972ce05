-- ===== src/Sales/Desk/Follow.antt =====
-- The store after a write of src/sales/sales.service.ts.
use atabak_gold.Base.{
  ◌≡◌, refl, sym, ap, ◌∙◌, Bool, true, false, not, Option, none, some, [], ◌∷◌, ◌++◌, String,
  if◌then◌else◌, arith, inl, inr, Option-cases,
}
use atabak_gold.Base.Texts.{Text}
use atabak_gold.Base.Dict.{lookup, insert, lookup-insert}
use atabak_gold.Sales.Lead.Defs.{SalesResult, ok, fail}
use atabak_gold.Sales.Desk.Types.{LeadRecord, LeadActivityRecord, LeadAction}
use atabak_gold.Sales.Desk.Store.{
  SalesStore, save_lead, commit_draft, append_activity, count_id, next_number, find_lead_by_id,
  find_lead_by_reference,
}
use atabak_gold.Sales.Desk.Input.{SalesEnv}
use atabak_gold.Sales.Desk.Create.{write_lead}
use atabak_gold.Sales.Desk.Updates.{
  Turn, LeadKey, by_reference, by_id, mutate, change_lead, mutate_found, find_lead, history_row,
  with_note,
}
use atabak_gold.Sales.Desk.Advance.{
  Submission, submission_of, given, submission_at, Advance, Advance-refl, commit_draft-Advance,
}
use atabak_gold.Sales.Desk.Sound.{
  IsSound, IsNumbered, commit_draft-IsSound, lead_id-lookup, lead_counter,
}

module _ {N : Type 0} where
  -- The later store keeps what the earlier one has, and is sound.
  abbrev pub Follows : SalesEnv → SalesStore N → SalesStore N → Type 0
  Follows env s t = Advance s t × IsSound env t

  pub stays : (env : SalesEnv) (s : SalesStore N) → IsSound env s → Follows env s s
  stays env s sound = (Advance-refl s, sound)

  pub if-Follows :
      {A : Type 0}
      → (env : SalesEnv) (s : SalesStore N) (b : Bool) (x y : A × SalesStore N) → Follows env s x.1
      → Follows env s y.1
      → Follows env s (if b then x else y).1
  if-Follows env s true x y h k = h
  if-Follows env s false x y h k = k

  pub if-kept :
      (env : SalesEnv) (s : SalesStore N) (b : Bool) (t u : SalesStore N)
      → Follows env s t
      → Follows env s u
      → Follows env s (if b then t else u)
  if-kept env s true t u h k = h
  if-kept env s false t u h k = k

  pub own_id :
      (env : SalesEnv) (id : String) (s : SalesStore N) (lead : LeadRecord)
      → IsSound env s
      → lookup id s.leads ≡ some lead
      → find_lead_by_id lead.lead_id s ≡ some lead
  own_id env id s lead sound h =
      ap (λ i. lookup i s.leads) (lead_id-lookup id lead s.leads sound.kept h) ∙ h

  pub find_lead-own :
      (env : SalesEnv) (key : LeadKey) (s : SalesStore N) (lead : LeadRecord)
      → IsSound env s
      → find_lead key s ≡ some lead
      → find_lead_by_id lead.lead_id s ≡ some lead
  unfolding find_lead_by_reference
  find_lead-own env (by_id id) s lead sound h = own_id env id s lead sound h
  find_lead-own env (by_reference reference) s lead sound h =
      elim (Option-cases (lookup reference s.references)) [
        | inl e ↦ ground (arith, e)
        | inr (id, e) ↦ own_id env id s lead sound (rw e at h)
      ]

  pub drawn_id :
      (env : SalesEnv) (id : String) (s : SalesStore N) (x : Submission)
      → IsSound env s
      → submission_at id s ≡ some x
      → IsNumbered env (lead_counter s) id
  drawn_id env id s x sound h = elim (Option-cases (lookup id s.leads)) [
    | inl e ↦ ground (arith, e)
    | inr (lead, e) ↦ sound.numbered id lead e
  ]

  -- A write of a lead whose submission the store has, on a draft with the leads of the store.
  pub write_lead-Follows :
      (env : SalesEnv) (lead : LeadRecord) (row : String → LeadActivityRecord) (s d : SalesStore N)
      → IsSound env s
      → submission_at lead.lead_id s ≡ some (submission_of lead)
      → d.leads ≡ s.leads
      → d.activities ≡ s.activities
      → lead_counter s ≡ lead_counter d
      → Follows env s (commit_draft (write_lead env lead row d))
  unfolding write_lead append_activity count_id save_lead
  write_lead-Follows env lead row s d sound has leads rows counter =
      let draft = write_lead env lead row d in
      let saved : draft.leads ≡ insert lead.lead_id lead s.leads =
        ap (insert lead.lead_id lead) leads in
      let same_counter : lead_counter draft ≡ lead_counter s =
        ground (arith, lookup-insert "act" "lead" (next_number "act" d) d.sequences, counter) in
      (
        commit_draft-Advance lead s draft (row (env.id_text "act" (next_number "act" d)) ∷ [])
            sound.kept saved
            (ap (λ r. r ++ (row (env.id_text "act" (next_number "act" d)) ∷ [])) rows) (λ x h. cc),
        commit_draft-IsSound env lead s draft sound saved (ground (arith, same_counter))
            (rw same_counter (drawn_id env lead.lead_id s (submission_of lead) sound has)),
      )

  -- What the transaction of `mutate` does to the lead that the store has under an id.
  change_lead-Follows :
      (env : SalesEnv) (turn : Turn) (change : LeadRecord → LeadRecord)
      (action : LeadRecord → LeadAction) (id : String) (s : SalesStore N)
      (found : Option LeadRecord)
      → ((lead : LeadRecord) → submission_of (change lead) ≡ submission_of lead)
      → IsSound env s
      → find_lead_by_id id s ≡ found
      → Follows env s (change_lead env turn change action found s).1
  change_lead-Follows env turn change action id s none same sound h = stays env s sound
  change_lead-Follows env turn change action id s (some lead) same sound h =
      if-Follows env s (not turn.persists) _ _ (stays env s sound) (
        write_lead-Follows env (change lead) (history_row turn action lead (change lead)) s s sound
          (ap (λ i. submission_at i s) (ap (λ x. x.lead_id) (same lead))
            ∙ ap given (own_id env id s lead sound h)
            ∙ ap some (sym (same lead)))
          refl refl refl)

  mutate_found-Follows :
      (env : SalesEnv) (turn : Turn) (change : LeadRecord → LeadRecord)
      (action : LeadRecord → LeadAction) (found : Option LeadRecord) (s : SalesStore N)
      → ((lead : LeadRecord) → submission_of (change lead) ≡ submission_of lead)
      → IsSound env s
      → Follows env s (mutate_found env turn change action found s).1
  mutate_found-Follows env turn change action none s same sound = stays env s sound
  mutate_found-Follows env turn change action (some lead) s same sound =
      change_lead-Follows env turn change action lead.lead_id s (find_lead_by_id lead.lead_id s)
        same sound refl

  pub mutate-Follows :
      (env : SalesEnv) (turn : Turn) (key : LeadKey) (change : LeadRecord → LeadRecord)
      (action : LeadRecord → LeadAction) (seen s : SalesStore N)
      → ((lead : LeadRecord) → submission_of (change lead) ≡ submission_of lead)
      → IsSound env s
      → Follows env s (mutate env turn key change action seen s).1
  unfolding mutate
  mutate-Follows env turn key change action seen s same sound =
      if-Follows env s (not env.enabled) _ _ (stays env s sound)
        (mutate_found-Follows env turn change action (find_lead key seen) s same sound)

  pub with_note-Follows :
      (env : SalesEnv) (text : SalesResult (Option Text))
      (next : Option Text → SalesResult LeadRecord × SalesStore N) (s : SalesStore N)
      → IsSound env s
      → ((x : Option Text) → Follows env s (next x).1)
      → Follows env s (with_note text next s).1
  with_note-Follows env (fail f) next s sound h = stays env s sound
  with_note-Follows env (ok x) next s sound h = h x
