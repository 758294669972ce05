-- ===== src/Sales/Desk/Once.antt =====
-- The submission keys of src/sales/sales.service.ts over a run.
use text.Mathlib.Text.{◌==◌ as str_eq}
use text.Mathlib.TextEquality.{eq_iff}
use atabak_gold.Base.{
  ℕ, ◌≡◌, refl, sym, ap, ◌∙◌, Bool, true, false, not, some, List, [], ◌∷◌, String, inl, inr,
  Bool-cases, Option-cases, arith, if◌then◌else◌, is_some,
}
use atabak_gold.Base.Dict.{lookup, values}
use atabak_gold.Sales.Lead.Defs.{SalesResult, ok, fail, disabled}
use atabak_gold.Sales.Desk.Types.{LeadRecord}
use atabak_gold.Sales.Desk.Store.{
  SalesStore, save_lead, commit_draft, count_id, append_activity, empty_store,
}
use atabak_gold.Sales.Desk.Input.{
  SalesEnv, LeadCreationInput, LeadCreationOutcome, Drawn, ValidLead, validate_lead,
}
use atabak_gold.Sales.Desk.Create.{
  write_lead, create_lead, with_valid, done, creation_outcome, CreationOutcome, limit, replay,
  fresh, created_row, new_lead, find_by_submission, find_key,
}
use atabak_gold.Sales.Desk.Sale.{Amounts}
use atabak_gold.Sales.Desk.Kept.{AreKept}
use atabak_gold.Sales.Desk.Advance.{
  Submission, submission_of, submission_at, given, lookup-commit_draft,
}
use atabak_gold.Sales.Desk.Sound.{IsSound, find_key-listed, empty_store-IsSound}
use atabak_gold.Sales.Desk.Records.{create_lead-Follows}
use atabak_gold.Sales.Desk.Runs.{Run, Run-Follows}

-- The lead that the search by key finds is listed under its id.
find_key-lookup :
    (key : String) (lead : LeadRecord) (m : List (String × LeadRecord))
    → AreKept m
    → find_key key (values m) ≡ some lead
    → (lookup lead.lead_id m ≡ some lead) × (lead.submission_key ≡ key)
unfolding find_key lookup
find_key-lookup key lead [] kept h = ground arith
find_key-lookup key lead ((at, x) ∷ m) (own, (once, rest)) h =
    elim (Bool-cases (str_eq x.submission_key key)) [
      | inl e ↦ ground (arith, e, eq_iff x.submission_key key, eq_iff at lead.lead_id)
      | inr e ↦
          let (there, same) = find_key-lookup key lead m rest (rw e at h) in
          (ground (arith, there, once, eq_iff at lead.lead_id), same)
    ]

module _ {N : Type 0} where
  -- A lead with a submission key is stored.
  abbrev HasSubmission : String → SalesStore N → Type 0
  HasSubmission key s =
      (id : String) × ((x : Submission) × ((submission_at id s ≡ some x)
          × (x.submission_key ≡ key)))

  find_by_submission-HasSubmission :
      (key : String) (lead : LeadRecord) (s : SalesStore N)
      → AreKept s.leads
      → find_by_submission key s ≡ some lead
      → HasSubmission key s
  unfolding find_by_submission
  find_by_submission-HasSubmission key lead s kept h =
      let (there, same) = find_key-lookup key lead s.leads kept (ground (arith, h)) in
      (lead.lead_id, (submission_of lead, (ap given there, same)))

  find_by_submission-some :
      (env : SalesEnv) (key : String) (s : SalesStore N)
      → IsSound env s
      → HasSubmission key s
      → is_some (find_by_submission key s) ≡ true
  unfolding find_by_submission
  find_by_submission-some env key s sound (id, (x, (h, same))) =
      elim (Option-cases (lookup id s.leads)) [
        | inl e ↦ ground (arith, e)
        | inr (lead, e) ↦
            let own : lead.submission_key ≡ key = ground (arith, e) in
            rw⁻¹ own (ground (arith, sound.indexed id lead e, find_key-listed id lead s.leads e))
      ]

  -- What `create_lead` answers with success, it has stored under the key of the input.
  done-HasSubmission :
      (env : SalesEnv) (input : LeadCreationInput) (drawn : Drawn) (valid : ValidLead)
      (o : CreationOutcome) (s : SalesStore N) (outcome : LeadCreationOutcome)
      → IsSound env s
      → creation_outcome env input valid drawn s ≡ o
      → (done env drawn o s).0 ≡ ok outcome
      → HasSubmission input.submission_key (done env drawn o s).1
  unfolding creation_outcome new_lead write_lead append_activity count_id save_lead
  done-HasSubmission env input drawn valid limit s outcome sound same h = ground arith
  done-HasSubmission env input drawn valid (replay lead) s outcome sound same h =
      elim (Option-cases (find_by_submission input.submission_key s)) [
        | inl e ↦ ground (arith, e)
        | inr (old, e) ↦ find_by_submission-HasSubmission input.submission_key old s sound.kept e
      ]
  done-HasSubmission env input drawn valid (fresh lead) s outcome sound same h =
      elim (Bool-cases drawn.persists) [
        | inr e ↦ ground (arith, e)
        | inl e ↦
            let key : lead.submission_key ≡ input.submission_key =
              elim (Option-cases (find_by_submission input.submission_key s)) [
                | inr (old, f) ↦ ground (arith, f)
                | inl f ↦ ground (arith, f)
              ] in
            let draft = write_lead env lead (created_row lead) (count_id "lead" s) in
            let there : lookup lead.lead_id (commit_draft draft).leads ≡ some lead = ground (
              arith,
              lookup-commit_draft lead s draft lead.lead_id sound.kept refl,
              eq_iff lead.lead_id lead.lead_id,
            ) in
            rw e (lead.lead_id, (submission_of lead, (ap given there, key)))
      ]

  with_valid-HasSubmission :
      (env : SalesEnv) (input : LeadCreationInput) (drawn : Drawn) (valid : SalesResult ValidLead)
      (s : SalesStore N) (outcome : LeadCreationOutcome)
      → IsSound env s
      → (with_valid env input drawn valid s).0 ≡ ok outcome
      → HasSubmission input.submission_key (with_valid env input drawn valid s).1
  with_valid-HasSubmission env input drawn (fail f) s outcome sound h = ground arith
  with_valid-HasSubmission env input drawn (ok valid) s outcome sound h =
      done-HasSubmission env input drawn valid (creation_outcome env input valid drawn s) s outcome
        sound refl h

  create_lead-HasSubmission :
      (env : SalesEnv) (input : LeadCreationInput) (drawn : Drawn) (s : SalesStore N)
      (outcome : LeadCreationOutcome)
      → IsSound env s
      → (create_lead env input drawn s).0 ≡ ok outcome
      → HasSubmission input.submission_key (create_lead env input drawn s).1
  unfolding create_lead
  create_lead-HasSubmission env input drawn s outcome sound h = go (not env.enabled) h
    where
      go :
          (b : Bool)
          → (if b
              then (fail disabled, s)
              else with_valid env input drawn (validate_lead env input) s).0
            ≡ ok outcome
          → HasSubmission input.submission_key
              (if b
                then (fail disabled, s)
                else with_valid env input drawn (validate_lead env input) s).1
      go true k = ground arith
      go false k =
          with_valid-HasSubmission env input drawn (validate_lead env input) s outcome sound k

  -- Nothing is stored and no answer says that a lead was created.
  abbrev pub CreatesNothing : SalesResult LeadCreationOutcome × SalesStore N → SalesStore N → Type 0
  CreatesNothing answer s =
      (answer.1 ≡ s)
      × ((outcome : LeadCreationOutcome) → answer.0 ≡ ok outcome → outcome.created ≡ false)

  if-CreatesNothing :
      (b : Bool) (x y : SalesResult LeadCreationOutcome × SalesStore N) (s : SalesStore N)
      → CreatesNothing x s
      → CreatesNothing y s
      → CreatesNothing (if b then x else y) s
  if-CreatesNothing true x y s h k = h
  if-CreatesNothing false x y s h k = k

  creation_outcome-replay :
      (env : SalesEnv) (input : LeadCreationInput) (valid : ValidLead) (drawn : Drawn)
      (s : SalesStore N)
      → is_some (find_by_submission input.submission_key s) ≡ true
      → (lead : LeadRecord) × (creation_outcome env input valid drawn s ≡ replay lead)
  unfolding creation_outcome
  creation_outcome-replay env input valid drawn s h =
      elim (Option-cases (find_by_submission input.submission_key s)) [
        | inl e ↦ ground (arith, e)
        | inr (lead, e) ↦ (lead, ground (arith, e))
      ]

  done-CreatesNothing :
      (env : SalesEnv) (drawn : Drawn) (o : CreationOutcome) (lead : LeadRecord) (s : SalesStore N)
      → o ≡ replay lead
      → CreatesNothing (done env drawn o s) s
  done-CreatesNothing env drawn limit lead s h = ground arith
  done-CreatesNothing env drawn (replay old) lead s h = (refl, λ outcome k. ground arith)
  done-CreatesNothing env drawn (fresh new) lead s h = ground arith

  with_valid-CreatesNothing :
      (env : SalesEnv) (input : LeadCreationInput) (drawn : Drawn) (valid : SalesResult ValidLead)
      (s : SalesStore N)
      → is_some (find_by_submission input.submission_key s) ≡ true
      → CreatesNothing (with_valid env input drawn valid s) s
  with_valid-CreatesNothing env input drawn (fail f) s h = (refl, λ outcome k. ground arith)
  with_valid-CreatesNothing env input drawn (ok valid) s h =
      let (lead, e) = creation_outcome-replay env input valid drawn s h in
      done-CreatesNothing env drawn (creation_outcome env input valid drawn s) lead s e

  replayed :
      (env : SalesEnv) (input : LeadCreationInput) (drawn : Drawn) (s : SalesStore N)
      → is_some (find_by_submission input.submission_key s) ≡ true
      → CreatesNothing (create_lead env input drawn s) s
  unfolding create_lead
  replayed env input drawn s h =
      if-CreatesNothing (not env.enabled) (fail disabled, s)
        (with_valid env input drawn (validate_lead env input) s) s (refl, λ outcome k. ground arith)
        (with_valid-CreatesNothing env input drawn (validate_lead env input) s h)

  -- After the empty store, in every run, provided that the ids of different numbers differ: when
  -- `create_lead` has succeeded with a submission key, no later `create_lead` with that key stores
  -- anything or says that it created a lead, whatever ran in between and whatever else its input is.
  pub create_lead-Once :
      (env : SalesEnv) (amounts : Amounts N) (input again : LeadCreationInput)
      (drawn redrawn : Drawn) (s t : SalesStore N) (outcome : LeadCreationOutcome)
      → ((m n : ℕ) → env.id_text "lead" m ≡ env.id_text "lead" n → m ≡ n)
      → Run env amounts empty_store s
      → (create_lead env input drawn s).0 ≡ ok outcome
      → Run env amounts (create_lead env input drawn s).1 t
      → again.submission_key ≡ input.submission_key
      → CreatesNothing (create_lead env again redrawn t) t
  create_lead-Once env amounts input again drawn redrawn s t outcome ids before h between same =
      let sound = (Run-Follows env amounts empty_store s ids (empty_store-IsSound env) before).1 in
      let made = create_lead-Follows env input drawn s sound ids in
      let later = Run-Follows env amounts (create_lead env input drawn s).1 t ids made.1 between in
      let (id, (x, (there, key))) = create_lead-HasSubmission env input drawn s outcome sound h in
      replayed env again redrawn t (
        find_by_submission-some env again.submission_key t later.1
          (id, (x, (later.0.0 id x there, key ∙ sym same))))
