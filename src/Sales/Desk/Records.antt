-- ===== src/Sales/Desk/Records.antt =====
-- `createLead` and `recordSale` of src/sales/sales.service.ts, in the terms of `Follows`.
use atabak_gold.Base.{
  ℕ, ◌≡◌, refl, sym, ap, ◌∙◌, not, Option, none, some, [], ◌∷◌, String, inl, inr, Option-cases,
  or_else, arith,
}
use atabak_gold.Base.Texts.{Text}
use atabak_gold.Base.Dict.{lookup, insert, lookup-insert}
use atabak_gold.Sales.Lead.Defs.{SalesResult, ok, fail, normalize_operator_note}
use atabak_gold.Sales.Desk.Types.{LeadRecord, LeadActivityRecord, SalesOutcomeRecord}
use atabak_gold.Sales.Desk.Store.{
  SalesStore, save_lead, save_outcome, commit_draft, count_id, append_activity, next_number,
}
use atabak_gold.Sales.Desk.Input.{SalesEnv, LeadCreationInput, Drawn, ValidLead, validate_lead}
use atabak_gold.Sales.Desk.Create.{
  write_lead, create_lead, with_valid, done, creation_outcome, CreationOutcome, limit, replay,
  fresh, created_row, new_lead, find_by_submission,
}
use atabak_gold.Sales.Desk.Updates.{Turn, LeadKey, find_lead, is_converted}
use atabak_gold.Sales.Desk.Sale.{
  Amounts, SalesOutcomeInput, record_sale, sell_found, sell_noted, save_sale, corrected_by, sold,
  sale_row, amount_accepted, upper_of,
}
use atabak_gold.Sales.Desk.Advance.{submission_of, submission_at, given, commit_draft-Advance}
use atabak_gold.Sales.Desk.Sound.{IsSound, lead_counter, commit_draft-IsSound}
use atabak_gold.Sales.Desk.Follow.{Follows, stays, if-Follows, find_lead-own, write_lead-Follows}

module _ {N : Type 0} (env : SalesEnv) where
  save_sale-Follows :
      (turn : Turn) (lead : LeadRecord) (existing : Option (SalesOutcomeRecord N))
      (outcome : SalesOutcomeRecord N) (s : SalesStore N)
      → IsSound env s
      → submission_at lead.lead_id s ≡ some (submission_of lead)
      → Follows env s (save_sale env turn lead existing outcome s)
  unfolding save_sale save_outcome count_id
  save_sale-Follows turn lead none outcome s sound has =
      write_lead-Follows env (sold lead outcome.outcome_id turn.at)
        (sale_row {N = N} turn lead none) s (save_outcome outcome (count_id "sale" s)) sound has
        refl refl (ground (arith, lookup-insert "sale" "lead" (next_number "sale" s) s.sequences))
  save_sale-Follows turn lead (some existing) outcome s sound has =
      write_lead-Follows env (sold lead outcome.outcome_id turn.at)
        (sale_row turn lead (some existing)) s
        (save_outcome outcome (corrected_by outcome.outcome_id (some existing) (count_id "sale" s)))
        sound has refl refl
        (ground (arith, lookup-insert "sale" "lead" (next_number "sale" s) s.sequences))

  sell_noted-Follows :
      (turn : Turn) (lead : LeadRecord) (existing : Option (SalesOutcomeRecord N))
      (amount : Option N) (currency : Option Text) (remark : SalesResult (Option Text))
      (s : SalesStore N)
      → IsSound env s
      → submission_at lead.lead_id s ≡ some (submission_of lead)
      → Follows env s (sell_noted env turn lead existing amount currency remark s).1
  sell_noted-Follows turn lead existing amount currency (fail f) s sound has = stays env s sound
  sell_noted-Follows turn lead existing amount currency (ok remark) s sound has =
      if-Follows env s (not turn.persists) _ _ (stays env s sound)
        (save_sale-Follows turn lead existing _ s sound has)

  sell_found-Follows :
      (amounts : Amounts N) (turn : Turn) (input : SalesOutcomeInput N) (found : Option LeadRecord)
      (seen s : SalesStore N)
      → IsSound env s
      → ((lead : LeadRecord)
          → found ≡ some lead
          → submission_at lead.lead_id s ≡ some (submission_of lead))
      → Follows env s (sell_found env amounts turn input found seen s).1
  sell_found-Follows amounts turn input none seen s sound has = stays env s sound
  sell_found-Follows amounts turn input (some lead) seen s sound has =
      if-Follows env s (not (is_converted lead.status)) _ _ (stays env s sound) (
        if-Follows env s (not (amount_accepted amounts input.amount (upper_of env input.currency)))
          _ _ (stays env s sound)
          (sell_noted-Follows turn lead _ _ _ (normalize_operator_note (or_else input.note [])) s
            sound (has lead refl)))

  -- The lead was read in an earlier store, which the store advances.
  pub record_sale-Follows :
      (amounts : Amounts N) (turn : Turn) (key : LeadKey) (input : SalesOutcomeInput N)
      (seen s : SalesStore N)
      → IsSound env seen
      → Follows env seen s
      → Follows env s (record_sale env amounts turn key input seen s).1
  unfolding record_sale
  record_sale-Follows amounts turn key input seen s earlier (advance, sound) =
      sell_found-Follows amounts turn input (find_lead key seen) seen s sound (λ lead h.
        advance.0 lead.lead_id (submission_of lead)
          (ap given (find_lead-own env key seen lead earlier h)))

  -- The drawn id of a lead is new.
  lookup-drawn :
      (s : SalesStore N)
      → IsSound env s
      → ((m n : ℕ) → env.id_text "lead" m ≡ env.id_text "lead" n → m ≡ n)
      → lookup (env.id_text "lead" (next_number "lead" s)) s.leads ≡ none
  lookup-drawn s sound ids =
      elim (Option-cases (lookup (env.id_text "lead" (next_number "lead" s)) s.leads)) [
        | inl e ↦ e
        | inr (lead, e) ↦
            let (n, (same, below)) =
              sound.numbered (env.id_text "lead" (next_number "lead" s)) lead e in
            ground (arith, ids (next_number "lead" s) n same, below)
      ]

  drawn_lead-Follows :
      (lead : LeadRecord) (row : String → LeadActivityRecord) (s : SalesStore N)
      → IsSound env s
      → ((m n : ℕ) → env.id_text "lead" m ≡ env.id_text "lead" n → m ≡ n)
      → lead.lead_id ≡ env.id_text "lead" (next_number "lead" s)
      → Follows env s (commit_draft (write_lead env lead row (count_id "lead" s)))
  unfolding write_lead append_activity count_id save_lead
  drawn_lead-Follows lead row s sound ids own =
      let draft = write_lead env lead row (count_id "lead" s) in
      let missing : lookup lead.lead_id s.leads ≡ none =
        ap (λ i. lookup i s.leads) own ∙ lookup-drawn s sound ids in
      let counter : lead_counter draft ≡ next_number "lead" s = ground (
        arith,
        lookup-insert "act" "lead" (next_number "act" (count_id "lead" s))
            (insert "lead" (next_number "lead" s) s.sequences),
        lookup-insert "lead" "lead" (next_number "lead" s) s.sequences,
      ) in
      (
        commit_draft-Advance lead s draft
            (row (env.id_text "act" (next_number "act" (count_id "lead" s))) ∷ []) sound.kept refl
            refl (λ x h. ground (arith, missing, sym (ap given missing) ∙ h)),
        commit_draft-IsSound env lead s draft sound refl (ground (arith, counter))
            (next_number "lead" s, (own, ground (arith, counter))),
      )

  done-Follows :
      (drawn : Drawn) (outcome : CreationOutcome) (s : SalesStore N)
      → IsSound env s
      → ((m n : ℕ) → env.id_text "lead" m ≡ env.id_text "lead" n → m ≡ n)
      → ((lead : LeadRecord)
          → outcome ≡ fresh lead
          → lead.lead_id ≡ env.id_text "lead" (next_number "lead" s))
      → Follows env s (done env drawn outcome s).1
  done-Follows drawn limit s sound ids new_id = stays env s sound
  done-Follows drawn (replay lead) s sound ids new_id = stays env s sound
  done-Follows drawn (fresh lead) s sound ids new_id =
      if-Follows env s (not drawn.persists) _ _ (stays env s sound)
        (drawn_lead-Follows lead (created_row lead) s sound ids (new_id lead refl))

  creation_outcome-fresh :
      (input : LeadCreationInput) (valid : ValidLead) (drawn : Drawn) (s : SalesStore N)
      (lead : LeadRecord)
      → creation_outcome env input valid drawn s ≡ fresh lead
      → lead.lead_id ≡ env.id_text "lead" (next_number "lead" s)
  unfolding creation_outcome new_lead
  creation_outcome-fresh input valid drawn s lead h =
      elim (Option-cases (find_by_submission input.submission_key s)) [
        | inr (old, e) ↦ ground (arith, e)
        | inl e ↦ ground (arith, e)
      ]

  with_valid-Follows :
      (input : LeadCreationInput) (drawn : Drawn) (valid : SalesResult ValidLead) (s : SalesStore N)
      → IsSound env s
      → ((m n : ℕ) → env.id_text "lead" m ≡ env.id_text "lead" n → m ≡ n)
      → Follows env s (with_valid env input drawn valid s).1
  with_valid-Follows input drawn (fail f) s sound ids = stays env s sound
  with_valid-Follows input drawn (ok valid) s sound ids =
      done-Follows drawn (creation_outcome env input valid drawn s) s sound ids
        (creation_outcome-fresh input valid drawn s)

  pub create_lead-Follows :
      (input : LeadCreationInput) (drawn : Drawn) (s : SalesStore N)
      → IsSound env s
      → ((m n : ℕ) → env.id_text "lead" m ≡ env.id_text "lead" n → m ≡ n)
      → Follows env s (create_lead env input drawn s).1
  unfolding create_lead
  create_lead-Follows input drawn s sound ids =
      if-Follows env s (not env.enabled) _ _ (stays env s sound)
        (with_valid-Follows input drawn (validate_lead env input) s sound ids)
