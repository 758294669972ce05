-- ===== src/Sales/Desk/Create.antt =====
-- `createLead` of src/sales/sales.service.ts: the transaction and what follows it.
use text.Mathlib.Text.{◌==◌ as str_eq}
use atabak_gold.Base.{
  ℕ, zero, suc, true, false, not, ◌&&◌, Option, none, some, List, [], ◌∷◌, String, if◌then◌else◌,
  length, filter, leb, ltb, is_some,
}
use atabak_gold.Sales.Lifecycle.{new}
use atabak_gold.Sales.Lead.Defs.{SalesResult, ok, fail, disabled, limit_reached, persistence_failed}
use atabak_gold.Sales.Desk.Types.{LeadRecord, LeadActivityRecord, created, recorded, is_open}
use atabak_gold.Sales.Desk.Reference.{owner_key}
use atabak_gold.Sales.Desk.Store.{
  SalesStore, find_lead_by_reference, has_submission_key, list_leads, list_leads_by_identity,
  next_number, count_id, save_lead, append_activity, commit_draft,
}
use atabak_gold.Sales.Desk.Input.{
  SalesEnv, LeadCreationInput, Drawn, LeadAttribution, LeadCreationOutcome, ValidLead,
  validate_lead, resolve_attribution, link_to_phase8,
}

-- `tx.listLeads().find((lead) => lead.submissionKey === submissionKey)`.
unfoldable pub find_key : String → List LeadRecord → Option LeadRecord
find_key key [] = none
find_key key (lead ∷ leads) =
    let rest = find_key key leads in if str_eq lead.submission_key key then some lead else rest

abbrev pub created_row : LeadRecord → String → LeadActivityRecord
created_row lead id = record {
  activity_id = id;
  lead_id = lead.lead_id;
  action = created;
  actor = lead.user_id;
  at = lead.created_at;
  from_status = none;
  to_status = some new;
}

-- What the transaction decides.
pub data CreationOutcome : Type 0 where
  limit : CreationOutcome
  replay fresh : LeadRecord → CreationOutcome

module _ {N : Type 0} where
  -- `findBySubmission`.
  unfoldable pub find_by_submission : String → SalesStore N → Option LeadRecord
  unfolding find_key
  find_by_submission key s =
      if not (has_submission_key key s) then none else find_key key (list_leads s)

  -- `allocateReference`, from an attempt, with the attempts that are left.
  unfoldable pub allocate_from : ℕ → ℕ → Drawn → SalesStore N → String
  allocate_from zero attempt drawn s = drawn.fallback
  allocate_from (suc left) attempt drawn s =
      let rest = allocate_from left (suc attempt) drawn s in
      if not (is_some (find_lead_by_reference (drawn.candidate attempt) s))
      then drawn.candidate attempt
      else rest

  abbrev pub allocate_reference : Drawn → SalesStore N → String
  allocate_reference drawn s = allocate_from 8 0 drawn s

  unfoldable pub new_lead :
      SalesEnv → LeadCreationInput → ValidLead → LeadAttribution → Drawn → SalesStore N → LeadRecord
  new_lead env input valid attribution drawn s = record {
    lead_id = env.id_text "lead" (next_number "lead" s);
    reference = allocate_reference drawn s;
    submission_key = input.submission_key;
    user_id = input.user_id;
    identity_key = owner_key input.identity_key input.platform input.platform_user_id;
    platform = input.platform;
    platform_user_id = input.platform_user_id;
    chat_id = input.chat_id;
    customer_name = valid.name;
    phone = valid.phone;
    phone_verified = false;
    category = valid.category;
    product_description = valid.description;
    notes = valid.notes;
    status = new;
    created_at = drawn.now;
    updated_at = drawn.now;
    consent_text_version = input.consent_text_version;
    consented_at = drawn.now;
    assigned_to = none;
    last_contact_at = none;
    contact_attempts = 0;
    loss_reason = none;
    loss_note = none;
    campaign_id = attribution.campaign_id;
    campaign_name = attribution.campaign_name;
    campaign_source = attribution.campaign_source;
    attribution_model = attribution.model;
    attribution_bucket = attribution.bucket;
    attributed_at = if is_some attribution.campaign_id then some drawn.now else none;
    customer_conversion_id = none;
    customer_converted_at = none;
    phase8_customer = none;
    sale_outcome_id = none;
    phase8 = record {
      status = recorded;
      conversion_id = none;
      attribution_model = attribution.model;
      bucket = attribution.bucket;
      updated_at = drawn.now;
    };
  }

  -- Save a lead and append the row of its history, as every write of the service does.
  unfoldable pub write_lead :
      SalesEnv → LeadRecord → (String → LeadActivityRecord) → SalesStore N → SalesStore N
  write_lead env lead row s =
      let saved = save_lead lead s in
      append_activity (row (env.id_text "act" (next_number "act" saved))) (count_id "act" saved)

  unfoldable pub creation_outcome :
      SalesEnv → LeadCreationInput → ValidLead → Drawn → SalesStore N → CreationOutcome
  unfolding find_by_submission new_lead
  creation_outcome env input valid drawn s = elim (find_by_submission input.submission_key s) [
    | some lead ↦ replay lead
    | none ↦
        let identity = owner_key input.identity_key input.platform input.platform_user_id in
        let open_leads = filter (λ lead. is_open lead.status) (list_leads_by_identity identity s) in
        if ltb 0 env.max_open && leb env.max_open (length open_leads)
        then limit
        else fresh (new_lead env input valid (resolve_attribution env identity drawn.now) drawn s)
  ]

  abbrev pub done :
      SalesEnv
      → Drawn
      → CreationOutcome
      → SalesStore N
      → SalesResult LeadCreationOutcome × SalesStore N
  done env drawn limit s = (fail limit_reached, s)
  done env drawn (replay lead) s =
      (ok (record { lead = lead; created = false; phase8 = lead.phase8 }), s)
  done env drawn (fresh lead) s =
      if not drawn.persists
      then (fail persistence_failed, s)
      else let link = link_to_phase8 env lead drawn.answer drawn.now in
        (
          ok (record { lead = record lead { phase8 = link }; created = true; phase8 = link }),
          commit_draft (write_lead env lead (created_row lead) (count_id "lead" s)),
        )

  abbrev pub with_valid :
      SalesEnv
      → LeadCreationInput
      → Drawn
      → SalesResult ValidLead
      → SalesStore N
      → SalesResult LeadCreationOutcome × SalesStore N
  with_valid env input drawn (fail f) s = (fail f, s)
  with_valid env input drawn (ok valid) s =
      done env drawn (creation_outcome env input valid drawn s) s

  -- `createLead`.
  unfoldable pub create_lead :
      SalesEnv
      → LeadCreationInput
      → Drawn
      → SalesStore N
      → SalesResult LeadCreationOutcome × SalesStore N
  create_lead env input drawn s =
      if not env.enabled
      then (fail disabled, s)
      else with_valid env input drawn (validate_lead env input) s
