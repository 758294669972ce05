-- ===== src/Sales/Desk/Input.antt =====
-- What `createLead` of src/sales/sales.service.ts does outside its transaction: the validation, the
-- attribution and the link to the campaigns. What the campaign services answer, the drawn references
-- and the success of the write are arguments; `is_letter`, `to_upper` and the text of an id stand for
-- the language's Unicode tables and number formatting.
use atabak_gold.Base.{
  ℕ, Bool, true, false, not, ◌&&◌, Option, none, some, List, [], ◌∷◌, String, if◌then◌else◌, ◌==◌,
  or_else,
}
use atabak_gold.Base.Texts.{Text, trim}
use atabak_gold.Sales.Phone.Defs.{normalize_phone, PhoneNormalization}
use atabak_gold.Sales.Lead.Defs.{
  SalesResult, ok, fail, invalid_phone, invalid_category, normalize_customer_name,
  normalize_product_description, normalize_notes,
}
use atabak_gold.Sales.Desk.Types.{
  LeadRecord, LeadPhase8Link, LeadPlatform, ProductCategory, manufactured_gold, melted_gold, coin,
  LeadAttributionModel, LeadAttributionBucket, campaign, tracking_disabled, recorded,
  already_recorded, link_disabled, link_failed,
}

-- The answer of `creditedFor`, and the campaign that it names.
pub record Credit : Type 0 where
  pub campaign_id : Option String
  pub model : Option LeadAttributionModel
  pub bucket : LeadAttributionBucket

pub record CampaignName : Type 0 where
  pub campaign_id : String
  pub name : String
  pub source : String

pub record SalesEnv : Type 0 where
  pub enabled : Bool
  pub admin_ids : List String
  pub max_open : ℕ
  pub is_letter : ℕ → Bool
  pub to_upper : Text → Text
  pub id_text : String → ℕ → String
  pub trimmed : String → String  -- `trim`
  pub ends_with_id : String → String → Bool  -- the entry ends with `:` and the text
  pub tracking_enabled : Bool
  pub credited_for : String → String → Credit
  pub find_campaign : String → Option CampaignName

pub record LeadCreationInput : Type 0 where
  pub user_id : String
  pub identity_key : String
  pub platform : LeadPlatform
  pub platform_user_id : String
  pub chat_id : Option String
  pub customer_name : Text
  pub phone : Text
  pub category : Text
  pub product_description : Option Text
  pub notes : Option Text
  pub submission_key : String
  pub consent_text_version : String

-- What `registerConversion` answers.
pub data Registered : Type 0 where
  registered : String → Option LeadAttributionModel → LeadAttributionBucket → Registered
  conflicts is_disabled refused : Registered

-- What a call of `createLead` meets: the references that it draws and the last resort, the time,
-- whether the write succeeds and what the campaign services answer.
pub record Drawn : Type 0 where
  pub candidate : ℕ → String
  pub fallback : String
  pub now : String
  pub persists : Bool
  pub answer : Registered

pub record LeadAttribution : Type 0 where
  pub campaign_id : Option String
  pub campaign_name : Option String
  pub campaign_source : Option String
  pub model : Option LeadAttributionModel
  pub bucket : LeadAttributionBucket

pub record LeadCreationOutcome : Type 0 where
  pub lead : LeadRecord
  pub created : Bool
  pub phase8 : LeadPhase8Link

-- The fields of a submission after validation.
pub record ValidLead : Type 0 where
  pub name : Text
  pub phone : Text
  pub category : ProductCategory
  pub description : Option Text
  pub notes : Option Text

unfoldable pub text_eq : Text → Text → Bool
text_eq [] [] = true
text_eq (c ∷ cs) (d ∷ ds) = c == d && text_eq cs ds
text_eq _ _ = false

-- The code points of `MANUFACTURED_GOLD`, `MELTED_GOLD` and `COIN`.
abbrev manufactured_code : Text
manufactured_code =
    77 ∷ 65 ∷ 78 ∷ 85 ∷ 70 ∷ 65 ∷ 67 ∷ 84 ∷ 85 ∷ 82 ∷ 69 ∷ 68 ∷ 95 ∷ 71 ∷ 79 ∷ 76 ∷ 68 ∷ []

abbrev melted_code : Text
melted_code = 77 ∷ 69 ∷ 76 ∷ 84 ∷ 69 ∷ 68 ∷ 95 ∷ 71 ∷ 79 ∷ 76 ∷ 68 ∷ []

abbrev coin_code : Text
coin_code = 67 ∷ 79 ∷ 73 ∷ 78 ∷ []

unfoldable pub normalize_category : (Text → Text) → Text → SalesResult ProductCategory
unfolding text_eq
normalize_category to_upper raw =
    let candidate = to_upper (trim raw) in
    if text_eq candidate manufactured_code
    then ok manufactured_gold
    else if text_eq candidate melted_code
    then ok melted_gold
    else if text_eq candidate coin_code
    then ok coin
    else fail invalid_category

-- The steps of the validation, in the code's order: each goes on with what it found.
abbrev with_notes :
    Text → Text → ProductCategory → Option Text → SalesResult (Option Text) → SalesResult ValidLead
with_notes name phone category description (fail f) = fail f
with_notes name phone category description (ok notes) = ok (record {
  name = name;
  phone = phone;
  category = category;
  description = description;
  notes = notes;
})

abbrev with_description :
    LeadCreationInput
    → Text
    → Text
    → ProductCategory
    → SalesResult (Option Text)
    → SalesResult ValidLead
with_description input name phone category (fail f) = fail f
with_description input name phone category (ok description) =
    with_notes name phone category description (normalize_notes (or_else input.notes []))

abbrev with_category :
    LeadCreationInput → Text → Text → SalesResult ProductCategory → SalesResult ValidLead
with_category input name phone (fail f) = fail f
with_category input name phone (ok category) =
    with_description input name phone category
      (normalize_product_description (or_else input.product_description []))

abbrev with_phone : SalesEnv → LeadCreationInput → Text → PhoneNormalization → SalesResult ValidLead
with_phone env input name (PhoneNormalization.fail f) = fail invalid_phone
with_phone env input name (PhoneNormalization.ok phone) =
    with_category input name phone.canonical (normalize_category env.to_upper input.category)

abbrev with_name : SalesEnv → LeadCreationInput → SalesResult Text → SalesResult ValidLead
with_name env input (fail f) = fail f
with_name env input (ok name) = with_phone env input name (normalize_phone input.phone)

unfoldable pub validate_lead : SalesEnv → LeadCreationInput → SalesResult ValidLead
unfolding normalize_category
validate_lead env input =
    with_name env input (normalize_customer_name env.is_letter input.customer_name)

abbrev named_campaign : Credit → Option CampaignName → LeadAttribution
named_campaign credit none = record {
  campaign_id = none;
  campaign_name = none;
  campaign_source = none;
  model = none;
  bucket = credit.bucket;
}
named_campaign credit (some c) = record {
  campaign_id = some c.campaign_id;
  campaign_name = some c.name;
  campaign_source = some c.source;
  model = credit.model;
  bucket = campaign;
}

abbrev campaign_of : SalesEnv → Option String → Option CampaignName
campaign_of env none = none
campaign_of env (some id) = env.find_campaign id

unfoldable pub resolve_attribution : SalesEnv → String → String → LeadAttribution
resolve_attribution env identity at =
    if not env.tracking_enabled
    then record {
      campaign_id = none;
      campaign_name = none;
      campaign_source = none;
      model = none;
      bucket = tracking_disabled;
    }
    else let credit = env.credited_for identity at in
      named_campaign credit (campaign_of env credit.campaign_id)

abbrev link_of :
    Option LeadAttributionModel → LeadAttributionBucket → String → Registered → LeadPhase8Link
link_of model bucket at (registered id found where_from) = record {
  status = recorded;
  conversion_id = some id;
  attribution_model = found;
  bucket = where_from;
  updated_at = at;
}
link_of model bucket at conflicts = record {
  status = already_recorded;
  conversion_id = none;
  attribution_model = model;
  bucket = bucket;
  updated_at = at;
}
link_of model bucket at is_disabled = record {
  status = link_disabled;
  conversion_id = none;
  attribution_model = none;
  bucket = tracking_disabled;
  updated_at = at;
}
link_of model bucket at refused = record {
  status = link_failed;
  conversion_id = none;
  attribution_model = model;
  bucket = bucket;
  updated_at = at;
}

-- `linkLeadToPhase8` and `linkCustomerToPhase8`, which differ in what they register.
unfoldable pub link_to_phase8 : SalesEnv → LeadRecord → Registered → String → LeadPhase8Link
link_to_phase8 env lead answer at =
    link_of lead.attribution_model lead.attribution_bucket at
      (if not env.tracking_enabled then is_disabled else answer)
