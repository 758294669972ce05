-- ===== src/Sales/Desk/Types.antt =====
-- The records of src/sales/sales.types.ts that the sales desk stores. The texts that only a screen
-- shows (`reason` and `summary`) are left out.
use atabak_gold.Base.{ℕ, Bool, true, false, Option, String}
use atabak_gold.Base.Texts.{Text}
use atabak_gold.Sales.Lifecycle.{LeadStatus, new, contacted, qualified}

pub data ProductCategory : Type 0 where
  manufactured_gold melted_gold coin : ProductCategory

pub data LossReason : Type 0 where
  no_response price not_interested bought_elsewhere : LossReason
  invalid_contact out_of_stock other : LossReason

pub data LeadAttributionModel : Type 0 where
  first_touch last_touch : LeadAttributionModel

pub data LeadAttributionBucket : Type 0 where
  campaign no_touch expired_window touch_after_conversion tracking_disabled : LeadAttributionBucket

pub data Phase8LeadLink : Type 0 where
  recorded already_recorded unattributed link_disabled link_failed : Phase8LeadLink

pub record LeadPhase8Link : Type 0 where
  pub status : Phase8LeadLink
  pub conversion_id : Option String
  pub attribution_model : Option LeadAttributionModel
  pub bucket : LeadAttributionBucket
  pub updated_at : String

pub data LeadPlatform : Type 0 where
  bale telegram : LeadPlatform

pub record LeadRecord : Type 0 where
  pub lead_id : String
  pub reference : String
  pub submission_key : String
  pub user_id : String
  pub identity_key : String
  pub platform : LeadPlatform
  pub platform_user_id : String
  pub chat_id : Option String
  pub customer_name : Text
  pub phone : Text
  pub phone_verified : Bool
  pub category : ProductCategory
  pub product_description : Option Text
  pub notes : Option Text
  pub status : LeadStatus
  pub created_at : String
  pub updated_at : String
  pub consent_text_version : String
  pub consented_at : String
  pub assigned_to : Option String
  pub last_contact_at : Option String
  pub contact_attempts : ℕ
  pub loss_reason : Option LossReason
  pub loss_note : Option Text
  pub campaign_id : Option String
  pub campaign_name : Option String
  pub campaign_source : Option String
  pub attribution_model : Option LeadAttributionModel
  pub attribution_bucket : LeadAttributionBucket
  pub attributed_at : Option String
  pub customer_conversion_id : Option String
  pub customer_converted_at : Option String
  pub phase8_customer : Option LeadPhase8Link
  pub sale_outcome_id : Option String
  pub phase8 : LeadPhase8Link

pub data LeadAction : Type 0 where
  created status_changed assigned note_added contact_logged customer_converted : LeadAction
  sale_recorded sale_corrected marked_lost reopened customer_notified admin_notified : LeadAction
  notification_failed phase8_link : LeadAction

pub record LeadActivityRecord : Type 0 where
  pub activity_id : String
  pub lead_id : String
  pub action : LeadAction
  pub actor : String
  pub at : String
  pub from_status : Option LeadStatus
  pub to_status : Option LeadStatus

pub data OutcomeStatus : Type 0 where
  outcome_active outcome_corrected : OutcomeStatus

pub record SalesOutcomeRecord (N : Type 0) : Type 0 where
  pub outcome_id : String
  pub lead_id : String
  pub lead_reference : String
  pub amount : Option N
  pub currency : Option Text
  pub recorded_at : String
  pub recorded_by : String
  pub note : Option Text
  pub status : OutcomeStatus
  pub superseded_by : Option String

-- `OPEN_STATUSES.includes(status)`.
abbrev pub is_open : LeadStatus → Bool
is_open new = true
is_open contacted = true
is_open qualified = true
is_open _ = false
