-- ===== src/Sales/Desk/Advance.antt =====
-- The submissions of the leads of src/sales/sales.service.ts and their history, over a commit.
use text.Mathlib.Text.{◌==◌ as str_eq}
use text.Mathlib.TextEquality.{eq_iff}
use atabak_gold.Base.{
  Bool, ◌≡◌, sym, Option, none, some, List, [], ◌++◌, String, if◌then◌else◌, arith, ap, ◌∙◌, inl,
  inr, Bool-cases,
}
use atabak_gold.Base.Texts.{Text}
use atabak_gold.Base.Dict.{lookup, insert, values, lookup-insert}
use atabak_gold.Sales.Desk.Types.{
  LeadRecord, LeadActivityRecord, LeadPlatform, ProductCategory, LeadAttributionBucket,
  LeadAttributionModel,
}
use atabak_gold.Sales.Desk.Store.{SalesStore, commit_draft}
use atabak_gold.Sales.Desk.Kept.{AreKept, insert-AreKept, leads_of-AreKept, lookup-leads_of}
use mathlib.Core.List.{append-nil, append_assoc}

-- What the customer gave and what was frozen with it.
pub record Submission : Type 0 where
  pub lead_id : String
  pub reference : String
  pub submission_key : String
  pub user_id : String
  pub identity_key : String
  pub platform : LeadPlatform
  pub customer_name : Text
  pub phone : Text
  pub category : ProductCategory
  pub product_description : Option Text
  pub notes : Option Text
  pub created_at : String
  pub consent_text_version : String
  pub consented_at : String
  pub platform_user_id : String
  pub chat_id : Option String
  pub phone_verified : Bool
  pub campaign_id : Option String
  pub campaign_name : Option String
  pub campaign_source : Option String
  pub attribution_model : Option LeadAttributionModel
  pub attributed_at : Option String
  pub attribution_bucket : LeadAttributionBucket

abbrev pub submission_of : LeadRecord → Submission
submission_of lead = record {
  lead_id = lead.lead_id;
  reference = lead.reference;
  submission_key = lead.submission_key;
  user_id = lead.user_id;
  identity_key = lead.identity_key;
  platform = lead.platform;
  customer_name = lead.customer_name;
  phone = lead.phone;
  category = lead.category;
  product_description = lead.product_description;
  notes = lead.notes;
  created_at = lead.created_at;
  consent_text_version = lead.consent_text_version;
  consented_at = lead.consented_at;
  platform_user_id = lead.platform_user_id;
  chat_id = lead.chat_id;
  phone_verified = lead.phone_verified;
  campaign_id = lead.campaign_id;
  campaign_name = lead.campaign_name;
  campaign_source = lead.campaign_source;
  attribution_model = lead.attribution_model;
  attributed_at = lead.attributed_at;
  attribution_bucket = lead.attribution_bucket;
}

abbrev pub given : Option LeadRecord → Option Submission
given none = none
given (some lead) = some (submission_of lead)

module _ {N : Type 0} where
  abbrev pub submission_at : String → SalesStore N → Option Submission
  submission_at id s = given (lookup id s.leads)

  -- The later store has the submissions and the rows of the earlier one.
  abbrev pub Advance : SalesStore N → SalesStore N → Type 0
  Advance s t =
      ((id : String) (x : Submission) → submission_at id s ≡ some x → submission_at id t ≡ some x)
      × ((rows : List LeadActivityRecord) × (t.activities ≡ s.activities ++ rows))

  pub Advance-refl : (s : SalesStore N) → Advance s s
  Advance-refl s = ((λ id x h. h), ([], sym (append-nil s.activities)))

  pub Advance-trans : (s t u : SalesStore N) → Advance s t → Advance t u → Advance s u
  Advance-trans s t u (a, (xs, e)) (b, (ys, f)) = (
    (λ id x h. b id x (a id x h)),
    (xs ++ ys, f ∙ ap (λ r. r ++ ys) e ∙ append_assoc s.activities xs ys),
  )

  -- The commit of a draft that writes one lead: it is found under its id, every other as before.
  pub lookup-commit_draft :
      (lead : LeadRecord) (s d : SalesStore N) (id : String)
      → AreKept s.leads
      → d.leads ≡ insert lead.lead_id lead s.leads
      → lookup id (commit_draft d).leads
        ≡ (if str_eq lead.lead_id id then some lead else lookup id s.leads)
  unfolding commit_draft lookup
  lookup-commit_draft lead s d id kept same = rw same (
      ground (
        arith,
        lookup-leads_of id (insert lead.lead_id lead s.leads) [] (insert-AreKept lead s.leads kept),
        lookup-insert lead.lead_id id lead s.leads,
      ))

  pub commit_draft-AreKept : (d : SalesStore N) → AreKept (commit_draft d).leads
  unfolding commit_draft
  commit_draft-AreKept d = leads_of-AreKept (values d.leads) [] tt

  submission-commit_draft :
      (lead : LeadRecord) (s d : SalesStore N) (id : String) (x : Submission)
      → AreKept s.leads
      → d.leads ≡ insert lead.lead_id lead s.leads
      → ((y : Submission) → submission_at lead.lead_id s ≡ some y → submission_of lead ≡ y)
      → submission_at id s ≡ some x
      → submission_at id (commit_draft d) ≡ some x
  submission-commit_draft lead s d id x kept leads same h =
      elim (Bool-cases (str_eq lead.lead_id id)) [
        | inl e ↦
            rw (lookup-commit_draft lead s d id kept leads, e)
              (ap some (same x (rw ((eq_iff lead.lead_id id).0 e) h)))
        | inr e ↦ rw (lookup-commit_draft lead s d id kept leads, e) h
      ]

  -- The commit of a draft that writes one lead without a change of its submission, and adds rows.
  pub commit_draft-Advance :
      (lead : LeadRecord) (s d : SalesStore N) (rows : List LeadActivityRecord)
      → AreKept s.leads
      → d.leads ≡ insert lead.lead_id lead s.leads
      → d.activities ≡ s.activities ++ rows
      → ((x : Submission) → submission_at lead.lead_id s ≡ some x → submission_of lead ≡ x)
      → Advance s (commit_draft d)
  unfolding commit_draft
  commit_draft-Advance lead s d rows kept leads more same =
      ((λ id x h. submission-commit_draft lead s d id x kept leads same h), (rows, more))

  -- The commit of a draft that only adds rows.
  pub commit_draft-Advance_rows :
      (s d : SalesStore N) (rows : List LeadActivityRecord)
      → AreKept s.leads
      → d.leads ≡ s.leads
      → d.activities ≡ s.activities ++ rows
      → Advance s (commit_draft d)
  unfolding commit_draft lookup
  commit_draft-Advance_rows s d rows kept leads more = (
    (λ id x h. ap (given) (rw leads (ground (arith, lookup-leads_of id s.leads [] kept))) ∙ h),
    (rows, more),
  )
