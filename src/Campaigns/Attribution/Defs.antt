-- ===== src/Campaigns/Attribution/Defs.antt =====
-- The definitions of src/campaigns/attribution.ts, and `sortTouches` of
-- src/campaigns/campaign.store.ts. A time is its `getTime()`; the reason texts are left out.
use text.Mathlib.Text.{◌==◌ as str_eq}
use atabak_gold.Base.{
  ℕ, ◌+◌, Bool, true, false, not, Option, none, some, List, [], ◌∷◌, String, if◌then◌else◌, leb,
  ltb, ◌==◌, filter, any,
}

pub data TouchType : Type 0 where
  click start channel_join : TouchType

pub record CampaignTouch : Type 0 where
  pub campaign_id : String
  pub occurred_at : ℕ
  pub recorded_at : ℕ
  pub event_id : String
  pub type : TouchType

pub data AttributionModel : Type 0 where
  first_touch last_touch : AttributionModel

pub data AttributionBucket : Type 0 where
  campaign no_touch expired_window touch_after_conversion tracking_disabled : AttributionBucket

pub record AttributionQuery : Type 0 where
  pub at : ℕ
  pub window_ms : ℕ

pub record AttributionDecision : Type 0 where
  pub model : AttributionModel
  pub campaign_id : Option String
  pub bucket : AttributionBucket
  pub touch : Option CampaignTouch

-- `at - occurredAt` is negative, or at most the window.
unfoldable pub is_eligible : AttributionQuery → CampaignTouch → Bool
is_eligible q touch =
    if ltb q.at touch.occurred_at then false else leb q.at (touch.occurred_at + q.window_ms)

abbrev pub is_earlier : AttributionQuery → CampaignTouch → Bool
is_earlier q touch = leb touch.occurred_at q.at

unfoldable pub ineligible_bucket : List CampaignTouch → AttributionQuery → AttributionBucket
ineligible_bucket [] q = no_touch
ineligible_bucket (t ∷ ts) q =
    if not (any (is_earlier q) (t ∷ ts)) then touch_after_conversion else expired_window

abbrev uncredited : AttributionModel → AttributionBucket → AttributionDecision
uncredited model bucket = record {
  model = model;
  campaign_id = none;
  bucket = bucket;
  touch = none;
}

-- `eligible[eligible.length - 1]` of a list that is not empty.
unfoldable pub last_of : CampaignTouch → List CampaignTouch → CampaignTouch
last_of t [] = t
last_of t (u ∷ us) = last_of u us

unfoldable pub choose : AttributionModel → CampaignTouch → List CampaignTouch → CampaignTouch
unfolding last_of
choose first_touch t ts = t
choose last_touch t ts = last_of t ts

-- `text` is neither `null` nor the empty text.
abbrev pub is_truthy : Option String → Bool
is_truthy none = false
is_truthy (some text) = not (str_eq text "")

abbrev pub is_model : AttributionModel → AttributionModel → Bool
is_model first_touch first_touch = true
is_model last_touch last_touch = true
is_model _ _ = false

-- `decisions.find((decision) => decision.model === model)`.
unfoldable pub find_model : AttributionModel → List AttributionDecision → Option AttributionDecision
find_model model [] = none
find_model model (d ∷ ds) = if is_model d.model model then some d else find_model model ds

abbrev nothing_credited : AttributionDecision
nothing_credited = uncredited last_touch no_touch

abbrev otherwise : Option AttributionDecision → AttributionDecision → AttributionDecision
otherwise none d = d
otherwise (some c) d = c

abbrev credits : Option AttributionDecision → Bool
credits none = false
credits (some d) = is_truthy d.campaign_id

unfoldable pub credited_campaign : List AttributionDecision → AttributionDecision
unfolding find_model
credited_campaign decisions =
    let last = find_model last_touch decisions in
    let first = find_model first_touch decisions in
    if credits last
    then otherwise last nothing_credited
    else if credits first
    then otherwise first nothing_credited
    else otherwise last (otherwise first nothing_credited)

-- `locale_le a b` stands for `a.localeCompare(b) <= 0`.
module _ (locale_le : String → String → Bool) where
  -- `sortTouches` compares `left` with `right` to a number that is not positive.
  unfoldable pub not_after : CampaignTouch → CampaignTouch → Bool
  not_after left right =
      if not (left.occurred_at == right.occurred_at)
      then ltb left.occurred_at right.occurred_at
      else if not (left.recorded_at == right.recorded_at)
      then ltb left.recorded_at right.recorded_at
      else locale_le left.event_id right.event_id

  unfoldable pub insert_touch : CampaignTouch → List CampaignTouch → List CampaignTouch
  insert_touch t [] = t ∷ []
  insert_touch t (u ∷ us) =
      let rest = insert_touch t us in if not_after t u then t ∷ u ∷ us else u ∷ rest

  -- `Array.prototype.sort` is stable; so is this sort by insertion.
  unfoldable pub sort_touches : List CampaignTouch → List CampaignTouch
  unfolding insert_touch
  sort_touches [] = []
  sort_touches (t ∷ ts) = insert_touch t (sort_touches ts)

  -- What is decided on the eligible touches, oldest first.
  unfoldable pub decide_eligible :
      AttributionModel
      → List CampaignTouch
      → AttributionQuery
      → List CampaignTouch
      → AttributionDecision
  unfolding ineligible_bucket choose
  decide_eligible model ordered q [] = uncredited model (ineligible_bucket ordered q)
  decide_eligible model ordered q (t ∷ ts) =
      let chosen = choose model t ts in
      record {
        model = model;
        campaign_id = some chosen.campaign_id;
        bucket = campaign;
        touch = some chosen;
      }

  unfoldable pub decide_attribution :
      AttributionModel → List CampaignTouch → AttributionQuery → AttributionDecision
  unfolding decide_eligible
  decide_attribution model [] q = uncredited model (ineligible_bucket [] q)
  decide_attribution model (t ∷ ts) q =
      let ordered = sort_touches (t ∷ ts) in
      decide_eligible model ordered q (filter (is_eligible q) ordered)

  unfoldable pub decide_both_models :
      List CampaignTouch → AttributionQuery → List AttributionDecision
  decide_both_models touches q =
      decide_attribution first_touch touches q ∷ decide_attribution last_touch touches q ∷ []
