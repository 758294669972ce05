-- ===== src/Campaigns/Attribution/Outcome.antt =====
-- What the reports of src/campaigns/attribution.ts rely on: the bucket of a decision, the order of the
-- stored touches, and the credited decision.
use text.Mathlib.TextEquality.{eq_iff}
use text.Mathlib.Text.{◌==◌ as str_eq}
use atabak_gold.Base.{
  ◌≡◌, ◌≢◌, ◌⊎◌, sym, ap, ◌∙◌, inl, inr, Bool, true, none, some, List, [], ◌∷◌, String, Memᴰ, arith,
  not,
}
use atabak_gold.Campaigns.Attribution.Defs.{
  CampaignTouch, AttributionModel, first_touch, last_touch, AttributionQuery, AttributionDecision,
  not_after, is_truthy, find_model, credited_campaign, decide_attribution, decide_both_models,
}
use atabak_gold.Campaigns.Attribution.Order.{IsLocaleOrder, Precedes}
use atabak_gold.Campaigns.Attribution.Credit.{
  IsChosen, Credits, SameTouches, ineligible_bucket-same, Says, ineligible_bucket-Says,
  decide_attribution-cases,
}

not-empty : (text : String) → text ≢ "" → not (str_eq text "") ≡ true
not-empty text h = ground (arith, eq_iff text "")

credited-last :
    (f l : AttributionDecision)
    → f.model ≡ first_touch
    → l.model ≡ last_touch
    → (is_truthy l.campaign_id ≡ true) ⊎ ((l.campaign_id ≡ none) × (f.campaign_id ≡ none))
    → credited_campaign (f ∷ l ∷ []) ≡ l
unfolding credited_campaign find_model
credited-last f l hf hl h = ground arith

module _ (locale_le : String → String → Bool) where
  -- The bucket of a decision is true of the touches: one is inside the window, there is none at
  -- all, all are later than the conversion, or those that are earlier are too old.
  decide_attribution-Says :
      IsLocaleOrder locale_le
      → (m : AttributionModel) (touches : List CampaignTouch) (q : AttributionQuery)
      → Says (decide_attribution locale_le m touches q).bucket touches q
  decide_attribution-Says order m touches q =
      elim (decide_attribution-cases locale_le order m touches q) [
        | inl c ↦ rw c.bucket (c.touch, c.stored, c.inside)
        | inr r ↦ rw r.bucket (ineligible_bucket-Says touches q r.outside)
      ]

  -- Two credited touches that are chosen from the same touches are the same.
  IsChosen-unique :
      (m : AttributionModel) (t u : CampaignTouch)
      → IsChosen locale_le m t u
      → IsChosen locale_le m u t
      → (Precedes locale_le t u) × (Precedes locale_le u t)
  IsChosen-unique first_touch t u h k = (h, k)
  IsChosen-unique last_touch t u h k = (k, h)

  Credits-same :
      (m : AttributionModel) (xs ys : List CampaignTouch) (q : AttributionQuery)
      {d e : AttributionDecision}
      → SameTouches xs ys
      → ((t u : CampaignTouch)
          → Memᴰ t xs
          → Memᴰ u xs
          → Precedes locale_le t u
          → Precedes locale_le u t
          → t ≡ u)
      → Credits locale_le m xs q d
      → Credits locale_le m ys q e
      → (d.touch ≡ e.touch) × (d.campaign_id ≡ e.campaign_id) × (d.bucket ≡ e.bucket)
  Credits-same m xs ys q same untied c c' =
      let there = (same c'.touch).1 c'.stored in
      let (to, from) =
        IsChosen-unique m c.touch c'.touch (c.chosen c'.touch there c'.inside)
          (c'.chosen c.touch ((same c.touch).0 c.stored) c.inside) in
      let one = untied c.touch c'.touch c.stored there to from in
      (
        c.found ∙ ap some one ∙ sym c'.found,
        c.campaign_id ∙ ap (λ t. some t.campaign_id) one ∙ sym c'.campaign_id,
        c.bucket ∙ sym c'.bucket,
      )

  -- Two different stored touches never agree in the time of the event, the time of the record and
  -- the rank of the event id.
  abbrev pub Untied : List CampaignTouch → Type 0
  Untied touches =
      (t u : CampaignTouch)
      → Memᴰ t touches
      → Memᴰ u touches
      → t.occurred_at ≡ u.occurred_at
      → t.recorded_at ≡ u.recorded_at
      → locale_le t.event_id u.event_id ≡ true
      → locale_le u.event_id t.event_id ≡ true
      → t ≡ u

  tied :
      (t u : CampaignTouch)
      → Precedes locale_le t u
      → Precedes locale_le u t
      → (t.occurred_at ≡ u.occurred_at)
        × (t.recorded_at ≡ u.recorded_at)
        × (locale_le t.event_id u.event_id ≡ true)
        × (locale_le u.event_id t.event_id ≡ true)
  unfolding not_after
  tied t u h k = ground arith

  -- The touch, the campaign and the bucket depend only on which touches are stored, in whatever
  -- order and however often, provided that the comparison of texts is a total order and that two
  -- different stored touches never agree in the time of the event, the time of the record and the
  -- rank of the event id.
  pub decide_attribution-order_free :
      IsLocaleOrder locale_le
      → (m : AttributionModel) (xs ys : List CampaignTouch) (q : AttributionQuery)
      → SameTouches xs ys
      → Untied xs
      → ((decide_attribution locale_le m xs q).touch ≡ (decide_attribution locale_le m ys q).touch)
        × ((decide_attribution locale_le m xs q).campaign_id
            ≡ (decide_attribution locale_le m ys q).campaign_id)
        × ((decide_attribution locale_le m xs q).bucket
            ≡ (decide_attribution locale_le m ys q).bucket)
  decide_attribution-order_free order m xs ys q same untied =
      elim (decide_attribution-cases locale_le order m xs q) [
        | inl c ↦ elim (decide_attribution-cases locale_le order m ys q) [
          | inl d ↦
              Credits-same m xs ys q same
                (λ t u i j h k. let (a, b, e, f) = tied t u h k in untied t u i j a b e f) c d
          | inr r ↦ absurd (r.outside c.touch ((same c.touch).0 c.stored) c.inside)
        ]
        | inr r ↦ elim (decide_attribution-cases locale_le order m ys q) [
          | inl d ↦ absurd (r.outside d.touch ((same d.touch).1 d.stored) d.inside)
          | inr r' ↦ (
            r.touch ∙ sym r'.touch,
            r.campaign_id ∙ sym r'.campaign_id,
            r.bucket ∙ ineligible_bucket-same xs ys q same ∙ sym r'.bucket,
          )
        ]
      ]

  decide_attribution-model :
      IsLocaleOrder locale_le
      → (m : AttributionModel) (touches : List CampaignTouch) (q : AttributionQuery)
      → (decide_attribution locale_le m touches q).model ≡ m
  decide_attribution-model order m touches q =
      elim (decide_attribution-cases locale_le order m touches q) [
        | inl c ↦ c.model
        | inr r ↦ r.model
      ]

  -- Both models together credit what the last touch credits, or nothing with the bucket of the last
  -- touch: the first touch is never credited alone, as long as campaign ids are not empty.
  credited_campaign-last :
      IsLocaleOrder locale_le
      → (touches : List CampaignTouch) (q : AttributionQuery)
      → ((t : CampaignTouch) → Memᴰ t touches → t.campaign_id ≢ "")
      → credited_campaign (decide_both_models locale_le touches q)
        ≡ decide_attribution locale_le last_touch touches q
  unfolding decide_both_models
  credited_campaign-last order touches q named =
      elim (decide_attribution-cases locale_le order last_touch touches q) [
        | inl c ↦
            credited-last _ _ (decide_attribution-model order first_touch touches q) c.model
              (inl (rw c.campaign_id (not-empty c.touch.campaign_id (named c.touch c.stored))))
        | inr r ↦ elim (decide_attribution-cases locale_le order first_touch touches q) [
          | inl c ↦ absurd (r.outside c.touch c.stored c.inside)
          | inr r' ↦ credited-last _ _ r'.model r.model (inr (r.campaign_id, r'.campaign_id))
        ]
      ]
