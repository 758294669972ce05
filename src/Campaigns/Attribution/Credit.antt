-- ===== src/Campaigns/Attribution/Credit.antt =====
-- Which touch src/campaigns/attribution.ts credits, or why none.
use atabak_gold.Base.{
  ◌+◌, ◌≤◌, ◌<◌, ◌≡◌, ◌≢◌, ◌⊎◌, false, leb→le, ◌↔◌, refl, sym, ◌∙◌, inl, inr, Bool, true, none,
  some, List, [], ◌∷◌, String, Memᴰ, arith, filter, any, Bool-cases, Memᴰ-of_filter, Memᴰ-filter,
  Memᴰ-any, Memᴰ-of_any,
}
use atabak_gold.Campaigns.Attribution.Defs.{
  CampaignTouch, AttributionModel, first_touch, last_touch, campaign, no_touch, expired_window,
  touch_after_conversion, AttributionBucket, AttributionQuery, AttributionDecision, is_eligible,
  is_earlier, ineligible_bucket, choose, sort_touches, decide_eligible, decide_attribution,
}
use atabak_gold.Campaigns.Attribution.Order.{
  IsLocaleOrder, Precedes, Sorted, sort_touches-Sorted, Memᴰ-sort_touches, filter-Sorted,
  Sorted-head, Memᴰ-last_of, Sorted-last_of,
}

-- A touch inside the window: not after the conversion, and at most the window before it.
abbrev pub IsInside : AttributionQuery → CampaignTouch → Type 0
IsInside q t = (t.occurred_at ≤ q.at) × (q.at ≤ t.occurred_at + q.window_ms)

pub is_eligible_iff :
    (q : AttributionQuery) (t : CampaignTouch) → (is_eligible q t ≡ true) ↔ IsInside q t
unfolding is_eligible
is_eligible_iff q t = ground arith

-- What each model looks for: the first touch precedes the others, and the others precede the last.
abbrev pub IsChosen :
    (String → String → Bool) → AttributionModel → CampaignTouch → CampaignTouch → Type 0
IsChosen locale_le first_touch t u = Precedes locale_le t u
IsChosen locale_le last_touch t u = Precedes locale_le u t

Memᴰ-choose :
    (m : AttributionModel) (t : CampaignTouch) (ts : List CampaignTouch)
    → Memᴰ (choose m t ts) (t ∷ ts)
unfolding choose
Memᴰ-choose first_touch t ts = Memᴰ.head refl
Memᴰ-choose last_touch t ts = Memᴰ-last_of t ts

-- Two lists with the same members.
abbrev pub SameTouches : List CampaignTouch → List CampaignTouch → Type 0
SameTouches xs ys = (v : CampaignTouch) → Memᴰ v xs ↔ Memᴰ v ys

any-same :
    (p : CampaignTouch → Bool) (xs ys : List CampaignTouch)
    → SameTouches xs ys
    → any p xs ≡ any p ys
any-same p xs ys same = elim (Bool-cases (any p xs)) [
  | inl t ↦ let (v, m, e) = Memᴰ-of_any p xs t in t ∙ sym (Memᴰ-any p ys ((same v).0 m) e)
  | inr f ↦ elim (Bool-cases (any p ys)) [
    | inl t ↦
        let (v, m, e) = Memᴰ-of_any p ys t in let u = Memᴰ-any p xs ((same v).1 m) e in absurd (cc)
    | inr g ↦ f ∙ sym g
  ]
]

no_member : {v : CampaignTouch} → Memᴰ v [] → ⊥
no_member m = elim m [ ]

pub ineligible_bucket-same :
    (xs ys : List CampaignTouch) (q : AttributionQuery)
    → SameTouches xs ys
    → ineligible_bucket xs q ≡ ineligible_bucket ys q
unfolding ineligible_bucket
ineligible_bucket-same [] [] q same = refl
ineligible_bucket-same [] (y ∷ ys) q same = absurd (no_member ((same y).1 (Memᴰ.head refl)))
ineligible_bucket-same (x ∷ xs) [] q same = absurd (no_member ((same x).0 (Memᴰ.head refl)))
ineligible_bucket-same (x ∷ xs) (y ∷ ys) q same =
    rw (any-same (is_earlier q) (x ∷ xs) (y ∷ ys) same) refl

-- What a bucket says of the touches.
abbrev pub Says : AttributionBucket → List CampaignTouch → AttributionQuery → Type 0
Says campaign touches q = (t : CampaignTouch) × Memᴰ t touches × IsInside q t
Says no_touch touches q = touches ≡ []
Says touch_after_conversion touches q =
    (touches ≢ []) × ((t : CampaignTouch) → Memᴰ t touches → q.at < t.occurred_at)
Says expired_window touches q =
    ((t : CampaignTouch) × Memᴰ t touches × (t.occurred_at ≤ q.at))
    × ((t : CampaignTouch)
        → Memᴰ t touches
        → t.occurred_at ≤ q.at
        → t.occurred_at + q.window_ms < q.at)
Says _ touches q = ⊥

outside-expired :
    (q : AttributionQuery) (t : CampaignTouch)
    → (IsInside q t → ⊥)
    → t.occurred_at ≤ q.at
    → t.occurred_at + q.window_ms < q.at
outside-expired q t out h = ground arith

Memᴰ-of_any_earlier :
    (q : AttributionQuery) (ts : List CampaignTouch)
    → any (is_earlier q) ts ≡ true
    → (t : CampaignTouch) × Memᴰ t ts × (t.occurred_at ≤ q.at)
Memᴰ-of_any_earlier q ts h =
    let (t, m, e) = Memᴰ-of_any (is_earlier q) ts h in (t, m, leb→le t.occurred_at q.at e)

all-later :
    (q : AttributionQuery) (ts : List CampaignTouch)
    → any (is_earlier q) ts ≡ false
    → (t : CampaignTouch) → Memᴰ t ts
    → q.at < t.occurred_at
all-later q ts h t m = elim (Bool-cases (is_earlier q t)) [
  | inl e ↦ let found = Memᴰ-any (is_earlier q) ts m e in absurd (cc)
  | inr l ↦ ground arith
]

pub ineligible_bucket-Says :
    (touches : List CampaignTouch) (q : AttributionQuery)
    → ((t : CampaignTouch) → Memᴰ t touches → IsInside q t → ⊥)
    → Says (ineligible_bucket touches q) touches q
unfolding ineligible_bucket
ineligible_bucket-Says [] q out = refl
ineligible_bucket-Says (t ∷ ts) q out = elim (Bool-cases (any (is_earlier q) (t ∷ ts))) [
  | inl some_earlier ↦
      rw some_earlier
        (Memᴰ-of_any_earlier q (t ∷ ts) some_earlier, λ u m e. outside-expired q u (out u m) e)
  | inr all_later ↦ rw all_later (λ e. absurd (cc), λ u m. all-later q (t ∷ ts) all_later u m)
]

module _ (locale_le : String → String → Bool) where
  choose-IsChosen :
      IsLocaleOrder locale_le
      → (m : AttributionModel) (t : CampaignTouch) (ts : List CampaignTouch)
      → Sorted locale_le (t ∷ ts)
      → (u : CampaignTouch) → Memᴰ u (t ∷ ts)
      → IsChosen locale_le m (choose m t ts) u
  unfolding choose
  choose-IsChosen order first_touch t ts h u k = Sorted-head locale_le order t ts h u k
  choose-IsChosen order last_touch t ts h u k = Sorted-last_of locale_le order t ts h u k

  -- The decision credits a touch: one of the list, inside the window, chosen among those inside.
  pub record Credits (m : AttributionModel) (touches : List CampaignTouch) (q : AttributionQuery)
      (d : AttributionDecision) : Type 0 where
    pub model : d.model ≡ m
    pub touch : CampaignTouch
    pub found : d.touch ≡ some touch
    pub campaign_id : d.campaign_id ≡ some touch.campaign_id
    pub bucket : d.bucket ≡ campaign
    pub stored : Memᴰ touch touches
    pub inside : IsInside q touch
    pub chosen : (u : CampaignTouch) → Memᴰ u touches → IsInside q u → IsChosen locale_le m touch u

  -- The decision credits none: no touch is inside the window, and the bucket says why.
  pub record Refuses (m : AttributionModel) (touches : List CampaignTouch) (q : AttributionQuery)
      (d : AttributionDecision) : Type 0 where
    pub model : d.model ≡ m
    pub touch : d.touch ≡ none
    pub campaign_id : d.campaign_id ≡ none
    pub bucket : d.bucket ≡ ineligible_bucket touches q
    pub why : Says d.bucket touches q
    pub outside : (u : CampaignTouch) → Memᴰ u touches → IsInside q u → ⊥

  decide_eligible-cases :
      IsLocaleOrder locale_le
      → (m : AttributionModel) (touches ordered : List CampaignTouch) (q : AttributionQuery)
      → SameTouches ordered touches
      → (eligible : List CampaignTouch)
      → ((u : CampaignTouch) → Memᴰ u eligible ↔ Memᴰ u ordered × IsInside q u)
      → Sorted locale_le eligible
      → Credits m touches q (decide_eligible locale_le m ordered q eligible)
        ⊎ Refuses m touches q (decide_eligible locale_le m ordered q eligible)
  unfolding decide_eligible
  decide_eligible-cases order m touches ordered q same [] e h = inr (record {
    model = refl;
    touch = refl;
    campaign_id = refl;
    bucket = ineligible_bucket-same ordered touches q same;
    why =
        rw (ineligible_bucket-same ordered touches q same)
          (ineligible_bucket-Says touches q (λ u k i. no_member ((e u).1 ((same u).1 k, i))));
    outside = λ u k i. no_member ((e u).1 ((same u).1 k, i));
  })
  decide_eligible-cases order m touches ordered q same (t ∷ ts) e h =
      let (k, i) = (e (choose m t ts)).0 (Memᴰ-choose m t ts) in
      inl (record {
        model = refl;
        touch = choose m t ts;
        found = refl;
        campaign_id = refl;
        bucket = refl;
        stored = (same (choose m t ts)).0 k;
        inside = i;
        chosen = λ u k i. choose-IsChosen order m t ts h u ((e u).1 ((same u).1 k, i));
      })

  Memᴰ-eligible :
      (q : AttributionQuery) (ordered : List CampaignTouch) (u : CampaignTouch)
      → Memᴰ u (filter (is_eligible q) ordered) ↔ Memᴰ u ordered × IsInside q u
  Memᴰ-eligible q ordered u = (
    λ m. let (k, t) = Memᴰ-of_filter (is_eligible q) ordered m in (k, (is_eligible_iff q u).0 t),
    λ (k, i). Memᴰ-filter (is_eligible q) ordered k ((is_eligible_iff q u).1 i),
  )

  pub decide_attribution-cases :
      IsLocaleOrder locale_le
      → (m : AttributionModel) (touches : List CampaignTouch) (q : AttributionQuery)
      → Credits m touches q (decide_attribution locale_le m touches q)
        ⊎ Refuses m touches q (decide_attribution locale_le m touches q)
  unfolding decide_attribution
  decide_attribution-cases order m [] q = inr (record {
    model = refl;
    touch = refl;
    campaign_id = refl;
    bucket = refl;
    why = ineligible_bucket-Says [] q (λ u k i. no_member k);
    outside = λ u k i. no_member k;
  })
  decide_attribution-cases order m (t ∷ ts) q =
      let ordered = sort_touches locale_le (t ∷ ts) in
      decide_eligible-cases order m (t ∷ ts) ordered q (Memᴰ-sort_touches locale_le (t ∷ ts))
        (filter (is_eligible q) ordered) (Memᴰ-eligible q ordered)
        (filter-Sorted locale_le (is_eligible q) ordered
          (sort_touches-Sorted locale_le order (t ∷ ts)))
