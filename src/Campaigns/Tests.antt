-- ===== src/Campaigns/Tests.antt =====
-- Runs of the attribution rules, and their theorems at concrete inputs.
use Prim.Native.String.{count}
use mathlib.Core.List.Memᴰ
use text.Mathlib.TextEquality.{eq_iff}
use atabak_gold.Base.{
  ℕ, ◌≡◌, ◌≢◌, ◌⊎◌, refl, inl, inr, Bool, true, some, List, [], ◌∷◌, String, Memᴰ, arith, leb,
}
use atabak_gold.Campaigns.Attribution.Defs.{
  CampaignTouch, click, first_touch, last_touch, AttributionQuery, decide_attribution, sort_touches,
  insert_touch, not_after, is_eligible, decide_eligible, choose, last_of, ineligible_bucket,
  expired_window,
}
use atabak_gold.Campaigns.Attribution.Order.{IsLocaleOrder}
use atabak_gold.Campaigns.Attribution.Credit.{SameTouches}
use atabak_gold.Campaigns.Attribution.Outcome.{decide_attribution-order_free}

-- A total order of texts: by their length.
abbrev shorter : String → String → Bool
shorter a b = leb (count a) (count b)

shorter-IsLocaleOrder : IsLocaleOrder shorter
shorter-IsLocaleOrder = record { total = λ a b. ground arith; trans = λ a b c h k. ground arith }

abbrev touched : String → ℕ → CampaignTouch
touched id time = record {
  campaign_id = id;
  occurred_at = time;
  recorded_at = time;
  event_id = "evt";
  type = click;
}

abbrev spring : CampaignTouch
spring = touched "cmp_1" 100

abbrev summer : CampaignTouch
summer = touched "cmp_2" 150

abbrev both : List CampaignTouch
both = summer ∷ spring ∷ []

abbrev swapped : List CampaignTouch
swapped = spring ∷ summer ∷ []

abbrev at_200 : AttributionQuery
at_200 = record { at = 200; window_ms = 120 }

attribution_tests :
    ((decide_attribution shorter first_touch both at_200).campaign_id ≡ some "cmp_1")
    × ((decide_attribution shorter last_touch both at_200).campaign_id ≡ some "cmp_2")
    × ((decide_attribution shorter first_touch both (record { at = 200; window_ms = 10 })).bucket
        ≡ expired_window)
unfolding decide_attribution sort_touches insert_touch not_after is_eligible decide_eligible choose
    last_of ineligible_bucket
attribution_tests = (refl, refl, refl)

-- The first touch moves when the first observed touch leaves the window.
first_touch_moves :
    (decide_attribution shorter first_touch both (record { at = 250; window_ms = 120 })).campaign_id
    ≡ some "cmp_2"
unfolding decide_attribution sort_touches insert_touch not_after is_eligible decide_eligible choose
    last_of
first_touch_moves = refl

swap : (a b v : CampaignTouch) → Memᴰ v (a ∷ b ∷ []) → Memᴰ v (b ∷ a ∷ [])
swap a b v m = elim (Memᴰ.cases_cons m) [
  | inl e ↦ Memᴰ.tail (Memᴰ.head e)
  | inr k ↦ elim (Memᴰ.cases_cons k) [ inl e ↦ Memᴰ.head e | inr j ↦ elim j [ ] ]
]

both-SameTouches : SameTouches both swapped
both-SameTouches v = (swap summer spring v, swap spring summer v)

member_cases : (v : CampaignTouch) → Memᴰ v both → (v ≡ summer) ⊎ (v ≡ spring)
member_cases v m = elim (Memᴰ.cases_cons m) [
  | inl e ↦ inl e
  | inr k ↦ elim (Memᴰ.cases_cons k) [ inl e ↦ inr e | inr j ↦ elim j [ ] ]
]

both_untied :
    (t u : CampaignTouch)
    → Memᴰ t both
    → Memᴰ u both
    → t.occurred_at ≡ u.occurred_at
    → t.recorded_at ≡ u.recorded_at
    → shorter t.event_id u.event_id ≡ true
    → shorter u.event_id t.event_id ≡ true
    → t ≡ u
both_untied t u m k a b h j = elim (member_cases t m) [
  | inl e ↦ elim (member_cases u k) [ inl f ↦ ground arith | inr f ↦ ground arith ]
  | inr e ↦ elim (member_cases u k) [ inl f ↦ ground arith | inr f ↦ ground arith ]
]

decide_attribution-order_free_example :
    ((decide_attribution shorter last_touch both at_200).touch
      ≡ (decide_attribution shorter last_touch swapped at_200).touch)
    × ((decide_attribution shorter last_touch both at_200).campaign_id
        ≡ (decide_attribution shorter last_touch swapped at_200).campaign_id)
    × ((decide_attribution shorter last_touch both at_200).bucket
        ≡ (decide_attribution shorter last_touch swapped at_200).bucket)
decide_attribution-order_free_example =
    decide_attribution-order_free shorter shorter-IsLocaleOrder last_touch both swapped at_200
      both-SameTouches both_untied

not_named_empty : (text : String) → text ≡ "" → (text ≡ "cmp_1") ⊎ (text ≡ "cmp_2") → ⊥
not_named_empty text e h = ground (arith, eq_iff "cmp_1" "", eq_iff "cmp_2" "")

both_named : (t : CampaignTouch) → Memᴰ t both → t.campaign_id ≢ ""
both_named t m = λ e.
    not_named_empty t.campaign_id e
      (elim (member_cases t m) [ inl f ↦ inr (ground arith) | inr f ↦ inl (ground arith) ])
