-- ===== src/Campaigns/Attribution/Order.antt =====
-- `sortTouches` of src/campaigns/campaign.store.ts: order and members, and the ends of a filtered list.
use mathlib.Core.List.Memᴰ
use atabak_gold.Base.{
  ◌≡◌, ◌⊎◌, ◌↔◌, refl, inl, inr, Bool, true, false, List, [], ◌∷◌, String, Memᴰ, arith, filter,
  Bool-cases, Memᴰ-of_filter,
}
use atabak_gold.Campaigns.Attribution.Defs.{
  CampaignTouch, not_after, insert_touch, sort_touches, last_of,
}

-- What the code relies on of `localeCompare`: it orders texts totally.
pub record IsLocaleOrder (locale_le : String → String → Bool) : Type 0 where
  pub total : (a b : String) → (locale_le a b ≡ true) ⊎ (locale_le b a ≡ true)
  pub trans : (a b c : String) → locale_le a b ≡ true → locale_le b c ≡ true → locale_le a c ≡ true

pub Memᴰ-last_of : (t : CampaignTouch) (ts : List CampaignTouch) → Memᴰ (last_of t ts) (t ∷ ts)
unfolding last_of
Memᴰ-last_of t [] = Memᴰ.head refl
Memᴰ-last_of t (u ∷ us) = Memᴰ.tail (Memᴰ-last_of u us)

module _ (locale_le : String → String → Bool) where
  abbrev pub Precedes : CampaignTouch → CampaignTouch → Type 0
  Precedes t u = not_after locale_le t u ≡ true

  abbrev pub Sorted : List CampaignTouch → Type 0
  Sorted [] = Unit {0}
  Sorted (t ∷ ts) = ((u : CampaignTouch) → Memᴰ u ts → Precedes t u) × Sorted ts

  pub not_after-total :
      IsLocaleOrder locale_le → (t u : CampaignTouch) → Precedes t u ⊎ Precedes u t
  unfolding not_after
  not_after-total order t u = ground (arith, order.total t.event_id u.event_id)

  pub not_after_trans :
      IsLocaleOrder locale_le → (t u v : CampaignTouch) → Precedes t u → Precedes u v → Precedes t v
  unfolding not_after
  not_after_trans order t u v h k = ground (arith, order.trans t.event_id u.event_id v.event_id)

  Memᴰ-of_insert_touch :
      (t : CampaignTouch) (us : List CampaignTouch) {v : CampaignTouch}
      → Memᴰ v (insert_touch locale_le t us)
      → (v ≡ t) ⊎ Memᴰ v us
  unfolding insert_touch
  Memᴰ-of_insert_touch t [] m = Memᴰ.cases_cons m
  Memᴰ-of_insert_touch t (u ∷ us) m = elim (Bool-cases (not_after locale_le t u)) [
    | inl front ↦ Memᴰ.cases_cons (rw front at m)
    | inr behind ↦ elim (Memᴰ.cases_cons (rw behind at m)) [
      | inl e ↦ inr (Memᴰ.head e)
      | inr k ↦ elim (Memᴰ-of_insert_touch t us k) [ inl e ↦ inl e | inr j ↦ inr (Memᴰ.tail j) ]
    ]
  ]

  Memᴰ-insert_touch :
      (t : CampaignTouch) (us : List CampaignTouch) {v : CampaignTouch}
      → (v ≡ t) ⊎ Memᴰ v us
      → Memᴰ v (insert_touch locale_le t us)
  unfolding insert_touch
  Memᴰ-insert_touch t [] (inl e) = Memᴰ.head e
  Memᴰ-insert_touch t [] (inr m) = elim m [ ]
  Memᴰ-insert_touch t (u ∷ us) h = elim (Bool-cases (not_after locale_le t u)) [
    | inl front ↦ rw front (elim h [ inl e ↦ Memᴰ.head e | inr m ↦ Memᴰ.tail m ])
    | inr behind ↦ rw behind (elim h [
      | inl e ↦ Memᴰ.tail (Memᴰ-insert_touch t us (inl e))
      | inr m ↦ elim (Memᴰ.cases_cons m) [
        | inl e ↦ Memᴰ.head e
        | inr k ↦ Memᴰ.tail (Memᴰ-insert_touch t us (inr k))
      ]
    ])
  ]

  -- What stands in front of the head of a sorted list stands in front of all of it.
  Precedes-all :
      IsLocaleOrder locale_le
      → (t u : CampaignTouch) (us : List CampaignTouch) → Sorted (u ∷ us)
      → Precedes t u
      → (v : CampaignTouch) → Memᴰ v (u ∷ us)
      → Precedes t v
  Precedes-all order t u us h p v m = elim (Memᴰ.cases_cons m) [
    | inl e ↦ rw e p
    | inr k ↦ not_after_trans order t u v p (h.0 v k)
  ]

  behind-Precedes :
      IsLocaleOrder locale_le
      → (t u : CampaignTouch) → not_after locale_le t u ≡ false
      → Precedes u t
  behind-Precedes order t u f = elim (not_after-total order t u) [ inl p ↦ absurd (cc) | inr p ↦ p ]

  insert_touch-Sorted :
      IsLocaleOrder locale_le
      → (t : CampaignTouch) (us : List CampaignTouch) → Sorted us
      → Sorted (insert_touch locale_le t us)
  unfolding insert_touch
  insert_touch-Sorted order t [] h = (λ v m. elim m [ ], tt)
  insert_touch-Sorted order t (u ∷ us) h = elim (Bool-cases (not_after locale_le t u)) [
    | inl front ↦ rw front (Precedes-all order t u us h front, h)
    | inr behind ↦ rw behind (
      λ v m. elim (Memᴰ-of_insert_touch t us m) [
        | inl e ↦ rw e (behind-Precedes order t u behind)
        | inr k ↦ h.0 v k
      ],
      insert_touch-Sorted order t us h.1,
    )
  ]

  -- The sort orders the touches: each stands in front of those that follow.
  pub sort_touches-Sorted :
      IsLocaleOrder locale_le → (ts : List CampaignTouch) → Sorted (sort_touches locale_le ts)
  unfolding sort_touches
  sort_touches-Sorted order [] = tt
  sort_touches-Sorted order (t ∷ ts) =
      insert_touch-Sorted order t (sort_touches locale_le ts) (sort_touches-Sorted order ts)

  -- The sort neither loses a touch nor makes one up.
  pub Memᴰ-sort_touches :
      (ts : List CampaignTouch) (v : CampaignTouch) → Memᴰ v (sort_touches locale_le ts) ↔ Memᴰ v ts
  unfolding sort_touches
  Memᴰ-sort_touches [] v = (λ m. m, λ m. m)
  Memᴰ-sort_touches (t ∷ ts) v = (
    λ m. elim (Memᴰ-of_insert_touch t (sort_touches locale_le ts) m) [
      | inl e ↦ Memᴰ.head e
      | inr k ↦ Memᴰ.tail ((Memᴰ-sort_touches ts v).0 k)
    ],
    λ m.
        Memᴰ-insert_touch t (sort_touches locale_le ts)
          (elim (Memᴰ.cases_cons m) [ inl e ↦ inl e | inr k ↦ inr ((Memᴰ-sort_touches ts v).1 k) ]),
  )

  pub filter-Sorted :
      (p : CampaignTouch → Bool) (ts : List CampaignTouch) → Sorted ts → Sorted (filter p ts)
  filter-Sorted p [] h = tt
  filter-Sorted p (t ∷ ts) h = elim (Bool-cases (p t)) [
    | inl keep ↦ rw keep (λ v m. h.0 v (Memᴰ-of_filter p ts m).0, filter-Sorted p ts h.1)
    | inr skip ↦ rw skip (filter-Sorted p ts h.1)
  ]

  not_after_refl : IsLocaleOrder locale_le → (t : CampaignTouch) → Precedes t t
  not_after_refl order t = elim (not_after-total order t t) [ inl p ↦ p | inr p ↦ p ]

  -- The head of a sorted list precedes all of it, and all of it precedes the last.
  pub Sorted-head :
      IsLocaleOrder locale_le
      → (t : CampaignTouch) (ts : List CampaignTouch) → Sorted (t ∷ ts)
      → (v : CampaignTouch) → Memᴰ v (t ∷ ts)
      → Precedes t v
  Sorted-head order t ts h = Precedes-all order t t ts h (not_after_refl order t)

  pub Sorted-last_of :
      IsLocaleOrder locale_le
      → (t : CampaignTouch) (ts : List CampaignTouch) → Sorted (t ∷ ts)
      → (v : CampaignTouch) → Memᴰ v (t ∷ ts)
      → Precedes v (last_of t ts)
  unfolding last_of
  Sorted-last_of order t [] h v m = elim (Memᴰ.cases_cons m) [
    | inl e ↦ rw e (not_after_refl order t)
    | inr k ↦ elim k [ ]
  ]
  Sorted-last_of order t (u ∷ us) h v m = elim (Memᴰ.cases_cons m) [
    | inl e ↦ rw e (h.0 (last_of u us) (Memᴰ-last_of u us))
    | inr k ↦ Sorted-last_of order u us h.1 v k
  ]
