-- ===== src/Sales/Lifecycle.antt =====
-- The lead lifecycle of src/sales/sales.types.ts: the allowed transitions and the paths through them.
use atabak_gold.Base.{
  ◌≡◌, ◌⊎◌, refl, inl, inr, Bool, true, false, List, [], ◌∷◌, Memᴰ, arith, any, sym,
}

pub data LeadStatus : Type 0 where
  new contacted qualified converted lost : LeadStatus

abbrev same_status : LeadStatus → LeadStatus → Bool
same_status new new = true
same_status contacted contacted = true
same_status qualified qualified = true
same_status converted converted = true
same_status lost lost = true
same_status _ _ = false

unfoldable pub allowed_transitions : LeadStatus → List LeadStatus
allowed_transitions new = contacted ∷ lost ∷ []
allowed_transitions contacted = qualified ∷ lost ∷ []
allowed_transitions qualified = converted ∷ lost ∷ contacted ∷ []
allowed_transitions converted = qualified ∷ []
allowed_transitions lost = new ∷ []

-- `ALLOWED_TRANSITIONS[from].includes(to)`.
unfoldable pub can_transition : LeadStatus → LeadStatus → Bool
unfolding allowed_transitions
can_transition from to = any (λ s. same_status s to) (allowed_transitions from)

-- A sequence of allowed transitions, with the statuses that it enters.
pub data Transitions : LeadStatus → LeadStatus → List LeadStatus → Type 0 where
  stay : {s : LeadStatus} → Transitions s s []
  move :
      {s t u : LeadStatus} {entered : List LeadStatus}
      → can_transition s t ≡ true
      → Transitions t u entered
      → Transitions s u (t ∷ entered)

to_converted : (s t : LeadStatus) → can_transition s t ≡ true → t ≡ converted → s ≡ qualified
unfolding can_transition
to_converted new t h e = ground arith
to_converted contacted t h e = ground arith
to_converted qualified t h e = refl
to_converted converted t h e = ground arith
to_converted lost t h e = ground arith

to_qualified :
    (s t : LeadStatus)
    → can_transition s t ≡ true
    → t ≡ qualified
    → (s ≡ contacted) ⊎ (s ≡ converted)
unfolding can_transition
to_qualified new t h e = ground arith
to_qualified contacted t h e = inl refl
to_qualified qualified t h e = ground arith
to_qualified converted t h e = inr refl
to_qualified lost t h e = ground arith

through_qualified :
    {s u : LeadStatus} {entered : List LeadStatus}
    → u ≡ converted
    → Transitions s u entered
    → (s ≡ qualified) ⊎ ((s ≡ converted) ⊎ Memᴰ qualified entered)
through_qualified e stay = inr (inl e)
through_qualified e (move {s} {t} h rest) = elim (through_qualified e rest) [
  | inl q ↦ inr (inr (Memᴰ.head (sym q)))
  | inr (inl c) ↦ inl (to_converted s t h c)
  | inr (inr m) ↦ inr (inr (Memᴰ.tail m))
]

through_contacted :
    {s u : LeadStatus} {entered : List LeadStatus}
    → u ≡ converted
    → Transitions s u entered
    → (s ≡ contacted) ⊎ ((s ≡ qualified) ⊎ ((s ≡ converted) ⊎ Memᴰ contacted entered))
through_contacted e stay = inr (inr (inl e))
through_contacted e (move {s} {t} h rest) = elim (through_contacted e rest) [
  | inl c ↦ inr (inr (inr (Memᴰ.head (sym c))))
  | inr (inl q) ↦ elim (to_qualified s t h q) [ inl c ↦ inl c | inr d ↦ inr (inr (inl d)) ]
  | inr (inr (inl d)) ↦ inr (inl (to_converted s t h d))
  | inr (inr (inr m)) ↦ inr (inr (inr (Memᴰ.tail m)))
]

-- Whatever transitions lead a new or a lost lead to a conversion, the lead is contacted and
-- qualified on the way.
pub can_transition-conversion :
    (s : LeadStatus) {entered : List LeadStatus}
    → (s ≡ new) ⊎ (s ≡ lost)
    → Transitions s converted entered
    → Memᴰ contacted entered × Memᴰ qualified entered
can_transition-conversion s start path = (
  elim (through_contacted refl path) [
    | inl e ↦ absurd (ground arith)
    | inr (inl e) ↦ absurd (ground arith)
    | inr (inr (inl e)) ↦ absurd (ground arith)
    | inr (inr (inr m)) ↦ m
  ],
  elim (through_qualified refl path) [
    | inl e ↦ absurd (ground arith)
    | inr (inl e) ↦ absurd (ground arith)
    | inr (inr m) ↦ m
  ],
)
