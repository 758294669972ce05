-- ===== src/Alerts/Bonus.antt =====
-- src/alerts/alert-capacity.service.ts: the limit of a user's alerts, from the configured base and
-- the rewards that were granted.
use atabak_gold.Base.{
  ◌≡◌, inl, inr, Bool, true, false, not, ◌||◌, Option, none, some, List, [], ◌∷◌, arith,
  if◌then◌else◌, filter, Bool-cases,
}
use atabak_gold.Base.Number.{Number}

pub data RewardStatus : Type 0 where
  pending granted : RewardStatus

-- The fields of `RewardGrant` that matter here, all of the one reward type; a bonus that is not a
-- number is `none`.
pub record RewardGrant (N : Type 0) : Type 0 where
  pub status : RewardStatus
  pub capacity_bonus : Option N

pub record EffectiveAlertCapacity (N : Type 0) : Type 0 where
  pub base_limit : N
  pub bonus_slots : N
  pub limit : N

abbrev is_granted : RewardStatus → Bool
is_granted granted = true
is_granted pending = false

-- IEEE 754: `<` is asymmetric and implies `<=`, a sum of what is not negative is not negative, and such a summand
-- does not lower a sum.
pub record IsMonotone {N : Type 0} (num : Number N) : Type 0 where
  pub asymm : (a b : N) → num.lt a b ≡ true → num.lt b a ≡ false
  pub lt-le : (a b : N) → num.lt a b ≡ true → num.le a b ≡ true
  pub irrefl : (a : N) → num.lt a a ≡ false
  pub add-not_neg :
      (a b : N)
      → num.lt a (num.of_ℕ 0) ≡ false
      → num.lt b (num.of_ℕ 0) ≡ false
      → num.lt (num.add a b) (num.of_ℕ 0) ≡ false
  pub add-not_lt : (a b : N) → num.lt b (num.of_ℕ 0) ≡ false → num.lt (num.add a b) a ≡ false

module _ {N : Type 0} where
  abbrev granted_rewards : List (RewardGrant N) → List (RewardGrant N)
  granted_rewards rewards = filter (λ r. is_granted r.status) rewards

module _ {N : Type 0} ⦃num : Number N⦄ where
  open num use {of_ℕ, is_finite, lt, le, add}

  -- The step of `reduce`.
  unfoldable pub add_bonus : N → Option N → N
  add_bonus sum none = sum
  add_bonus sum (some bonus) =
      if not (is_finite bonus) || le bonus (of_ℕ 0) then sum else add sum bonus

  total_bonus : N → List (RewardGrant N) → N
  total_bonus sum [] = sum
  total_bonus sum (r ∷ rs) = total_bonus (add_bonus sum r.capacity_bonus) rs

  abbrev smaller : N → N → N
  smaller a b = if lt a b then a else b

  unfoldable pub bonus_slots_from : N → List (RewardGrant N) → N
  unfolding total_bonus
  bonus_slots_from most rewards = smaller (total_bonus (of_ℕ 0) (granted_rewards rewards)) most

  unfoldable pub effective_limit_from : N → N → List (RewardGrant N) → EffectiveAlertCapacity N
  effective_limit_from base most rewards =
      let bonus = bonus_slots_from most rewards in
      record { base_limit = base; bonus_slots = bonus; limit = add base bonus }

  module _ (law : IsMonotone num) where
    add_bonus-not_neg :
        (sum : N) (b : Option N) → lt sum (of_ℕ 0) ≡ false → lt (add_bonus sum b) (of_ℕ 0) ≡ false
    unfolding add_bonus
    add_bonus-not_neg sum none h = h
    add_bonus-not_neg sum (some b) h = ground (arith, law.lt-le b (of_ℕ 0), law.add-not_neg sum b)

    total_bonus-not_neg :
        (sum : N) (rs : List (RewardGrant N))
        → lt sum (of_ℕ 0) ≡ false
        → lt (total_bonus sum rs) (of_ℕ 0) ≡ false
    unfolding total_bonus
    total_bonus-not_neg sum [] h = h
    total_bonus-not_neg sum (r ∷ rs) h =
        total_bonus-not_neg (add_bonus sum r.capacity_bonus) rs
          (add_bonus-not_neg sum r.capacity_bonus h)

    -- With a ceiling that is not negative, the bonus is at most the ceiling, and the limit is never
    -- below the base, whatever the rewards are, be they pending or damaged.
    pub effective_limit_from-bounds :
        (base most : N) (rewards : List (RewardGrant N))
        → lt most (of_ℕ 0) ≡ false
        → let c = effective_limit_from base most rewards in
          (lt most c.bonus_slots ≡ false) × (lt c.limit base ≡ false)
    unfolding effective_limit_from bonus_slots_from
    effective_limit_from-bounds base most rewards h =
        let total = total_bonus (of_ℕ 0) (granted_rewards rewards) in
        let low = total_bonus-not_neg (of_ℕ 0) (granted_rewards rewards) (law.irrefl (of_ℕ 0)) in
        elim (Bool-cases (lt total most)) [
          | inl under ↦ rw under (law.asymm total most under, law.add-not_lt base total low)
          | inr over ↦ rw over (law.irrefl most, law.add-not_lt base most h)
        ]
