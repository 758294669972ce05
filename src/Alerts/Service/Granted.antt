-- ===== src/Alerts/Service/Granted.antt =====
-- `create` of src/alerts/alert.service.ts: what a success has checked and stored, field by field.
use mathlib.Core.Path.{subst}
use text.Mathlib.Text.{◌==◌ as str_eq}
use text.Mathlib.TextEquality.{eq_iff}
use atabak_gold.Base.{
  ◌≡◌, ◌⊎◌, ◌<◌, refl, sym, ap, ◌∙◌, inl, inr, false, none, some, String, Memᴰ, Option-cases, arith,
  any, Memᴰ-filter,
}
use atabak_gold.Base.Number.{Number}
use atabak_gold.Base.Dict.{values}
use atabak_gold.Market.Types.{SymbolDefinition}
use atabak_gold.Alerts.Types.{
  ok, Alert, AlertType, price_above, price_below, percent_increase, percent_decrease, up, down,
  Platform, active, disabled,
}
use atabak_gold.Alerts.Store.{
  AlertStore, count_for_capacity, find_alert, save_alert, scan_alerts_by_user,
}
use atabak_gold.Alerts.Service.Input.{
  Services, AlertTargetInput, ValidInput, valid, validate_input, find_definition,
}
use atabak_gold.Alerts.Service.Create.{create, new_alert, target_of, is_duplicate}
use atabak_gold.Alerts.Service.Creation.{
  Validated-cases, create-ok, create-written, create-fails_unknown, create-fails_invalid,
}
use atabak_gold.Alerts.Service.Wanted.{
  PriceWanted, PercentWanted, price_wanted, percent_wanted, find_definition-found,
}
use atabak_gold.Alerts.Service.Targets.{
  SameTarget, percent_cases, none_of, is_duplicate-same, save_alert-found,
}

module _ {N : Type 0} ⦃num : Number N⦄ where
  module _ (env : Services N) (user : String) (input : AlertTargetInput N) (new_id now : String)
      (s : AlertStore N) where
    -- What a creation that answers an alert has checked, the fields of the alert, and the store
    -- behind it.
    pub record Grants (a : Alert N) (t : AlertStore N) : Type 0 where
      pub type : AlertType
      pub typed : input.type ≡ some type
      pub known : env.find_user user ≡ some a.platform
      pub definition : SymbolDefinition N
      pub registered : Memᴰ definition env.symbol_registry
      pub asked : definition.symbol ≡ input.symbol
      pub own_id : a.id ≡ new_id
      pub owner : a.user_id ≡ user
      pub of_symbol : a.symbol ≡ input.symbol
      pub of_type : a.type ≡ type
      pub is_active : a.status ≡ active
      pub created : a.created_at ≡ now
      pub updated : a.updated_at ≡ now
      pub not_triggered : a.triggered_at ≡ none
      pub not_disabled : a.disabled_at ≡ none
      pub not_deleted : a.deleted_at ≡ none
      pub wanted :
          (((type ≡ price_above) ⊎ (type ≡ price_below)) × PriceWanted env input definition a)
          ⊎ ((((type ≡ percent_increase) × (a.direction ≡ some up))
                ⊎ ((type ≡ percent_decrease) × (a.direction ≡ some down)))
              × PercentWanted env input definition a)
      pub room : count_for_capacity user s < env.effective_max_alerts user
      pub distinct :
          (b : Alert N)
          → Memᴰ b (values s.alerts)
          → b.user_id ≡ user
          → (b.status ≡ active) ⊎ (b.status ≡ disabled)
          → SameTarget b a
          → ⊥
      pub stored : find_alert new_id t ≡ some a

    wants :
        (platform : Platform) (type : AlertType) (d : SymbolDefinition N) (v : ValidInput N)
        → input.type ≡ some type
        → find_definition env.symbol_registry input.symbol ≡ some d
        → validate_input env input ≡ valid v
        → v.baseline_failure ≡ false
        → (v.type ≡ type)
          × (v.definition ≡ d)
          × ((((type ≡ price_above) ⊎ (type ≡ price_below))
                × PriceWanted env input d (new_alert user platform v new_id now))
              ⊎ ((((type ≡ percent_increase) × (v.direction ≡ some up))
                    ⊎ ((type ≡ percent_decrease) × (v.direction ≡ some down)))
                  × PercentWanted env input d (new_alert user platform v new_id now)))
    wants platform type d v typed found good usable = elim (percent_cases type) [
      | inl (plain, which) ↦
          let (a, b, w) =
            price_wanted env input user new_id now platform type d v plain typed found good in
          (a, b, inl (which, w))
      | inr (percent, which) ↦
          let (a, b, w, way) =
            percent_wanted env input user new_id now platform type d v percent typed found good
              usable in
          (
            a,
            b,
            inr (elim which [ inl e ↦ inl (e, rw e at way) | inr e ↦ inr (e, rw e at way) ], w),
          )
    ]

    distinct_from :
        (platform : Platform) (v : ValidInput N) (b : Alert N)
        → any (is_duplicate (target_of v)) (scan_alerts_by_user user s) ≡ false
        → Memᴰ b (values s.alerts)
        → b.user_id ≡ user
        → (b.status ≡ active) ⊎ (b.status ≡ disabled)
        → SameTarget b (new_alert user platform v new_id now)
        → ⊥
    distinct_from platform v b h m own counted same =
        let listed : Memᴰ b (scan_alerts_by_user user s) =
          Memᴰ-filter (λ a. str_eq a.user_id user) (values s.alerts) m
            ((eq_iff b.user_id user).1 own) in
        let fresh_target =
          none_of (is_duplicate (target_of v)) (scan_alerts_by_user user s) b h listed in
        let taken = is_duplicate-same user new_id now platform v b counted same in cc

    granted :
        (platform : Platform) (type : AlertType) (d : SymbolDefinition N) (v : ValidInput N)
        (t : AlertStore N)
        → env.find_user user ≡ some platform
        → input.type ≡ some type
        → find_definition env.symbol_registry input.symbol ≡ some d
        → validate_input env input ≡ valid v
        → v.baseline_failure ≡ false
        → count_for_capacity user s < env.effective_max_alerts user
        → any (is_duplicate (target_of v)) (scan_alerts_by_user user s) ≡ false
        → t ≡ save_alert (new_alert user platform v new_id now) s
        → Grants (new_alert user platform v new_id now) t
    granted platform type d v t known typed found good usable room free written =
        let a = new_alert user platform v new_id now in
        let (kind, about, wanted) = wants platform type d v typed found good usable in
        let (registered, asked) = find_definition-found env.symbol_registry input.symbol d found in
        record {
          type = type;
          typed = typed;
          known = known;
          definition = d;
          registered = registered;
          asked = asked;
          own_id = refl;
          owner = refl;
          of_symbol = ap (λ x. x.symbol) about ∙ asked;
          of_type = kind;
          is_active = refl;
          created = refl;
          updated = refl;
          not_triggered = refl;
          not_disabled = refl;
          not_deleted = refl;
          wanted = wanted;
          room = room;
          distinct = λ b. distinct_from platform v b free;
          stored = rw written (save_alert-found a s);
        }

    -- The code finds the type and the symbol of an input that it accepts.
    accepted-found :
        (v : ValidInput N)
        → validate_input env input ≡ valid v
        → (type : AlertType) × (d : SymbolDefinition N) × (input.type ≡ some type)
          × (find_definition env.symbol_registry input.symbol ≡ some d)
    unfolding validate_input
    accepted-found v good = elim (Option-cases input.type) [
      | inl e ↦ ground (arith, good, e)
      | inr (type, e) ↦ elim (Option-cases (find_definition env.symbol_registry input.symbol)) [
        | inl f ↦ ground (arith, good, e, f)
        | inr (d, f) ↦ (type, d, e, f)
      ]
    ]

    -- A creation that answers an alert: the user is known and has room; the type is given and the
    -- symbol is registered; a price alert has a finite positive target within the range of the
    -- symbol; a percentage alert has a finite positive target within the configured limits, the
    -- direction of its type, and the fresh finite positive price of the symbol as its baseline; no
    -- active or disabled alert of the user has the same symbol, type, direction and targets. The
    -- alert is active, has the new id, the user, the platform of the user, the symbol, the type and
    -- the targets of the input and the time of the creation, and is stored under its id.
    pub create-Grants :
        (a : Alert N)
        → (create env user input new_id now s).0 ≡ ok a
        → Grants a (create env user input new_id now s).1
    create-Grants a h = elim (Option-cases (env.find_user user)) [
      | inl unknown ↦ absurd (create-fails_unknown env user input new_id now s a unknown h)
      | inr (platform, known) ↦
          elim (Validated-cases env user input new_id now s (validate_input env input)) [
            | inr (f, bad) ↦ absurd (create-fails_invalid env user input new_id now s a f bad h)
            | inl (v, good) ↦
                let (usable, room, free, same) =
                  (create-ok env user input new_id now s platform v a known good).0 h in
                let written =
                  create-written env user input new_id now s platform v a known good h in
                let (type, d, typed, found) = accepted-found v good in
                subst (λ x. Grants x (create env user input new_id now s).1) (sym same)
                  (granted platform type d v (create env user input new_id now s).1 known typed
                    found good usable room free (written ∙ ap (λ x. save_alert x s) same))
          ]
    ]
