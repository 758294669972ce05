-- ===== src/Alerts/Service/Creation.antt =====
-- `create` of src/alerts/alert.service.ts: its result and its effect on the store.
use atabak_gold.Base.{
  ◌≡◌, ◌↔◌, ◌⊎◌, refl, inl, inr, Option-cases, false, none, some, String, ◌<◌, arith, any,
}
use atabak_gold.Base.Number.{Number}
use atabak_gold.Alerts.Types.{ok, Alert, Platform, AlertMutationFailure}
use atabak_gold.Alerts.Store.{AlertStore, save_alert, scan_alerts_by_user, count_for_capacity}
use atabak_gold.Alerts.Service.Input.{
  Services, AlertTargetInput, ValidInput, Validated, valid, reason, validate_input,
}
use atabak_gold.Alerts.Service.Mutations.{saved}
use atabak_gold.Alerts.Service.Create.{create, new_alert, target_of, is_duplicate}

module _ {N : Type 0} ⦃num : Number N⦄ (env : Services N) (user : String)
    (input : AlertTargetInput N) (new_id now : String) (s : AlertStore N) where
  -- The new alert, the room that it found and the store behind it.
  pub record Creates (t : AlertStore N) : Type 0 where
    pub platform : Platform
    pub v : ValidInput N
    pub known : env.find_user user ≡ some platform
    pub valid_input : validate_input env input ≡ valid v
    pub baseline : v.baseline_failure ≡ false
    pub room : count_for_capacity user s < env.effective_max_alerts user
    pub distinct : any (is_duplicate (target_of v)) (scan_alerts_by_user user s) ≡ false
    pub written : t ≡ save_alert (new_alert user platform v new_id now) s

  -- With a known user and a valid input: refused, or written with room and no duplicate.
  create-valid :
      (platform : Platform) (v : ValidInput N)
      → env.find_user user ≡ some platform
      → validate_input env input ≡ valid v
      → ((create env user input new_id now s).1 ≡ s)
        ⊎ ((v.baseline_failure ≡ false)
            × (count_for_capacity user s < env.effective_max_alerts user)
            × (any (is_duplicate (target_of v)) (scan_alerts_by_user user s) ≡ false)
            × ((create env user input new_id now s).1
                ≡ save_alert (new_alert user platform v new_id now) s))
  unfolding create saved
  create-valid platform v known ok_input = ground arith

  create-refused :
      (r : AlertMutationFailure)
      → validate_input env input ≡ reason r
      → (create env user input new_id now s).1 ≡ s
  unfolding create
  create-refused r e = ground arith

  create-unknown : env.find_user user ≡ none → (create env user input new_id now s).1 ≡ s
  unfolding create
  create-unknown e = ground arith

  pub Validated-cases :
      (r : Validated N)
      → ((v : ValidInput N) × (r ≡ valid v)) ⊎ ((f : AlertMutationFailure) × (r ≡ reason f))
  Validated-cases (valid v) = inl (v, refl)
  Validated-cases (reason f) = inr (f, refl)

  -- `create` leaves the store alone, or adds an alert that found room and has no duplicate.
  pub create-cases :
      ((create env user input new_id now s).1 ≡ s) ⊎ Creates (create env user input new_id now s).1
  create-cases = elim (Option-cases (env.find_user user)) [
    | inl unknown ↦ inl (create-unknown unknown)
    | inr (platform, known) ↦ elim (Validated-cases (validate_input env input)) [
      | inr (f, bad) ↦ inl (create-refused f bad)
      | inl (v, good) ↦ elim (create-valid platform v known good) [
        | inl same ↦ inl same
        | inr (b, room, distinct, written) ↦ inr (record {
          platform = platform;
          v = v;
          known = known;
          valid_input = good;
          baseline = b;
          room = room;
          distinct = distinct;
          written = written;
        })
      ]
    ]
  ]

  pub create-ok :
      (platform : Platform) (v : ValidInput N) (a : Alert N)
      → env.find_user user ≡ some platform
      → validate_input env input ≡ valid v
      → ((create env user input new_id now s).0 ≡ ok a)
        ↔ (v.baseline_failure ≡ false)
          × (count_for_capacity user s < env.effective_max_alerts user)
          × (any (is_duplicate (target_of v)) (scan_alerts_by_user user s) ≡ false)
          × (a ≡ new_alert user platform v new_id now)
  unfolding create saved
  create-ok platform v a known ok_input = ground arith

  pub create-fails_unknown :
      (a : Alert N) → env.find_user user ≡ none → (create env user input new_id now s).0 ≡ ok a → ⊥
  unfolding create
  create-fails_unknown a e h = ground arith

  pub create-fails_invalid :
      (a : Alert N) (r : AlertMutationFailure)
      → validate_input env input ≡ reason r
      → (create env user input new_id now s).0 ≡ ok a
      → ⊥
  unfolding create
  create-fails_invalid a r e h = ground arith

  pub create-written :
      (platform : Platform) (v : ValidInput N) (a : Alert N)
      → env.find_user user ≡ some platform
      → validate_input env input ≡ valid v
      → (create env user input new_id now s).0 ≡ ok a
      → (create env user input new_id now s).1 ≡ save_alert a s
  unfolding create saved
  create-written platform v a known ok_input h = ground arith
