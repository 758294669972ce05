-- ===== src/Alerts/Store/Index.antt =====
-- The two indexes of src/alerts/alert.store.ts against a scan over all alerts.
use text.Mathlib.Text.{◌==◌ as str_eq}
use text.Mathlib.TextEquality.{eq_iff}
use mathlib.Core.List.Memᴰ
use atabak_gold.Base.{
  Bool, false, ◌&&◌, ◌≡◌, ◌⊎◌, ◌↔◌, refl, Option, none, some, List, [], ◌∷◌, String, Memᴰ, arith,
  inl, inr, Option-cases, if◌then◌else◌,
}
use atabak_gold.Base.Dict.{lookup, lookup-insert}
use atabak_gold.Base.Sets.{
  has, set_add, set_delete, has-set_add, has-set_delete, ids_at, ids_at-insert, ids_at-put_ids,
  Memᴰ-of_has, has-of_Memᴰ,
}
use atabak_gold.Alerts.Types.{Alert, AlertDelivery, active, is_active}
use atabak_gold.Alerts.Store.{
  AlertStore, empty_store, index, save_alert, save_delivery, find_alert, get_all,
  list_active_by_symbol, list_alerts_by_user,
}

module _ {ℓ} {V : Type ℓ} where
  Memᴰ-get_all :
      (m : List (String × V)) (ids : List String) {id : String} {v : V}
      → lookup id m ≡ some v
      → Memᴰ id ids
      → Memᴰ v (get_all m ids)
  unfolding get_all
  Memᴰ-get_all m [] e i = elim i [ ]
  Memᴰ-get_all m (j ∷ ids) e (Memᴰ.head p) = rw (← p, e, get_all) (Memᴰ.head refl)
  Memᴰ-get_all m (j ∷ ids) e (Memᴰ.tail i) = elim (Option-cases (lookup j m)) [
    | inl gone ↦ rw (gone, get_all) (Memᴰ-get_all m ids e i)
    | inr (w, there) ↦ rw (there, get_all) (Memᴰ.tail (Memᴰ-get_all m ids e i))
  ]

  Memᴰ-of_get_all :
      (m : List (String × V)) (ids : List String) {v : V}
      → Memᴰ v (get_all m ids)
      → (id : String) × Memᴰ id ids × (lookup id m ≡ some v)
  unfolding get_all
  Memᴰ-of_get_all m [] i = elim i [ ]
  Memᴰ-of_get_all m (j ∷ ids) i = elim (Option-cases (lookup j m)) [
    | inl gone ↦
        let (id, k, e) = Memᴰ-of_get_all m ids (rw (gone, get_all) at i) in (id, Memᴰ.tail k, e)
    | inr (w, there) ↦ elim (Memᴰ.cases_cons (rw (there, get_all) at i)) [
      | inl p ↦ (j, Memᴰ.head refl, rw p there)
      | inr k ↦ let (id, k', e) = Memᴰ-of_get_all m ids k in (id, Memᴰ.tail k', e)
    ]
  ]

module _ {N : Type 0} where
  abbrev active_in : String → Option (Alert N) → Bool
  active_in symbol none = false
  active_in symbol (some a) = str_eq a.symbol symbol && is_active a.status

  abbrev owned_by : String → Option (Alert N) → Bool
  owned_by user none = false
  owned_by user (some a) = str_eq a.user_id user

  -- Alerts stand under their ids, and both indexes hold exactly the ids that a scan finds.
  pub record IsIndexed (s : AlertStore N) : Type 0 where
    pub keyed : (id : String) (a : Alert N) → find_alert id s ≡ some a → a.id ≡ id
    pub by_symbol :
        (symbol id : String)
        → has id (ids_at symbol s.active_by_symbol) ≡ active_in symbol (find_alert id s)
    pub by_user :
        (user id : String) → has id (ids_at user s.alerts_by_user) ≡ owned_by user (find_alert id s)

  -- A write keeps the symbol and the owner of a stored alert.
  abbrev pub KeepsIdentity : Alert N → AlertStore N → Type 0
  KeepsIdentity a s =
      (b : Alert N) → find_alert a.id s ≡ some b → (b.symbol ≡ a.symbol) × (b.user_id ≡ a.user_id)

  pub find_alert-save_alert :
      (a : Alert N) (s : AlertStore N) (id : String)
      → find_alert id (save_alert a s) ≡ (if str_eq a.id id then some a else find_alert id s)
  unfolding save_alert index
  find_alert-save_alert a s id = lookup-insert a.id id a s.alerts

  save_alert-keyed :
      (a : Alert N) (s : AlertStore N)
      → IsIndexed s
      → (id : String) (b : Alert N) → find_alert id (save_alert a s) ≡ some b
      → b.id ≡ id
  save_alert-keyed a s h id b e =
      ground (arith, find_alert-save_alert a s id, eq_iff a.id id, h.keyed id b)

  -- What a write that keeps the identity finds under the id.
  identity_cases :
      (a : Alert N) (s : AlertStore N)
      → KeepsIdentity a s
      → (find_alert a.id s ≡ none)
        ⊎ ((b : Alert N) × (find_alert a.id s ≡ some b)
            × (b.symbol ≡ a.symbol)
            × (b.user_id ≡ a.user_id))
  identity_cases a s k = elim (Option-cases (find_alert a.id s)) [
    | inl fresh ↦ inl fresh
    | inr (b, old) ↦ inr (b, old, (k b old).0, (k b old).1)
  ]

  save_alert-by_symbol :
      (a : Alert N) (s : AlertStore N)
      → IsIndexed s
      → KeepsIdentity a s
      → (symbol id : String)
      → has id (ids_at symbol (save_alert a s).active_by_symbol)
        ≡ active_in symbol (find_alert id (save_alert a s))
  unfolding save_alert index
  save_alert-by_symbol a s h k symbol id =
      let ids = ids_at a.symbol s.active_by_symbol in
      ground (
        arith,
        ids_at-put_ids a.symbol symbol
            (if is_active a.status then set_add a.id ids else set_delete a.id ids)
            s.active_by_symbol,
        has-set_add a.id id ids,
        has-set_delete a.id id ids,
        lookup-insert a.id id a s.alerts,
        eq_iff a.id id,
        eq_iff a.symbol symbol,
        h.by_symbol symbol id,
        identity_cases a s k,
      )

  save_alert-by_user :
      (a : Alert N) (s : AlertStore N)
      → IsIndexed s
      → KeepsIdentity a s
      → (user id : String)
      → has id (ids_at user (save_alert a s).alerts_by_user)
        ≡ owned_by user (find_alert id (save_alert a s))
  unfolding save_alert index
  save_alert-by_user a s h k user id =
      let ids = ids_at a.user_id s.alerts_by_user in
      ground (
        arith,
        ids_at-insert a.user_id user (set_add a.id ids) s.alerts_by_user,
        has-set_add a.id id ids,
        lookup-insert a.id id a s.alerts,
        eq_iff a.id id,
        eq_iff a.user_id user,
        h.by_user user id,
        identity_cases a s k,
      )

  pub empty_store-IsIndexed : IsIndexed (empty_store {N = N})
  unfolding empty_store lookup has
  empty_store-IsIndexed = record {
    keyed = λ id a e. cc;
    by_symbol = λ symbol id. refl;
    by_user = λ user id. refl;
  }

  -- Saving an alert under its id keeps the index right, provided that a stored alert of that id
  -- has the same symbol and owner.
  pub save_alert-IsIndexed :
      (a : Alert N) (s : AlertStore N)
      → IsIndexed s
      → KeepsIdentity a s
      → IsIndexed (save_alert a s)
  save_alert-IsIndexed a s h k = record {
    keyed = save_alert-keyed a s h;
    by_symbol = save_alert-by_symbol a s h k;
    by_user = save_alert-by_user a s h k;
  }

  pub save_delivery-IsIndexed :
      (d : AlertDelivery N) (s : AlertStore N) → IsIndexed s → IsIndexed (save_delivery d s)
  unfolding save_delivery
  save_delivery-IsIndexed d s h = record {
    keyed = h.keyed;
    by_symbol = h.by_symbol;
    by_user = h.by_user;
  }

  -- The query by the index of active alerts returns exactly the stored active alerts of the
  -- symbol.
  pub list_active_by_symbol_iff :
      (symbol : String) (s : AlertStore N) (a : Alert N)
      → IsIndexed s
      → Memᴰ a (list_active_by_symbol symbol s)
        ↔ (find_alert a.id s ≡ some a) × (a.symbol ≡ symbol) × (a.status ≡ active)
  unfolding list_active_by_symbol
  list_active_by_symbol_iff symbol s a h = (
    λ m.
        let (id, i, e) = Memᴰ-of_get_all s.alerts _ m in
        let named = h.keyed id a e in
        ground (arith, has-of_Memᴰ id _ i, h.by_symbol symbol id, eq_iff a.symbol symbol),
    λ (e, q, r).
        Memᴰ-get_all s.alerts _ e
          (Memᴰ-of_has a.id _ (ground (arith, h.by_symbol symbol a.id, eq_iff a.symbol symbol))),
  )

  -- The query by the index of owners returns exactly the stored alerts of the user.
  pub list_alerts_by_user_iff :
      (user : String) (s : AlertStore N) (a : Alert N)
      → IsIndexed s
      → Memᴰ a (list_alerts_by_user user s) ↔ (find_alert a.id s ≡ some a) × (a.user_id ≡ user)
  unfolding list_alerts_by_user
  list_alerts_by_user_iff user s a h = (
    λ m.
        let (id, i, e) = Memᴰ-of_get_all s.alerts _ m in
        let named = h.keyed id a e in
        ground (arith, has-of_Memᴰ id _ i, h.by_user user id, eq_iff a.user_id user),
    λ (e, q).
        Memᴰ-get_all s.alerts _ e
          (Memᴰ-of_has a.id _ (ground (arith, h.by_user user a.id, eq_iff a.user_id user))),
  )
