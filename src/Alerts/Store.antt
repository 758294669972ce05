-- ===== src/Alerts/Store.antt =====
-- src/alerts/alert.store.ts: the maps of the store, the index over them, and the operations of one
-- transaction. A transaction runs to its end before the next one starts, so that an operation is a
-- function from the store to a result and the store. Reading and writing the file is left out.
pub mod Index
use text.Mathlib.Text.{◌==◌ as str_eq}
use atabak_gold.Base.{
  ℕ, Bool, ◌&&◌, Option, none, some, List, [], ◌∷◌, String, if◌then◌else◌, length, filter, or_else,
}
use atabak_gold.Base.Dict.{lookup, insert, values}
use atabak_gold.Base.Sets.{set_add, set_delete, ids_at, put_ids}
use atabak_gold.Alerts.Types.{Alert, AlertDelivery, is_active, counts_towards_capacity}

pub record AlertStore (N : Type 0) : Type 0 where
  pub alerts : List (String × Alert N)
  pub deliveries : List (String × AlertDelivery N)
  pub active_by_symbol : List (String × List String)
  pub alerts_by_user : List (String × List String)

-- `ids.map((id) => map.get(id)).filter((x) => x !== undefined)`.
unfoldable pub get_all {ℓ} : {V : Type ℓ} → List (String × V) → List String → List V
get_all m [] = []
get_all m (id ∷ ids) = elim (lookup id m) [ none ↦ get_all m ids | some v ↦ v ∷ get_all m ids ]

module _ {N : Type 0} where
  unfoldable pub empty_store : AlertStore N
  empty_store = record { alerts = []; deliveries = []; active_by_symbol = []; alerts_by_user = [] }

  unfoldable pub index : Alert N → AlertStore N → AlertStore N
  index alert s =
      let active_ids = ids_at alert.symbol s.active_by_symbol in
      let user_alerts = ids_at alert.user_id s.alerts_by_user in
      record s {
        alerts_by_user = insert alert.user_id (set_add alert.id user_alerts) s.alerts_by_user;
        active_by_symbol =
            put_ids alert.symbol
              (if is_active alert.status
                then set_add alert.id active_ids
                else set_delete alert.id active_ids)
              s.active_by_symbol;
      }

  -- `AlertTransactionImpl.saveAlert`, with `onAlertSaved` bound to `index`.
  unfoldable pub save_alert : Alert N → AlertStore N → AlertStore N
  save_alert alert s = index alert (record s { alerts = insert alert.id alert s.alerts })

  unfoldable pub save_delivery : AlertDelivery N → AlertStore N → AlertStore N
  save_delivery delivery s = record s {
    deliveries = insert delivery.alert_id delivery s.deliveries;
  }

  abbrev pub find_alert : String → AlertStore N → Option (Alert N)
  find_alert id s = lookup id s.alerts

  abbrev pub find_delivery_by_alert : String → AlertStore N → Option (AlertDelivery N)
  find_delivery_by_alert id s = lookup id s.deliveries

  -- `AlertStore.listActiveBySymbol`, by the index.
  unfoldable pub list_active_by_symbol : String → AlertStore N → List (Alert N)
  list_active_by_symbol symbol s = get_all s.alerts (ids_at symbol s.active_by_symbol)

  -- `AlertStore.listAlertsByUser`, by the index.
  unfoldable pub list_alerts_by_user : String → AlertStore N → List (Alert N)
  list_alerts_by_user user s = get_all s.alerts (ids_at user s.alerts_by_user)

  -- `AlertTransactionImpl.listAlertsByUser`, by a filter over all alerts.
  abbrev pub scan_alerts_by_user : String → AlertStore N → List (Alert N)
  scan_alerts_by_user user s = filter (λ a. str_eq a.user_id user) (values s.alerts)

  abbrev pub occupies : String → Alert N → Bool
  occupies user a = str_eq a.user_id user && counts_towards_capacity a.status

  -- `AlertTransactionImpl.countForCapacity`.
  unfoldable pub count_for_capacity : String → AlertStore N → ℕ
  count_for_capacity user s = length (filter (occupies user) (values s.alerts))
