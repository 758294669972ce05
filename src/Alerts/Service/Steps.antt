-- ===== src/Alerts/Service/Steps.antt =====
-- What an operation may do to the store: a step relation that leaves out the checks.
use atabak_gold.Base.{ℕ, ◌<◌, ◌≡◌, ◌≢◌, false, none, some, String}
use atabak_gold.Alerts.Types.{
  Alert, AlertStatus, active, disabled, triggered, deleted, AlertDelivery,
}
use atabak_gold.Alerts.Service.Deliveries.{waiting}
use atabak_gold.Alerts.Store.{
  AlertStore, find_alert, find_delivery_by_alert, save_alert, save_delivery, count_for_capacity,
}

-- The moves that a user can make.
pub data Move : AlertStatus → AlertStatus → Type 0 where
  enabling : Move disabled active
  disabling : Move active disabled
  editing_active : Move active active
  editing_disabled : Move disabled disabled
  removing : {s : AlertStatus} → s ≢ deleted → Move s deleted

module _ {N : Type 0} where
  -- The fields that no operation changes.
  pub record SameAlert (b a : Alert N) : Type 0 where
    pub id : b.id ≡ a.id
    pub symbol : b.symbol ≡ a.symbol
    pub user : b.user_id ≡ a.user_id
    pub type : b.type ≡ a.type
    pub direction : b.direction ≡ a.direction

  -- `limit` is the capacity of each user, which an added alert respects.
  pub data Step (limit : String → ℕ) (s : AlertStore N) : AlertStore N → Type 0 where
    keep : Step limit s s
    add :
        (a : Alert N)
        → find_alert a.id s ≡ none
        → a.status ≡ active
        → count_for_capacity a.user_id s < limit a.user_id
        → Step limit s (save_alert a s)
    change :
        (b a : Alert N)
        → find_alert a.id s ≡ some b
        → SameAlert b a
        → Move b.status a.status
        → Step limit s (save_alert a s)
    fire :
        (b a : Alert N) (d : AlertDelivery N)
        → find_alert a.id s ≡ some b
        → SameAlert b a
        → b.status ≡ active
        → a.status ≡ triggered
        → d.alert_id ≡ a.id
        → find_delivery_by_alert a.id s ≡ none
        → Step limit s (save_delivery d (save_alert a s))
    deliver :
        (e d : AlertDelivery N)
        → find_delivery_by_alert d.alert_id s ≡ some e
        → (waiting e ≡ false → waiting d ≡ false)
        → Step limit s (save_delivery d s)
