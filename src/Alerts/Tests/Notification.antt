-- ===== src/Alerts/Tests/Notification.antt =====
-- Runs of the delivery of a notification, and its theorems at concrete inputs.
use atabak_gold.Base.{
  ℕ, ◌≤◌, true, ◌≡◌, refl, some, List, [], ◌∷◌, Memᴰ, length, if◌then◌else◌, ◌==◌,
}
use atabak_gold.Base.Samples.{whole}
use atabak_gold.Base.Dict.{lookup, insert, values}
use atabak_gold.Base.Sets.{put_ids, set_add}
use atabak_gold.Alerts.Types.{is_percent_alert, counts_towards_capacity}
use atabak_gold.Alerts.Store.{
  AlertStore, find_delivery_by_alert, empty_store, save_alert, save_delivery, index,
  count_for_capacity,
}
use atabak_gold.Alerts.Service.Input.{validate_input, find_definition, is_valid_target_price}
use atabak_gold.Alerts.Service.Create.{create, is_same_target}
use atabak_gold.Alerts.Service.Mutations.{saved}
use atabak_gold.Alerts.Service.Deliveries.{
  reserve_trigger, begin_attempt, mark_sent, record_failure, on_delivery,
}
use atabak_gold.Alerts.Service.Consistency.{IsConsistent}
use atabak_gold.Alerts.Service.Operations.{
  Operation, run, apply, reserving, beginning, removing_alert,
}
use atabak_gold.Alerts.Service.Runs.{run-IsConsistent}
use atabak_gold.Alerts.Notification.Defs.{
  Reply, delivered, refused, Round, Notices, check, deliver_from, deliver,
}
use atabak_gold.Alerts.Notification.Attempts.{OnceAtEnd}
use atabak_gold.Alerts.Notification.Closed.{deliver-Closes}
use atabak_gold.Alerts.Notification.Settled.{CalmFrom, Settles, deliver-Settles}
use atabak_gold.Alerts.Tests.{services, stored, reservation, created-IsConsistent}
use atabak_gold.Alerts.Tests.Engine.{delivery}

abbrev notices : Notices ℕ
notices = record {
  unconfigured = "not configured";
  exhausted = "failed";
  unknown_outcome = "unknown";
  last = [];
}

abbrev quiet : Reply → Round ℕ
quiet reply = record {
  before = [];
  checked = [];
  while_sending = [];
  configured = true;
  reply = reply;
  now = "t3";
}

-- The first attempt fails and the second one succeeds.
abbrev world : ℕ → Round ℕ
world attempt = quiet (if attempt == 1 then refused "busy" else delivered)

abbrev reserved : AlertStore ℕ
reserved = run services (reserving "alt_1" reservation "dlv_1" "t1" ∷ []) stored

deliver_test :
    (deliver services notices world 2 delivery reserved).0 ≡ refused "busy" ∷ delivered ∷ []
unfolding run apply create reserve_trigger begin_attempt mark_sent on_delivery empty_store
    count_for_capacity whole lookup insert validate_input find_definition is_percent_alert
    counts_towards_capacity is_valid_target_price saved is_same_target save_alert save_delivery
    index deliver deliver_from check record_failure put_ids set_add
deliver_test = refl

calm : CalmFrom services notices world 3 1 "alt_1" reserved
calm = (tt, tt, tt, (tt, tt, tt, (tt, tt, tt, tt)))

reserved-IsConsistent : IsConsistent reserved
reserved-IsConsistent =
    run-IsConsistent services (reserving "alt_1" reservation "dlv_1" "t1" ∷ []) stored
      created-IsConsistent (tt, tt)

there : find_delivery_by_alert "alt_1" reserved ≡ some delivery
unfolding run apply create reserve_trigger begin_attempt mark_sent on_delivery empty_store
    count_for_capacity whole lookup insert validate_input find_definition is_percent_alert
    counts_towards_capacity is_valid_target_price saved is_same_target save_alert save_delivery
    index
there = refl

-- After the end, the notification is begun again and a deletion and a second call follow.
abbrev after_end : List (Operation ℕ)
after_end = beginning "alt_1" "t4" ∷ removing_alert "usr_1" "alt_1" "t5" reserved ∷ []

deliver-Closes_example :
    (length (deliver services notices world 2 delivery reserved).0 ≤ 3)
    × OnceAtEnd (deliver services notices world 2 delivery reserved).0
    × ((deliver services notices world 2 delivery
          (run services after_end (deliver services notices world 2 delivery reserved).1)).0
        ≡ [])
deliver-Closes_example =
    deliver-Closes services notices world world 2 2 delivery delivery reserved after_end calm
      reserved-IsConsistent (delivery, there) (tt, (tt, tt)) tt refl

deliver-Settles_example : Settles "alt_1" (deliver services notices world 2 delivery reserved).1
deliver-Settles_example =
    deliver-Settles services notices world 2 delivery reserved calm reserved-IsConsistent
      (delivery, there)

in_store : Memᴰ delivery (values reserved.deliveries)
unfolding run apply create reserve_trigger begin_attempt mark_sent on_delivery empty_store
    count_for_capacity whole lookup insert validate_input find_definition is_percent_alert
    counts_towards_capacity is_valid_target_price saved is_same_target save_alert save_delivery
    index
in_store = Memᴰ.head refl
