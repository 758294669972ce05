-- ===== src/Sales/Desk/Runs.antt =====
-- The runs of the sales desk: its transactions one after another, each with what its call read
-- before, which other transactions may have overtaken.
use atabak_gold.Base.{ℕ, ◌≡◌, Option, String}
use atabak_gold.Base.Texts.{Text}
use atabak_gold.Sales.Lifecycle.{LeadStatus}
use atabak_gold.Sales.Desk.Types.{LeadRecord, LeadAction, LossReason}
use atabak_gold.Sales.Desk.Store.{SalesStore, empty_store}
use atabak_gold.Sales.Desk.Input.{SalesEnv, Registered, LeadCreationInput, Drawn}
use atabak_gold.Sales.Desk.Create.{create_lead}
use atabak_gold.Sales.Desk.Updates.{Turn, LeadKey, log_contact, add_note, assign}
use atabak_gold.Sales.Desk.Statuses.{mark_lost, change_status, begin_conversion, link_customer}
use atabak_gold.Sales.Desk.Sale.{Amounts, SalesOutcomeInput, record_sale}
use atabak_gold.Sales.Desk.Repair.{record_notification_activity, repair_integrations}
use atabak_gold.Sales.Desk.Advance.{Advance, Advance-trans}
use atabak_gold.Sales.Desk.Sound.{IsSound, empty_store-IsSound}
use atabak_gold.Sales.Desk.Follow.{Follows, stays}
use atabak_gold.Sales.Desk.Steps.{
  log_contact-Follows, add_note-Follows, assign-Follows, mark_lost-Follows, change_status-Follows,
  begin_conversion-Follows,
}
use atabak_gold.Sales.Desk.Writes.{
  link_customer-Follows, record_notification_activity-Follows, repair_integrations-Follows,
}
use atabak_gold.Sales.Desk.Records.{record_sale-Follows, create_lead-Follows}

module _ {N : Type 0} where
  -- One transaction; the reads of all but the sale may be of any store. `converting` and `linking` are
  -- the two transactions of a conversion.
  pub data Step (env : SalesEnv) : SalesStore N → SalesStore N → Type 0 where
    creating :
        (input : LeadCreationInput) (drawn : Drawn) (s : SalesStore N)
        → Step env s (create_lead env input drawn s).1
    contacting :
        (turn : Turn) (key : LeadKey) (remark : Option Text) (seen s : SalesStore N)
        → Step env s (log_contact env turn key remark seen s).1
    noting :
        (turn : Turn) (key : LeadKey) (remark : Text) (seen s : SalesStore N)
        → Step env s (add_note env turn key remark seen s).1
    assigning :
        (turn : Turn) (key : LeadKey) (assignee : Option String) (seen s : SalesStore N)
        → Step env s (assign env turn key assignee seen s).1
    losing :
        (turn : Turn) (key : LeadKey) (reason : Option LossReason) (remark : Option Text)
        (seen s : SalesStore N)
        → Step env s (mark_lost env turn key reason remark seen s).1
    moving :
        (turn : Turn) (key : LeadKey) (next : LeadStatus) (reason : Option LossReason)
        (remark : Option Text) (seen s : SalesStore N)
        → Step env s (change_status env turn key next reason remark seen s).1
    converting :
        (turn : Turn) (key : LeadKey) (remark : Option Text) (seen s : SalesStore N)
        → Step env s (begin_conversion env turn key remark seen s).1
    linking :
        (turn : Turn) (lead : LeadRecord) (answer : Registered) (s : SalesStore N)
        → Step env s (link_customer env turn lead answer s)
    repairing :
        (turn : Turn) (key : LeadKey) (answer customer_answer : Registered) (seen s : SalesStore N)
        → Step env s (repair_integrations env turn key answer customer_answer seen s).1
    notifying :
        (turn : Turn) (id : String) (action : LeadAction) (s : SalesStore N)
        → Step env s (record_notification_activity env turn id action s)

  -- A sale writes back the lead that it read, in a store that the run has passed.
  pub data Run (env : SalesEnv) (amounts : Amounts N) : SalesStore N → SalesStore N → Type 0 where
    started : (s : SalesStore N) → Run env amounts s s
    stepped : (s t u : SalesStore N) → Run env amounts s t → Step env t u → Run env amounts s u
    selling :
        (turn : Turn) (key : LeadKey) (input : SalesOutcomeInput N) (s seen t : SalesStore N)
        → Run env amounts s seen
        → Run env amounts seen t
        → Run env amounts s (record_sale env amounts turn key input seen t).1

  Step-Follows :
      (env : SalesEnv) (s t : SalesStore N)
      → ((m n : ℕ) → env.id_text "lead" m ≡ env.id_text "lead" n → m ≡ n)
      → IsSound env s
      → Step env s t
      → Follows env s t
  Step-Follows env _ _ ids sound (creating input drawn s) =
      create_lead-Follows env input drawn s sound ids
  Step-Follows env _ _ ids sound (contacting turn key remark seen s) =
      log_contact-Follows env turn key seen s sound remark
  Step-Follows env _ _ ids sound (noting turn key remark seen s) =
      add_note-Follows env turn key seen s sound remark
  Step-Follows env _ _ ids sound (assigning turn key assignee seen s) =
      assign-Follows env turn key seen s sound assignee
  Step-Follows env _ _ ids sound (losing turn key reason remark seen s) =
      mark_lost-Follows env turn key seen s sound reason remark
  Step-Follows env _ _ ids sound (moving turn key next reason remark seen s) =
      change_status-Follows env turn key seen s sound next reason remark
  Step-Follows env _ _ ids sound (converting turn key remark seen s) =
      begin_conversion-Follows env turn key seen s sound remark
  Step-Follows env _ _ ids sound (linking turn lead answer s) =
      link_customer-Follows env turn lead answer s sound
  Step-Follows env _ _ ids sound (repairing turn key answer other seen s) =
      repair_integrations-Follows env turn key answer other seen s sound
  Step-Follows env _ _ ids sound (notifying turn id action s) =
      record_notification_activity-Follows env turn id action s sound

  pub Run-Follows :
      (env : SalesEnv) (amounts : Amounts N) (s t : SalesStore N)
      → ((m n : ℕ) → env.id_text "lead" m ≡ env.id_text "lead" n → m ≡ n)
      → IsSound env s
      → Run env amounts s t
      → Follows env s t
  Run-Follows env amounts _ _ ids sound (started s) = stays env s sound
  Run-Follows env amounts _ _ ids sound (stepped s t u run step) =
      let before = Run-Follows env amounts s t ids sound run in
      let after = Step-Follows env t u ids before.1 step in
      (Advance-trans s t u before.0 after.0, after.1)
  Run-Follows env amounts _ _ ids sound (selling turn key input s seen t first rest) =
      let before = Run-Follows env amounts s seen ids sound first in
      let between = Run-Follows env amounts seen t ids before.1 rest in
      let after = record_sale-Follows env amounts turn key input seen t before.1 between in
      (
        Advance-trans s t (record_sale env amounts turn key input seen t).1
            (Advance-trans s seen t before.0 between.0) after.0,
        after.1,
      )

  -- After the empty store, in every run (any operations in any order, each with reads that other
  -- transactions may have overtaken), provided that the ids of different numbers differ: every later
  -- store has each lead with the submission it was stored with (its ids, customer, platform,
  -- contact, product, consent, campaign and attribution fields) and begins its history with the
  -- earlier rows.
  pub Run-Advance :
      (env : SalesEnv) (amounts : Amounts N) (s t : SalesStore N)
      → ((m n : ℕ) → env.id_text "lead" m ≡ env.id_text "lead" n → m ≡ n)
      → Run env amounts empty_store s
      → Run env amounts s t
      → Advance s t
  Run-Advance env amounts s t ids before run =
      let sound = (Run-Follows env amounts empty_store s ids (empty_store-IsSound env) before).1 in
      (Run-Follows env amounts s t ids sound run).0
