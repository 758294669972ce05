-- ===== src/Sales/Desk/Store.antt =====
-- src/sales/sales.store.ts: the maps of the document, the operations of a transaction on its draft,
-- and the commit, which builds the indexes from the leads. A write of the file that fails is an
-- argument. Notifications are left out.
use text.Mathlib.Text.{◌==◌ as str_eq}
use atabak_gold.Base.{
  ℕ, ◌+◌, Bool, Option, none, some, List, [], ◌∷◌, ◌++◌, String, or_else, filter, is_some,
}
use atabak_gold.Base.Dict.{lookup, insert, values}
use atabak_gold.Base.Sets.{set_add, ids_at}
use atabak_gold.Sales.Desk.Types.{LeadRecord, LeadActivityRecord, SalesOutcomeRecord}

pub record SalesStore (N : Type 0) : Type 0 where
  pub leads : List (String × LeadRecord)
  pub references : List (String × String)
  pub submissions : List (String × String)
  pub identities : List (String × List String)
  pub activities : List LeadActivityRecord
  pub outcomes : List (String × SalesOutcomeRecord N)
  pub sequences : List (String × ℕ)

-- The loops of `commit` over the leads of the document.
unfoldable pub references_of : List LeadRecord → List (String × String) → List (String × String)
references_of [] m = m
references_of (lead ∷ leads) m = references_of leads (insert lead.reference lead.lead_id m)

unfoldable pub submissions_of : List LeadRecord → List (String × String) → List (String × String)
submissions_of [] m = m
submissions_of (lead ∷ leads) m = submissions_of leads (insert lead.submission_key lead.lead_id m)

unfoldable pub identities_of :
    List LeadRecord → List (String × List String) → List (String × List String)
identities_of [] m = m
identities_of (lead ∷ leads) m =
    identities_of leads
      (insert lead.identity_key (set_add lead.lead_id (ids_at lead.identity_key m)) m)

unfoldable pub leads_of : List LeadRecord → List (String × LeadRecord) → List (String × LeadRecord)
leads_of [] m = m
leads_of (lead ∷ leads) m = leads_of leads (insert lead.lead_id lead m)

abbrev pub get_leads : List (String × LeadRecord) → List String → List LeadRecord
get_leads m [] = []
get_leads m (id ∷ ids) =
    let rest = get_leads m ids in elim (lookup id m) [ none ↦ rest | some lead ↦ lead ∷ rest ]

module _ {N : Type 0} where
  unfoldable pub empty_store : SalesStore N
  empty_store = record {
    leads = [];
    references = [];
    submissions = [];
    identities = [];
    activities = [];
    outcomes = [];
    sequences = [];
  }

  abbrev pub find_lead_by_id : String → SalesStore N → Option LeadRecord
  find_lead_by_id id s = lookup id s.leads

  abbrev found_by : Option String → SalesStore N → Option LeadRecord
  found_by none s = none
  found_by (some id) s = find_lead_by_id id s

  unfoldable pub find_lead_by_reference : String → SalesStore N → Option LeadRecord
  find_lead_by_reference reference s = found_by (lookup reference s.references) s

  abbrev pub has_submission_key : String → SalesStore N → Bool
  has_submission_key key s = is_some (lookup key s.submissions)

  abbrev pub list_leads : SalesStore N → List LeadRecord
  list_leads s = values s.leads

  unfoldable pub list_leads_by_identity : String → SalesStore N → List LeadRecord
  list_leads_by_identity identity s = get_leads s.leads (ids_at identity s.identities)

  unfoldable pub list_activities : String → SalesStore N → List LeadActivityRecord
  list_activities id s = filter (λ activity. str_eq activity.lead_id id) s.activities

  unfoldable pub list_outcomes : String → SalesStore N → List (SalesOutcomeRecord N)
  list_outcomes id s = filter (λ outcome. str_eq outcome.lead_id id) (values s.outcomes)

  -- The number that `nextId` draws for a prefix, and the draft after it.
  abbrev pub next_number : String → SalesStore N → ℕ
  next_number prefix s = or_else (lookup prefix s.sequences) 0 + 1

  unfoldable pub count_id : String → SalesStore N → SalesStore N
  count_id prefix s = record s { sequences = insert prefix (next_number prefix s) s.sequences }

  unfoldable pub save_lead : LeadRecord → SalesStore N → SalesStore N
  save_lead lead s = record s {
    leads = insert lead.lead_id lead s.leads;
    references = insert lead.reference lead.lead_id s.references;
    identities =
        insert lead.identity_key (set_add lead.lead_id (ids_at lead.identity_key s.identities))
          s.identities;
    submissions = insert lead.submission_key lead.lead_id s.submissions;
  }

  unfoldable pub append_activity : LeadActivityRecord → SalesStore N → SalesStore N
  append_activity activity s = record s { activities = s.activities ++ (activity ∷ []) }

  unfoldable pub save_outcome : SalesOutcomeRecord N → SalesStore N → SalesStore N
  save_outcome outcome s = record s { outcomes = insert outcome.outcome_id outcome s.outcomes }

  unfoldable pub commit_draft : SalesStore N → SalesStore N
  commit_draft draft =
      let leads = values draft.leads in
      record draft {
        leads = leads_of leads [];
        references = references_of leads [];
        submissions = submissions_of leads [];
        identities = identities_of leads [];
      }
