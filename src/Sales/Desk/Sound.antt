-- ===== src/Sales/Desk/Sound.antt =====
-- The invariant of the store of src/sales/sales.store.ts: leads are listed once under their own ids,
-- their ids are drawn from the counter and their submission keys are indexed.
use text.Mathlib.Text.{◌==◌ as str_eq}
use text.Mathlib.TextEquality.{eq_iff}
use atabak_gold.Base.{
  ℕ, ◌≤◌, ◌≡◌, refl, sym, ap, true, some, List, [], ◌∷◌, String, arith, inl, inr, Bool-cases,
  or_else, is_some,
}
use atabak_gold.Base.Dict.{lookup, insert, values, lookup-insert}
use atabak_gold.Sales.Desk.Types.{LeadRecord}
use atabak_gold.Sales.Desk.Store.{
  SalesStore, submissions_of, commit_draft, has_submission_key, empty_store,
}
use atabak_gold.Sales.Desk.Input.{SalesEnv}
use atabak_gold.Sales.Desk.Create.{find_key}
use atabak_gold.Sales.Desk.Kept.{AreKept, insert-AreKept, lookup-leads_of}
use atabak_gold.Sales.Desk.Advance.{lookup-commit_draft, commit_draft-AreKept}

-- The lead that is listed under an id has it.
pub lead_id-lookup :
    (id : String) (lead : LeadRecord) (m : List (String × LeadRecord))
    → AreKept m
    → lookup id m ≡ some lead
    → lead.lead_id ≡ id
unfolding lookup
lead_id-lookup id lead [] kept h = ground arith
lead_id-lookup id lead ((at, x) ∷ m) (own, (once, rest)) h =
    ground (arith, eq_iff at id, lead_id-lookup id lead m rest)

-- The keys that the index has before the loop, it has after it.
submissions_of-has :
    (key : String) (leads : List LeadRecord) (m : List (String × String))
    → is_some (lookup key m) ≡ true
    → is_some (lookup key (submissions_of leads m)) ≡ true
unfolding submissions_of
submissions_of-has key [] m h = h
submissions_of-has key (lead ∷ leads) m h =
    submissions_of-has key leads (insert lead.submission_key lead.lead_id m)
      (ground (arith, lookup-insert lead.submission_key key lead.lead_id m))

-- The loop indexes the key of every listed lead.
pub submissions_of-listed :
    (id : String) (lead : LeadRecord) (m : List (String × LeadRecord))
    (acc : List (String × String))
    → lookup id m ≡ some lead
    → is_some (lookup lead.submission_key (submissions_of (values m) acc)) ≡ true
unfolding submissions_of lookup
submissions_of-listed id lead [] acc h = ground arith
submissions_of-listed id lead ((at, x) ∷ m) acc h = elim (Bool-cases (str_eq at id)) [
  | inl e ↦
      let same : some x ≡ some lead = rw e at h in
      submissions_of-has lead.submission_key (values m) (insert x.submission_key x.lead_id acc) (
        ground (
          arith,
          lookup-insert x.submission_key lead.submission_key x.lead_id acc,
          eq_iff x.submission_key lead.submission_key,
        ))
  | inr e ↦ submissions_of-listed id lead m (insert x.submission_key x.lead_id acc) (rw e at h)
]

-- The search by key finds a lead when one with it is listed.
pub find_key-listed :
    (id : String) (lead : LeadRecord) (m : List (String × LeadRecord))
    → lookup id m ≡ some lead
    → is_some (find_key lead.submission_key (values m)) ≡ true
unfolding find_key lookup
find_key-listed id lead [] h = ground arith
find_key-listed id lead ((at, x) ∷ m) h =
    ground
      (arith, eq_iff at id, eq_iff x.submission_key lead.submission_key, find_key-listed id lead m)

abbrev pub IsNumbered : SalesEnv → ℕ → String → Type 0
IsNumbered env bound id = (n : ℕ) × ((id ≡ env.id_text "lead" n) × (n ≤ bound))

pub grown :
    (env : SalesEnv) (a b : ℕ) (id : String) → a ≤ b → IsNumbered env a id → IsNumbered env b id
grown env a b id h (n, (e, below)) = (n, (e, ground (arith, below, h)))

module _ {N : Type 0} where
  pub record IsSound (env : SalesEnv) (s : SalesStore N) : Type 0 where
    pub kept : AreKept s.leads
    pub numbered :
        (id : String) (lead : LeadRecord)
        → lookup id s.leads ≡ some lead
        → IsNumbered env (or_else (lookup "lead" s.sequences) 0) id
    pub indexed :
        (id : String) (lead : LeadRecord)
        → lookup id s.leads ≡ some lead
        → has_submission_key lead.submission_key s ≡ true

  pub empty_store-IsSound : (env : SalesEnv) → IsSound env (empty_store {N = N})
  unfolding empty_store lookup
  empty_store-IsSound env = record {
    kept = tt;
    numbered = λ id lead h. ground arith;
    indexed = λ id lead h. ground arith;
  }

  commit_draft-indexed :
      (d : SalesStore N) (id : String) (lead : LeadRecord)
      → AreKept d.leads
      → lookup id (commit_draft d).leads ≡ some lead
      → has_submission_key lead.submission_key (commit_draft d) ≡ true
  unfolding commit_draft lookup
  commit_draft-indexed d id lead kept h =
      submissions_of-listed id lead d.leads [] (ground (arith, lookup-leads_of id d.leads [] kept))

  abbrev pub lead_counter : SalesStore N → ℕ
  lead_counter s = or_else (lookup "lead" s.sequences) 0

  commit_draft-sequences : (d : SalesStore N) → lead_counter (commit_draft d) ≡ lead_counter d
  unfolding commit_draft
  commit_draft-sequences d = refl

  -- The commit of a draft that writes one lead with a drawn id.
  pub commit_draft-IsSound :
      (env : SalesEnv) (lead : LeadRecord) (s d : SalesStore N)
      → IsSound env s
      → d.leads ≡ insert lead.lead_id lead s.leads
      → lead_counter s ≤ lead_counter d
      → IsNumbered env (lead_counter d) lead.lead_id
      → IsSound env (commit_draft d)
  commit_draft-IsSound env lead s d sound leads more drawn = record {
    kept = commit_draft-AreKept d;
    numbered = λ id x h. elim (Bool-cases (str_eq lead.lead_id id)) [
      | inl e ↦ rw (commit_draft-sequences d, sym ((eq_iff lead.lead_id id).0 e)) drawn
      | inr e ↦ rw (commit_draft-sequences d) (
          grown env (lead_counter s) (lead_counter d) id more
            (sound.numbered id x (rw (lookup-commit_draft lead s d id sound.kept leads, e) at h)))
    ];
    indexed =
        λ id x h. commit_draft-indexed d id x (rw leads (insert-AreKept lead s.leads sound.kept)) h;
  }

  -- The commit of a draft with the leads of a store.
  pub commit_draft-IsSound_rows :
      (env : SalesEnv) (s d : SalesStore N)
      → IsSound env s
      → d.leads ≡ s.leads
      → lead_counter s ≤ lead_counter d
      → IsSound env (commit_draft d)
  unfolding commit_draft lookup
  commit_draft-IsSound_rows env s d sound leads more = record {
    kept = commit_draft-AreKept d;
    numbered = λ id x h. grown env (lead_counter s) (lead_counter d) id more (
        sound.numbered id x (
          ground
            (arith, lookup-leads_of id d.leads [] (rw leads sound.kept), ap (lookup id) leads)));
    indexed = λ id x h. commit_draft-indexed d id x (rw leads sound.kept) h;
  }
