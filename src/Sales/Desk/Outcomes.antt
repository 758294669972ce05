-- ===== src/Sales/Desk/Outcomes.antt =====
-- The active outcomes of the leads in the store of src/sales/sales.store.ts.
use text.Mathlib.Text.{◌==◌ as str_eq}
use text.Mathlib.TextEquality.{eq_iff}
use atabak_gold.Base.{
  ℕ, ◌≤◌, ◌≡◌, refl, sym, ap, ◌∙◌, Bool, true, false, ◌&&◌, none, some, List, [], ◌∷◌, String,
  arith, inl, inr, Bool-cases, Memᴰ, Memᴰ-filter, Memᴰ-of_filter, length, filter,
}
use atabak_gold.Base.Dict.{lookup, insert, values, length-filter-insert_new}
use atabak_gold.Sales.Desk.Types.{SalesOutcomeRecord, outcome_active}
use atabak_gold.Sales.Desk.Store.{SalesStore, list_outcomes}
use atabak_gold.Sales.Desk.Sale.{Amounts, is_active, first_active, active_outcome}

module _ {N : Type 0} where
  abbrev pub active_for : String → SalesOutcomeRecord N → Bool
  active_for id o = str_eq o.lead_id id && is_active o.status

  -- How many active outcomes of a lead a map has.
  abbrev pub active_count : String → List (String × SalesOutcomeRecord N) → ℕ
  active_count id m = length (filter (active_for id) (values m))

  -- Each outcome is listed once, under its own id.
  abbrev pub AreOwn : List (String × SalesOutcomeRecord N) → Type 0
  AreOwn [] = Unit
  AreOwn ((id, o) ∷ m) = (o.outcome_id ≡ id) × ((lookup id m ≡ none) × AreOwn m)

  lookup-own :
      (o : SalesOutcomeRecord N) (m : List (String × SalesOutcomeRecord N))
      → AreOwn m
      → Memᴰ o (values m)
      → lookup o.outcome_id m ≡ some o
  unfolding lookup
  lookup-own o [] own h = elim h [ ]
  lookup-own o ((id, x) ∷ m) (same, (once, rest)) (Memᴰ.head e) =
      ground (arith, e, same, eq_iff id o.outcome_id)
  lookup-own o ((id, x) ∷ m) (same, (once, rest)) (Memᴰ.tail h) =
      ground (arith, lookup-own o m rest h, once, eq_iff id o.outcome_id)

  first_active-none :
      (o : SalesOutcomeRecord N) (xs : List (SalesOutcomeRecord N))
      → first_active xs ≡ none
      → Memᴰ o xs
      → is_active o.status ≡ false
  first_active-none o [] h at = elim at [ ]
  first_active-none o (x ∷ xs) h (Memᴰ.head e) = ground (arith, e)
  first_active-none o (x ∷ xs) h (Memᴰ.tail at) = ground (arith, first_active-none o xs, at)

  first_active-some :
      (o : SalesOutcomeRecord N) (xs : List (SalesOutcomeRecord N))
      → first_active xs ≡ some o
      → Memᴰ o xs × (is_active o.status ≡ true)
  first_active-some o [] h = ground arith
  first_active-some o (x ∷ xs) h = elim (Bool-cases (is_active x.status)) [
    | inl e ↦
        let same : x ≡ o = ground (arith, e) in
        (Memᴰ.head (sym same), ap (λ y. is_active y.status) (sym same) ∙ e)
    | inr e ↦
        let (there, active) = first_active-some o xs (ground (arith, e)) in
        (Memᴰ.tail there, active)
  ]

  none_active :
      (p : SalesOutcomeRecord N → Bool) (xs : List (SalesOutcomeRecord N))
      → ((o : SalesOutcomeRecord N) → Memᴰ o xs → p o ≡ false)
      → length (filter p xs) ≡ 0
  none_active p [] h = refl
  none_active p (x ∷ xs) h =
      ground (arith, h x (Memᴰ.head refl), none_active p xs (λ o at. h o (Memᴰ.tail at)))

  -- The sort of a list keeps its elements.
  abbrev pub IsSort : (List (SalesOutcomeRecord N) → List (SalesOutcomeRecord N)) → Type 0
  IsSort sort =
      ((xs : List (SalesOutcomeRecord N)) (o : SalesOutcomeRecord N) → Memᴰ o xs → Memᴰ o (sort xs))
      × ((xs : List (SalesOutcomeRecord N)) (o : SalesOutcomeRecord N)
          → Memᴰ o (sort xs)
          → Memᴰ o xs)

  -- No lead has two active outcomes, and the lead of the outcome has one.
  abbrev pub OneActive : String → List (String × SalesOutcomeRecord N) → Type 0
  OneActive id m = ((i : String) → active_count i m ≤ 1) × (active_count id m ≡ 1)

  -- A lead without an active outcome in the sorted list has none in the map.
  pub active_outcome-none :
      (amounts : Amounts N) (id : String) (s : SalesStore N)
      → IsSort amounts.newest_first
      → active_outcome amounts id s ≡ none
      → active_count id s.outcomes ≡ 0
  unfolding active_outcome list_outcomes
  active_outcome-none amounts id s sorted h =
      none_active (active_for id) (values s.outcomes) (λ o at.
        elim (Bool-cases (str_eq o.lead_id id)) [
          | inr e ↦ rw e refl
          | inl e ↦ rw e (
              first_active-none o (amounts.newest_first (list_outcomes id s)) h (
                sorted.0 (list_outcomes id s) o
                  (Memᴰ-filter (λ x. str_eq x.lead_id id) (values s.outcomes) at e)))
        ])

  -- The active outcome that is found is in the map, of the lead and active.
  pub active_outcome-some :
      (amounts : Amounts N) (id : String) (s : SalesStore N) (o : SalesOutcomeRecord N)
      → IsSort amounts.newest_first
      → AreOwn s.outcomes
      → active_outcome amounts id s ≡ some o
      → (lookup o.outcome_id s.outcomes ≡ some o)
        × ((str_eq o.lead_id id ≡ true) × (is_active o.status ≡ true))
  unfolding active_outcome list_outcomes
  active_outcome-some amounts id s o sorted own h =
      let (there, active) = first_active-some o (amounts.newest_first (list_outcomes id s)) h in
      let (listed, its) =
        Memᴰ-of_filter (λ x. str_eq x.lead_id id) (values s.outcomes)
          (sorted.1 (list_outcomes id s) o there) in
      (lookup-own o s.outcomes own listed, (its, active))

  -- A new active outcome in a map where its lead has none.
  pub insert-OneActive :
      (o : SalesOutcomeRecord N) (m : List (String × SalesOutcomeRecord N))
      → lookup o.outcome_id m ≡ none
      → o.status ≡ outcome_active
      → active_count o.lead_id m ≡ 0
      → ((i : String) → active_count i m ≤ 1)
      → OneActive o.lead_id (insert o.outcome_id o m)
  insert-OneActive o m new active zero_count bound = (
    (λ i. elim (Bool-cases (str_eq o.lead_id i)) [
      | inl e ↦
          let same : o.lead_id ≡ i = (eq_iff o.lead_id i).0 e in
          ground (
            arith,
            length-filter-insert_new (active_for i) o.outcome_id o m new,
            bound i,
            e,
            ap (λ x. active_count x m) same,
            zero_count,
          )
      | inr e ↦
          ground (arith, length-filter-insert_new (active_for i) o.outcome_id o m new, bound i, e)
    ]),
    ground (
      arith,
      length-filter-insert_new (active_for o.lead_id) o.outcome_id o m new,
      active,
      eq_iff o.lead_id o.lead_id,
      zero_count,
    ),
  )
