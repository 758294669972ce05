-- ===== src/Sales/Desk/Answers.antt =====
-- The failures of the operations of src/sales/sales.service.ts.
use atabak_gold.Base.{◌≡◌, Option, none, some}
use atabak_gold.Sales.Lead.Defs.{SalesResult, ok, fail, SalesFailure}
use atabak_gold.Sales.Desk.Types.{LeadRecord}
use atabak_gold.Sales.Desk.Store.{SalesStore}

module _ {N : Type 0} where
  -- When the answer is a failure, the store is the one before.
  abbrev pub Unchanged : {A : Type 0} → SalesStore N → SalesResult A × SalesStore N → Type 0
  Unchanged s answer = (f : SalesFailure) → answer.0 ≡ fail f → answer.1 ≡ s

  -- The same for a conversion, which may throw instead of an answer.
  abbrev pub CallUnchanged : SalesStore N → Option (SalesResult LeadRecord) × SalesStore N → Type 0
  CallUnchanged s answer = (f : SalesFailure) → answer.0 ≡ some (fail f) → answer.1 ≡ s

  -- A conversion throws only after its first transaction has converted the lead, and its second
  -- transaction then writes nothing.
  abbrev pub ThrowsConverted :
      SalesResult LeadRecord × SalesStore N
      → (SalesStore N → SalesStore N)
      → Option (SalesResult LeadRecord) × SalesStore N
      → Type 0
  ThrowsConverted first meanwhile answer =
      answer.0 ≡ none
      → (updated : LeadRecord) × (first.0 ≡ ok updated) × (answer.1 ≡ meanwhile first.1)
