-- ===== src/Base/Dict.antt =====
-- `Map<string, V>` as an association list in insertion order: a write to a key that is present
-- keeps its place, as in JavaScript.
use Prim.Native.String.{String}
use mathlib.Core.Path.{◌≡◌, refl}
use Prim.Native.Nat.{◌+◌}
use mathlib.Core.Bool.{Bool}
use mathlib.Core.List.{List, [], ◌∷◌}
use mathlib.Core.Option.{Option, none, some}
use native.Mathlib.Omega.{arith}
use text.Mathlib.Text.{◌==◌}
use text.Mathlib.TextEquality.{eq_iff}
use atabak_gold.Base.Tests.{if◌then◌else◌}
use atabak_gold.Base.Lists.{length, filter}

module _ {ℓ} {V : Type ℓ} where
  unfoldable pub lookup : String → List (String × V) → Option V
  lookup key [] = none
  lookup key ((name, value) ∷ rest) = if name == key then some value else lookup key rest

  unfoldable pub remove : String → List (String × V) → List (String × V)
  remove key [] = []
  remove key ((name, value) ∷ rest) =
      if name == key then remove key rest else (name, value) ∷ remove key rest

  unfoldable pub insert : String → V → List (String × V) → List (String × V)
  insert key value [] = (key, value) ∷ []
  insert key value ((name, old) ∷ rest) =
      if name == key then (key, value) ∷ rest else (name, old) ∷ insert key value rest

  -- `[...m.values()]`.
  abbrev pub values : List (String × V) → List V
  values [] = []
  values ((k, v) ∷ m) = v ∷ values m

  pub lookup-insert :
      (key at : String) (value : V) (entries : List (String × V))
      → lookup at (insert key value entries) ≡ (if key == at then some value else lookup at entries)
  unfolding lookup insert
  lookup-insert key at value [] = refl
  lookup-insert key at value ((name, old) ∷ rest) =
      ground
        (arith, lookup-insert key at value rest, eq_iff name at, eq_iff name key, eq_iff key at)

  pub lookup-remove :
      (k j : String) (m : List (String × V))
      → lookup j (remove k m) ≡ (if k == j then none else lookup j m)
  unfolding lookup remove
  lookup-remove k j [] = ground arith
  lookup-remove k j ((i, w) ∷ m) =
      ground (arith, eq_iff k j, eq_iff i k, eq_iff i j, lookup-remove k j m)

  -- How many values pass a test, before and after a write.
  pub length-filter-insert_new :
      (p : V → Bool) (k : String) (v : V) (m : List (String × V))
      → lookup k m ≡ none
      → length (filter p (values (insert k v m)))
        ≡ length (filter p (values m)) + (if p v then 1 else 0)
  unfolding lookup insert
  length-filter-insert_new p k v [] h = ground arith
  length-filter-insert_new p k v ((j, w) ∷ m) h = ground (arith, length-filter-insert_new p k v m)

  pub length-filter-insert_old :
      (p : V → Bool) (k : String) (v w : V) (m : List (String × V))
      → lookup k m ≡ some w
      → length (filter p (values (insert k v m))) + (if p w then 1 else 0)
        ≡ length (filter p (values m)) + (if p v then 1 else 0)
  unfolding lookup insert
  length-filter-insert_old p k v w [] h = cc
  length-filter-insert_old p k v w ((j, x) ∷ m) h =
      ground (arith, length-filter-insert_old p k v w m)
