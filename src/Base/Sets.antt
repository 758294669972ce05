-- ===== src/Base/Sets.antt =====
-- `Set<string>` as a list of distinct texts, and `Map<string, Set<string>>` over `Dict`.
use text.Mathlib.Text.{◌==◌}
use text.Mathlib.TextEquality.{eq_iff}
use Prim.Native.String.{String}
use mathlib.Core.Path.{◌≡◌, refl}
use mathlib.Core.Bool.{Bool, true, false, not, ◌&&◌, ◌||◌}
use mathlib.Core.List.{List, [], ◌∷◌, Memᴰ}
use mathlib.Core.Logic.{inl, inr}
use native.Mathlib.Omega.{arith}
use atabak_gold.Base.Tests.{if◌then◌else◌, or_else, Bool-cases}
use atabak_gold.Base.Dict.{lookup, insert, remove, lookup-insert, lookup-remove}

unfoldable pub has : String → List String → Bool
has j [] = false
has j (x ∷ xs) = x == j || has j xs

-- `set.add(k)`: a text that is present keeps its place.
unfoldable pub set_add : String → List String → List String
set_add k [] = k ∷ []
set_add k (x ∷ xs) = if x == k then x ∷ xs else x ∷ set_add k xs

-- `set.delete(k)`.
unfoldable pub set_delete : String → List String → List String
set_delete k [] = []
set_delete k (x ∷ xs) = if x == k then set_delete k xs else x ∷ set_delete k xs

pub has-set_add : (k j : String) (xs : List String) → has j (set_add k xs) ≡ (k == j || has j xs)
unfolding has set_add
has-set_add k j [] = refl
has-set_add k j (x ∷ xs) = ground (arith, eq_iff x k, eq_iff x j, eq_iff k j, has-set_add k j xs)

pub has-set_delete :
    (k j : String) (xs : List String) → has j (set_delete k xs) ≡ (not (k == j) && has j xs)
unfolding has set_delete
has-set_delete k j [] = ground arith
has-set_delete k j (x ∷ xs) =
    ground (arith, eq_iff x k, eq_iff x j, eq_iff k j, has-set_delete k j xs)

pub Memᴰ-of_has : (j : String) (xs : List String) → has j xs ≡ true → Memᴰ j xs
unfolding has
Memᴰ-of_has j [] h = cc
Memᴰ-of_has j (x ∷ xs) h = elim (Bool-cases (x == j)) [
  | inl e ↦ Memᴰ.head (rw ((eq_iff x j).0 e) refl)
  | inr n ↦ Memᴰ.tail (Memᴰ-of_has j xs (rw n at h))
]

pub has-of_Memᴰ : (j : String) (xs : List String) → Memᴰ j xs → has j xs ≡ true
unfolding has
has-of_Memᴰ j [] m = elim m [ ]
has-of_Memᴰ j (x ∷ xs) (Memᴰ.head e) = ground (arith, eq_iff x j)
has-of_Memᴰ j (x ∷ xs) (Memᴰ.tail m) = ground (arith, has-of_Memᴰ j xs m)

abbrev pub is_empty : List String → Bool
is_empty [] = true
is_empty (_ ∷ _) = false

-- `map.get(k) ?? new Set()`.
abbrev pub ids_at : String → List (String × List String) → List String
ids_at k m = or_else (lookup k m) []

-- Store a set under its key, or drop the key when the set is empty.
unfoldable pub put_ids :
    String → List String → List (String × List String) → List (String × List String)
put_ids k ids m = if is_empty ids then remove k m else insert k ids m

pub ids_at-insert :
    (k j : String) (ids : List String) (m : List (String × List String))
    → ids_at j (insert k ids m) ≡ (if k == j then ids else ids_at j m)
ids_at-insert k j ids m = ground (arith, lookup-insert k j ids m)

pub ids_at-put_ids :
    (k j : String) (ids : List String) (m : List (String × List String))
    → ids_at j (put_ids k ids m) ≡ (if k == j then ids else ids_at j m)
unfolding put_ids
ids_at-put_ids k j ids m = ground (arith, lookup-insert k j ids m, lookup-remove k j m)
