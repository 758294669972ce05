-- ===== src/Base/Texts.antt =====
-- JavaScript texts as lists of code points, and the methods of `String` that the code calls.
use Prim.Native.Nat.{ℕ}
use mathlib.Core.Path.{◌≡◌, refl}
use mathlib.Core.Bool.{Bool, true, false, ◌&&◌, ◌||◌}
use mathlib.Core.List.{List, [], ◌∷◌, ◌++◌}
use native.Mathlib.Omega.{arith}
use atabak_gold.Base.Tests.{if◌then◌else◌, leb, ◌==◌}
use atabak_gold.Base.Lists.{All, length, drop}

abbrev pub Text : Type 0
Text = List ℕ

abbrev pub is_empty : Text → Bool
is_empty [] = true
is_empty (c ∷ cs) = false

abbrev pub within : ℕ → ℕ → ℕ → Bool
within first last c = leb first c && leb c last

-- WhiteSpace and LineTerminator of ECMAScript, which `trim` and `\s` stand for.
unfoldable pub is_white : ℕ → Bool
is_white c =
    within 9 13 c
    || c == 32
    || c == 160
    || c == 5760
    || within 8192 8202 c
    || c == 8232
    || c == 8233
    || c == 8239
    || c == 8287
    || c == 12288
    || c == 65279

unfoldable pub trim_start : Text → Text
trim_start [] = []
trim_start (c ∷ cs) = if is_white c then trim_start cs else c ∷ cs

unfoldable pub trim_end : Text → Text
trim_end [] = []
trim_end (c ∷ cs) = let rest = trim_end cs in if is_white c && is_empty rest then [] else c ∷ rest

unfoldable pub trim : Text → Text
trim s = trim_end (trim_start s)

-- `s.startsWith(prefix)`, with the prefix first.
unfoldable pub starts_with : Text → Text → Bool
starts_with [] s = true
starts_with (p ∷ ps) [] = false
starts_with (p ∷ ps) (c ∷ cs) = p == c && starts_with ps cs

-- `s.replace(pattern, '')`: the first occurrence goes.
unfoldable pub remove_first : Text → Text → Text
remove_first pattern [] = []
remove_first pattern (c ∷ cs) =
    let rest = remove_first pattern cs in
    if starts_with pattern (c ∷ cs) then drop (length pattern) (c ∷ cs) else c ∷ rest

is_empty-append : (xs ys : Text) → is_empty ys ≡ false → is_empty (xs ++ ys) ≡ false
is_empty-append [] ys ne = ne
is_empty-append (c ∷ xs) ys ne = refl

-- What ends with a text that `trim_end` keeps is kept.
pub trim_end-append :
    (xs ys : Text) → trim_end ys ≡ ys → is_empty ys ≡ false → trim_end (xs ++ ys) ≡ xs ++ ys
unfolding trim_end
trim_end-append [] ys e ne = e
trim_end-append (c ∷ xs) ys e ne =
    rw (trim_end-append xs ys e ne, is_empty-append xs ys ne) ground arith

-- A text without white space is kept.
pub trim_end-solid : (xs : Text) → All (λ c. is_white c ≡ false) xs → trim_end xs ≡ xs
unfolding trim_end
trim_end-solid [] h = refl
trim_end-solid (c ∷ xs) (solid, h) = rw (trim_end-solid xs h, solid) refl

pub trim-ends :
    (c : ℕ) (xs ys : Text)
    → is_white c ≡ false
    → All (λ d. is_white d ≡ false) ys
    → is_empty ys ≡ false
    → trim ((c ∷ xs) ++ ys) ≡ (c ∷ xs) ++ ys
unfolding trim trim_start
trim-ends c xs ys solid h ne = rw solid (trim_end-append (c ∷ xs) ys (trim_end-solid ys h) ne)
