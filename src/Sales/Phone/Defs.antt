-- ===== src/Sales/Phone/Defs.antt =====
-- The definitions of src/sales/phone.ts.
use atabak_gold.Base.{
  ℕ, ◌+◌, ◌-◌, Bool, false, not, ◌&&◌, ◌||◌, Option, none, some, [], ◌∷◌, ◌++◌, map, if◌then◌else◌,
  length, take, drop, ltb, ◌==◌,
}
use atabak_gold.Base.Texts.{Text, is_empty, within, trim, starts_with, remove_first}

-- `PERSIAN_DIGITS` and `ARABIC_DIGITS` are ten consecutive code points each.
unfoldable pub to_ascii_digit : ℕ → ℕ
to_ascii_digit c =
    if within 1776 1785 c then c - 1776 + 48 else if within 1632 1641 c then c - 1632 + 48 else c

unfoldable pub to_ascii_digits : Text → Text
to_ascii_digits s = map to_ascii_digit s

unfoldable pub to_persian_digit : ℕ → ℕ
to_persian_digit c = if within 48 57 c then c - 48 + 1776 else c

unfoldable pub to_persian_digits : Text → Text
to_persian_digits s = map to_persian_digit s

pub data PhoneKind : Type 0 where
  mobile landline : PhoneKind

pub record NormalizedPhone : Type 0 where
  pub canonical : Text
  pub kind : PhoneKind
  pub display : Text

pub data PhoneFailure : Type 0 where
  empty invalid_characters invalid_length unsupported_prefix : PhoneFailure

-- `PhoneNormalization`.
pub data PhoneNormalization : Type 0 where
  ok : NormalizedPhone → PhoneNormalization
  fail : PhoneFailure → PhoneNormalization

-- The members of `SEPARATORS`: space, tab, newline, return, `-`, the two dashes, `.`, `(`, `)`,
-- and the three invisible marks.
unfoldable pub is_separator : ℕ → Bool
is_separator c =
    c == 32
    || c == 9
    || c == 10
    || c == 13
    || c == 45
    || c == 8211
    || c == 8212
    || c == 46
    || c == 40
    || c == 41
    || c == 8204
    || c == 8207
    || c == 8206

-- What the loop does with a character, its tests in the code's order.
pub data CharacterKind : Type 0 where
  separator plus other digit : CharacterKind

unfoldable pub kind_of : ℕ → CharacterKind
kind_of c =
    if is_separator c
    then separator
    else if c == 43
    then plus
    else if ltb c 48 || ltb 57 c
    then other
    else digit

-- The loop over the characters, from the digits collected so far; `none` is `INVALID_CHARACTERS`.
unfoldable pub collect : Text → Text → Option Text
collect [] digits = some digits
collect (c ∷ cs) digits = elim (kind_of c) [
  | separator ↦ collect cs digits
  | plus ↦ if is_empty digits then collect cs digits else none
  | other ↦ none
  | digit ↦ collect cs (digits ++ (c ∷ []))
]

abbrev country_code : Text
country_code = 43 ∷ 57 ∷ 56 ∷ []

drop_00 : Text → Text
drop_00 digits = if starts_with (48 ∷ 48 ∷ []) digits then drop 2 digits else digits

drop_98 : Text → Text
drop_98 digits =
    if starts_with (57 ∷ 56 ∷ []) digits && ltb 11 (length digits) then drop 2 digits else digits

drop_0 : Text → Text
drop_0 digits = if starts_with (48 ∷ []) digits then drop 1 digits else digits

-- The three prefixes that are dropped, one after the other.
unfoldable pub national_part : Text → Text
unfolding drop_00 drop_98 drop_0
national_part digits = drop_0 (drop_98 (drop_00 digits))

-- `/^[1-8]/`.
unfoldable pub has_area_code : Text → Bool
has_area_code [] = false
has_area_code (c ∷ cs) = within 49 56 c

unfoldable pub format_phone_fa : Text → Text
format_phone_fa canonical =
    let digits = remove_first country_code (to_ascii_digits canonical) in
    if not (length digits == 10)
    then to_persian_digits canonical
    else if starts_with (57 ∷ []) digits
    then to_persian_digits (48 ∷ take 3 digits ++ 32 ∷ take 3 (drop 3 digits) ++ 32 ∷ drop 6 digits)
    else to_persian_digits (48 ∷ take 2 digits ++ 32 ∷ drop 2 digits)

unfoldable pub phone_of : Text → NormalizedPhone
phone_of digits =
    let canonical = country_code ++ digits in
    record {
      canonical = canonical;
      kind = if starts_with (57 ∷ []) digits then mobile else landline;
      display = format_phone_fa canonical;
    }

-- What follows the loop.
unfoldable pub classify : Option Text → PhoneNormalization
unfolding phone_of national_part
classify none = fail invalid_characters
classify (some all_digits) =
    let digits = national_part all_digits in
    if not (length digits == 10)
    then fail invalid_length
    else if not (starts_with (57 ∷ []) digits) && not (has_area_code digits)
    then fail unsupported_prefix
    else ok (phone_of digits)

unfoldable pub normalize_phone : Text → PhoneNormalization
unfolding classify collect
normalize_phone raw =
    let ascii = trim (to_ascii_digits raw) in
    if is_empty ascii then fail empty else classify (collect ascii [])

unfoldable pub mask_phone : Text → Text
mask_phone canonical =
    if ltb (length canonical) 8
    then 42 ∷ 42 ∷ 42 ∷ []
    else take 7 canonical ++ 42 ∷ 42 ∷ 42 ∷ drop (length canonical - 4) canonical
