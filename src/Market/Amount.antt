-- ===== src/Market/Amount.antt =====
-- `parseAmount` of src/common/money.ts: the number that a raw value of the price API stands for.
use atabak_gold.Base.{
  ℕ, ◌+◌, ◌-◌, Bool, not, ◌||◌, Option, none, some, map, filter, if◌then◌else◌, ◌==◌,
}
use atabak_gold.Base.Number.{Number}
use atabak_gold.Base.Texts.{Text, is_empty, within, is_white}

-- The raw values by `typeof`.
pub data RawValue (N : Type 0) : Type 0 where
  number : N → RawValue N
  string : Text → RawValue N
  anything_else : RawValue N

-- `normalizeDigitsToAscii` on one character.
unfoldable pub digit_to_ascii : ℕ → ℕ
digit_to_ascii c =
    if within 1776 1785 c then c - 1776 + 48 else if within 1632 1641 c then c - 1632 + 48 else c

-- `[,،\u066c\s]`.
unfoldable pub is_thousands_separator : ℕ → Bool
is_thousands_separator c = c == 44 || c == 1548 || c == 1644 || is_white c

unfoldable pub plain_digits : Text → Text
plain_digits s = filter (λ c. not (is_thousands_separator c)) (map digit_to_ascii s)

module _ {N : Type 0} ⦃num : Number N⦄ where
  open num use {is_finite}

  -- `number_of` is the conversion `Number(text)`.
  unfoldable pub parse_amount : (Text → N) → RawValue N → Option N
  parse_amount number_of (number value) = if is_finite value then some value else none
  parse_amount number_of (string raw) =
      let normalized = plain_digits raw in
      if is_empty normalized
      then none
      else if is_finite (number_of normalized)
      then some (number_of normalized)
      else none
  parse_amount number_of anything_else = none
