-- ===== src/Sales/Desk/Reference.antt =====
-- `isLeadReference` of src/sales/lead-reference.ts, and the identity key of src/sales/sales.store.ts.
use Prim.Native.Char.{code}
use Prim.Native.String.{[] as no_text, ◌∷◌ as ◌then◌, ◌++◌ as ◌followed◌}
use text.Mathlib.Text.{◌==◌ as str_eq, starts_with}
use atabak_gold.Base.{ℕ, zero, suc, Bool, true, false, not, ◌&&◌, ◌||◌, ◌==◌, String, if◌then◌else◌}
use atabak_gold.Base.Texts.{within}
use atabak_gold.Sales.Desk.Types.{LeadPlatform, bale, telegram}

-- The digits from `2` and the capitals, without `I`, `L` and `O`.
abbrev in_alphabet : ℕ → Bool
in_alphabet c =
    within 50 57 c || (within 65 90 c && not (c == 73) && not (c == 76) && not (c == 79))

-- The text has so many characters, all of the alphabet.
unfoldable pub is_reference_body : ℕ → String → Bool
is_reference_body zero no_text = true
is_reference_body (suc n) (c then rest) = in_alphabet (code c) && is_reference_body n rest
is_reference_body _ _ = false

-- `value.slice`, of so many characters.
unfoldable pub without_first : ℕ → String → String
without_first zero text = text
without_first (suc n) no_text = no_text
without_first (suc n) (c then rest) = without_first n rest

unfoldable pub is_lead_reference : String → Bool
unfolding is_reference_body without_first
is_lead_reference value = starts_with value "SL-" && is_reference_body 8 (without_first 3 value)

abbrev platform_name : LeadPlatform → String
platform_name bale = "bale"
platform_name telegram = "telegram"

abbrev pub identity_key_of : LeadPlatform → String → String
identity_key_of platform user = platform_name platform followed (":" followed user)

-- `input.identityKey || identityKeyOf(input.platform, input.platformUserId)`.
abbrev pub owner_key : String → LeadPlatform → String → String
owner_key given platform user = if str_eq given "" then identity_key_of platform user else given
