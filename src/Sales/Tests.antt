-- ===== src/Sales/Tests.antt =====
-- Runs of the phone and lead rules, and their theorems at concrete inputs.
mod Desk
use atabak_gold.Base.{
  Memᴰ, ℕ, ◌≡◌, ◌≤◌, inl, refl, Bool, ◌||◌, some, [], ◌∷◌, arith, length, filter, All,
}
use atabak_gold.Base.Texts.{
  Text, trim, trim_start, trim_end, is_white, starts_with, remove_first, within,
}
use atabak_gold.Sales.Lead.Defs.{
  SalesResult, utf16_length, is_control, collapse_runs, collapse_whitespace,
  normalize_customer_name, normalize_product_description, normalize_notes,
}
use atabak_gold.Sales.Lead.Clean.{units, IsClean, IsStored, normalize_customer_name-IsClean}
use atabak_gold.Sales.Lifecycle.{
  LeadStatus, new, contacted, qualified, converted, Transitions, stay, move, can_transition,
  allowed_transitions, can_transition-conversion,
}
use atabak_gold.Sales.Phone.Defs.{
  NormalizedPhone, ok, fail, invalid_characters, invalid_length, empty, phone_of, normalize_phone,
  to_ascii_digits, to_ascii_digit, collect, kind_of, is_separator, classify, national_part,
  has_area_code, format_phone_fa, to_persian_digits, to_persian_digit, mobile,
}
use atabak_gold.Sales.Phone.Digits.{IsNational}
use atabak_gold.Sales.Phone.Canonical.{Shows, normalize_phone-IsNational, normalize_phone-stable}

-- 9121234567.
abbrev national : Text
national = 57 ∷ 49 ∷ 50 ∷ 49 ∷ 50 ∷ 51 ∷ 52 ∷ 53 ∷ 54 ∷ 55 ∷ []

-- The phone number `+989121234567`, shown as ۰۹۱۲ ۱۲۳ ۴۵۶۷.
abbrev shown : NormalizedPhone
shown = record {
  canonical = 43 ∷ 57 ∷ 56 ∷ national;
  kind = mobile;
  display =
      1776 ∷ 1785 ∷ 1777 ∷ 1778 ∷ 32 ∷ 1777 ∷ 1778 ∷ 1779 ∷ 32 ∷ 1780 ∷ 1781 ∷ 1782 ∷ 1783 ∷ [];
}

national-IsNational : IsNational national
national-IsNational = ground arith

accepts_shown : normalize_phone (48 ∷ national) ≡ ok shown
unfolding normalize_phone to_ascii_digits to_ascii_digit trim trim_start trim_end is_white collect
    kind_of is_separator classify national_part starts_with has_area_code phone_of format_phone_fa
    remove_first to_persian_digits to_persian_digit
accepts_shown = refl

refusals :
    (normalize_phone (32 ∷ []) ≡ fail empty)
    × (normalize_phone (48 ∷ 97 ∷ []) ≡ fail invalid_characters)
    × (normalize_phone (48 ∷ 57 ∷ 49 ∷ []) ≡ fail invalid_length)
unfolding normalize_phone to_ascii_digits to_ascii_digit trim trim_start trim_end is_white collect
    kind_of is_separator classify national_part starts_with has_area_code
refusals = (refl, refl, refl)

-- Any number of leading `+` signs is accepted.
many_plus : normalize_phone (43 ∷ 43 ∷ 43 ∷ 57 ∷ 56 ∷ national) ≡ ok shown
unfolding normalize_phone to_ascii_digits to_ascii_digit trim trim_start trim_end is_white collect
    kind_of is_separator classify national_part starts_with has_area_code phone_of format_phone_fa
    remove_first to_persian_digits to_persian_digit
many_plus = refl

normalize_phone-IsNational_example : (n : Text) × IsNational n × Shows n shown
normalize_phone-IsNational_example = normalize_phone-IsNational (48 ∷ national) accepts_shown

normalize_phone-stable_example :
    (normalize_phone shown.canonical ≡ ok shown) × (normalize_phone shown.display ≡ ok shown)
normalize_phone-stable_example = normalize_phone-stable (48 ∷ national) accepts_shown

-- `Ali`.
abbrev ali : Text
ali = 65 ∷ 108 ∷ 105 ∷ []

abbrev is_latin : ℕ → Bool
is_latin c = within 65 90 c || within 97 122 c

accepts_ali : normalize_customer_name is_latin (32 ∷ ali) ≡ SalesResult.ok ali
unfolding normalize_customer_name collapse_whitespace collapse_runs trim trim_start trim_end
    is_white is_control utf16_length
accepts_ali = refl

-- A note of markup and space only is stored as one space, and a text between angle brackets keeps
-- its outer spaces.
lead_text_tests :
    (normalize_notes (60 ∷ 32 ∷ 62 ∷ []) ≡ SalesResult.ok (some (32 ∷ [])))
    × (normalize_customer_name is_latin (60 ∷ 32 ∷ 65 ∷ 66 ∷ 32 ∷ 62 ∷ [])
        ≡ SalesResult.ok (32 ∷ 65 ∷ 66 ∷ 32 ∷ []))
unfolding normalize_customer_name normalize_notes collapse_whitespace collapse_runs trim trim_start
    trim_end is_white is_control utf16_length
lead_text_tests = (refl, refl)

normalize_customer_name-IsClean_example :
    All IsClean ali × (2 ≤ units ali) × (units ali ≤ 80) × (2 ≤ length (filter is_latin ali))
normalize_customer_name-IsClean_example =
    normalize_customer_name-IsClean is_latin (32 ∷ ali) accepts_ali

accepts_description : normalize_product_description ali ≡ SalesResult.ok (some ali)
unfolding normalize_product_description collapse_whitespace collapse_runs trim trim_start trim_end
    is_white is_control utf16_length
accepts_description = refl

accepts_note : normalize_notes ali ≡ SalesResult.ok (some ali)
unfolding normalize_notes collapse_whitespace collapse_runs trim trim_start trim_end is_white
    is_control utf16_length
accepts_note = refl

-- A lead that is lost once and taken up again.
sold :
    Transitions new converted
      (contacted ∷ LeadStatus.lost ∷ LeadStatus.new ∷ contacted ∷ qualified ∷ converted ∷ [])
unfolding can_transition allowed_transitions
sold = move refl (move refl (move refl (move refl (move refl (move refl stay)))))

can_transition-conversion_example :
    Memᴰ contacted
      (contacted ∷ LeadStatus.lost ∷ LeadStatus.new ∷ contacted ∷ qualified ∷ converted ∷ [])
    × Memᴰ qualified
        (contacted ∷ LeadStatus.lost ∷ LeadStatus.new ∷ contacted ∷ qualified ∷ converted ∷ [])
can_transition-conversion_example = can_transition-conversion new (inl refl) sold
