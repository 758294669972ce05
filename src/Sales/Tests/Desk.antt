-- ===== src/Sales/Tests/Desk.antt =====
-- A run of the sales desk, and its theorems at it.
mod Sale
use Prim.Native.String.{[] as no_stroke, ◌∷◌ as ◌then◌}
use atabak_gold.Base.{
  ℕ, zero, suc, ◌≡◌, ◌≤◌, refl, ap, true, false, none, some, [], ◌∷◌, String, arith, ltb,
}
use atabak_gold.Base.Dict.{lookup, insert}
use atabak_gold.Base.Texts.{trim, trim_start, trim_end, is_white, starts_with, remove_first}
use atabak_gold.Sales.Tests.{national, ali, is_latin}
use atabak_gold.Sales.Lifecycle.{contacted, converted, lost}
use atabak_gold.Sales.Lead.Defs.{
  ok, utf16_length, is_control, collapse_runs, collapse_whitespace, normalize_customer_name,
  normalize_product_description, normalize_notes, normalize_operator_note,
}
use atabak_gold.Sales.Phone.Defs.{
  phone_of, normalize_phone, to_ascii_digits, to_ascii_digit, collect, kind_of, is_separator,
  classify, national_part, has_area_code, format_phone_fa, to_persian_digits, to_persian_digit,
}
use atabak_gold.Sales.Desk.Types.{
  SalesOutcomeRecord, LeadRecord, coin, recorded, link_failed, bale, no_touch,
}
use atabak_gold.Sales.Desk.Store.{
  SalesStore, empty_store, find_lead_by_reference, list_leads_by_identity, commit_draft, leads_of,
  references_of, save_lead, count_id, append_activity,
}
use atabak_gold.Sales.Desk.Input.{
  SalesEnv, LeadCreationInput, LeadCreationOutcome, Drawn, refused, ValidLead, resolve_attribution,
  link_to_phase8, validate_lead, normalize_category, text_eq,
}
use atabak_gold.Sales.Desk.Create.{
  create_lead, new_lead, creation_outcome, find_by_submission, allocate_from, write_lead,
}
use atabak_gold.Sales.Desk.Updates.{key_of, Turn, by_id, by_reference, log_contact, find_lead}
use atabak_gold.Sales.Desk.Statuses.{
  change_status, mark_lost, begin_conversion, convert_to_customer,
}
use atabak_gold.Sales.Desk.Reference.{
  is_lead_reference, is_reference_body, without_first, owner_key,
}
use atabak_gold.Sales.Desk.Sale.{sale_of, amount_accepted, Amounts, SalesOutcomeInput}
use atabak_gold.Sales.Desk.Advance.{Advance}
use atabak_gold.Sales.Desk.Runs.{
  Run, started, stepped, creating, contacting, Run-Advance, Run-Follows,
}
use mathlib.Core.Path.{subst}
use atabak_gold.Sales.Desk.Sound.{IsSound, empty_store-IsSound}
use atabak_gold.Sales.Desk.Once.{create_lead-Once, CreatesNothing}
use atabak_gold.Sales.Desk.Moves.{changes-Allowed, Allowed, AllowedCall}
use atabak_gold.Sales.Desk.Outcomes.{active_count, OneActive}
use atabak_gold.Sales.Desk.Active.{record_sale-OneActive}

-- A number in strokes.
strokes : ℕ → String
strokes zero = no_stroke
strokes (suc n) = "i" then strokes n

strokes_size : String → ℕ
strokes_size no_stroke = zero
strokes_size (c then s) = suc (strokes_size s)

strokes_size-strokes : (n : ℕ) → strokes_size (strokes n) ≡ n
unfolding strokes strokes_size
strokes_size-strokes zero = refl
strokes_size-strokes (suc n) = ground (arith, strokes_size-strokes n)

strokes_differ : (m n : ℕ) → strokes m ≡ strokes n → m ≡ n
strokes_differ m n h =
    ground (arith, ap strokes_size h, strokes_size-strokes m, strokes_size-strokes n)

abbrev desk : SalesEnv
desk = record {
  enabled = true;
  admin_ids = "bale:900" ∷ [];
  max_open = 3;
  is_letter = is_latin;
  to_upper = λ t. t;
  id_text = λ prefix n. strokes n;
  trimmed = λ t. t;
  ends_with_id = λ entry id. false;
  tracking_enabled = true;
  credited_for = λ identity at. record { campaign_id = none; model = none; bucket = no_touch };
  find_campaign = λ id. none;
}

-- A request for a coin.
abbrev request : LeadCreationInput
request = record {
  user_id = "u";
  identity_key = "bale:7";
  platform = bale;
  platform_user_id = "7";
  chat_id = none;
  customer_name = ali;
  phone = 48 ∷ national;
  category = 67 ∷ 79 ∷ 73 ∷ 78 ∷ [];
  product_description = none;
  notes = none;
  submission_key = "k";
  consent_text_version = "1";
}

abbrev drawn : Drawn
drawn = record {
  candidate = λ attempt. "SL-AAAAAAAA";
  fallback = "SL-B";
  now = "1";
  persists = true;
  answer = refused;
}

abbrev turn : Turn
turn = record { actor = "bale:900"; at = "2"; persists = true }

abbrev amounts : Amounts ℕ
amounts = record { is_amount = λ n. ltb 0 n; newest_first = λ outcomes. outcomes }

abbrev nothing : SalesStore ℕ
nothing = empty_store

abbrev requested : SalesStore ℕ
requested = (create_lead desk request drawn nothing).1

request-Run : Run desk amounts nothing requested
request-Run = stepped nothing nothing requested (started nothing) (creating request drawn nothing)

abbrev called : SalesStore ℕ
called = (log_contact desk turn (by_reference "SL-AAAAAAAA") none requested requested).1

call-Run : Run desk amounts requested called
call-Run =
    stepped requested requested called (started requested)
      (contacting turn (by_reference "SL-AAAAAAAA") none requested requested)

Run-Advance_example : Advance requested called
Run-Advance_example = Run-Advance desk amounts requested called strokes_differ request-Run call-Run

-- The second call has other fields and the same key.
abbrev repeated : LeadCreationInput
repeated = record request { user_id = "w"; phone = [] }

abbrev valid : ValidLead
valid = record {
  name = ali;
  phone = 43 ∷ 57 ∷ 56 ∷ national;
  category = coin;
  description = none;
  notes = none;
}

abbrev lead : LeadRecord
lead = new_lead desk request valid (resolve_attribution desk "bale:7" "1") drawn nothing

abbrev made : LeadCreationOutcome
made = record {
  lead = record lead { phase8 = link_to_phase8 desk lead refused "1" };
  created = true;
  phase8 = link_to_phase8 desk lead refused "1";
}

is_made : (create_lead desk request drawn nothing).0 ≡ ok made
unfolding create_lead validate_lead normalize_category text_eq normalize_customer_name
    normalize_product_description normalize_notes creation_outcome find_by_submission new_lead
    allocate_from find_lead_by_reference list_leads_by_identity empty_store lookup
    collapse_whitespace collapse_runs trim trim_start trim_end is_white is_control utf16_length
    normalize_phone to_ascii_digits to_ascii_digit collect kind_of is_separator classify
    national_part starts_with has_area_code phone_of format_phone_fa remove_first to_persian_digits
    to_persian_digit
is_made = refl

-- The campaign services refuse the conversion, and the stored lead says `RECORDED`.
stored_link :
    (find_lead (by_reference "SL-AAAAAAAA") requested ≡ some lead)
    × ((lead.phase8.status ≡ recorded) × (made.phase8.status ≡ link_failed))
unfolding create_lead validate_lead normalize_category text_eq normalize_customer_name
    normalize_product_description normalize_notes creation_outcome find_by_submission new_lead
    allocate_from find_lead_by_reference list_leads_by_identity empty_store lookup
    collapse_whitespace collapse_runs trim trim_start trim_end is_white is_control utf16_length
    normalize_phone to_ascii_digits to_ascii_digit collect kind_of is_separator classify
    national_part starts_with has_area_code phone_of format_phone_fa remove_first to_persian_digits
    to_persian_digit insert commit_draft leads_of references_of write_lead save_lead count_id
    append_activity link_to_phase8 strokes
stored_link = (refl, (refl, refl))

create_lead-Once_example : CreatesNothing (create_lead desk repeated drawn called) called
create_lead-Once_example =
    create_lead-Once desk amounts request repeated drawn drawn nothing called made strokes_differ
      (started nothing) is_made call-Run refl

requested-IsSound : IsSound desk requested
requested-IsSound =
    (Run-Follows desk amounts nothing requested strokes_differ (empty_store-IsSound desk)
      request-Run).1

-- References have eight characters of the alphabet.
reference_tests :
    (is_lead_reference "SL-AAAAAAAA" ≡ true)
    × (is_lead_reference "SL-AAAAAAA0" ≡ false)
    × (is_lead_reference "SL-A" ≡ false)
    × (key_of desk "SL-AAAAAAAA" ≡ by_reference "SL-AAAAAAAA")
    × (owner_key "" bale "7" ≡ "bale:7")
unfolding is_lead_reference is_reference_body without_first key_of
reference_tests = (refl, refl, refl, refl, refl)

refers :
    (l : LeadRecord)
    → find_lead (by_reference "SL-AAAAAAAA") requested ≡ some l
    → find_lead (key_of desk l.reference) requested ≡ some l
unfolding new_lead allocate_from find_lead_by_reference empty_store lookup is_lead_reference
    is_reference_body without_first key_of
refers l h =
    let found : lead ≡ l = let there = stored_link.0 in cc in
    subst (λ x. find_lead (key_of desk x.reference) requested ≡ some x) found stored_link.0

changes-Allowed_example :
    Allowed requested
      (by_reference "SL-AAAAAAAA")
      contacted
      (change_status desk turn (by_reference "SL-AAAAAAAA") contacted none none requested requested)
    × Allowed requested
        (by_reference "SL-AAAAAAAA")
        lost
        (mark_lost desk turn (by_reference "SL-AAAAAAAA") none none requested requested)
    × Allowed requested
        (by_reference "SL-AAAAAAAA")
        converted
        (begin_conversion desk turn (by_reference "SL-AAAAAAAA") none requested requested)
    × AllowedCall requested (by_reference "SL-AAAAAAAA") converted (
        convert_to_customer desk turn turn
          (by_reference "SL-AAAAAAAA")
          none
          refused
          (λ t. t)
          requested
          requested)
changes-Allowed_example =
    changes-Allowed desk turn turn requested requested-IsSound (by_reference "SL-AAAAAAAA")
      contacted none none refused refers

-- The file cannot be written.
abbrev failing : Turn
failing = record turn { persists = false }

abbrev sale : SalesOutcomeInput ℕ
sale = record { amount = some 5; currency = none; note = none }
