-- ===== src/Sales/Lead/Defs.antt =====
-- The definitions of src/sales/lead-validation.ts. A text is the list of its code points; its
-- `length` counts UTF-16 units. `is_letter` stands for the Unicode classes L and M. The messages of
-- a failure are left out.
use atabak_gold.Base.{
  ℕ, ◌+◌, Bool, true, false, not, ◌&&◌, ◌||◌, Option, none, some, [], ◌∷◌, if◌then◌else◌, length,
  filter, any, leb, ltb, ◌==◌,
}
use atabak_gold.Base.Texts.{Text, is_empty, within, is_white, trim}

-- `SalesErrorCode`.
pub data SalesFailure : Type 0 where
  invalid_name invalid_phone invalid_category invalid_description invalid_note : SalesFailure
  invalid_status_transition invalid_loss_reason invalid_amount not_found conflict : SalesFailure
  disabled unauthorized limit_reached persistence_failed : SalesFailure

pub data SalesResult (A : Type 0) : Type 0 where
  ok : A → SalesResult A
  fail : SalesFailure → SalesResult A

unfoldable pub utf16_length : Text → ℕ
utf16_length [] = 0
utf16_length (c ∷ cs) = (if leb 65536 c then 2 else 1) + utf16_length cs

-- The two tests of the loop.
unfoldable pub is_control : ℕ → Bool
is_control c = c == 127 || (ltb c 32 && not (c == 9) && not (c == 10)) || within 128 159 c

abbrev pub has_control_character : Text → Bool
has_control_character value = any is_control value

-- `value.replace(/\s+/gu, ' ')`, from whether a run of white space is being read.
unfoldable pub collapse_runs : Bool → Text → Text
collapse_runs in_run [] = []
collapse_runs in_run (c ∷ cs) = elim (is_white c) [
  | false ↦ c ∷ collapse_runs false cs
  | true ↦ if in_run then collapse_runs true cs else 32 ∷ collapse_runs true cs
]

unfoldable pub collapse_whitespace : Text → Text
unfolding collapse_runs
collapse_whitespace value = trim (collapse_runs false value)

abbrev pub is_markup : ℕ → Bool
is_markup c = c == 60 || c == 62

abbrev pub strip_markup_characters : Text → Text
strip_markup_characters value = filter (λ c. not (is_markup c)) value

abbrev pub cleaned : Text → Text
cleaned raw = strip_markup_characters (collapse_whitespace raw)

unfoldable pub normalize_text : Text → ℕ → ℕ → SalesResult Text
normalize_text raw least most =
    let collapsed = cleaned raw in
    if has_control_character collapsed
    then fail invalid_name
    else if ltb (utf16_length collapsed) least
    then fail invalid_name
    else if ltb most (utf16_length collapsed)
    then fail invalid_name
    else ok collapsed

name_from : (ℕ → Bool) → SalesResult Text → SalesResult Text
name_from is_letter (fail f) = fail f
name_from is_letter (ok name) =
    if ltb (length (filter is_letter name)) 2 then fail invalid_name else ok name

unfoldable pub normalize_customer_name : (ℕ → Bool) → Text → SalesResult Text
unfolding name_from normalize_text
normalize_customer_name is_letter raw = name_from is_letter (normalize_text raw 2 80)

-- The body that the three functions for optional texts have in common; `null` is `none`.
optional_text : SalesFailure → ℕ → Text → SalesResult (Option Text)
optional_text failure most raw =
    let collapsed = cleaned raw in
    if is_empty collapsed
    then ok none
    else if has_control_character collapsed
    then fail failure
    else if ltb most (utf16_length collapsed)
    then fail failure
    else ok (some collapsed)

unfoldable pub normalize_product_description : Text → SalesResult (Option Text)
unfolding optional_text
normalize_product_description raw = optional_text invalid_description 120 raw

unfoldable pub normalize_notes : Text → SalesResult (Option Text)
unfolding optional_text
normalize_notes raw = optional_text invalid_note 400 raw

unfoldable pub normalize_operator_note : Text → SalesResult (Option Text)
unfolding optional_text
normalize_operator_note raw = optional_text invalid_note 400 raw
