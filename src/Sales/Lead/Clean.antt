-- ===== src/Sales/Lead/Clean.antt =====
-- What is stored of a text of the lead form (src/sales/lead-validation.ts).
use atabak_gold.Base.{
  ℕ, ◌+◌, leb, ◌≤◌, ◌≡◌, ◌≢◌, ◌⊎◌, refl, inl, inr, Bool, true, false, ◌&&◌, ◌||◌, ◌==◌, some, [],
  ◌∷◌, length, filter, All, arith, Bool-cases,
}
use atabak_gold.Base.Texts.{Text, is_empty, is_white, trim, trim_start, trim_end}
use atabak_gold.Sales.Lead.Defs.{
  ok, utf16_length, is_control, has_control_character, collapse_runs, collapse_whitespace, cleaned,
  strip_markup_characters, normalize_customer_name, normalize_product_description, normalize_notes,
  normalize_operator_note,
}

-- White space is the plain space only.
abbrev pub IsPlain : ℕ → Type 0
IsPlain c = (is_white c ≡ false) ⊎ (c ≡ 32)

-- Neither of the two blocks of control characters, 0 to 31 and 127 to 159.
abbrev pub IsPrintable : ℕ → Type 0
IsPrintable c = ((32 ≤ c) × (c ≤ 126)) ⊎ (160 ≤ c)

abbrev pub IsClean : ℕ → Type 0
IsClean c = IsPlain c × IsPrintable c × (c ≢ 60) × (c ≢ 62)

-- The number of UTF-16 units: one for each code point and one more for each from 65536 on.
abbrev pub units : Text → ℕ
units s = length s + length (filter (leb 65536) s)

utf16_length-units : (s : Text) → utf16_length s ≡ units s
unfolding utf16_length
utf16_length-units [] = refl
utf16_length-units (c ∷ s) = ground (arith, utf16_length-units s)

IsPrintable-of : (c : ℕ) → IsPlain c → is_control c ≡ false → IsPrintable c
unfolding is_control is_white
IsPrintable-of c (inl solid) h = ground arith
IsPrintable-of c (inr space) h = inl (omega (arith, space), omega (arith, space))

module _ (P : ℕ → Type 0) where
  All-trim_start : (s : Text) → All P s → All P (trim_start s)
  unfolding trim_start
  All-trim_start [] h = tt
  All-trim_start (c ∷ s) h = elim (Bool-cases (is_white c)) [
    | inl white ↦ rw white (All-trim_start s h.1)
    | inr solid ↦ rw solid h
  ]

  All-trim_end : (s : Text) → All P s → All P (trim_end s)
  unfolding trim_end
  All-trim_end [] h = tt
  All-trim_end (c ∷ s) h = elim (Bool-cases (is_white c && is_empty (trim_end s))) [
    | inl gone ↦ rw gone tt
    | inr kept ↦ rw kept (h.0, All-trim_end s h.1)
  ]

  All-filter : (p : ℕ → Bool) (s : Text) → All P s → All P (filter p s)
  All-filter p [] h = tt
  All-filter p (c ∷ s) h = elim (Bool-cases (p c)) [
    | inl keep ↦ rw keep (h.0, All-filter p s h.1)
    | inr drop ↦ rw drop (All-filter p s h.1)
  ]

collapse_runs-IsPlain : (b : Bool) (s : Text) → All IsPlain (collapse_runs b s)
unfolding collapse_runs
collapse_runs-IsPlain b [] = tt
collapse_runs-IsPlain b (c ∷ s) = elim (Bool-cases (is_white c)) [
  | inr solid ↦ rw (collapse_runs, solid) (inl solid, collapse_runs-IsPlain false s)
  | inl white ↦
      rw (collapse_runs, white)
        (elim (Bool-cases b) [
          | inl run ↦ rw run (collapse_runs-IsPlain true s)
          | inr first ↦ rw first (inr refl, collapse_runs-IsPlain true s)
        ])
]

cleaned-IsPlain : (raw : Text) → All IsPlain (cleaned raw)
unfolding collapse_whitespace trim
cleaned-IsPlain raw =
    All-filter IsPlain _ _
      (All-trim_end IsPlain _ (All-trim_start IsPlain _ (collapse_runs-IsPlain false raw)))

no_markup : (s : Text) → All (λ c. (c ≢ 60) × (c ≢ 62)) (strip_markup_characters s)
no_markup [] = tt
no_markup (c ∷ s) = elim (Bool-cases (c == 60 || c == 62)) [
  | inl markup ↦ rw markup (no_markup s)
  | inr fine ↦ rw fine ((λ e. ground arith, λ e. ground arith), no_markup s)
]

no_control : (s : Text) → has_control_character s ≡ false → All (λ c. is_control c ≡ false) s
no_control [] h = tt
no_control (c ∷ s) h = (ground arith, no_control s (ground arith))

All-IsClean :
    (s : Text)
    → All IsPlain s
    → All (λ c. (c ≢ 60) × (c ≢ 62)) s
    → All (λ c. is_control c ≡ false) s
    → All IsClean s
All-IsClean [] h k j = tt
All-IsClean (c ∷ s) h k j =
    ((h.0, IsPrintable-of c h.0 j.0, k.0.0, k.0.1), All-IsClean s h.1 k.1 j.1)

cleaned-IsClean :
    (raw : Text) → has_control_character (cleaned raw) ≡ false → All IsClean (cleaned raw)
cleaned-IsClean raw h =
    All-IsClean (cleaned raw) (cleaned-IsPlain raw) (no_markup (collapse_whitespace raw))
      (no_control (cleaned raw) h)

name-cases :
    (is_letter : ℕ → Bool) (raw : Text) {name : Text}
    → normalize_customer_name is_letter raw ≡ ok name
    → (name ≡ cleaned raw)
      × (has_control_character (cleaned raw) ≡ false)
      × (2 ≤ utf16_length name)
      × (utf16_length name ≤ 80)
      × (2 ≤ length (filter is_letter name))
unfolding normalize_customer_name
name-cases is_letter raw e = ground arith

-- An accepted name has no code point from 0 to 31 or from 127 to 159, no angle bracket and no white
-- space but plain spaces; it has 2 to 80 UTF-16 units (a code point from 65536 on counts twice) and
-- at least two letters.
pub normalize_customer_name-IsClean :
    (is_letter : ℕ → Bool) (raw : Text) {name : Text}
    → normalize_customer_name is_letter raw ≡ ok name
    → All IsClean name × (2 ≤ units name) × (units name ≤ 80) × (2 ≤ length (filter is_letter name))
normalize_customer_name-IsClean is_letter raw {name} e =
    let (same, clean, least, most, letters) = name-cases is_letter raw e in
    let count = utf16_length-units name in
    (
      rw same (cleaned-IsClean raw clean),
      omega (arith, least, count),
      omega (arith, most, count),
      letters,
    )

-- What an accepted optional text is.
abbrev pub IsStored : ℕ → Text → Type 0
IsStored most text = All IsClean text × (is_empty text ≡ false) × (utf16_length text ≤ most)

IsStored-of :
    (most : ℕ) (raw text : Text)
    → (text ≡ cleaned raw)
      × (has_control_character (cleaned raw) ≡ false)
      × (is_empty text ≡ false)
      × (utf16_length text ≤ most)
    → IsStored most text
IsStored-of most raw text (same, clean, full, short) =
    (rw same (cleaned-IsClean raw clean), full, short)

-- An accepted product description has no control character, no angle bracket and no white space but
-- plain spaces, is not empty and has at most 120 UTF-16 units.
pub normalize_product_description-IsStored :
    (raw : Text) {text : Text}
    → normalize_product_description raw ≡ ok (some text)
    → IsStored 120 text
unfolding normalize_product_description
normalize_product_description-IsStored raw {text} e = IsStored-of 120 raw text (ground arith)

-- An accepted note, of a customer or of an operator, has no control character, no angle bracket and
-- no white space but plain spaces, is not empty and has at most 400 UTF-16 units.
normalize_notes-IsStored :
    (raw : Text) {text : Text}
    → (normalize_notes raw ≡ ok (some text)) ⊎ (normalize_operator_note raw ≡ ok (some text))
    → IsStored 400 text
unfolding normalize_notes normalize_operator_note
normalize_notes-IsStored raw {text} (inl e) = IsStored-of 400 raw text (ground arith)
normalize_notes-IsStored raw {text} (inr e) = IsStored-of 400 raw text (ground arith)
