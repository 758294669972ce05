-- ===== src/Sales/Phone/Canonical.antt =====
-- The forms of a number that src/sales/phone.ts returns.
use mathlib.Core.Path.{subst}
use mathlib.Core.List.{append_assoc}
use atabak_gold.Base.{
  ℕ, ◌≡◌, ◌⊎◌, refl, sym, ap, ◌∙◌, inl, inr, Bool, true, false, ◌&&◌, none, some, [], ◌∷◌,
  if◌then◌else◌, length, drop, take, map, ◌+◌, ◌++◌, All, arith, Bool-cases, Option-cases, ltb,
}
use atabak_gold.Base.Texts.{Text, trim, starts_with}
use atabak_gold.Sales.Phone.Defs.{
  to_ascii_digits, to_persian_digits, to_persian_digit, mobile, landline, NormalizedPhone, ok,
  collect, national_part, has_area_code, phone_of, classify, normalize_phone,
}
use atabak_gold.Sales.Phone.Digits.{
  IsDigit, IsNational, plus_code, collect-IsDigit, IsDigit-drop, IsDigit-take,
}
use atabak_gold.Sales.Phone.Accepted.{normalize_phone-prefix, IsNational-IsDigit}
use atabak_gold.Sales.Phone.Grouped.{
  display-mobile, display-landline, accepted-display-mobile, accepted-display-landline,
  to_ascii_digits-to_persian_digits,
}

IsDigit-if :
    (b : Bool) (k : ℕ) (xs : Text) → All IsDigit xs → All IsDigit (if b then drop k xs else xs)
IsDigit-if true k xs h = IsDigit-drop k xs h
IsDigit-if false k xs h = h

national_part-IsDigit : (ds : Text) → All IsDigit ds → All IsDigit (national_part ds)
unfolding national_part
national_part-IsDigit ds h =
    let zeros = starts_with (48 ∷ 48 ∷ []) ds in
    let rest = if zeros then drop 2 ds else ds in
    let coded = starts_with (57 ∷ 56 ∷ []) rest && ltb 11 (length rest) in
    let bare = if coded then drop 2 rest else rest in
    IsDigit-if (starts_with (48 ∷ []) bare) 1 bare
      (IsDigit-if coded 2 rest (IsDigit-if zeros 2 ds h))

IsNational-of :
    (n : Text)
    → All IsDigit n
    → length n ≡ 10
    → (starts_with (57 ∷ []) n ≡ true) ⊎ (has_area_code n ≡ true)
    → IsNational n
unfolding starts_with has_area_code
IsNational-of [] all ten first = absurd (ground arith)
IsNational-of (d ∷ ds) all ten first = (ground arith, all.0.1, omega (arith, ten), all.1)

classify-shape :
    (ds : Text) {v : NormalizedPhone}
    → classify (some ds) ≡ ok v
    → (length (national_part ds) ≡ 10)
      × ((starts_with (57 ∷ []) (national_part ds) ≡ true)
          ⊎ (has_area_code (national_part ds) ≡ true))
      × (v ≡ phone_of (national_part ds))
unfolding classify
classify-shape ds e = ground arith

classify-none : {v : NormalizedPhone} → classify none ≡ ok v → ⊥
unfolding classify
classify-none e = cc

classify-IsNational :
    (s : Text) {v : NormalizedPhone}
    → classify (collect s []) ≡ ok v
    → (n : Text) × IsNational n × (v ≡ phone_of n)
classify-IsNational s e = elim (Option-cases (collect s [])) [
  | inl bad ↦ absurd (classify-none (rw bad at e))
  | inr (ds, good) ↦
      let (ten, first, v) = classify-shape ds (rw good at e) in
      let all = national_part-IsDigit ds (collect-IsDigit s [] tt good) in
      (national_part ds, IsNational-of (national_part ds) all ten first, v)
]

normalize_phone-cases :
    (raw : Text) {v : NormalizedPhone}
    → normalize_phone raw ≡ ok v
    → classify (collect (trim (to_ascii_digits raw)) []) ≡ ok v
unfolding normalize_phone
normalize_phone-cases raw e = ground arith

normalize_phone-digits :
    (raw : Text) {v : NormalizedPhone}
    → normalize_phone raw ≡ ok v
    → (n : Text) × IsNational n × (v ≡ phone_of n)
normalize_phone-digits raw e =
    classify-IsNational (trim (to_ascii_digits raw)) (normalize_phone-cases raw e)

-- The code points of the Persian digits are 1728 behind those of the ASCII digits.
abbrev pub in_persian : Text → Text
in_persian s = map (λ c. c + 1728) s

to_persian_digits-in_persian : (s : Text) → All IsDigit s → to_persian_digits s ≡ in_persian s
unfolding to_persian_digits to_persian_digit
to_persian_digits-in_persian [] h = refl
to_persian_digits-in_persian (c ∷ s) h =
    ground (arith, to_persian_digits-in_persian s h.1, h.0.0, h.0.1)

to_persian_digits-append :
    (a b : Text) → to_persian_digits (a ++ b) ≡ to_persian_digits a ++ to_persian_digits b
unfolding to_persian_digits
to_persian_digits-append [] b = refl
to_persian_digits-append (c ∷ a) b = ap (λ r. to_persian_digit c ∷ r) (to_persian_digits-append a b)

-- Digits, a space and more text.
to_persian_digits-group :
    (a b : Text)
    → All IsDigit a
    → to_persian_digits (a ++ 32 ∷ b) ≡ in_persian a ++ 32 ∷ to_persian_digits b
unfolding to_persian_digits to_persian_digit
to_persian_digits-group a b h =
    to_persian_digits-append a (32 ∷ b)
    ∙ ap (λ r. r ++ 32 ∷ to_persian_digits b) (to_persian_digits-in_persian a h)

-- The forms of a national number: the country code in front, its kind by the first digit, and its
-- groups behind the trunk zero in Persian digits.
abbrev pub Shows : Text → NormalizedPhone → Type 0
Shows n v =
    (v.canonical ≡ 43 ∷ 57 ∷ 56 ∷ n)
    × (starts_with (57 ∷ []) n ≡ true
        → (v.kind ≡ mobile)
          × (v.display
              ≡ in_persian (48 ∷ take 3 n)
                ++ 32 ∷ (in_persian (take 3 (drop 3 n)) ++ 32 ∷ in_persian (drop 6 n))))
    × (starts_with (57 ∷ []) n ≡ false
        → (v.kind ≡ landline)
          × (v.display ≡ in_persian (48 ∷ take 2 n) ++ 32 ∷ in_persian (drop 2 n)))

phone_of-Shows : (n : Text) → IsNational n → Shows n (phone_of n)
unfolding phone_of
phone_of-Shows n h =
    let all = IsNational-IsDigit n h in
    let zero_digit : IsDigit 48 = (omega arith, omega arith) in
    (
      refl,
      λ m. (
        rw m refl,
        display-mobile n h m
            ∙ ap to_persian_digits
                (append_assoc (48 ∷ take 3 n) (32 ∷ take 3 (drop 3 n)) (32 ∷ drop 6 n))
            ∙ to_persian_digits-group (48 ∷ take 3 n) (take 3 (drop 3 n) ++ 32 ∷ drop 6 n)
                (zero_digit, IsDigit-take 3 n all)
            ∙ ap (λ r. in_persian (48 ∷ take 3 n) ++ 32 ∷ r)
                (to_persian_digits-group (take 3 (drop 3 n)) (drop 6 n)
                    (IsDigit-take 3 (drop 3 n) (IsDigit-drop 3 n all))
                  ∙ ap (λ r. in_persian (take 3 (drop 3 n)) ++ 32 ∷ r)
                      (to_persian_digits-in_persian (drop 6 n) (IsDigit-drop 6 n all))),
      ),
      λ m. (
        rw m refl,
        display-landline n h m
            ∙ to_persian_digits-group (48 ∷ take 2 n) (drop 2 n) (zero_digit, IsDigit-take 2 n all)
            ∙ ap (λ r. in_persian (48 ∷ take 2 n) ++ 32 ∷ r)
                (to_persian_digits-in_persian (drop 2 n) (IsDigit-drop 2 n all)),
      ),
    )

-- A text is accepted only as a national number: ten digits, the first not zero. The canonical form
-- is the number behind `+98`; a number that starts with 9 is mobile and shown behind the trunk zero
-- in Persian digits in groups of four, three and four, any other is a landline and shown in groups
-- of three and eight.
pub normalize_phone-IsNational :
    (raw : Text) {v : NormalizedPhone}
    → normalize_phone raw ≡ ok v
    → (n : Text) × IsNational n × Shows n v
normalize_phone-IsNational raw e =
    let (n, h, same) = normalize_phone-digits raw e in
    (n, h, subst (λ x. Shows n x) (sym same) (phone_of-Shows n h))

phone_of-canonical : (n : Text) → (phone_of n).canonical ≡ 43 ∷ 57 ∷ 56 ∷ n
unfolding phone_of
phone_of-canonical n = refl

phone_of-display :
    (n : Text) → IsNational n → normalize_phone (phone_of n).display ≡ ok (phone_of n)
phone_of-display n h = elim (Bool-cases (starts_with (57 ∷ []) n)) [
  | inl m ↦ accepted-display-mobile n h m
  | inr l ↦ accepted-display-landline n h l
]

-- Where a text is accepted, the canonical form and the display form of the result are accepted
-- with the very same result.
pub normalize_phone-stable :
    (raw : Text) {v : NormalizedPhone}
    → normalize_phone raw ≡ ok v
    → (normalize_phone v.canonical ≡ ok v) × (normalize_phone v.display ≡ ok v)
normalize_phone-stable raw {v} e =
    let (n, h, w) = normalize_phone-digits raw e in
    subst (λ u. (normalize_phone u.canonical ≡ ok u) × (normalize_phone u.display ≡ ok u)) (sym w)
      (
        ap normalize_phone (phone_of-canonical n)
            ∙ normalize_phone-prefix (43 ∷ 57 ∷ 56 ∷ []) n plus_code h,
        phone_of-display n h,
      )

-- The Persian keyboard makes no difference: a text with its ASCII digits replaced by Persian ones
-- is judged like the text itself.
pub normalize_phone-to_persian_digits :
    (raw : Text) → normalize_phone (to_persian_digits raw) ≡ normalize_phone raw
unfolding normalize_phone
normalize_phone-to_persian_digits raw = rw (normalize_phone, to_ascii_digits-to_persian_digits) refl
