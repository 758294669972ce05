-- ===== src/Sales/Phone/Digits.antt =====
-- How src/sales/phone.ts reads digits and prefixes: the lemmas behind what it accepts.
use mathlib.Core.Path.{subst}
use mathlib.Core.Option.{some-injective}
use mathlib.Core.List.{append_assoc, append-nil}
use atabak_gold.Base.{
  ℕ, zero, suc, ◌≤◌, ◌≡◌, ◌⊎◌, refl, ap, ◌∙◌, inl, inr, false, none, some, [], ◌∷◌, ◌++◌, length,
  take, drop, All, arith, Bool-cases,
}
use atabak_gold.Base.Texts.{Text, is_empty, is_white, starts_with, trim, trim-ends}
use atabak_gold.Sales.Phone.Defs.{
  to_ascii_digit, to_ascii_digits, ok, CharacterKind, separator, plus, other, digit, kind_of,
  is_separator, collect, national_part, has_area_code, phone_of, classify, normalize_phone,
}

abbrev pub IsDigit : ℕ → Type 0
IsDigit c = (48 ≤ c) × (c ≤ 57)

-- A national number: ten digits, the first of which is not zero.
abbrev pub IsNational : Text → Type 0
IsNational [] = ⊥
IsNational (d ∷ ds) = (49 ≤ d) × (d ≤ 57) × (length ds ≡ 9) × All IsDigit ds

-- The ways to write the country or the trunk code in front of a national number.
pub data Prefix : Text → Type 0 where
  bare : Prefix []
  trunk : Prefix (48 ∷ [])
  code : Prefix (57 ∷ 56 ∷ [])
  plus_code : Prefix (43 ∷ 57 ∷ 56 ∷ [])
  zero_code : Prefix (48 ∷ 48 ∷ 57 ∷ 56 ∷ [])

pub kind_of-digit : (c : ℕ) → IsDigit c → kind_of c ≡ digit
unfolding kind_of is_separator
kind_of-digit c h = ground arith

IsDigit-of_kind : (c : ℕ) → kind_of c ≡ digit → IsDigit c
unfolding kind_of
IsDigit-of_kind c h = ground arith

pub is_white-digit : (c : ℕ) → IsDigit c → is_white c ≡ false
unfolding is_white
is_white-digit c h = ground arith

pub to_ascii_digit-digit : (c : ℕ) → c ≤ 1000 → to_ascii_digit c ≡ c
unfolding to_ascii_digit
to_ascii_digit-digit c h = ground arith

pub collect-digits :
    (xs ys acc : Text) → All IsDigit xs → collect (xs ++ ys) acc ≡ collect ys (acc ++ xs)
unfolding collect
collect-digits [] ys acc h = rw append-nil refl
collect-digits (c ∷ xs) ys acc (d, h) =
    rw (collect, kind_of-digit c d, collect-digits xs ys (acc ++ (c ∷ [])) h, append_assoc) refl

All-append : (xs ys : Text) → All IsDigit xs → All IsDigit ys → All IsDigit (xs ++ ys)
All-append [] ys h k = k
All-append (c ∷ xs) ys (d, h) k = (d, All-append xs ys h k)

pub IsDigit-drop : (k : ℕ) (xs : Text) → All IsDigit xs → All IsDigit (drop k xs)
IsDigit-drop zero xs h = h
IsDigit-drop (suc k) [] h = tt
IsDigit-drop (suc k) (x ∷ xs) h = IsDigit-drop k xs h.1

pub IsDigit-take : (k : ℕ) (xs : Text) → All IsDigit xs → All IsDigit (take k xs)
IsDigit-take zero xs h = tt
IsDigit-take (suc k) [] h = tt
IsDigit-take (suc k) (x ∷ xs) h = (h.0, IsDigit-take k xs h.1)

none-ne-some : {ds : Text} → none ≡ some ds → ⊥
none-ne-some e = cc

Kind-cases : (k : CharacterKind) → (k ≡ separator) ⊎ ((k ≡ plus) ⊎ ((k ≡ other) ⊎ (k ≡ digit)))
Kind-cases separator = inl refl
Kind-cases plus = inr (inl refl)
Kind-cases other = inr (inr (inl refl))
Kind-cases digit = inr (inr (inr refl))

pub collect-IsDigit :
    (s acc : Text) {ds : Text} → All IsDigit acc → collect s acc ≡ some ds → All IsDigit ds
unfolding collect
collect-IsDigit [] acc h e = subst (All IsDigit) (some-injective _ _ e) h
collect-IsDigit (c ∷ s) acc h e = elim (Kind-cases (kind_of c)) [
  | inl k ↦ collect-IsDigit s acc h (rw (collect, k) at e)
  | inr (inl k) ↦ elim (Bool-cases (is_empty acc)) [
    | inl t ↦ collect-IsDigit s acc h (rw (collect, k, t) at e)
    | inr f ↦ absurd (none-ne-some (rw (collect, k, f) at e))
  ]
  | inr (inr (inl k)) ↦ absurd (none-ne-some (rw (collect, k) at e))
  | inr (inr (inr k)) ↦
      collect-IsDigit s (acc ++ (c ∷ [])) (All-append acc _ h (IsDigit-of_kind c k, tt))
        (rw (collect, k) at e)
]

pub national_part-bare :
    (d : ℕ) (ds : Text) → 49 ≤ d → length ds ≡ 9 → national_part (d ∷ ds) ≡ d ∷ ds
unfolding national_part starts_with
national_part-bare d ds h l = ground arith

pub national_part-trunk : (d : ℕ) (ds : Text) → 49 ≤ d → national_part (48 ∷ d ∷ ds) ≡ d ∷ ds
unfolding national_part starts_with
national_part-trunk d ds h = ground arith

pub national_part-code :
    (d : ℕ) (ds : Text) → 49 ≤ d → length ds ≡ 9 → national_part (57 ∷ 56 ∷ d ∷ ds) ≡ d ∷ ds
unfolding national_part starts_with
national_part-code d ds h l = ground arith

pub national_part-zero_code :
    (d : ℕ) (ds : Text)
    → 49 ≤ d
    → length ds ≡ 9
    → national_part (48 ∷ 48 ∷ 57 ∷ 56 ∷ d ∷ ds) ≡ d ∷ ds
unfolding national_part starts_with
national_part-zero_code d ds h l = ground arith

pub classify-national :
    (q n : Text) → IsNational n → national_part q ≡ n → classify (some q) ≡ ok (phone_of n)
unfolding classify starts_with has_area_code
classify-national q [] h e = absurd h
classify-national q (d ∷ ds) h e = rw (classify, e) ground arith

-- Digits and ASCII signs are left as they are.
pub to_ascii_digits-plain : (s : Text) → All (λ c. c ≤ 1000) s → to_ascii_digits s ≡ s
unfolding to_ascii_digits
to_ascii_digits-plain [] h = refl
to_ascii_digits-plain (c ∷ s) (p, h) =
    rw (to_ascii_digit-digit c p) (ap (λ r. c ∷ r) (to_ascii_digits-plain s h))

pub All-digits-plain : (s : Text) → All IsDigit s → All (λ c. c ≤ 1000) s
All-digits-plain [] h = tt
All-digits-plain (c ∷ s) (d, h) = (omega (arith, d.1), All-digits-plain s h)

All-digits-solid : (s : Text) → All IsDigit s → All (λ c. is_white c ≡ false) s
All-digits-solid [] h = tt
All-digits-solid (c ∷ s) (d, h) = (is_white-digit c d, All-digits-solid s h)

pub All-plain-append :
    (xs ys : Text)
    → All (λ c. c ≤ 1000) xs
    → All (λ c. c ≤ 1000) ys
    → All (λ c. c ≤ 1000) (xs ++ ys)
All-plain-append [] ys h k = k
All-plain-append (c ∷ xs) ys (d, h) k = (d, All-plain-append xs ys h k)

normalize_phone-at :
    (raw t : Text)
    → trim (to_ascii_digits raw) ≡ t
    → is_empty t ≡ false
    → normalize_phone raw ≡ classify (collect t [])
unfolding normalize_phone
normalize_phone-at raw t e ne = rw (normalize_phone, e, ne) refl

-- A text of ASCII signs that ends with digits goes to the loop as it is.
pub normalize_phone-plain :
    (raw : Text) (c : ℕ) (xs ys : Text)
    → to_ascii_digits raw ≡ to_ascii_digits ((c ∷ xs) ++ ys)
    → c ≤ 1000
    → is_white c ≡ false
    → All (λ d. d ≤ 1000) xs
    → All IsDigit ys
    → is_empty ys ≡ false
    → normalize_phone raw ≡ classify (collect ((c ∷ xs) ++ ys) [])
normalize_phone-plain raw c xs ys same plain solid h k ne =
    let kept =
      to_ascii_digits-plain ((c ∷ xs) ++ ys)
        (plain, All-plain-append xs ys h (All-digits-plain ys k)) in
    normalize_phone-at raw ((c ∷ xs) ++ ys)
      (ap trim (same ∙ kept) ∙ trim-ends c xs ys solid (All-digits-solid ys k) ne) refl
