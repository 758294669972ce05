-- ===== src/Sales/Phone/Accepted.antt =====
-- Which numbers src/sales/phone.ts accepts.
use mathlib.Core.List.{append-nil}
use atabak_gold.Base.{
  ℕ, ◌≤◌, ◌≡◌, refl, sym, ap, ◌∙◌, false, some, [], ◌∷◌, ◌++◌, length, All, arith,
}
use atabak_gold.Base.Texts.{Text, is_empty, is_white}
use atabak_gold.Sales.Phone.Defs.{
  to_ascii_digits, ok, kind_of, is_separator, collect, national_part, phone_of, classify,
  normalize_phone,
}
use atabak_gold.Sales.Phone.Digits.{
  IsDigit, IsNational, Prefix, bare, trunk, code, plus_code, zero_code, collect-digits,
  classify-national, national_part-bare, national_part-trunk, national_part-code,
  national_part-zero_code, normalize_phone-plain, is_white-digit,
}

pub collect-whole : (xs : Text) → All IsDigit xs → collect xs [] ≡ some xs
unfolding collect
collect-whole xs h = ap (λ s. collect s []) (sym (append-nil xs)) ∙ collect-digits xs [] [] h

collect-plus : (xs : Text) → collect (43 ∷ xs) [] ≡ collect xs []
unfolding collect kind_of is_separator
collect-plus xs = refl

length-not_empty : (ds : Text) → length ds ≡ 9 → is_empty ds ≡ false
length-not_empty [] h = ground arith
length-not_empty (d ∷ ds) h = refl

pub IsNational-IsDigit : (n : Text) → IsNational n → All IsDigit n
IsNational-IsDigit [] h = tt
IsNational-IsDigit (d ∷ ds) h = ((omega (arith, h.0), h.1), h.3)

IsNational-not_empty : (n : Text) → IsNational n → is_empty n ≡ false
IsNational-not_empty [] h = absurd h
IsNational-not_empty (d ∷ ds) h = refl

-- A text of ASCII signs is accepted when its digits are those of a national number with a prefix.
pub accepted_at :
    (raw : Text) (c : ℕ) (xs ys q n : Text)
    → IsNational n
    → to_ascii_digits raw ≡ to_ascii_digits ((c ∷ xs) ++ ys)
    → c ≤ 1000
    → is_white c ≡ false
    → All (λ d. d ≤ 1000) xs
    → All IsDigit ys
    → is_empty ys ≡ false
    → collect ((c ∷ xs) ++ ys) [] ≡ some q
    → national_part q ≡ n
    → normalize_phone raw ≡ ok (phone_of n)
accepted_at raw c xs ys q n h same plain solid low all ne collected national =
    normalize_phone-plain raw c xs ys same plain solid low all ne
    ∙ ap classify collected
    ∙ classify-national q n h national

coded : (d : ℕ) (ds : Text) → IsNational (d ∷ ds) → All IsDigit (57 ∷ 56 ∷ d ∷ ds)
coded d ds h =
    ((omega arith, omega arith), ((omega arith, omega arith), IsNational-IsDigit (d ∷ ds) h))

-- A national number is accepted in every notation: bare, with a trunk zero, and with the country
-- code, after `+`, after `00` or alone; the result is the same.
pub normalize_phone-prefix :
    (p n : Text) → Prefix p → IsNational n → normalize_phone (p ++ n) ≡ ok (phone_of n)
unfolding is_white
normalize_phone-prefix p [] w h = absurd h
normalize_phone-prefix p (d ∷ ds) bare h =
    accepted_at _ d [] ds (d ∷ ds) (d ∷ ds) h refl (omega (arith, h.1))
      (is_white-digit d (IsNational-IsDigit (d ∷ ds) h).0) tt h.3 (length-not_empty ds h.2)
      (collect-whole (d ∷ ds) (IsNational-IsDigit (d ∷ ds) h)) (national_part-bare d ds h.0 h.2)
normalize_phone-prefix p (d ∷ ds) trunk h =
    accepted_at _ 48 [] (d ∷ ds) (48 ∷ d ∷ ds) (d ∷ ds) h refl (omega arith) refl tt
      (IsNational-IsDigit (d ∷ ds) h) refl
      (collect-whole (48 ∷ d ∷ ds) ((omega arith, omega arith), IsNational-IsDigit (d ∷ ds) h))
      (national_part-trunk d ds h.0)
normalize_phone-prefix p (d ∷ ds) code h =
    accepted_at _ 57 (56 ∷ []) (d ∷ ds) (57 ∷ 56 ∷ d ∷ ds) (d ∷ ds) h refl (omega arith) refl
      (omega arith, tt) (IsNational-IsDigit (d ∷ ds) h) refl
      (collect-whole (57 ∷ 56 ∷ d ∷ ds) (coded d ds h)) (national_part-code d ds h.0 h.2)
normalize_phone-prefix p (d ∷ ds) plus_code h =
    accepted_at _ 43 (57 ∷ 56 ∷ []) (d ∷ ds) (57 ∷ 56 ∷ d ∷ ds) (d ∷ ds) h refl (omega arith) refl
      (omega arith, (omega arith, tt)) (IsNational-IsDigit (d ∷ ds) h) refl
      (collect-plus (57 ∷ 56 ∷ d ∷ ds) ∙ collect-whole (57 ∷ 56 ∷ d ∷ ds) (coded d ds h))
      (national_part-code d ds h.0 h.2)
normalize_phone-prefix p (d ∷ ds) zero_code h =
    accepted_at _ 48 (48 ∷ 57 ∷ 56 ∷ []) (d ∷ ds) (48 ∷ 48 ∷ 57 ∷ 56 ∷ d ∷ ds) (d ∷ ds) h refl
      (omega arith) refl (omega arith, (omega arith, (omega arith, tt)))
      (IsNational-IsDigit (d ∷ ds) h) refl
      (collect-whole (48 ∷ 48 ∷ 57 ∷ 56 ∷ d ∷ ds)
        ((omega arith, omega arith), ((omega arith, omega arith), coded d ds h)))
      (national_part-zero_code d ds h.0 h.2)
