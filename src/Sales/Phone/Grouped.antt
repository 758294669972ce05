-- ===== src/Sales/Phone/Grouped.antt =====
-- The display form of a number, digit group by digit group.
use mathlib.Core.List.{append_assoc, append-nil}
use atabak_gold.Base.{
  ℕ, zero, suc, ◌<◌, ◌≡◌, refl, sym, ap, ◌∙◌, true, false, some, [], ◌∷◌, ◌++◌, length, take, drop,
  All, arith,
}
use atabak_gold.Base.Texts.{Text, is_empty, is_white, starts_with, remove_first}
use atabak_gold.Sales.Phone.Defs.{
  to_ascii_digit, to_ascii_digits, to_persian_digit, to_persian_digits, kind_of, is_separator,
  collect, phone_of, format_phone_fa, ok, normalize_phone,
}
use atabak_gold.Sales.Phone.Digits.{
  national_part-trunk, IsDigit, IsNational, collect-digits, IsDigit-drop, IsDigit-take,
  All-digits-plain, All-plain-append, to_ascii_digits-plain,
}
use atabak_gold.Sales.Phone.Accepted.{accepted_at, IsNational-IsDigit}

to_ascii_digit-to_persian_digit : (c : ℕ) → to_ascii_digit (to_persian_digit c) ≡ to_ascii_digit c
unfolding to_ascii_digit to_persian_digit
to_ascii_digit-to_persian_digit c = ground arith

-- Digits in Persian read as the same digits in ASCII.
pub to_ascii_digits-to_persian_digits :
    (s : Text) → to_ascii_digits (to_persian_digits s) ≡ to_ascii_digits s
unfolding to_ascii_digits to_persian_digits
to_ascii_digits-to_persian_digits [] = refl
to_ascii_digits-to_persian_digits (c ∷ s) =
    rw to_ascii_digit-to_persian_digit
      (ap (λ r. to_ascii_digit c ∷ r) (to_ascii_digits-to_persian_digits s))

collect-space : (s acc : Text) → collect (32 ∷ s) acc ≡ collect s acc
unfolding collect kind_of is_separator
collect-space s acc = refl

take-append-drop : (k : ℕ) (xs : Text) → take k xs ++ drop k xs ≡ xs
take-append-drop zero xs = refl
take-append-drop (suc k) [] = refl
take-append-drop (suc k) (x ∷ xs) = ap (λ r. x ∷ r) (take-append-drop k xs)

-- Spaces between groups of digits do not matter to the loop.
collect-two :
    (a b : Text) → All IsDigit a → All IsDigit b → collect (a ++ 32 ∷ b) [] ≡ some (a ++ b)
unfolding collect
collect-two a b ha hb =
    collect-digits a (32 ∷ b) [] ha
    ∙ collect-space b a
    ∙ ap (λ t. collect t a) (sym (append-nil b))
    ∙ collect-digits b [] a hb
    ∙ refl

collect-three :
    (a b c : Text)
    → All IsDigit a
    → All IsDigit b
    → All IsDigit c
    → collect (a ++ 32 ∷ b ++ 32 ∷ c) [] ≡ some (a ++ (b ++ c))
unfolding collect
collect-three a b c ha hb hc =
    ap (λ t. collect t []) (append_assoc a (32 ∷ b) (32 ∷ c))
    ∙ collect-digits a (32 ∷ b ++ 32 ∷ c) [] ha
    ∙ collect-space (b ++ 32 ∷ c) a
    ∙ collect-digits b (32 ∷ c) a hb
    ∙ collect-space c (a ++ b)
    ∙ ap (λ t. collect t (a ++ b)) (sym (append-nil c))
    ∙ collect-digits c [] (a ++ b) hc
    ∙ ap some (append_assoc a b c)

canonical-ascii :
    (n : Text)
    → IsNational n
    → remove_first (43 ∷ 57 ∷ 56 ∷ []) (to_ascii_digits (43 ∷ 57 ∷ 56 ∷ n)) ≡ n
unfolding remove_first starts_with
canonical-ascii n h =
    ap (remove_first (43 ∷ 57 ∷ 56 ∷ [])) (
      to_ascii_digits-plain (43 ∷ 57 ∷ 56 ∷ n)
        (omega arith, (omega arith, (omega arith, All-digits-plain n (IsNational-IsDigit n h)))))
    ∙ refl

-- The display form of a mobile number: the trunk zero, and groups of three, three and four digits.
pub display-mobile :
    (n : Text)
    → IsNational n
    → starts_with (57 ∷ []) n ≡ true
    → (phone_of n).display
      ≡ to_persian_digits ((48 ∷ take 3 n) ++ 32 ∷ take 3 (drop 3 n) ++ 32 ∷ drop 6 n)
unfolding phone_of format_phone_fa
display-mobile [] h m = absurd h
display-mobile (d ∷ ds) h m = rw (canonical-ascii (d ∷ ds) h, m, h.2) refl

pub display-landline :
    (n : Text)
    → IsNational n
    → starts_with (57 ∷ []) n ≡ false
    → (phone_of n).display ≡ to_persian_digits ((48 ∷ take 2 n) ++ 32 ∷ drop 2 n)
unfolding phone_of format_phone_fa
display-landline [] h m = absurd h
display-landline (d ∷ ds) h m = rw (canonical-ascii (d ∷ ds) h, m, h.2) refl

drop-drop : (xs : Text) → drop 3 (drop 3 xs) ≡ drop 6 xs
drop-drop [] = refl
drop-drop (x ∷ []) = refl
drop-drop (x ∷ y ∷ []) = refl
drop-drop (x ∷ y ∷ z ∷ xs) = refl

is_empty-drop : (k : ℕ) (xs : Text) → k < length xs → is_empty (drop k xs) ≡ false
is_empty-drop zero [] h = ground arith
is_empty-drop zero (x ∷ xs) h = refl
is_empty-drop (suc k) [] h = ground arith
is_empty-drop (suc k) (x ∷ xs) h = is_empty-drop k xs (omega (arith, h))

-- A mobile number in the display form is accepted as the number that it shows.
pub accepted-display-mobile :
    (n : Text)
    → IsNational n
    → starts_with (57 ∷ []) n ≡ true
    → normalize_phone (phone_of n).display ≡ ok (phone_of n)
unfolding is_white
accepted-display-mobile [] h m = absurd h
accepted-display-mobile (d ∷ ds) h m =
    let n = d ∷ ds in
    let all = IsNational-IsDigit n h in
    let a = take 3 n in
    let b = take 3 (drop 3 n) in
    let c = drop 6 n in
    let grouped = append_assoc ((48 ∷ a) ++ 32 ∷ b) (32 ∷ []) c in
    let ha = IsDigit-take 3 n all in
    let hb = IsDigit-take 3 (drop 3 n) (IsDigit-drop 3 n all) in
    let hc = IsDigit-drop 6 n all in
    accepted_at _ 48 (a ++ 32 ∷ b ++ 32 ∷ []) c (48 ∷ n) n h
      (ap to_ascii_digits (display-mobile n h m)
        ∙ to_ascii_digits-to_persian_digits _
        ∙ ap to_ascii_digits (sym grouped))
      (omega arith) refl
      (All-plain-append (a ++ 32 ∷ b) (32 ∷ [])
        (All-plain-append a (32 ∷ b) (All-digits-plain a ha) (omega arith, All-digits-plain b hb))
        (omega arith, tt))
      hc (is_empty-drop 5 ds (omega (arith, h.2)))
      (ap (λ t. collect t []) grouped
        ∙ collect-three (48 ∷ a) b c ((omega arith, omega arith), ha) hb hc
        ∙ ap (λ t. some (48 ∷ a ++ (b ++ t))) (sym (drop-drop n))
        ∙ ap (λ t. some (48 ∷ a ++ t)) (take-append-drop 3 (drop 3 n))
        ∙ ap (λ t. some (48 ∷ t)) (take-append-drop 3 n))
      (national_part-trunk d ds h.0)

-- A landline number in the display form is accepted as the number that it shows.
pub accepted-display-landline :
    (n : Text)
    → IsNational n
    → starts_with (57 ∷ []) n ≡ false
    → normalize_phone (phone_of n).display ≡ ok (phone_of n)
unfolding is_white
accepted-display-landline [] h m = absurd h
accepted-display-landline (d ∷ ds) h m =
    let n = d ∷ ds in
    let all = IsNational-IsDigit n h in
    let a = take 2 n in
    let c = drop 2 n in
    let grouped = append_assoc (48 ∷ a) (32 ∷ []) c in
    let ha = IsDigit-take 2 n all in
    let hc = IsDigit-drop 2 n all in
    accepted_at _ 48 (a ++ 32 ∷ []) c (48 ∷ n) n h
      (ap to_ascii_digits (display-landline n h m)
        ∙ to_ascii_digits-to_persian_digits _
        ∙ ap to_ascii_digits (sym grouped))
      (omega arith) refl (All-plain-append a (32 ∷ []) (All-digits-plain a ha) (omega arith, tt)) hc
      (is_empty-drop 1 ds (omega (arith, h.2)))
      (ap (λ t. collect t []) grouped
        ∙ collect-two (48 ∷ a) c ((omega arith, omega arith), ha) hc
        ∙ ap (λ t. some (48 ∷ t)) (take-append-drop 2 n))
      (national_part-trunk d ds h.0)
