-- ===== src/Config/Numbers.antt =====
-- A number that is set in the environment is the number that is read.
use osb_opengauss_go.Prelude.{
  ℕ, zero, suc, ◌+◌, ◌*◌, ◌/◌, ◌%◌, ◌^◌, ◌<◌, ◌≡◌, refl, ap, ◌∙◌, inl, inr, true, false, Bool-cases,
  [], ◌∷◌, Text, leb, ltb, ◌==◌, ℤ, pos, negsuc, digits, format_nat, format_int, text_eq, arith,
}
use osb_opengauss_go.Result.{ok}
use osb_opengauss_go.Config.{
  Environment, is_digit, read_digits, read_number, negated, atoi, parsed_or, env_int,
}

-- what an int of 64 bits holds
abbrev pub IsInt64 : ℤ → Type 0
IsInt64 (pos n) = n < 2 ^ 63
IsInt64 (negsuc n) = n < 2 ^ 63

digit_true : (d : ℕ) → d < 10 → is_digit (48 + d) ≡ true
digit_true d h = ground arith

read_digit :
    (a d n : ℕ) (out : Text)
    → d < 10
    → a * 10 + d ≡ n
    → read_digits a ((48 + d) ∷ out) ≡ read_digits n out
unfolding read_digits
read_digit a d n out h e = rw (digit_true d h) (ap (λ (k : ℕ). read_digits k out) (omega arith))

-- the digits of a number in front of a text are read as the number
read_digits-digits :
    (f n : ℕ) (out : Text) → n < f → read_digits 0 (digits f n out) ≡ read_digits n out
unfolding digits read_digits
read_digits-digits zero n out h = absurd (omega arith)
read_digits-digits (suc f) n out h = elim (Bool-cases (n / 10 == 0)) [
  | inl last ↦ rw last (read_digit 0 (n % 10) n out (omega arith) (ground arith))
  | inr more ↦ rw more (
      read_digits-digits f (n / 10) ((48 + n % 10) ∷ out) (ground arith)
      ∙ read_digit (n / 10) (n % 10) n out (omega arith) (omega arith))
]

-- a text that begins with a digit
pub record IsNumeral (s : Text) : Type 0 where
  pub head : ℕ
  pub tail : Text
  pub split : s ≡ head ∷ tail
  pub some_digit : (47 < head) × (head < 58)

digits-IsNumeral : (f n : ℕ) (out : Text) → n < f → IsNumeral (digits f n out)
unfolding digits
digits-IsNumeral zero n out h = absurd (omega arith)
digits-IsNumeral (suc f) n out h = elim (Bool-cases (n / 10 == 0)) [
  | inl last ↦ rw last (record {
    head = 48 + n % 10;
    tail = out;
    split = refl;
    some_digit = (omega arith, omega arith);
  })
  | inr more ↦ rw more (digits-IsNumeral f (n / 10) _ (ground arith))
]

format_nat-IsNumeral : (n : ℕ) → IsNumeral (format_nat n)
unfolding format_nat
format_nat-IsNumeral n = digits-IsNumeral (suc n) n [] (omega arith)

read_digits-format_nat : (n : ℕ) → read_digits 0 (format_nat n) ≡ ok n
unfolding format_nat read_digits
read_digits-format_nat n = read_digits-digits (suc n) n [] (omega arith)

numeral_read : (s : Text) → IsNumeral s → read_number s ≡ read_digits 0 s
unfolding read_number
numeral_read s m = rw (m.split)

read_number-format_nat : (n : ℕ) → read_number (format_nat n) ≡ ok n
read_number-format_nat n =
    numeral_read (format_nat n) (format_nat-IsNumeral n) ∙ read_digits-format_nat n

no_sign : (c : ℕ) → 47 < c → ((c == b'-') ≡ false) × ((c == b'+') ≡ false)
no_sign c h = (ground arith, ground arith)

numeral_atoi :
    (c n : ℕ) (s : Text)
    → 47 < c
    → n < 2 ^ 63
    → read_number (c ∷ s) ≡ ok n
    → atoi (c ∷ s) ≡ ok (pos n)
unfolding atoi
numeral_atoi c n s digit small read =
    let fits : leb (2 ^ 63) n ≡ false = ground arith in
    rw ((no_sign c digit).0, (no_sign c digit).1, read, fits)

atoi-format_nat : (n : ℕ) → n < 2 ^ 63 → atoi (format_nat n) ≡ ok (pos n)
atoi-format_nat n h =
    let m = format_nat-IsNumeral n in
    rw (m.split)
      (numeral_atoi m.head n m.tail m.some_digit.0 h (rw (m.split) at (read_number-format_nat n)))

negsuc_fits : (n : ℕ) → n < 2 ^ 63 → ltb (2 ^ 63) (suc n) ≡ false
negsuc_fits n h = ground arith

atoi-format_int : (n : ℤ) → IsInt64 n → atoi (format_int n) ≡ ok n
unfolding format_int atoi negated
atoi-format_int (pos n) h = atoi-format_nat n h
atoi-format_int (negsuc n) h = rw (read_number-format_nat (suc n), negsuc_fits n h)

format_int-nonempty : (n : ℤ) → text_eq (format_int n) [] ≡ false
unfolding format_int text_eq
format_int-nonempty (pos n) = let m = format_nat-IsNumeral n in rw (m.split)
format_int-nonempty (negsuc n) = refl

-- Where a variable of the environment is set to the decimal digits of a number, with a minus sign in
-- front if it is negative, and an int of 64 bits holds the number, envInt returns the number,
-- whatever the default is.
pub env_int-format_int :
    (environment : Environment) (key : Text) (n fallback : ℤ)
    → environment key ≡ format_int n
    → IsInt64 n
    → env_int environment key fallback ≡ ok n
unfolding env_int parsed_or
env_int-format_int environment key n fallback set fits =
    rw (set, format_int-nonempty n, atoi-format_int n fits)
