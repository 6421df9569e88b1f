-- ===== src/Options/Decimal.antt =====
-- `std::to_string` of an unsigned number, and `std::from_chars` of one whose type holds at most a
-- given number, where all of the text must be read, as `number` and `handle` of
-- src/runtime/options.cpp ask.
use rift_lift.Common.{
  ℕ, zero, suc, ◌+◌, ◌-◌, ◌*◌, ◌/◌, ◌%◌, ◌≤◌, ◌<◌, true, false, not, ◌&&◌, [], ◌∷◌, Option, none,
  some, Text, is_empty, leb, ltb, all, if◌then◌else◌, ◌≡◌, refl, ap, ◌∙◌, arith, Bool-cases, inl,
  inr,
}
use rift_lift.Names.{is_digit}

-- The digits of a number in front of those that are there; the number bounds how many there are.
unfoldable pub digits_before : ℕ → ℕ → Text → Text
digits_before zero n behind = behind
digits_before (suc fuel) n behind =
    let more = digits_before fuel (n / 10) ((b'0' + n % 10) ∷ behind) in
    if ltb n 10 then (b'0' + n) ∷ behind else more

unfoldable pub to_string : ℕ → Text
to_string n = digits_before (suc n) n []

unfoldable pub value_from : ℕ → Text → ℕ
value_from n [] = n
value_from n (c ∷ cs) = value_from (10 * n + (c - b'0')) cs

unfoldable pub from_chars : ℕ → Text → Option ℕ
from_chars maximum s =
    if not (is_empty s) && all is_digit s && leb (value_from 0 s) maximum
    then some (value_from 0 s)
    else none

value_from-digits_before :
    (fuel n : ℕ) (behind : Text)
    → n < fuel
    → value_from 0 (digits_before fuel n behind) ≡ value_from n behind
unfolding value_from digits_before
value_from-digits_before zero n behind h = absurd (omega arith)
value_from-digits_before (suc fuel) n behind h = elim (Bool-cases (ltb n 10)) [
  | inl last ↦ rw last (ap (λ k. value_from k behind) (omega arith))
  | inr more ↦
      let big : 10 ≤ n = ground arith in
      let smaller : n / 10 < fuel = omega arith in
      rw more (
        value_from-digits_before fuel (n / 10) ((b'0' + n % 10) ∷ behind) smaller
        ∙ ap (λ k. value_from k behind) (omega arith))
]

is_digit_below : (k : ℕ) → k < 10 → is_digit (b'0' + k) ≡ true
unfolding is_digit
is_digit_below k h = ground arith

digits_before-all :
    (fuel n : ℕ) (behind : Text)
    → n < fuel
    → all is_digit behind ≡ true
    → (all is_digit (digits_before fuel n behind) ≡ true)
      × (is_empty (digits_before fuel n behind) ≡ false)
unfolding digits_before
digits_before-all zero n behind h d = absurd (omega arith)
digits_before-all (suc fuel) n behind h d = elim (Bool-cases (ltb n 10)) [
  | inl last ↦ let digit = is_digit_below n (ground arith) in rw last (rw (digit, d) refl, refl)
  | inr more ↦
      let big : 10 ≤ n = ground arith in
      let digit = is_digit_below (n % 10) (omega arith) in
      rw more (
        digits_before-all fuel (n / 10) ((b'0' + n % 10) ∷ behind) (omega arith)
          (rw (digit, d) refl))
]

pub from_chars-to_string : (maximum n : ℕ) → n ≤ maximum → from_chars maximum (to_string n) ≡ some n
unfolding from_chars to_string value_from
from_chars-to_string maximum n h =
    let (digits, some_digits) = digits_before-all (suc n) n [] (omega arith) refl in
    let value : value_from 0 (digits_before (suc n) n []) ≡ n =
      value_from-digits_before (suc n) n [] (omega arith) in
    let fits : leb n maximum ≡ true = ground arith in rw (digits, some_digits, value, fits) refl
