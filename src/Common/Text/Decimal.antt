-- ===== src/Common/Text/Decimal.antt =====
-- Reading a decimal print.
use chain_ops.Common.{
  ℕ, zero, suc, ◌+◌, ◌-◌, ◌*◌, ◌/◌, ◌%◌, ◌<◌, ◌≡◌, refl, ◌∙◌, true, ◌&&◌, [], ◌∷◌, Option, none,
  some, arith, ltb, leb, if◌then◌else◌, Bool-cases, inl, inr, ap, ltb→lt, ltb→ge,
}
use chain_ops.Common.Text.{Text, decimal, digits}

-- The digits behind a number that was read so far.
unfoldable pub read_on : ℕ → Text → Option ℕ
read_on n [] = some n
read_on n (c ∷ s) =
    let rest = read_on (n * 10 + (c - 48)) s in if leb 48 c && leb c 57 then rest else none

-- A decimal number, of one digit at least.
unfoldable pub read_decimal : Text → Option ℕ
read_decimal [] = none
read_decimal (c ∷ s) = read_on 0 (c ∷ s)

read_on-digit : (a n : ℕ) (s : Text) → n < 10 → read_on a ((48 + n) ∷ s) ≡ read_on (a * 10 + n) s
unfolding read_on
read_on-digit a n s h =
    let digit : (leb 48 (48 + n) && leb (48 + n) 57) ≡ true = ground arith in
    let same : 48 + n - 48 ≡ n = omega arith in rw (digit, same) refl

read_on-digits :
    (fuel n : ℕ) (out : Text) → n < fuel → read_on 0 (digits fuel n out) ≡ read_on n out
unfolding digits
read_on-digits zero n out enough = absurd (omega arith)
read_on-digits (suc fuel) n out enough = elim (Bool-cases (ltb n 10)) [
  | inl last ↦
      let whole : 0 * 10 + n % 10 ≡ n = omega (arith, ltb→lt n 10 last) in
      rw last (read_on-digit 0 (n % 10) out (omega arith) ∙ ap (λ x. read_on x out) whole)
  | inr more ↦
      let whole : n / 10 * 10 + n % 10 ≡ n = omega arith in
      rw more (
        read_on-digits fuel (n / 10) ((48 + n % 10) ∷ out) (omega (arith, ltb→ge n 10 more))
        ∙ read_on-digit (n / 10) (n % 10) out (omega arith)
        ∙ ap (λ x. read_on x out) whole)
]

-- The print is not empty.
read_decimal-digits :
    (fuel n c : ℕ) (out : Text)
    → read_decimal (digits fuel n (c ∷ out)) ≡ read_on 0 (digits fuel n (c ∷ out))
unfolding digits read_decimal
read_decimal-digits zero n c out = refl
read_decimal-digits (suc fuel) n c out = elim (Bool-cases (ltb n 10)) [
  | inl last ↦ rw last refl
  | inr more ↦ rw more (read_decimal-digits fuel (n / 10) (48 + n % 10) (c ∷ out))
]

some_digit : (n : ℕ) → read_decimal (decimal n) ≡ read_on 0 (decimal n)
unfolding decimal read_decimal digits
some_digit n = elim (Bool-cases (ltb n 10)) [
  | inl last ↦ rw last refl
  | inr more ↦ rw more (read_decimal-digits n (n / 10) (48 + n % 10) [])
]

-- The print of a number reads back as this number.
pub read_decimal-decimal : (n : ℕ) → read_decimal (decimal n) ≡ some n
unfolding decimal read_on
read_decimal-decimal n = some_digit n ∙ read_on-digits (suc n) n [] (omega arith)
