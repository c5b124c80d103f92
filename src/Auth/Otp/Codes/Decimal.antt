-- ===== src/Auth/Otp/Codes/Decimal.antt =====
-- A generated code is the random value in six decimal digits.
use elysiajs_production_api.Base.{
  ℕ, zero, suc, ◌+◌, ◌-◌, ◌*◌, ◌/◌, ◌%◌, ◌≤◌, ◌<◌, ◌≡◌, refl, true, ap, ◌∙◌, [], ◌∷◌, Text, length,
  ltb, if◌then◌else◌, All, arith, Bool-cases, inl, inr,
}
use elysiajs_production_api.Auth.Otp.Codes.{
  digits_onto, to_decimal, zeros_onto, pad_start, generate_code,
}

-- The number that a text of decimal digits spells, behind the digits of `n`.
abbrev pub decimal_from : ℕ → Text → ℕ
decimal_from n [] = n
decimal_from n (c ∷ s) = decimal_from (n * 10 + (c - 48)) s

abbrev pub IsDigit : ℕ → Type 0
IsDigit c = (48 ≤ c) × (c ≤ 57)

abbrev pub power_of_ten : ℕ → ℕ
power_of_ten zero = 1
power_of_ten (suc k) = 10 * power_of_ten k

digits_onto-decimal :
    (fuel n : ℕ) (s : Text) → n < fuel → decimal_from 0 (digits_onto fuel n s) ≡ decimal_from n s
unfolding digits_onto
digits_onto-decimal zero n s h = absurd (omega arith)
digits_onto-decimal (suc fuel) n s h = elim (Bool-cases (ltb n 10)) [
  | inl e ↦ rw (e, if◌then◌else◌) (ap (λ (k : ℕ). decimal_from k s) (omega arith))
  | inr e ↦
      rw (e, if◌then◌else◌)
        (digits_onto-decimal fuel (n / 10) ((48 + n % 10) ∷ s) (ground arith)
          ∙ ap (λ (k : ℕ). decimal_from k s) (omega arith))
]

digits_onto-All :
    (fuel n : ℕ) (s : Text) → n < fuel → All IsDigit s → All IsDigit (digits_onto fuel n s)
unfolding digits_onto
digits_onto-All zero n s h d = d
digits_onto-All (suc fuel) n s h d = elim (Bool-cases (ltb n 10)) [
  | inl e ↦ rw (e, if◌then◌else◌) ((omega arith, ground arith), d)
  | inr e ↦
      rw (e, if◌then◌else◌)
        (digits_onto-All fuel (n / 10) ((48 + n % 10) ∷ s) (ground arith)
          ((omega arith, omega arith), d))
]

length-digits_onto-le :
    (fuel n k : ℕ) (s : Text)
    → n < power_of_ten (suc k)
    → length (digits_onto fuel n s) ≤ length s + suc k
unfolding digits_onto
length-digits_onto-le zero n k s h = omega arith
length-digits_onto-le (suc fuel) n zero s h =
    rw (small n (omega arith), if◌then◌else◌) (omega arith)
  where
    small : (n : ℕ) → n < 10 → ltb n 10 ≡ true
    small n h = ground arith
length-digits_onto-le (suc fuel) n (suc k) s h = elim (Bool-cases (ltb n 10)) [
  | inl e ↦ rw (e, if◌then◌else◌) (omega arith)
  | inr e ↦
      rw (e, if◌then◌else◌)
        (omega (arith, length-digits_onto-le fuel (n / 10) k ((48 + n % 10) ∷ s) (omega arith)))
]

zeros_onto-decimal : (k : ℕ) (s : Text) → decimal_from 0 (zeros_onto k s) ≡ decimal_from 0 s
unfolding zeros_onto
zeros_onto-decimal zero s = refl
zeros_onto-decimal (suc k) s = zeros_onto-decimal k s

zeros_onto-All : (k : ℕ) (s : Text) → All IsDigit s → All IsDigit (zeros_onto k s)
unfolding zeros_onto
zeros_onto-All zero s d = d
zeros_onto-All (suc k) s d = ((omega arith, omega arith), zeros_onto-All k s d)

length-zeros_onto : (k : ℕ) (s : Text) → length (zeros_onto k s) ≡ k + length s
unfolding zeros_onto
length-zeros_onto zero s = omega arith
length-zeros_onto (suc k) s = omega (arith, length-zeros_onto k s)

-- A number that fits, written in decimal and padded to a width.
pub pad_start-decimal :
    (k n : ℕ)
    → n < power_of_ten (suc k)
    → (length (pad_start (suc k) (to_decimal n)) ≡ suc k)
      × All IsDigit (pad_start (suc k) (to_decimal n))
      × (decimal_from 0 (pad_start (suc k) (to_decimal n)) ≡ n)
unfolding pad_start to_decimal
pad_start-decimal k n fits =
    let s = digits_onto (suc n) n [] in
    let short : length s ≤ suc k = omega (arith, length-digits_onto-le (suc n) n k [] fits) in
    (
      omega (arith, length-zeros_onto (suc k - length s) s),
      zeros_onto-All (suc k - length s) s (digits_onto-All (suc n) n [] (omega arith) tt),
      zeros_onto-decimal (suc k - length s) s ∙ digits_onto-decimal (suc n) n [] (omega arith),
    )

pub to_decimal-decimal : (n : ℕ) → All IsDigit (to_decimal n) × (decimal_from 0 (to_decimal n) ≡ n)
unfolding to_decimal
to_decimal-decimal n =
    (digits_onto-All (suc n) n [] (omega arith) tt, digits_onto-decimal (suc n) n [] (omega arith))

-- For every random value, the generated code has exactly six characters, all of them are decimal
-- digits, and they spell the value modulo a million.
pub generate_code-decimal :
    (random : ℕ)
    → (length (generate_code random) ≡ 6)
      × All IsDigit (generate_code random)
      × (decimal_from 0 (generate_code random) ≡ random % 1000000)
unfolding generate_code
generate_code-decimal random = pad_start-decimal 5 (random % 1000000) (omega arith)
