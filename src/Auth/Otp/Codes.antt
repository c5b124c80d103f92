-- ===== src/Auth/Otp/Codes.antt =====
-- `generateCode` of otp.service.ts and password-reset.service.ts: six decimal digits.
pub mod Decimal
use elysiajs_production_api.Base.{
  ℕ, zero, suc, ◌+◌, ◌-◌, ◌/◌, ◌%◌, ◌≤◌, ◌<◌, ◌≡◌, List, [], ◌∷◌, Text, length, ltb, if◌then◌else◌,
  All, arith, Bool-cases, inl, inr,
}

-- `n.toString()` in front of the digits that are there already. Each round drops a digit, so a fuel
-- above the number is enough.
unfoldable pub digits_onto : ℕ → ℕ → Text → Text
digits_onto zero n s = s
digits_onto (suc fuel) n s =
    let more = digits_onto fuel (n / 10) ((48 + n % 10) ∷ s) in
    if ltb n 10 then (48 + n) ∷ s else more

unfoldable pub to_decimal : ℕ → Text
unfolding digits_onto
to_decimal n = digits_onto (suc n) n []

-- `s.padStart(width, "0")`, `missing` characters short
unfoldable pub zeros_onto : ℕ → Text → Text
zeros_onto zero s = s
zeros_onto (suc missing) s = 48 ∷ zeros_onto missing s

unfoldable pub pad_start : ℕ → Text → Text
unfolding zeros_onto
pad_start width s = zeros_onto (width - length s) s

unfoldable pub generate_code : ℕ → Text
unfolding to_decimal pad_start
generate_code random = pad_start 6 (to_decimal (random % 1000000))
