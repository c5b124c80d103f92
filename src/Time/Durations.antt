-- ===== src/Time/Durations.antt =====
-- A well-formed duration has the value that it spells.
use mathlib.Core.List.{reverse, reverse-append, reverse-reverse}
use elysiajs_production_api.Base.{
  ℕ, ◌+◌, ◌-◌, ◌*◌, ◌≡◌, refl, sym, ap, ◌∙◌, ◌⊎◌, inl, inr, true, false, none, some, [], ◌∷◌, ◌++◌,
  Text, All, arith, if◌then◌else◌,
}
use elysiajs_production_api.Auth.Otp.Codes.Decimal.{decimal_from}
use elysiajs_production_api.Time.{
  is_digit, is_space, trim_start, trim, number_prefix, unit_ms, in_ms, duration_to_ms,
}

abbrev pub AllDigits : Text → Type 0
AllDigits = All (λ c. is_digit c ≡ true)

abbrev pub IsUnit : ℕ → Type 0
IsUnit u = (u ≡ b's') ⊎ ((u ≡ b'm') ⊎ ((u ≡ b'h') ⊎ (u ≡ b'd')))

trim_start-digit : (c : ℕ) (s : Text) → is_digit c ≡ true → trim_start (c ∷ s) ≡ c ∷ s
unfolding trim_start
trim_start-digit c s h = rw (digit_is_no_space c h, if◌then◌else◌) refl
  where
    digit_is_no_space : (c : ℕ) → is_digit c ≡ true → is_space c ≡ false
    digit_is_no_space c h = ground arith

trim_start-unit : (u : ℕ) (s : Text) → IsUnit u → trim_start (u ∷ s) ≡ u ∷ s
unfolding trim_start
trim_start-unit u s (inl e) = rw e refl
trim_start-unit u s (inr (inl e)) = rw e refl
trim_start-unit u s (inr (inr (inl e))) = rw e refl
trim_start-unit u s (inr (inr (inr e))) = rw e refl

is_digit-unit : (u : ℕ) → IsUnit u → is_digit u ≡ false
is_digit-unit u (inl e) = rw e refl
is_digit-unit u (inr (inl e)) = rw e refl
is_digit-unit u (inr (inr (inl e))) = rw e refl
is_digit-unit u (inr (inr (inr e))) = rw e refl

-- Nothing is trimmed from digits and a unit.
trim-digits :
    (c u : ℕ) (s : Text)
    → is_digit c ≡ true
    → IsUnit u
    → trim (c ∷ (s ++ (u ∷ []))) ≡ c ∷ (s ++ (u ∷ []))
unfolding trim
trim-digits c u s digit unit =
    let t = c ∷ s in
    ap (λ (x : Text). reverse (trim_start (reverse x))) (trim_start-digit c (s ++ (u ∷ [])) digit)
    ∙ ap (λ (x : Text). reverse (trim_start x)) (reverse-append t (u ∷ []))
    ∙ ap reverse (trim_start-unit u (reverse t) unit)
    ∙ ap reverse (sym (reverse-append t (u ∷ [])))
    ∙ reverse-reverse (t ++ (u ∷ []))

number_prefix-digits :
    (n u : ℕ) (s : Text)
    → AllDigits s
    → is_digit u ≡ false
    → number_prefix (some n) (s ++ (u ∷ [])) ≡ (some (decimal_from n s), u ∷ [])
unfolding number_prefix
number_prefix-digits n u [] digits unit = rw (unit, if◌then◌else◌) refl
number_prefix-digits n u (c ∷ s) (digit, digits) unit =
    rw (digit, if◌then◌else◌) (number_prefix-digits (n * 10 + (c - 48)) u s digits unit)

number_prefix-first :
    (c : ℕ) (s : Text)
    → is_digit c ≡ true
    → number_prefix none (c ∷ s) ≡ number_prefix (some (c - 48)) s
unfolding number_prefix
number_prefix-first c s digit = rw (digit, if◌then◌else◌) refl

-- One or more decimal digits and a unit, of seconds, minutes, hours or days, give the number that the
-- digits spell times the milliseconds of the unit.
pub duration_to_ms-digits :
    (c u : ℕ) (s : Text)
    → AllDigits (c ∷ s)
    → IsUnit u
    → duration_to_ms (c ∷ (s ++ (u ∷ []))) ≡ decimal_from 0 (c ∷ s) * unit_ms u
unfolding duration_to_ms
duration_to_ms-digits c u s (digit, digits) unit =
    ap (λ (t : Text). in_ms (number_prefix none t)) (trim-digits c u s digit unit)
    ∙ ap in_ms (number_prefix-first c (s ++ (u ∷ [])) digit)
    ∙ ap in_ms (number_prefix-digits (c - 48) u s digits (is_digit-unit u unit))
    ∙ ap (λ (n : ℕ). decimal_from n s * unit_ms u) (omega arith)
