-- ===== src/Logger/Names.antt =====
-- Different rotations have different names.
use elysiajs_production_api.Base.{
  ℕ, ◌+◌, ◌*◌, ◌-◌, ◌≤◌, ◌<◌, ◌≡◌, refl, sym, ap, ◌∙◌, some, [], ◌∷◌, ◌++◌, Text, codes, length,
  All, All-append, arith,
}
use elysiajs_production_api.Config.{Env}
use elysiajs_production_api.Auth.Otp.Codes.{to_decimal}
use elysiajs_production_api.Auth.Otp.Codes.Decimal.{
  decimal_from, IsDigit, pad_start-decimal, to_decimal-decimal,
}
use elysiajs_production_api.Logger.{
  Date, pad, date_text, index_text, without_extension, rotated_name,
}

-- A month and a day of a calendar.
pub record IsDate (d : Date) : Type 0 where
  pub month : d.month < 12
  pub day : d.day ≤ 31

cancel_front : (a s t : Text) → a ++ s ≡ a ++ t → s ≡ t
cancel_front [] s t h = h
cancel_front (c ∷ a) s t h = cancel_front a s t (cc)

-- What stands in front of the first character that is no digit.
cut_digits :
    (x : ℕ) (a b s t : Text)
    → ¬ IsDigit x
    → All IsDigit a
    → All IsDigit b
    → a ++ (x ∷ s) ≡ b ++ (x ∷ t)
    → (a ≡ b) × (s ≡ t)
cut_digits x [] [] s t other ha hb h = (refl, cc)
cut_digits x [] (c ∷ b) s t other ha hb h =
    absurd (other let e : c ≡ x = cc in let digit = hb.0 in (omega arith, omega arith))
cut_digits x (c ∷ a) [] s t other ha hb h =
    absurd (other let e : c ≡ x = cc in let digit = ha.0 in (omega arith, omega arith))
cut_digits x (c ∷ a) (d ∷ b) s t other ha hb h =
    let rest : a ++ (x ∷ s) ≡ b ++ (x ∷ t) = cc in
    let same : c ≡ d = cc in
    let (front, behind) = cut_digits x a b s t other ha.1 hb.1 rest in (cc, behind)

decimal_from-append :
    (n : ℕ) (a b : Text) → decimal_from n (a ++ b) ≡ decimal_from (decimal_from n a) b
decimal_from-append n [] b = refl
decimal_from-append n (c ∷ a) b = decimal_from-append (n * 10 + (c - 48)) a b

decimal_from-two : (n : ℕ) (s : Text) → length s ≡ 2 → decimal_from n s ≡ n * 100 + decimal_from 0 s
decimal_from-two n [] h = absurd (omega arith)
decimal_from-two n (x ∷ []) h = absurd (omega arith)
decimal_from-two n (x ∷ y ∷ []) h = omega arith
decimal_from-two n (x ∷ y ∷ z ∷ s) h = absurd (omega arith)

pad-decimal :
    (n : ℕ) → n < 100 → (length (pad n) ≡ 2) × All IsDigit (pad n) × (decimal_from 0 (pad n) ≡ n)
unfolding pad
pad-decimal n fits = pad_start-decimal 1 n (omega arith)

month_fits : (d : Date) → IsDate d → d.month + 1 < 100
month_fits d h = let le = h.month in omega arith

day_fits : (d : Date) → IsDate d → d.day < 100
day_fits d h = let le = h.day in omega arith

date_text-All : (d : Date) → IsDate d → All IsDigit (date_text d)
unfolding date_text
date_text-All d h =
    All-append IsDigit (to_decimal d.full_year) (pad (d.month + 1) ++ pad d.day)
      (to_decimal-decimal d.full_year).0
      (All-append IsDigit (pad (d.month + 1)) (pad d.day)
        (pad-decimal (d.month + 1) (month_fits d h)).1 (pad-decimal d.day (day_fits d h)).1)

-- The digits of a date spell the year, the month and the day.
date_text-decimal :
    (d : Date)
    → IsDate d
    → decimal_from 0 (date_text d) ≡ (d.full_year * 100 + (d.month + 1)) * 100 + d.day
unfolding date_text
date_text-decimal d h =
    let m = pad (d.month + 1) in
    let y = d.full_year in
    let (length_m, digits_m, value_m) = pad-decimal (d.month + 1) (month_fits d h) in
    let (length_d, digits_d, value_d) = pad-decimal d.day (day_fits d h) in
    decimal_from-append 0 (to_decimal y) (m ++ pad d.day)
    ∙ ap (λ (n : ℕ). decimal_from n (m ++ pad d.day)) (to_decimal-decimal y).1
    ∙ decimal_from-append y m (pad d.day)
    ∙ decimal_from-two (decimal_from y m) (pad d.day) length_d
    ∙ ap (λ (n : ℕ). n * 100 + decimal_from 0 (pad d.day)) (decimal_from-two y m length_m)
    ∙ ap (λ (n : ℕ). (y * 100 + n) * 100 + decimal_from 0 (pad d.day)) value_m
    ∙ ap (λ (n : ℕ). (y * 100 + (d.month + 1)) * 100 + n) value_d

same_date :
    (d d' : Date)
    → IsDate d
    → IsDate d'
    → (d.full_year * 100 + (d.month + 1)) * 100 + d.day
      ≡ (d'.full_year * 100 + (d'.month + 1)) * 100 + d'.day
    → d ≡ d'
same_date d d' h h' e =
    let le_m = h.month in
    let le_m' = h'.month in
    let le_d = h.day in
    let le_d' = h'.day in
    let year : d.full_year ≡ d'.full_year = omega arith in
    let month : d.month ≡ d'.month = omega arith in
    let day : d.day ≡ d'.day = omega arith in
    λ i. record { full_year = year i; month = month i; day = day i }

-- Two rotated files of one logger have the same name only if they were rotated on the same day and
-- have the same index. The dates are dates of a calendar.
pub rotated_name-injective :
    (env : Env) (d d' : Date) (i i' : ℕ)
    → IsDate d
    → IsDate d'
    → rotated_name env (some d) (some i) ≡ rotated_name env (some d') (some i')
    → (d ≡ d') × (i ≡ i')
unfolding rotated_name index_text
rotated_name-injective env d d' i i' h h' e =
    let l = without_extension env.log_file in
    let behind : date_text d ++ (b'-' ∷ (to_decimal i ++ codes ".log"))
        ≡ date_text d' ++ (b'-' ∷ (to_decimal i' ++ codes ".log")) =
      cancel_front (b'-' ∷ []) _ _ (cancel_front l _ _ e) in
    let (dates, rest) =
      cut_digits b'-' (date_text d) (date_text d') _ _ (λ digit. absurd (omega arith))
        (date_text-All d h) (date_text-All d' h') behind in
    let (indices, tail) =
      cut_digits b'.' (to_decimal i) (to_decimal i') _ _ (λ digit. absurd (omega arith))
        (to_decimal-decimal i).0 (to_decimal-decimal i').0 rest in
    (
      same_date d d' h h'
          (sym (date_text-decimal d h) ∙ ap (decimal_from 0) dates ∙ date_text-decimal d' h'),
      sym (to_decimal-decimal i).1 ∙ ap (decimal_from 0) indices ∙ (to_decimal-decimal i').1,
    )
