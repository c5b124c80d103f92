-- ===== src/Time.antt =====
-- src/lib/time.ts: durations such as "15m"; `withDeadline` is in Deadlines.
pub mod Durations
pub mod Deadlines
use mathlib.Core.List.{reverse}
use elysiajs_production_api.Base.{
  ℕ, ◌+◌, ◌-◌, ◌*◌, Bool, ◌&&◌, ◌||◌, Option, none, some, [], ◌∷◌, Text, leb, ◌==◌, if◌then◌else◌,
}

abbrev pub is_digit : ℕ → Bool
is_digit c = leb 48 c && leb c 57

-- White space and line ends, as `trim` removes them.
abbrev pub is_space : ℕ → Bool
is_space c =
    (leb 9 c && leb c 13)
    || (c == 32)
    || (c == 160)
    || (c == 0x1680)
    || (leb 0x2000 c && leb c 0x200A)
    || (c == 0x2028)
    || (c == 0x2029)
    || (c == 0x202F)
    || (c == 0x205F)
    || (c == 0x3000)
    || (c == 0xFEFF)

unfoldable pub trim_start : Text → Text
trim_start [] = []
trim_start (c ∷ s) = if is_space c then trim_start s else c ∷ s

unfoldable pub trim : Text → Text
unfolding trim_start
trim s = reverse (trim_start (reverse (trim_start s)))

abbrev pub with_digit : Option ℕ → ℕ → Option ℕ
with_digit none c = some (c - 48)
with_digit (some n) c = some (n * 10 + (c - 48))

-- `^(\d+)`: the number in front, if a digit stands there, and the rest.
unfoldable pub number_prefix : Option ℕ → Text → Option ℕ × Text
number_prefix n [] = (n, [])
number_prefix n (c ∷ s) = if is_digit c then number_prefix (with_digit n c) s else (n, c ∷ s)

-- The cases of the `switch`; 0 for another character.
abbrev pub unit_ms : ℕ → ℕ
unit_ms u =
    if u == b's'
    then 1000
    else if u == b'm'
    then 60000
    else if u == b'h'
    then 3600000
    else if u == b'd'
    then 86400000
    else 0

-- `([smhd])$`: one unit and nothing behind it.
abbrev pub in_ms : Option ℕ × Text → ℕ
in_ms (none, s) = 0
in_ms (some n, []) = 0
in_ms (some n, u ∷ []) = n * unit_ms u
in_ms (some n, u ∷ v ∷ s) = 0

unfoldable pub duration_to_ms : Text → ℕ
unfolding trim number_prefix
duration_to_ms duration = in_ms (number_prefix none (trim duration))
