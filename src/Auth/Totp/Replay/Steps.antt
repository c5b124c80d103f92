-- ===== src/Auth/Totp/Replay/Steps.antt =====
-- How long a time step can be accepted for, and how long the last one accepted is remembered for.
use elysiajs_production_api.Base.{
  ℕ, ◌+◌, ◌*◌, ◌≤◌, ◌<◌, ◌≡◌, refl, ◌⊎◌, inl, inr, true, false, Option, none, some, leb, arith,
  Bool-cases, if◌then◌else◌,
}
use elysiajs_production_api.Services.{
  Entry, entry_of, is_live, live_value, Drift, behind, current, ahead,
}
use elysiajs_production_api.Auth.Totp.{period_seconds, counter_at, accepted_counter, is_replay}

-- The time at which a step can no longer be accepted, in milliseconds.
abbrev pub over_at : ℕ → ℕ
over_at c = (c + 2) * 30000

abbrev pub Covers : ℕ → Option ℕ → Type 0
Covers c none = Unit
Covers c (some t) = over_at c ≤ t

-- A step is spent: its time is over, or a step that is not earlier is remembered until then.
abbrev pub IsSpent : ℕ → Option Entry → ℕ → Type 0
IsSpent c none now = over_at c ≤ now
IsSpent c (some e) now = (over_at c ≤ now) ⊎ ((c ≤ e.value) × Covers c e.expires)

pub IsSpent-later :
    (c : ℕ) (o : Option Entry) {now later : ℕ} → now ≤ later → IsSpent c o now → IsSpent c o later
IsSpent-later c none le h = omega arith
IsSpent-later c (some e) le (inl h) = inl (omega arith)
IsSpent-later c (some e) le (inr h) = inr h

counter_at-over : (c now : ℕ) (d : Drift) → over_at c ≤ now → c < counter_at now d
counter_at-over c now behind h = omega arith
counter_at-over c now current h = omega arith
counter_at-over c now ahead h = omega arith

covered-is_live : (c now : ℕ) (x : Option ℕ) → Covers c x → now < over_at c → is_live now x ≡ true
covered-is_live c now none h early = refl
covered-is_live c now (some t) h early = ground arith

-- The next step to be accepted is a later one.
pub IsSpent-counter_at :
    (c now : ℕ) (o : Option Entry) (d : Drift)
    → IsSpent c o now
    → is_replay (live_value now o) (counter_at now d) ≡ false
    → c < counter_at now d
IsSpent-counter_at c now none d h fresh = counter_at-over c now d h
IsSpent-counter_at c now (some e) d (inl h) fresh = counter_at-over c now d h
IsSpent-counter_at c now (some e) d (inr (le, covers)) fresh =
    elim (Bool-cases (leb (over_at c) now)) [
      | inl late ↦ counter_at-over c now d (ground arith)
      | inr early ↦
          let live = covered-is_live c now e.expires covers (ground arith) in
          let k = (rw (live, if◌then◌else◌) at fresh) in ground arith
    ]

-- A step that is accepted is spent.
pub accepted-IsSpent :
    (c now : ℕ) (d : Drift)
    → c ≤ counter_at now d
    → IsSpent c (some (entry_of (counter_at now d) (some (period_seconds * 3)) now)) now
accepted-IsSpent c now behind h = inr (h, omega arith)
accepted-IsSpent c now current h = inr (h, omega arith)
accepted-IsSpent c now ahead h = inr (h, omega arith)

-- A step that is accepted is one of the time.
pub accepted-counter_at :
    (d : Option Drift) (now counter : ℕ)
    → accepted_counter d now ≡ some counter
    → (x : Drift) × (counter ≡ counter_at now x)
accepted-counter_at none now counter h = absurd (cc)
accepted-counter_at (some d) now counter h = (d, cc)
