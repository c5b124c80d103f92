-- ===== src/Services/Cache.antt =====
-- Redis as src/lib/cache.ts uses it, and the mail queue. A key is a prefix and an id; a value is a
-- number (a user's id, a digest, a counter). An entry may have a time at which it expires. A call
-- that is rejected (a lost connection, or the deadline of `withDeadline`) may have been carried out.
use elysiajs_production_api.Base.{
  ℕ, ◌+◌, ◌*◌, ◌≡◌, ◌⊎◌, Bool, true, false, ◌&&◌, Option, none, some, List, ◌∷◌, Text, ◌==◌, ltb,
  is_some, if◌then◌else◌,
}
use elysiajs_production_api.Errors.{Result, ok, err, Thrown}
use elysiajs_production_api.Services.Tables.{IsDriver}

-- The prefixes of the keys: the functions codeKey, attemptsKey, cooldownKey, challengeKey and
-- lastCounterKey of the services.
pub data Prefix : Type 0 where
  otp_code otp_attempts otp_cooldown : Prefix
  reset_code reset_attempts reset_cooldown : Prefix
  mfa_challenge mfa_attempts totp_last : Prefix

abbrev pub rank : Prefix → ℕ
rank otp_code = 0
rank otp_attempts = 1
rank otp_cooldown = 2
rank reset_code = 3
rank reset_attempts = 4
rank reset_cooldown = 5
rank mfa_challenge = 6
rank mfa_attempts = 7
rank totp_last = 8

pub record Key : Type 0 where
  pub prefix : Prefix
  pub id : ℕ

abbrev pub key : Prefix → ℕ → Key
key p n = record { prefix = p; id = n }

abbrev pub key_eq : Key → Key → Bool
key_eq j k = rank j.prefix == rank k.prefix && j.id == k.id

pub record Entry : Type 0 where
  pub value : ℕ
  pub expires : Option ℕ

abbrev pub Entries : Type 0
Entries = Key → Option Entry

-- Has the entry not expired?
abbrev pub is_live : ℕ → Option ℕ → Bool
is_live now none = true
is_live now (some t) = ltb now t

abbrev pub live_value : ℕ → Option Entry → Option ℕ
live_value now none = none
live_value now (some e) = if is_live now e.expires then some e.value else none

-- The value that a reader sees at a time.
abbrev pub value_at : Entries → ℕ → Key → Option ℕ
value_at m now k = live_value now (m k)

abbrev pub put : Entries → Key → Option Entry → Entries
put m k x j = if key_eq j k then x else m j

-- `SET key value [EX seconds]`
abbrev pub entry_of : ℕ → Option ℕ → ℕ → Entry
entry_of v none now = record { value = v; expires = none }
entry_of v (some seconds) now = record { value = v; expires = some (now + seconds * 1000) }

-- `INCR`: a missing key counts from 0 and does not expire; an entry keeps its expiry.
abbrev pub bumped_live : Option Entry → Bool → Entry
bumped_live none b = record { value = 1; expires = none }
bumped_live (some e) b =
    if b then record e { value = e.value + 1 } else record { value = 1; expires = none }

abbrev pub expiry_live : Option Entry → ℕ → Bool
expiry_live none now = false
expiry_live (some e) now = is_live now e.expires

abbrev pub bumped : Entries → ℕ → Key → Entry
bumped m now k = bumped_live (m k) (expiry_live (m k) now)

pub record Redis : Type 1 where
  pub State : Type 0
  pub entries : State → Entries
  pub get : Key → ℕ → State → Result (Option ℕ) × State
  pub set : Key → ℕ → Option ℕ → ℕ → State → Result (Unit {0}) × State
  pub del : Key → ℕ → State → Result (Unit {0}) × State
  pub incr : Key → ℕ → State → Result ℕ × State
  pub exists : Key → ℕ → State → Result Bool × State
  pub get_ok :
      (k : Key) (now : ℕ) (s s' : State) (o : Option ℕ)
      → get k now s ≡ (ok o, s')
      → (o ≡ value_at (entries s) now k) × (entries s' ≡ entries s)
  pub exists_ok :
      (k : Key) (now : ℕ) (s s' : State) (b : Bool)
      → exists k now s ≡ (ok b, s')
      → (b ≡ is_some (value_at (entries s) now k)) × (entries s' ≡ entries s)
  pub set_ok :
      (k : Key) (v : ℕ) (ttl : Option ℕ) (now : ℕ) (s s' : State) (u : Unit)
      → set k v ttl now s ≡ (ok u, s')
      → entries s' ≡ put (entries s) k (some (entry_of v ttl now))
  pub del_ok :
      (k : Key) (now : ℕ) (s s' : State) (u : Unit)
      → del k now s ≡ (ok u, s')
      → entries s' ≡ put (entries s) k none
  pub incr_ok :
      (k : Key) (now : ℕ) (s s' : State) (n : ℕ)
      → incr k now s ≡ (ok n, s')
      → (n ≡ (bumped (entries s) now k).value)
        × (entries s' ≡ put (entries s) k (some (bumped (entries s) now k)))
  pub get_err :
      (k : Key) (now : ℕ) (s s' : State) (e : Thrown)
      → get k now s ≡ (err e, s')
      → IsDriver e × (entries s' ≡ entries s)
  pub exists_err :
      (k : Key) (now : ℕ) (s s' : State) (e : Thrown)
      → exists k now s ≡ (err e, s')
      → IsDriver e × (entries s' ≡ entries s)
  pub set_err :
      (k : Key) (v : ℕ) (ttl : Option ℕ) (now : ℕ) (s s' : State) (e : Thrown)
      → set k v ttl now s ≡ (err e, s')
      → IsDriver e
        × ((entries s' ≡ entries s) ⊎ (entries s' ≡ put (entries s) k (some (entry_of v ttl now))))
  pub del_err :
      (k : Key) (now : ℕ) (s s' : State) (e : Thrown)
      → del k now s ≡ (err e, s')
      → IsDriver e × ((entries s' ≡ entries s) ⊎ (entries s' ≡ put (entries s) k none))
  pub incr_err :
      (k : Key) (now : ℕ) (s s' : State) (e : Thrown)
      → incr k now s ≡ (err e, s')
      → IsDriver e
        × ((entries s' ≡ entries s)
            ⊎ (entries s' ≡ put (entries s) k (some (bumped (entries s) now k))))

-- A message to send: to whom, and the code that its text carries.
pub data MailKind : Type 0 where
  verification reset : MailKind

pub record Mail : Type 0 where
  pub to : Text
  pub kind : MailKind
  pub code : Text

-- The mail queue; `jobs` is what was handed over, newest first.
pub record Queue : Type 1 where
  pub State : Type 0
  pub jobs : State → List Mail
  pub add : Mail → State → Result (Unit {0}) × State
  pub add_ok : (m : Mail) (s s' : State) (u : Unit) → add m s ≡ (ok u, s') → jobs s' ≡ m ∷ jobs s
  pub add_err :
      (m : Mail) (s s' : State) (e : Thrown)
      → add m s ≡ (err e, s')
      → IsDriver e × ((jobs s' ≡ jobs s) ⊎ (jobs s' ≡ m ∷ jobs s))
