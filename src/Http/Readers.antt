-- ===== src/Http/Readers.antt =====
-- CORS_ORIGIN has two readers: src/plugins/cors.ts, and assertTrustedOrigin of src/lib/origin.ts.
use mathlib.Core.Bool.{and-false, or-true}
use mathlib.Core.Path.{ap₂}
use elysiajs_production_api.Base.{
  ℕ, ◌≡◌, refl, ap, ◌∙◌, inl, inr, Bool, true, false, some, List, [], ◌∷◌, ◌++◌, map, Text, codes,
  text_eq, text_eq_self, is_empty, mem_text, All, ◌==◌, Bool-cases, if◌then◌else◌,
}
use elysiajs_production_api.Config.{Env}
use elysiajs_production_api.Time.{trim, trim_start}
use elysiajs_production_api.Requests.{Request, split_commas, extend_first, is_trusted_origin}
use elysiajs_production_api.Requests.Origins.{HasNoComma}
use elysiajs_production_api.Http.{Origins, any, listed, cors_origin}

-- Is an origin one that the option names?
abbrev pub names : Origins → Text → Bool
names any o = true
names (listed l) o = mem_text o l

abbrev pub IsTrimmed : Text → Type 0
IsTrimmed p = trim p ≡ p

map-trim : (l : List Text) → All IsTrimmed l → map trim l ≡ l
map-trim [] h = refl
map-trim (p ∷ l) h = ap₂ ◌∷◌ h.0 (map-trim l h.1)

-- If no origin of the setting has white space around it, then the two readers agree: an origin that a
-- request states passes the check exactly if the option of CORS names it.
pub is_trusted_origin-cors_origin :
    (env : Env) (r : Request) (o : Text)
    → r.origin ≡ some o
    → is_empty o ≡ false
    → All IsTrimmed (split_commas env.cors_origin)
    → is_trusted_origin env r ≡ names (cors_origin env) o
unfolding is_trusted_origin cors_origin
is_trusted_origin-cors_origin env r o stated there trimmed =
    elim (Bool-cases (text_eq env.cors_origin (codes "*"))) [
      | inl star ↦ rw (star, if◌then◌else◌) refl
      | inr other ↦ rw (other, if◌then◌else◌) (rw (stated, there, map-trim _ trimmed) refl)
    ]

split_commas-part :
    (a : Text) (s : Text) → HasNoComma a → split_commas (a ++ (b',' ∷ s)) ≡ a ∷ split_commas s
unfolding split_commas
split_commas-part [] s h = refl
split_commas-part (c ∷ a) s h =
    rw (h.0, if◌then◌else◌) (ap (extend_first c) (split_commas-part a s h.1))

split_commas-one : (a : Text) → HasNoComma a → split_commas a ≡ a ∷ []
unfolding split_commas
split_commas-one [] h = refl
split_commas-one (c ∷ a) h = rw (h.0, if◌then◌else◌) (ap (extend_first c) (split_commas-one a h.1))

not_star : (a s : Text) → text_eq (a ++ (b',' ∷ s)) (codes "*") ≡ false
not_star [] s = refl
not_star (c ∷ []) s = and-false (c == b'*')
not_star (c ∷ d ∷ a) s = and-false (c == b'*')

trim-space : (b : Text) → trim (b' ' ∷ b) ≡ trim b
unfolding trim trim_start
trim-space b = refl

second_trusted : (a b : Text) → IsTrimmed b → mem_text b (map trim (a ∷ (b' ' ∷ b) ∷ [])) ≡ true
second_trusted a b trimmed =
    rw (trim-space b, trimmed, text_eq_self b) (or-true (text_eq b (trim a)))

text_eq-longer : (x : ℕ) (b : Text) → text_eq b (x ∷ b) ≡ false
text_eq-longer x [] = refl
text_eq-longer x (c ∷ b) = rw (text_eq-longer c b) (and-false (c == x))

second_unnamed : (a b : Text) → text_eq b a ≡ false → mem_text b (a ∷ (b' ' ∷ b) ∷ []) ≡ false
second_unnamed a b other = rw (other, text_eq-longer b' ' b) refl

-- But with a space after the comma they do not: the second of two different origins passes the check,
-- and the option of CORS does not name it.
pub cors_origin-Unnamed :
    (env : Env) (r : Request) (a b : Text)
    → env.cors_origin ≡ a ++ (b',' ∷ b' ' ∷ b)
    → HasNoComma a
    → HasNoComma b
    → IsTrimmed b
    → text_eq b a ≡ false
    → r.origin ≡ some b
    → (is_trusted_origin env r ≡ true) × (names (cors_origin env) b ≡ false)
unfolding is_trusted_origin cors_origin
cors_origin-Unnamed env r a b setting ha hb trimmed other stated =
    let parts : split_commas (a ++ (b',' ∷ b' ' ∷ b)) ≡ a ∷ (b' ' ∷ b) ∷ [] =
      split_commas-part a (b' ' ∷ b) ha
      ∙ ap (λ l. a ∷ l) (split_commas-one (b' ' ∷ b) (refl, hb)) in
    (
      rw (setting, not_star a (b' ' ∷ b), stated, parts)
          (rw (second_trusted a b trimmed) (or-true (is_empty b))),
      rw (setting, not_star a (b' ' ∷ b), if◌then◌else◌, parts) (second_unnamed a b other),
    )
