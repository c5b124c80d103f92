-- ===== src/Mail/Templates/Escapes.antt =====
-- What escaping makes of a text: one pass over its characters, which can be undone, and which leaves
-- no character of markup.
use elysiajs_production_api.Base.{
  starts_with, ℕ, zero, suc, ◌≡◌, refl, sym, ap, ◌∙◌, Bool, false, ◌||◌, Option, none, some, [],
  ◌∷◌, ◌++◌, Text, codes, All, ◌==◌, if◌then◌else◌, All-append, Bool-cases, inl, inr, arith,
}
use mathlib.Core.Path.{subst}
use mathlib.Core.List.{append_assoc}
use elysiajs_production_api.Mail.Templates.{replace_all, escape_html}

-- What one character becomes.
abbrev pub entity : ℕ → Text
entity c =
    if c == 38
    then codes "&amp;"
    else if c == 60
    then codes "&lt;"
    else if c == 62
    then codes "&gt;"
    else if c == 34
    then codes "&quot;"
    else if c == 39
    then codes "&#39;"
    else c ∷ []

abbrev pub escape_each : Text → Text
escape_each [] = []
escape_each (c ∷ s) = entity c ++ escape_each s

replace_all-append :
    (c : ℕ) (r s t : Text) → replace_all c r (s ++ t) ≡ replace_all c r s ++ replace_all c r t
unfolding replace_all
replace_all-append c r [] t = refl
replace_all-append c r (d ∷ s) t = elim (Bool-cases (d == c)) [
  | inl e ↦
      rw (e, if◌then◌else◌) (ap (◌++◌ r) (replace_all-append c r s t) ∙ sym (append_assoc r _ _))
  | inr e ↦ rw (e, if◌then◌else◌) (ap (◌∷◌ d) (replace_all-append c r s t))
]

escape_html-append : (s t : Text) → escape_html (s ++ t) ≡ escape_html s ++ escape_html t
unfolding escape_html
escape_html-append s t = simp (replace_all-append)

escape_html-one : (c : ℕ) → escape_html (c ∷ []) ≡ entity c
unfolding escape_html replace_all
escape_html-one c = ground arith

escape_html-each : (s : Text) → escape_html s ≡ escape_each s
unfolding escape_html
escape_html-each [] = refl
escape_html-each (c ∷ s) =
    escape_html-append (c ∷ []) s
    ∙ ap (λ (x : Text). x ++ escape_html s) (escape_html-one c)
    ∙ ap (◌++◌ (entity c)) (escape_html-each s)

-- The character that an entity behind a `&` names, and how many characters that takes.
abbrev pub entity_at : Text → Option (ℕ × ℕ)
entity_at s =
    if starts_with (codes "amp;") s
    then some (38, 4)
    else if starts_with (codes "lt;") s
    then some (60, 3)
    else if starts_with (codes "gt;") s
    then some (62, 3)
    else if starts_with (codes "quot;") s
    then some (34, 5)
    else if starts_with (codes "#39;") s
    then some (39, 4)
    else none

-- A reader of the escaped text; it first passes over so many characters.
pub unescape_from : ℕ → Text → Text
unescape_from n [] = []
unescape_from (suc n) (c ∷ s) = unescape_from n s
unescape_from zero (c ∷ s) = elim (if c == 38 then entity_at s else none) [
  | none ↦ c ∷ unescape_from 0 s
  | some (d, n) ↦ d ∷ unescape_from n s
]

-- A character that a document reads as markup or as the end of an attribute.
abbrev pub is_markup : ℕ → Bool
is_markup c = (c == 60) || (c == 62) || (c == 34) || (c == 39)

-- To prove a thing of a character and its entity.
entity-cases :
    (Q : ℕ → Text → Type 0)
    → Q 38 (codes "&amp;")
    → Q 60 (codes "&lt;")
    → Q 62 (codes "&gt;")
    → Q 34 (codes "&quot;")
    → Q 39 (codes "&#39;")
    → ((c : ℕ) → (c == 38) ≡ false → is_markup c ≡ false → Q c (c ∷ []))
    → (c : ℕ) → Q c (entity c)
entity-cases Q amp lt gt quot apos plain c = elim (Bool-cases (c == 38)) [
  | inl e ↦ let same : 38 ≡ c = ground arith in subst (λ x. Q x (entity x)) same amp
  | inr e₁ ↦ elim (Bool-cases (c == 60)) [
    | inl e ↦ let same : 60 ≡ c = ground arith in subst (λ x. Q x (entity x)) same lt
    | inr e₂ ↦ elim (Bool-cases (c == 62)) [
      | inl e ↦ let same : 62 ≡ c = ground arith in subst (λ x. Q x (entity x)) same gt
      | inr e₃ ↦ elim (Bool-cases (c == 34)) [
        | inl e ↦ let same : 34 ≡ c = ground arith in subst (λ x. Q x (entity x)) same quot
        | inr e₄ ↦ elim (Bool-cases (c == 39)) [
          | inl e ↦ let same : 39 ≡ c = ground arith in subst (λ x. Q x (entity x)) same apos
          | inr e₅ ↦ rw (e₁, e₂, e₃, e₄, e₅) (plain c e₁ (rw (e₂, e₃, e₄, e₅) refl))
        ]
      ]
    ]
  ]
]

unescape_from-entity : (c : ℕ) (s : Text) → unescape_from 0 (entity c ++ s) ≡ c ∷ unescape_from 0 s
unfolding unescape_from
unescape_from-entity c s =
    entity-cases (λ x e. unescape_from 0 (e ++ s) ≡ x ∷ unescape_from 0 s) refl refl refl refl refl
      (λ x plain no_markup. rw (plain, if◌then◌else◌, unescape_from) refl) c

unescape_from-each : (s : Text) → unescape_from 0 (escape_each s) ≡ s
unfolding unescape_from
unescape_from-each [] = refl
unescape_from-each (c ∷ s) =
    unescape_from-entity c (escape_each s) ∙ ap (◌∷◌ c) (unescape_from-each s)

HasNoMarkup-entity : (c : ℕ) → All (λ d. is_markup d ≡ false) (entity c)
HasNoMarkup-entity =
    entity-cases (λ c e. All (λ d. is_markup d ≡ false) e)
      (refl, (refl, (refl, (refl, (refl, tt))))) (refl, (refl, (refl, (refl, tt))))
      (refl, (refl, (refl, (refl, tt)))) (refl, (refl, (refl, (refl, (refl, (refl, tt))))))
      (refl, (refl, (refl, (refl, (refl, tt))))) (λ c plain no_markup. (no_markup, tt))

-- Escaping can be undone, for every text; and what it makes has no `<`, `>`, `"` or `'`.
pub unescape_from-escape_html :
    (s : Text)
    → (unescape_from 0 (escape_html s) ≡ s) × All (λ c. is_markup c ≡ false) (escape_html s)
unescape_from-escape_html s = rw (escape_html-each s) (unescape_from-each s, marks s)
  where
    marks : (s : Text) → All (λ c. is_markup c ≡ false) (escape_each s)
    marks [] = tt
    marks (c ∷ s) = All-append _ (entity c) (escape_each s) (HasNoMarkup-entity c) (marks s)
