-- ===== src/Requests/Origins.antt =====
-- How a list of origins, or of addresses, is cut up at the commas.
use mathlib.Core.Path.{subst}
use elysiajs_production_api.Base.{
  ℕ, ◌≡◌, refl, sym, ap, ◌∙◌, false, List, [], ◌∷◌, ◌++◌, Text, inl, inr, All, ◌==◌, arith,
  Bool-cases, if◌then◌else◌,
}
use elysiajs_production_api.Requests.{extend_first, split_commas}

-- The parts with a comma between each two.
abbrev pub join_commas : List Text → Text
join_commas [] = []
join_commas (p ∷ []) = p
join_commas (p ∷ q ∷ ps) = p ++ (b',' ∷ join_commas (q ∷ ps))

abbrev pub HasNoComma : Text → Type 0
HasNoComma = All (λ c. (c == b',') ≡ false)

extend_first-All :
    (c : ℕ) (ps : List Text)
    → (c == b',') ≡ false
    → All HasNoComma ps
    → All HasNoComma (extend_first c ps)
extend_first-All c [] e h = ((e, tt), tt)
extend_first-All c (p ∷ ps) e h = ((e, h.0), h.1)

split_commas-All : (s : Text) → All HasNoComma (split_commas s)
unfolding split_commas
split_commas-All [] = (tt, tt)
split_commas-All (c ∷ s) = elim (Bool-cases (c == b',')) [
  | inl e ↦ rw (e, if◌then◌else◌) (tt, split_commas-All s)
  | inr e ↦ rw (e, if◌then◌else◌) (extend_first-All c (split_commas s) e (split_commas-All s))
]

join_commas-extend_first :
    (c : ℕ) (ps : List Text) → join_commas (extend_first c ps) ≡ c ∷ join_commas ps
join_commas-extend_first c [] = refl
join_commas-extend_first c (p ∷ []) = refl
join_commas-extend_first c (p ∷ q ∷ ps) = refl

extend_first-cons :
    (c : ℕ) (l : List Text) → (p : Text) × (ps : List Text) × (extend_first c l ≡ p ∷ ps)
extend_first-cons c [] = (c ∷ [], [], refl)
extend_first-cons c (p ∷ ps) = (c ∷ p, ps, refl)

split_commas-cons : (s : Text) → (p : Text) × (ps : List Text) × (split_commas s ≡ p ∷ ps)
unfolding split_commas
split_commas-cons [] = ([], [], refl)
split_commas-cons (c ∷ s) = elim (Bool-cases (c == b',')) [
  | inl e ↦ rw (e, if◌then◌else◌) ([], split_commas s, refl)
  | inr e ↦ rw (e, if◌then◌else◌) (extend_first-cons c (split_commas s))
]

join_commas-nil :
    (s : Text) → join_commas ([] ∷ split_commas s) ≡ b',' ∷ join_commas (split_commas s)
join_commas-nil s =
    let (p, ps, e) = split_commas-cons s in
    subst (λ l. join_commas ([] ∷ l) ≡ b',' ∷ join_commas l) (sym e) refl

join_commas-split : (s : Text) → join_commas (split_commas s) ≡ s
unfolding split_commas
join_commas-split [] = refl
join_commas-split (c ∷ s) = elim (Bool-cases (c == b',')) [
  | inl e ↦
      rw (e, if◌then◌else◌)
        (join_commas-nil s
          ∙ ap (◌∷◌ b',') (join_commas-split s)
          ∙ ap (λ (x : ℕ). x ∷ s) (ground arith))
  | inr e ↦
      rw (e, if◌then◌else◌)
        (join_commas-extend_first c (split_commas s) ∙ ap (◌∷◌ c) (join_commas-split s))
]

-- Splitting at the commas loses nothing and leaves no comma: the parts, joined by commas, are the text.
pub join_commas-split_commas :
    (s : Text) → (join_commas (split_commas s) ≡ s) × All HasNoComma (split_commas s)
join_commas-split_commas s = (join_commas-split s, split_commas-All s)
