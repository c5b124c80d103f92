-- ===== src/Base/Lists.antt =====
-- Lists over the native numbers: length, tests on every element, filters by a Boolean test.
use Prim.Native.Nat.{ℕ, zero, suc, ◌+◌}
use mathlib.Core.Path.{◌≡◌, refl, ap}
use mathlib.Core.Logic.{◌⊎◌, inl, inr}
use mathlib.Core.Bool.{Bool, true, false}
use mathlib.Core.Option.{Option, none, some}
use mathlib.Core.List.{List, [], ◌∷◌, ◌++◌}
use native.Mathlib.Omega.{arith}
use elysiajs_production_api.Base.Tests.{if◌then◌else◌, Bool-cases}

module _ {ℓ} {A : Type ℓ} where
  abbrev pub length : List A → ℕ
  length [] = 0
  length (x ∷ xs) = suc (length xs)

  abbrev pub head? : List A → Option A
  head? [] = none
  head? (x ∷ xs) = some x

  abbrev pub take : ℕ → List A → List A
  take zero xs = []
  take (suc n) [] = []
  take (suc n) (x ∷ xs) = x ∷ take n xs

  abbrev pub drop : ℕ → List A → List A
  drop zero xs = xs
  drop (suc n) [] = []
  drop (suc n) (x ∷ xs) = drop n xs

  abbrev pub filter : (A → Bool) → List A → List A
  filter p [] = []
  filter p (x ∷ xs) = if p x then x ∷ filter p xs else filter p xs

  -- The rows that a statement with the condition `p` touches, each replaced by `f`.
  abbrev pub map_where : (A → Bool) → (A → A) → List A → List A
  map_where p f [] = []
  map_where p f (x ∷ xs) = (if p x then f x else x) ∷ map_where p f xs

  abbrev pub count : (A → Bool) → List A → ℕ
  count p [] = 0
  count p (x ∷ xs) = if p x then suc (count p xs) else count p xs

module _ {ℓ κ} {A : Type ℓ} (P : A → Type κ) where
  abbrev pub All : List A → Type κ
  All [] = Unit
  All (x ∷ xs) = P x × All xs

module _ {ℓ} {A : Type ℓ} (P : A → Type 0) where
  abbrev pub Any : List A → Type 0
  Any [] = ⊥
  Any (x ∷ xs) = P x ⊎ Any xs

module _ {ℓ} {A : Type ℓ} where
  pub length-append : (xs ys : List A) → length (xs ++ ys) ≡ length xs + length ys
  length-append [] ys = omega arith
  length-append (x ∷ xs) ys = omega (arith, length-append xs ys)

  pub count-eq_zero : (p : A → Bool) (xs : List A) → count p xs ≡ 0 → All (λ x. p x ≡ false) xs
  count-eq_zero p [] h = tt
  count-eq_zero p (x ∷ xs) h = ground (arith, count-eq_zero p xs)

  pub filter-All : (p : A → Bool) (xs : List A) → All (λ x. p x ≡ true) (filter p xs)
  filter-All p [] = tt
  filter-All p (x ∷ xs) = elim (Bool-cases (p x)) [
    | inl e ↦ rw e (e, filter-All p xs)
    | inr e ↦ rw e (filter-All p xs)
  ]

  pub All-map_where {κ} :
      (P Q : A → Type κ) (p : A → Bool) (f : A → A)
      → ((x : A) → P x → p x ≡ true → Q (f x))
      → ((x : A) → P x → p x ≡ false → Q x)
      → (xs : List A) → All P xs
      → All Q (map_where p f xs)
  All-map_where P Q p f on off [] h = tt
  All-map_where P Q p f on off (x ∷ xs) h = elim (Bool-cases (p x)) [
    | inl e ↦ rw e (on x h.0 e, All-map_where P Q p f on off xs h.1)
    | inr e ↦ rw e (off x h.0 e, All-map_where P Q p f on off xs h.1)
  ]

  pub All-filter {κ} :
      (P : A → Type κ) (p : A → Bool) (xs : List A) → All P xs → All P (filter p xs)
  All-filter P p [] h = tt
  All-filter P p (x ∷ xs) h = elim (Bool-cases (p x)) [
    | inl e ↦ rw e (h.0, All-filter P p xs h.1)
    | inr e ↦ rw e (All-filter P p xs h.1)
  ]

  pub All-map {κ μ} :
      (P : A → Type κ) (Q : A → Type μ)
      → ((x : A) → P x → Q x)
      → (xs : List A) → All P xs
      → All Q xs
  All-map P Q f [] h = tt
  All-map P Q f (x ∷ xs) h = (f x h.0, All-map P Q f xs h.1)

  pub All-intro {κ} : (P : A → Type κ) → ((x : A) → P x) → (xs : List A) → All P xs
  All-intro P f [] = tt
  All-intro P f (x ∷ xs) = (f x, All-intro P f xs)

  -- A statement whose condition no row meets changes no row.
  pub map_where-none :
      (p : A → Bool) (f : A → A) (xs : List A) → All (λ x. p x ≡ false) xs → map_where p f xs ≡ xs
  map_where-none p f [] h = refl
  map_where-none p f (x ∷ xs) (e, h) = rw e (ap (◌∷◌ x) (map_where-none p f xs h))

  pub Any-map : (P Q : A → Type 0) → ((x : A) → P x → Q x) → (xs : List A) → Any P xs → Any Q xs
  Any-map P Q f [] h = absurd h
  Any-map P Q f (x ∷ xs) (inl h) = inl (f x h)
  Any-map P Q f (x ∷ xs) (inr h) = inr (Any-map P Q f xs h)

  pub count-none : (p : A → Bool) (xs : List A) → All (λ x. p x ≡ false) xs → count p xs ≡ 0
  count-none p [] h = refl
  count-none p (x ∷ xs) (e, h) = rw e (count-none p xs h)

  pub nil_of_length : (xs : List A) → length xs ≡ 0 → xs ≡ []
  nil_of_length [] h = refl
  nil_of_length (x ∷ xs) h = absurd (omega arith)

  -- What some element of a filtered list has, an element of the list has that passes the test.
  pub Any-filter :
      (P : A → Type 0) (p : A → Bool) (xs : List A)
      → Any P (filter p xs)
      → Any (λ x. (p x ≡ true) × P x) xs
  Any-filter P p [] h = absurd h
  Any-filter P p (x ∷ xs) h = elim (Bool-cases (p x)) [
    | inl e ↦ elim (rw (e, if◌then◌else◌) at h) [
      | inl at_x ↦ inl (e, at_x)
      | inr later ↦ inr (Any-filter P p xs later)
    ]
    | inr e ↦ inr (Any-filter P p xs (rw (e, if◌then◌else◌) at h))
  ]

  pub All-append {κ} : (P : A → Type κ) (xs ys : List A) → All P xs → All P ys → All P (xs ++ ys)
  All-append P [] ys h k = k
  All-append P (x ∷ xs) ys h k = (h.0, All-append P xs ys h.1 k)

  pub count-append : (p : A → Bool) (xs ys : List A) → count p (xs ++ ys) ≡ count p xs + count p ys
  count-append p [] ys = omega arith
  count-append p (x ∷ xs) ys = ground (arith, count-append p xs ys)

  -- What holds of every element holds of one that is there.
  pub All-Any {κ} :
      (P : A → Type κ) (Q : A → Type 0) (xs : List A) → All P xs → Any Q xs → (x : A) × P x × Q x
  All-Any P Q [] h k = absurd k
  All-Any P Q (x ∷ xs) h (inl q) = (x, h.0, q)
  All-Any P Q (x ∷ xs) h (inr k) = All-Any P Q xs h.1 k
