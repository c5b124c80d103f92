-- ===== src/Services/Tables.antt =====
-- A table of Postgres as Drizzle's statements see it. `rows` is the contents; a condition is a test on
-- a row. `make` and `clash` are the defaults and the unique index of the table's schema. The laws
-- state what a statement that returns has done, and that one that throws has changed nothing.
use mathlib.Core.List.{Perm}
use elysiajs_production_api.Base.{
  ℕ, ◌≡◌, Bool, true, false, not, Option, none, some, List, [], ◌∷◌, length, take, drop, filter,
  map_where, count, All, Any, ◌==◌,
}
use elysiajs_production_api.Errors.{Result, ok, err, Thrown, app, driver}

-- What a service throws is not one of the domain errors.
abbrev pub IsDriver : Thrown → Type 0
IsDriver (app e) = ⊥
IsDriver (driver code cause) = Unit

module _ {Row : Type 0} where
  -- `select … where p limit 1`: a row that meets the condition, if there is one.
  abbrev pub Finds : (Row → Bool) → List Row → Option Row → Type 0
  Finds p rows none = All (λ r. p r ≡ false) rows
  Finds p rows (some r) = (p r ≡ true) × Any (λ x. x ≡ r) rows

  -- `update … set f where p returning`: each returned row is a changed row, and they are as many.
  abbrev pub Returns : (Row → Bool) → (Row → Row) → List Row → List Row → Type 0
  Returns p f rows l =
      All (λ r. Any (λ x. (p x ≡ true) × (r ≡ f x)) rows) l × (length l ≡ count p rows)

  abbrev pub IsOrdered : (Row → Row → Bool) → List Row → Type 0
  IsOrdered before [] = Unit
  IsOrdered before (r ∷ l) = All (λ x. before x r ≡ false) l × IsOrdered before l

  -- `select … where p order by … limit n offset k`
  abbrev pub Pages : (Row → Bool) → (Row → Row → Bool) → ℕ → ℕ → List Row → List Row → Type 0
  Pages p before n k rows l =
      (ordered : List Row) × Perm ordered (filter p rows)
      × IsOrdered before ordered
      × (l ≡ take n (drop k ordered))

pub record Table {Row New : Type 0} (id_of : Row → ℕ) (make : New → ℕ → ℕ → Row)
    (clash : Row → Row → Bool) : Type 1 where
  pub State : Type 0
  pub rows : State → List Row
  pub find : (Row → Bool) → State → Result (Option Row) × State
  pub page : (Row → Bool) → (Row → Row → Bool) → ℕ → ℕ → State → Result (List Row) × State
  pub insert : New → ℕ → State → Result Row × State
  pub update : (Row → Bool) → (Row → Row) → State → Result (List Row) × State
  pub delete : (Row → Bool) → State → Result (List Row) × State
  pub find_ok :
      (p : Row → Bool) (s s' : State) (o : Option Row)
      → find p s ≡ (ok o, s')
      → Finds p (rows s) o × (rows s' ≡ rows s)
  pub page_ok :
      (p : Row → Bool) (before : Row → Row → Bool) (n k : ℕ) (s s' : State) (l : List Row)
      → page p before n k s ≡ (ok l, s')
      → Pages p before n k (rows s) l × (rows s' ≡ rows s)
  pub insert_ok :
      (v : New) (now : ℕ) (s s' : State) (r : Row)
      → insert v now s ≡ (ok r, s')
      → (id : ℕ) × (r ≡ make v id now)
        × All (λ x. (id_of x == id) ≡ false) (rows s)
        × All (λ x. clash r x ≡ false) (rows s)
        × (rows s' ≡ r ∷ rows s)
  pub update_ok :
      (p : Row → Bool) (f : Row → Row) (s s' : State) (l : List Row)
      → update p f s ≡ (ok l, s')
      → Returns p f (rows s) l × (rows s' ≡ map_where p f (rows s))
  pub delete_ok :
      (p : Row → Bool) (s s' : State) (l : List Row)
      → delete p s ≡ (ok l, s')
      → (length l ≡ count p (rows s)) × (rows s' ≡ filter (λ r. not (p r)) (rows s))
  pub find_err :
      (p : Row → Bool) (s s' : State) (e : Thrown)
      → find p s ≡ (err e, s')
      → IsDriver e × (rows s' ≡ rows s)
  pub page_err :
      (p : Row → Bool) (before : Row → Row → Bool) (n k : ℕ) (s s' : State) (e : Thrown)
      → page p before n k s ≡ (err e, s')
      → IsDriver e × (rows s' ≡ rows s)
  pub insert_err :
      (v : New) (now : ℕ) (s s' : State) (e : Thrown)
      → insert v now s ≡ (err e, s')
      → IsDriver e × (rows s' ≡ rows s)
  pub update_err :
      (p : Row → Bool) (f : Row → Row) (s s' : State) (e : Thrown)
      → update p f s ≡ (err e, s')
      → IsDriver e × (rows s' ≡ rows s)
  pub delete_err :
      (p : Row → Bool) (s s' : State) (e : Thrown)
      → delete p s ≡ (err e, s')
      → IsDriver e × (rows s' ≡ rows s)
