-- ===== src/Models/Listing.antt =====
-- `GET /users` from its query to its answer.
use mathlib.Core.Logic.{∥∥₁_elim}
use mathlib.Core.HLevel.{×_prop}
use mathlib.Core.Bool.{Bool-set}
use mathlib.Core.List.{Permᴰ, Mem, Mem-prop, mem-cons_self, mem-cons_of_mem}
use mathlib.Core.List.Permᴰ.{symm}
use mathlib.Core.Path.{subst}
use elysiajs_production_api.Base.{
  or_default, leb, ◌&&◌, ℕ, zero, suc, ◌≤◌, ◌≡◌, sym, ap, ◌∙◌, inl, inr, true, Option, none, some,
  List, [], ◌∷◌, map, Text, codes, length, take, drop, filter, All, All-map, arith, Bool-cases,
  if◌then◌else◌,
}
use elysiajs_production_api.Errors.{ok, ok_inj, ok_value, >>=-eq-ok}
use elysiajs_production_api.Config.{Env}
use elysiajs_production_api.Permissions.{read}
use elysiajs_production_api.Schema.{User}
use elysiajs_production_api.Services.{Services, World, View, view, Pages}
use elysiajs_production_api.Services.Actions.{page_users}
use elysiajs_production_api.Services.Actions.Laws.{page_users-ok}
use elysiajs_production_api.Guards.{Decision, allowed, denied, Grant, can}
use elysiajs_production_api.Guards.Matrix.{IsGranted, Judges, can-Judges}
use elysiajs_production_api.Users.{PublicUser, to_public_user, is_listed, comes_before, list_users}
use elysiajs_production_api.Routes.Protected.{served, protect, after_decision}
use elysiajs_production_api.Routes.UserRoutes.{is_all, list_handler, get_users}
use elysiajs_production_api.Models.{Decoded, invalid, decoded, ListQuery, list_query}

module _ {A : Type 0} (P : A → Type 0) where
  All-IsProp : ((a : A) → IsProp (P a)) → (l : List A) → IsProp (All P l)
  All-IsProp h [] = hlevel
  All-IsProp h (x ∷ l) = ×_prop (h x) (All-IsProp h l)

  All-Permᴰ : {l k : List A} → Permᴰ l k → All P l → All P k
  All-Permᴰ Permᴰ.nil h = h
  All-Permᴰ (Permᴰ.cons e d) h = (subst P e h.0, All-Permᴰ d h.1)
  All-Permᴰ (Permᴰ.swap e e') h = (subst P e' h.1.0, (subst P e h.0, h.1.1))
  All-Permᴰ (Permᴰ.trans d d') h = All-Permᴰ d' (All-Permᴰ d h)

  All-take : (n : ℕ) (l : List A) → All P l → All P (take n l)
  All-take zero l h = tt
  All-take (suc n) [] h = tt
  All-take (suc n) (x ∷ l) h = (h.0, All-take n l h.1)

  All-drop : (n : ℕ) (l : List A) → All P l → All P (drop n l)
  All-drop zero l h = h
  All-drop (suc n) [] h = tt
  All-drop (suc n) (x ∷ l) h = All-drop n l h.1

length-take : {A : Type 0} (n : ℕ) (l : List A) → length (take n l) ≤ n
length-take zero l = omega arith
length-take (suc n) [] = omega arith
length-take (suc n) (x ∷ l) = let h = length-take n l in omega arith

Mem-All : {A : Type 0} (l : List A) → All (λ a. Mem a l) l
Mem-All [] = tt
Mem-All (x ∷ l) = (mem-cons_self, All-map _ _ (λ a m. mem-cons_of_mem x m) l (Mem-All l))

-- The row of an active user, which is the owner's if there is one.
abbrev pub IsListed : Option ℕ → List User → User → Type 0
IsListed owner rows u = (is_listed owner u ≡ true) × Mem u rows

filtered_IsListed :
    (owner : Option ℕ) (rows : List User)
    → All (IsListed owner rows) (filter (is_listed owner) rows)
filtered_IsListed owner rows = both rows (Mem-All rows)
  where
    both :
        (l : List User)
        → All (λ u. Mem u rows) l
        → All (IsListed owner rows) (filter (is_listed owner) l)
    both [] h = tt
    both (u ∷ l) h = elim (Bool-cases (is_listed owner u)) [
      | inl e ↦ rw e ((e, h.0), both l h.1)
      | inr e ↦ rw e (both l h.1)
    ]

Pages-IsListed :
    (owner : Option ℕ) (limit offset : ℕ) (rows l : List User)
    → Pages (is_listed owner) comes_before limit offset rows l
    → All (IsListed owner rows) l × (length l ≤ limit)
Pages-IsListed owner limit offset rows l (ordered, perm, sorted, e) = rw e (
  All-take P limit _ (
      All-drop P offset ordered (
        ∥∥₁_elim perm (All-IsProp P (λ u. ×_prop (Bool-set _ _) Mem-prop) ordered)
          (λ d. All-Permᴰ P (symm d) (filtered_IsListed owner rows)))),
  length-take limit (drop offset ordered),
)
  where
    P : User → Type 0
    P = IsListed owner rows

abbrev limit_of : Decoded ListQuery → ℕ
limit_of (decoded q) = q.limit
limit_of _ = 0

limit_of-if :
    (x offset : ℕ)
    → limit_of
        (if leb 1 x && leb x 100 then decoded (record { limit = x; offset = offset }) else invalid)
      ≤ 100
limit_of-if x offset = ground arith

list_query-bound :
    (limit offset : Option ℕ) (q : ListQuery) → list_query limit offset ≡ decoded q → q.limit ≤ 100
unfolding list_query
list_query-bound limit offset q h =
    subst (λ n. n ≤ 100) (ap limit_of h) (limit_of-if (or_default limit 20) (or_default offset 0))

module _ (sv : Services) (env : Env) where
  -- The users that a grant lets its holder see.
  abbrev pub visible : Grant → Option ℕ
  visible g = if is_all g.scope then none else some g.user.sub

  -- A page: at most so many rows, of users that may be seen, in their public shape.
  abbrev pub IsPage : ℕ → Option ℕ → View → List PublicUser → Type 0
  IsPage limit owner v l =
      (rows : List User) × (l ≡ map to_public_user rows)
      × All (IsListed owner v.users) rows
      × (length rows ≤ limit)

  list_users-IsPage :
      (limit offset : ℕ) (owner : Option ℕ) (l : List PublicUser) (w w' : World sv)
      → list_users sv limit offset owner w ≡ (ok l, w')
      → IsPage limit owner (view sv w) l × (view sv w' ≡ view sv w)
  unfolding list_users
  list_users-IsPage limit offset owner l w w' h =
      let (rows, v, e, k) =
        >>=-eq-ok (page_users sv (is_listed owner) comes_before limit offset) _ w h in
      let (pages, same) = page_users-ok sv _ _ limit offset w v rows e in
      let (listed, few) = Pages-IsListed owner limit offset (view sv w).users rows pages in
      ((rows, sym (ok_value k), listed, few), subst (λ x. view sv x ≡ view sv w) (ok_inj k).1 same)

  list_handler-IsPage :
      (limit offset : ℕ) (g : Grant) (l : List PublicUser) (w w' : World sv)
      → list_handler sv env limit offset g w ≡ (ok l, w')
      → IsPage limit (visible g) (view sv w) l × (view sv w' ≡ view sv w)
  unfolding list_handler
  list_handler-IsPage limit offset g l w w' h = elim (Bool-cases (is_all g.scope)) [
    | inl e ↦ rw e (
        list_users-IsPage limit offset none l w w' (
          subst
            (λ b.
              (if b
                  then list_users sv limit offset none
                  else list_users sv limit offset (some g.user.sub))
                w
              ≡ (ok l, w'))
            e h))
    | inr e ↦ rw e (
        list_users-IsPage limit offset (some g.user.sub) l w w' (
          subst
            (λ b.
              (if b
                  then list_users sv limit offset none
                  else list_users sv limit offset (some g.user.sub))
                w
              ≡ (ok l, w'))
            e h))
  ]

  -- A list of users that is served, for a query that the schema accepts: the token passes the guard
  -- `can` for reading users; the list has at most 100 entries, and no more than the query asked for;
  -- each shows an active user of the table, and with a grant of scope `own`, the requester. Nothing
  -- has changed.
  pub get_users-IsPage :
      (bearer : Option Text) (limit offset : Option ℕ) (q : ListQuery) (l : List PublicUser)
      (w w' : World sv)
      → list_query limit offset ≡ decoded q
      → get_users sv env bearer q.limit q.offset w ≡ (ok (served l), w')
      → (q.limit ≤ 100)
        × ((g : Grant) × IsGranted sv env (codes "user") read none bearer (view sv w) g
            × IsPage q.limit (visible g) (view sv w) l
            × (view sv w' ≡ view sv w))
  unfolding get_users protect
  get_users-IsPage bearer limit offset q l w w' accepted h =
      let (d, v, e, k) = >>=-eq-ok (can sv env (codes "user") read none bearer) _ w h in
      (
        list_query-bound limit offset q accepted,
        decided d v
            (subst (Judges sv env (codes "user") read none bearer (view sv w)) e
              (can-Judges sv env (codes "user") read none bearer w))
            k,
      )
    where
      served_inj : {a b : List PublicUser} → served a ≡ served b → a ≡ b
      served_inj e = cc

      decided :
          (d : Decision Grant) (v : World sv)
          → Judges sv env (codes "user") read none bearer (view sv w) (ok d, v)
          → after_decision d (list_handler sv env q.limit q.offset) v ≡ (ok (served l), w')
          → (g : Grant) × IsGranted sv env (codes "user") read none bearer (view sv w) g
            × IsPage q.limit (visible g) (view sv w) l
            × (view sv w' ≡ view sv w)
      decided (denied status code) v judged k = absurd (cc)
      decided (allowed g) v (granted, same) k =
          let (b, v2, e2, k2) = >>=-eq-ok (list_handler sv env q.limit q.offset g) _ v k in
          let (page, still) = list_handler-IsPage q.limit q.offset g b v v2 e2 in
          (
            g,
            granted,
            subst (λ x. IsPage q.limit (visible g) x l) same
                (subst (IsPage q.limit (visible g) (view sv v)) (served_inj (ok_value k2)) page),
            ap (view sv) (sym (ok_inj k2).1) ∙ still ∙ same,
          )
