-- ===== src/Seed/Outcome.antt =====
-- What a run of the seed leaves: an administrator's row, which an account may have that is deleted.
use mathlib.Core.Path.{subst}
use elysiajs_production_api.Base.{
  ℕ, suc, ◌≡◌, refl, sym, ◌∙◌, ◌⊎◌, inl, inr, true, false, Option, none, some, List, [], ◌∷◌, Text,
  text_eq, text_eq_self, is_empty, map_where, All, All-Any, All-map_where, Any, Any-map, ◌==◌,
  arith, if◌then◌else◌,
}
use elysiajs_production_api.Errors.{pure, ok, >>=-eq-ok, ok_inj, ok_value, discard-ok}
use elysiajs_production_api.Permissions.{Role, user, admin}
use elysiajs_production_api.Config.{Env}
use elysiajs_production_api.Schema.{User}
use elysiajs_production_api.Services.{Services, World, view, Finds}
use elysiajs_production_api.Services.Actions.{
  find_user, insert_user, update_users, read_clock-bind, draw-bind,
}
use elysiajs_production_api.Services.Actions.Laws.{find_user-ok, insert_user-ok, update_users-ok}
use elysiajs_production_api.Auth.Accounts.{has_email}
use elysiajs_production_api.Seed.{
  has_address, promoted, create_admin, promote, unless_admin, ensure_admin, seed,
}

role_cases : (r : Role) → (r ≡ admin) ⊎ (r ≡ user)
role_cases admin = inl refl
role_cases user = inr refl

-- A row with the address that is an administrator's.
abbrev pub HasAdmin : Text → List User → Type 0
HasAdmin email = Any (λ u. (text_eq u.email email ≡ true) × (u.role ≡ admin))

-- Every row with the address is marked as deleted.
abbrev pub IsReleased : Text → List User → Type 0
IsReleased email = All (λ u. has_email email u ≡ false)

HasAdmin-promoted :
    (email : Text) (now : ℕ) (l : List User) (u : User)
    → text_eq u.email email ≡ true
    → Any (λ x. x ≡ u) l
    → HasAdmin email (map_where (λ x. x.id == u.id) (promoted now) l)
HasAdmin-promoted email now (x ∷ l) u h (inl e) = inl (
    subst
      (λ y.
        (text_eq (if y.id == u.id then promoted now y else y).email email ≡ true)
        × ((if y.id == u.id then promoted now y else y).role ≡ admin))
      (sym e) (ground arith))
HasAdmin-promoted email now (x ∷ l) u h (inr k) = inr (HasAdmin-promoted email now l u h k)
HasAdmin-promoted email now [] u h k = absurd k

module _ (sv : Services) (env : Env) where
  -- What the run has done to the users.
  abbrev Ensures : List User → List User → Type 0
  Ensures l l' =
      HasAdmin env.seed_admin_email l'
      × (IsReleased env.seed_admin_email l
          → Any (λ u. has_address env.seed_admin_email u ≡ true) l
          → IsReleased env.seed_admin_email l')

  create_admin-HasAdmin :
      (w w' : World sv) (u : Unit {0})
      → create_admin sv env w ≡ (ok u, w')
      → HasAdmin env.seed_admin_email (view sv w').users
  unfolding create_admin
  create_admin-HasAdmin w w' u h =
      let k =
        sym (read_clock-bind sv _ (record w { draws = suc w.draws }))
        ∙ (sym (draw-bind sv _ w) ∙ h) in
      let (row, e) = discard-ok (insert_user sv _) (record w { draws = suc w.draws }) k in
      let inserted = insert_user-ok sv _ _ w' row e in
      subst (λ v. HasAdmin env.seed_admin_email v.users) (sym inserted.4)
        (inl (
          subst (λ x. (text_eq x.email env.seed_admin_email ≡ true) × (x.role ≡ admin))
            (sym inserted.1) (text_eq_self env.seed_admin_email, refl)))

  ensure_admin-Ensures :
      (o : Option User) (w w' : World sv) (u : Unit {0})
      → Finds (has_address env.seed_admin_email) (view sv w).users o
      → ensure_admin sv env o w ≡ (ok u, w')
      → Ensures (view sv w).users (view sv w').users
  unfolding ensure_admin promote
  ensure_admin-Ensures none w w' u absent h = (
    create_admin-HasAdmin w w' u h,
    λ released there.
        let (x, no_address, address) = All-Any _ _ (view sv w).users absent there in absurd (cc),
  )
  ensure_admin-Ensures (some x) w w' u (address, listed) h = elim (role_cases x.role) [
    | inl e ↦
        let k : pure {W = World sv} tt w ≡ (ok u, w') =
          subst (λ r. unless_admin sv env r x.id w ≡ (ok u, w')) e h in
        subst (λ v. Ensures (view sv w).users (view sv v).users) (ok_inj k).1
          (
            Any-map (λ y. y ≡ x) _ (λ y same. rw same (address, e)) (view sv w).users listed,
            λ released there. released,
          )
    | inr e ↦
        let k : promote sv env x.id w ≡ (ok u, w') =
          subst (λ r. unless_admin sv env r x.id w ≡ (ok u, w')) e h in
        let (l, updated) = discard-ok (update_users sv _ _) w (sym (read_clock-bind sv _ w) ∙ k) in
        let after = (update_users-ok sv _ _ w w' l updated).1 in
        subst (λ v. Ensures (view sv w).users v.users) (sym after)
          (
            HasAdmin-promoted env.seed_admin_email w.now (view sv w).users x address listed,
            λ released there.
                All-map_where _ (λ u. has_email env.seed_admin_email u ≡ false) (λ y. y.id == x.id)
                  (promoted w.now) (λ y no p. no) (λ y no p. no) (view sv w).users released,
          )
  ]

  seed-ensured :
      (w w' : World sv) (n : ℕ)
      → is_empty env.seed_admin_password ≡ false
      → seed sv env w ≡ (ok n, w')
      → (n ≡ 0) × Ensures (view sv w).users (view sv w').users
  unfolding seed
  seed-ensured w w' n given h =
      let (o, v, e, k) =
        >>=-eq-ok (find_user sv (has_address env.seed_admin_email)) _ w
          (rw (given, if◌then◌else◌) at h) in
      let (found, same) = find_user-ok sv _ w v o e in
      let (u, v', e', k') = >>=-eq-ok (ensure_admin sv env o) _ v k in
      let found' =
        subst (λ x. Finds (has_address env.seed_admin_email) x.users o) (sym same) found in
      let done = ensure_admin-Ensures o v v' u found' e' in
      (
        sym (ok_value k'),
        subst (λ x. Ensures (view sv w).users (view sv x).users) (ok_inj k').1
            (subst (λ x. Ensures x.users (view sv v').users) same done),
      )

  -- A run of the seed that ends, with a password set, exits with 0 and leaves an account with the seed's
  -- address that is an administrator's.
  pub seed-HasAdmin :
      (w w' : World sv) (n : ℕ)
      → is_empty env.seed_admin_password ≡ false
      → seed sv env w ≡ (ok n, w')
      → (n ≡ 0) × HasAdmin env.seed_admin_email (view sv w').users
  seed-HasAdmin w w' n given h =
      let (zero_exit, done) = seed-ensured w w' n given h in (zero_exit, done.0)

  -- If the accounts with the seed's address are all deleted, and there is one, then after a run that
  -- ends with exit code 0 there is still no active account with the address: the seed does not filter
  -- out deleted rows, and takes one of them for the administrator.
  pub seed-IsReleased :
      (w w' : World sv) (n : ℕ)
      → is_empty env.seed_admin_password ≡ false
      → IsReleased env.seed_admin_email (view sv w).users
      → Any (λ u. has_address env.seed_admin_email u ≡ true) (view sv w).users
      → seed sv env w ≡ (ok n, w')
      → (n ≡ 0) × IsReleased env.seed_admin_email (view sv w').users
  seed-IsReleased w w' n given released there h =
      let (zero_exit, done) = seed-ensured w w' n given h in (zero_exit, done.1 released there)
