-- ===== src/Auth/Accounts/Unique.antt =====
-- Registration: a new account is the only active one with its address, and all active accounts go on
-- having different addresses.
use mathlib.Core.Path.{subst}
use elysiajs_production_api.Base.{
  Bool-cases, if◌then◌else◌, ℕ, suc, ◌≡◌, sym, ◌∙◌, inl, inr, false, Option, none, some, List, [],
  ◌∷◌, Text, All, ◌==◌,
}
use elysiajs_production_api.Errors.{
  Thrown, Result, ok, >>=-cases, >>=-eq-ok, try_catch-cases, ok_inj, ok_value, is_unique_violation,
}
use elysiajs_production_api.Calls.{throw-ne-ok}
use elysiajs_production_api.Schema.{User, user_row, user_clash}
use elysiajs_production_api.Services.{Services, World, View, view, Finds}
use elysiajs_production_api.Services.Actions.{find_user, insert_user, draw-bind}
use elysiajs_production_api.Services.Actions.Laws.{
  find_user-ok, find_user-err, insert_user-ok, insert_user-err,
}
use elysiajs_production_api.Auth.Accounts.{
  has_email, on_insert_error, insert_account, unless_registered, create_user,
}

-- Active accounts have different addresses.
abbrev pub HasUniqueEmails : List User → Type 0
HasUniqueEmails [] = Unit
HasUniqueEmails (u ∷ l) = All (λ x. user_clash u x ≡ false) l × HasUniqueEmails l

module _ (sv : Services) where
  -- The row of a new account, and the state that has it.
  abbrev pub IsCreated : Text → Text → Option Text → View → User → View → Type 0
  IsCreated email password name v u v' =
      (id : ℕ) × (u
        ≡ user_row
            (record {
              email = email;
              password_hash = sv.hash_password v.draws password;
              name = name;
              role = none;
              email_verified_at = none;
            })
            id v.now)
      × All (λ (x : User). (x.id == id) ≡ false) v.users
      × All (λ x. user_clash u x ≡ false) v.users
      × (v' ≡ record v { users = u ∷ v.users; draws = suc v.draws })

  on_insert_error-ne-ok :
      (e : Thrown) (w w' : World sv) (u : User) → ¬ (on_insert_error sv e w ≡ (ok u, w'))
  on_insert_error-ne-ok e w w' u h = elim (Bool-cases (is_unique_violation e)) [
    | inl duplicate ↦ let k = rw (duplicate, if◌then◌else◌) at h in absurd (cc)
    | inr other ↦ let k = rw (other, if◌then◌else◌) at h in absurd (cc)
  ]

  insert_account-ok :
      (email password : Text) (name : Option Text) (w w' : World sv) (u : User)
      → insert_account sv email password name w ≡ (ok u, w')
      → IsCreated email password name (view sv w) u (view sv w')
  unfolding insert_account
  insert_account-ok email password name w w' u h =
      try_catch-cases (insert_user sv _) (on_insert_error sv) (record w { draws = suc w.draws })
        (λ r. r ≡ (ok u, w') → IsCreated email password name (view sv w) u (view sv w'))
        (λ a v e k.
          let inserted = insert_user-ok sv _ (record w { draws = suc w.draws }) v a e in
          let same : a ≡ u = ok_value k in
          let state : v ≡ w' = (ok_inj k).1 in
          subst (λ x. IsCreated email password name (view sv w) x (view sv w')) same
            (
              inserted.0,
              inserted.1,
              inserted.2,
              inserted.3,
              subst
                  (λ x.
                    view sv x
                    ≡ record (view sv w) { users = a ∷ (view sv w).users; draws = suc w.draws })
                  state inserted.4,
            ))
        (λ e v k l. absurd (on_insert_error-ne-ok e v w' u l)) (sym (draw-bind sv _ w) ∙ h)

  -- An account that is created has the values that were given, its password with a fresh salt, and a
  -- fresh id. No active account had the address, and nothing else has changed but the random draws.
  pub create_user-IsCreated :
      (email password : Text) (name : Option Text) (w w' : World sv) (u : User)
      → create_user sv email password name w ≡ (ok u, w')
      → All (λ x. has_email email x ≡ false) (view sv w).users
        × IsCreated email password name (view sv w) u (view sv w')
  unfolding create_user unless_registered
  create_user-IsCreated email password name w w' u h =
      let (o, v, e, k) = >>=-eq-ok (find_user sv (has_email email)) _ w h in
      let (found, same) = find_user-ok sv _ w v o e in after o v found same k
    where
      after :
          (o : Option User) (v : World sv)
          → Finds (has_email email) (view sv w).users o
          → view sv v ≡ view sv w
          → unless_registered sv o email password name v ≡ (ok u, w')
          → All (λ x. has_email email x ≡ false) (view sv w).users
            × IsCreated email password name (view sv w) u (view sv w')
      after (some x) v found same k = absurd (throw-ne-ok _ k)
      after none v found same k = (
        found,
        subst (λ x. IsCreated email password name x u (view sv w')) same
            (insert_account-ok email password name v w' u k),
      )

  abbrev Keeps : View → Result User × World sv → Type 0
  Keeps v (r, w') = HasUniqueEmails v.users → HasUniqueEmails (view sv w').users

  insert_account-Keeps :
      (email password : Text) (name : Option Text) (w : World sv)
      → Keeps (view sv w) (insert_account sv email password name w)
  unfolding insert_account
  insert_account-Keeps email password name w = rw (draw-bind sv) (
      try_catch-cases (insert_user sv _) (on_insert_error sv) (record w { draws = suc w.draws })
        (Keeps (view sv w))
        (λ a v e unique.
          let inserted = insert_user-ok sv _ _ v a e in
          subst (λ x. HasUniqueEmails x.users) (sym inserted.4) (inserted.3, unique))
        (λ x v e.
          let same = (insert_user-err sv _ _ v x e).1 in
          failed x v (
            subst (λ y. HasUniqueEmails (view sv w).users → HasUniqueEmails y.users) (sym same)
              (λ h. h))))
    where
      failed :
          (x : Thrown) (v : World sv)
          → (HasUniqueEmails (view sv w).users → HasUniqueEmails (view sv v).users)
          → Keeps (view sv w) (on_insert_error sv x v)
      failed x v h = elim (Bool-cases (is_unique_violation x)) [
        | inl duplicate ↦ rw (duplicate, if◌then◌else◌) h
        | inr other ↦ rw (other, if◌then◌else◌) h
      ]

  -- Whether it returns or throws, creating an account keeps the addresses of the active accounts
  -- different.
  pub create_user-HasUniqueEmails :
      (email password : Text) (name : Option Text) (w : World sv)
      → HasUniqueEmails (view sv w).users
      → HasUniqueEmails (view sv (create_user sv email password name w).1).users
  unfolding create_user unless_registered
  create_user-HasUniqueEmails email password name w =
      >>=-cases (find_user sv (has_email email)) _ w (Keeps (view sv w))
        (λ o v e. after o v (find_user-ok sv _ w v o e).1)
        (λ x v e unique.
          subst (λ y. HasUniqueEmails y.users) (sym (find_user-err sv _ w v x e).1) unique)
    where
      after :
          (o : Option User) (v : World sv)
          → view sv v ≡ view sv w
          → Keeps (view sv w) (unless_registered sv o email password name v)
      after (some x) v same = λ unique. subst (λ y. HasUniqueEmails y.users) (sym same) unique
      after none v same =
          subst (λ y. Keeps y (insert_account sv email password name v)) same
            (insert_account-Keeps email password name v)
