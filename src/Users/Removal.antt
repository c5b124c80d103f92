-- ===== src/Users/Removal.antt =====
-- What removing a user does, and what an update may change.
use mathlib.Core.Path.{subst}
use elysiajs_production_api.Base.{
  ℕ, ◌≡◌, sym, ap, ◌∙◌, Bool, true, false, not, some, List, [], ◌∷◌, head?, filter, filter-All,
  map_where, All, All-intro, All-map, All-map_where, Any, Any-map, ◌==◌, arith,
}
use elysiajs_production_api.Errors.{ok, >>=-eq-ok, not_found, discard-ok}
use elysiajs_production_api.Calls.{or_throw, or_throw-ok}
use elysiajs_production_api.Schema.{User, RefreshToken}
use elysiajs_production_api.Services.{Services, World, View, view, Returns}
use elysiajs_production_api.Services.Actions.{update_users, delete_tokens, read_clock-bind}
use elysiajs_production_api.Services.Actions.Laws.{update_users-ok, delete_tokens-ok}
use elysiajs_production_api.Auth.Accounts.{has_id}
use elysiajs_production_api.Auth.Tokens.{revoke_all_refresh_tokens}
use elysiajs_production_api.Users.{remove_user}

abbrev marked : ℕ → View → View
marked id v = record v {
  users =
      map_where (has_id id) (λ (u : User). record u { deleted_at = some v.now; updated_at = v.now })
        v.users;
}

-- The state after a removal: the row is marked and the user's refresh tokens are deleted.
abbrev pub removed : ℕ → View → View
removed id v = record v {
  users =
      map_where (has_id id) (λ (u : User). record u { deleted_at = some v.now; updated_at = v.now })
        v.users;
  tokens = filter (λ (r : RefreshToken). not (r.user_id == id)) v.tokens;
}

pub some_row :
    (p : User → Bool) (f : User → User) (l rows : List User) (u : User)
    → Returns p f l rows
    → head? rows ≡ some u
    → Any (λ x. (p x ≡ true) × (u ≡ f x)) l
some_row p f l [] u h e = absurd (cc)
some_row p f l (r ∷ rows) u (h, n) e =
    subst (λ y. Any (λ x. (p x ≡ true) × (y ≡ f x)) l) (some_inj e) h.0
  where
    some_inj : {a b : User} → some a ≡ some b → a ≡ b
    some_inj e = cc

-- No active row with the id is left, and no refresh token of the user.
abbrev pub IsGone : ℕ → View → Type 0
IsGone id v =
    All (λ u. has_id id u ≡ false) v.users
    × All (λ (r : RefreshToken). (r.user_id == id) ≡ false) v.tokens

removed-IsGone : (id : ℕ) (v : View) → IsGone id (removed id v)
removed-IsGone id v = (
  All-map_where (λ u. Unit {0}) (λ u. has_id id u ≡ false) (has_id id) _ (λ u h e. ground arith)
      (λ u h e. e) v.users (All-intro (λ u. Unit {0}) (λ u. tt) v.users),
  All-map (λ (r : RefreshToken). not (r.user_id == id) ≡ true)
      (λ (r : RefreshToken). (r.user_id == id) ≡ false) (λ r e. ground arith) _
      (filter-All (λ (r : RefreshToken). not (r.user_id == id)) v.tokens),
)

module _ (sv : Services) where
  -- A removal that returns had an active user with the id. It marks that row as deleted, deletes all of
  -- that user's refresh tokens, and changes nothing else; so the user cannot be found any more, and has
  -- no session to go on with.
  pub remove_user-removed :
      (id : ℕ) (w w' : World sv) (u : Unit {0})
      → remove_user sv id w ≡ (ok u, w')
      → Any (λ x. has_id id x ≡ true) (view sv w).users
        × (view sv w' ≡ removed id (view sv w))
        × IsGone id (view sv w')
  unfolding remove_user revoke_all_refresh_tokens
  remove_user-removed id w w' u h =
      let k = sym (read_clock-bind sv _ w) ∙ h in
      let (rows, v1, e1, k1) = >>=-eq-ok (update_users sv (has_id id) _) _ w k in
      let (returned, s1) = update_users-ok sv _ _ w v1 rows e1 in
      let (row, v2, e2, k2) =
        >>=-eq-ok (or_throw (head? rows) (not_found "User not found")) _ v1 k1 in
      let (is, at2) = or_throw-ok (head? rows) (not_found "User not found") e2 in
      let (l, e3) = discard-ok (delete_tokens sv _) v2 k2 in
      let s2 = subst (λ x. view sv x ≡ marked id (view sv w)) at2 s1 in
      let s3 : view sv w' ≡ removed id (view sv w) =
        (delete_tokens-ok sv _ v2 w' l e3).1
        ∙ ap
            (λ (x : View). record x {
              tokens = filter (λ (r : RefreshToken). not (r.user_id == id)) x.tokens;
            })
            s2 in
      (
        Any-map _ _ (λ x p. p.0) (view sv w).users
            (some_row (has_id id) _ (view sv w).users rows row returned is),
        s3,
        subst (IsGone id) (sym s3) (removed-IsGone id (view sv w)),
      )
