-- ===== src/Routes/Endings.antt =====
-- How sessions end: logging out, resetting the password, and removing the user. Each leaves the
-- refresh tokens of the session, or of all the user's sessions, of no use.
use mathlib.Core.Path.{subst}
use elysiajs_production_api.Base.{
  ℕ, ◌≡◌, refl, sym, ap, ◌∙◌, inl, inr, Bool, true, false, not, none, some, Option, List, [], ◌∷◌,
  Text, filter, All, All-Any, All-map, Any, ◌==◌, Bool-cases, arith,
}
use elysiajs_production_api.Errors.{Call, pure, ok, bad_request, >>=-eq-ok, ok_inj, discard-ok}
use elysiajs_production_api.Calls.{require, require-ok, is_present}
use elysiajs_production_api.Config.{Env}
use elysiajs_production_api.Schema.{User, RefreshToken}
use elysiajs_production_api.Services.{Services, World, View, view, Finds}
use elysiajs_production_api.Services.Actions.{find_token, delete_tokens}
use elysiajs_production_api.Services.Actions.Laws.{find_token-ok, delete_tokens-ok}
use elysiajs_production_api.Requests.{Request, require_trusted_origin}
use elysiajs_production_api.Auth.Accounts.{has_email}
use elysiajs_production_api.Auth.Tokens.{revoke_family, revoke_refresh_token, use_refresh_token}
use elysiajs_production_api.Auth.Tokens.OneUse.{Spent}
use elysiajs_production_api.Auth.Tokens.Histories.SingleUse.{IsSpent, Run, unusable}
use elysiajs_production_api.Auth.PasswordReset.{reset}
use elysiajs_production_api.Auth.PasswordReset.Effects.{reset-IsChecked}
use elysiajs_production_api.Users.{remove_user}
use elysiajs_production_api.Users.Removal.{remove_user-removed}
use elysiajs_production_api.Routes.Session.{SetCookie, presented, logout, text_value}
use elysiajs_production_api.Routes.Session.Refresh.{require_trusted_origin-ok}
use elysiajs_production_api.Routes.Public.{reset_password}

-- The rows with a digest are all deleted.
deleted-Spent :
    (hash now : ℕ) (q : RefreshToken → Bool) (l : List RefreshToken)
    → All (λ r. (r.token == hash) ≡ true → q r ≡ true) l
    → Spent hash now (filter (λ r. not (q r)) l)
deleted-Spent hash now q [] h = tt
deleted-Spent hash now q (r ∷ l) h = elim (Bool-cases (q r)) [
  | inl gone ↦ rw (gone) (deleted-Spent hash now q l h.1)
  | inr kept ↦
      let other : (r.token == hash) ≡ false = elim (Bool-cases (r.token == hash)) [
        | inl same ↦ absurd (let e = h.0 same in cc)
        | inr other ↦ other
      ] in
      rw (kept) ((rw other refl, deleted-Spent hash now q l h.1))
]

-- All rows with a digest belong to a user, or to a family.
abbrev pub IsOwned : ℕ → ℕ → View → Type 0
IsOwned hash id v = All (λ (r : RefreshToken). (r.token == hash) ≡ true → r.user_id ≡ id) v.tokens

abbrev pub IsRelated : ℕ → ℕ → View → Type 0
IsRelated hash family v =
    All (λ (r : RefreshToken). (r.token == hash) ≡ true → r.family_id ≡ family) v.tokens

module _ (sv : Services) (env : Env) where
  -- How a session ends in which a token with a digest was issued: a request to log out with a token of
  -- its family that is stored; a reset of the password of its user, the only active one with the
  -- address; the removal of its user.
  pub data Ending (hash : ℕ) (w w' : World sv) : Type 0 where
    logs_out :
        (request : Request) (cookie body : Option Text) (token : Text) (family : ℕ)
        (answer : Option SetCookie)
        → presented env cookie body ≡ some token
        → Any (λ (r : RefreshToken). (r.token == sv.sha256 token) ≡ true) (view sv w).tokens
        → IsRelated (sv.sha256 token) family (view sv w)
        → IsRelated hash family (view sv w)
        → logout sv env request cookie body w ≡ (ok answer, w')
        → Ending hash w w'
    resets :
        (email code new_password : Text) (id : ℕ) (answer : Bool)
        → All (λ (u : User). has_email email u ≡ true → u.id ≡ id) (view sv w).users
        → IsOwned hash id (view sv w)
        → reset_password sv env email code new_password w ≡ (ok answer, w')
        → Ending hash w w'
    removes :
        (id : ℕ) (u : Unit {0})
        → IsOwned hash id (view sv w)
        → remove_user sv id w ≡ (ok u, w')
        → Ending hash w w'

  owned-Spent :
      (hash id : ℕ) (w w' : World sv)
      → IsOwned hash id (view sv w)
      → (view sv w').tokens ≡ filter (λ r. not (r.user_id == id)) (view sv w).tokens
      → IsSpent sv hash w'
  owned-Spent hash id w w' owned e = subst (Spent hash w'.now) (sym e) (
      deleted-Spent hash w'.now (λ r. r.user_id == id) (view sv w).tokens
        (All-map _ _ (λ r own same. let e = own same in ground arith) (view sv w).tokens owned))

  revoked-IsSpent :
      (hash family : ℕ) (token : Text) (w w' : World sv) (u : Unit {0})
      → Any (λ (r : RefreshToken). (r.token == sv.sha256 token) ≡ true) (view sv w).tokens
      → IsRelated (sv.sha256 token) family (view sv w)
      → IsRelated hash family (view sv w)
      → revoke_refresh_token sv token w ≡ (ok u, w')
      → IsSpent sv hash w'
  unfolding revoke_refresh_token revoke_family
  revoked-IsSpent hash family token w w' u stored related same h =
      let (found, v, e, k) = >>=-eq-ok (find_token sv _) _ w h in
      let (is, s) = find_token-ok sv _ w v found e in revoked found v is s k
    where
      revoked :
          (o : Option RefreshToken) (v : World sv)
          → Finds (λ r. r.token == sv.sha256 token) (view sv w).tokens o
          → view sv v ≡ view sv w
          → (elim o as (λ x. Call (World sv) (Unit {0})) [
            | none ↦ pure tt
            | some row ↦ revoke_family sv row.family_id
          ])
              v
            ≡ (ok u, w')
          → IsSpent sv hash w'
      revoked none v is s k =
          let (x, other, own) = All-Any _ _ (view sv w).tokens is stored in absurd (cc)
      revoked (some row) v is s k =
          let (x, own, at_row) = All-Any _ _ (view sv w).tokens related is.1 in
          let its : row.family_id ≡ family =
            subst (λ y. (y.token == sv.sha256 token) ≡ true → y.family_id ≡ family) at_row own
              is.0 in
          let (l, e) = discard-ok (delete_tokens sv _) v k in
          let after : (view sv w').tokens
              ≡ filter (λ r. not (r.family_id == row.family_id)) (view sv w).tokens =
            ap (λ x. x.tokens) (delete_tokens-ok sv _ v w' l e).1
            ∙ ap (λ x. filter (λ r. not (r.family_id == row.family_id)) x.tokens) s in
          subst (Spent hash w'.now) (sym after) (
            deleted-Spent hash w'.now (λ r. r.family_id == row.family_id) (view sv w).tokens
              (All-map _ _ (λ r own here. let e = own here in let f = its in ground arith)
                (view sv w).tokens same))

  Ending-IsSpent : (hash : ℕ) (w w' : World sv) → Ending hash w w' → IsSpent sv hash w'
  unfolding logout reset_password
  Ending-IsSpent hash w w'
        (logs_out request cookie body token family answer is stored related same h) =
      let (a, v1, e1, k1) = >>=-eq-ok (require_trusted_origin env request) _ w h in
      let (b, v2, e2, k2) =
        >>=-eq-ok
          (require (is_present (presented env cookie body)) (bad_request "refreshToken required")) _
          v1 k1 in
      let at2 = (require-ok _ _ e2).1 in
      let (c, v3, e3, k3) =
        >>=-eq-ok (revoke_refresh_token sv (text_value (presented env cookie body))) _ v2 k2 in
      let start = (require_trusted_origin-ok sv env request a w v1 e1).1 ∙ at2 in
      subst (IsSpent sv hash) (ok_inj k3).1 (
        revoked-IsSpent hash family token w v3 c stored related same (
          subst (λ x. revoke_refresh_token sv (text_value x) w ≡ (ok c, v3)) is
            (subst
              (λ x. revoke_refresh_token sv (text_value (presented env cookie body)) x ≡ (ok c, v3))
              (sym start) e3)))
  Ending-IsSpent hash w w' (resets email code new_password id answer only owned h) =
      let (u, v, e, k) = >>=-eq-ok (reset sv email code new_password) _ w h in
      let (user, checked, s) = reset-IsChecked sv email code new_password w v u e in
      let mine : user.id ≡ id =
        (let (x, own, at_user) = All-Any _ _ (view sv w).users only checked.found.1 in
          subst (λ y. has_email email y ≡ true → y.id ≡ id) at_user own checked.found.0) in
      subst (IsSpent sv hash) (ok_inj k).1 (
        owned-Spent hash id w v owned (
          ap (λ x. x.tokens) s
          ∙ ap (λ i. filter (λ r. not (r.user_id == i)) (view sv w).tokens) mine))
  Ending-IsSpent hash w w' (removes id u owned h) =
      owned-Spent hash id w w' owned (ap (λ v. v.tokens) (remove_user-removed sv id w w' u h).1)

  -- Once a session has ended, a refresh token of it is never used successfully again: after a request
  -- to log out that is answered, with a stored token of the same family; after a reset of the password
  -- of its user, the only active one with the address; and after the removal of its user. That holds
  -- after any sequence of uses, issues, logouts, revocations and sweeps, returning or throwing, and of
  -- other work that leaves the refresh tokens alone, if the clock does not go back and no token with
  -- the same digest is stored anew.
  pub Ending-EndsSession :
      (token : Text) (w w₁ w₂ w₃ : World sv) (r : RefreshToken)
      → Ending (sv.sha256 token) w w₁
      → Run sv (sv.sha256 token) w₁ w₂
      → ¬ (use_refresh_token sv token w₂ ≡ (ok r, w₃))
  Ending-EndsSession token w w₁ w₂ w₃ r ending run =
      unusable sv token w₁ w₂ w₃ r (Ending-IsSpent (sv.sha256 token) w w₁ ending) run
