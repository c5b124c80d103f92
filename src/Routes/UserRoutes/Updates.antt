-- ===== src/Routes/UserRoutes/Updates.antt =====
-- Who may change a user through `PATCH /users/:id`, and what changes.
use mathlib.Core.Path.{subst}
use elysiajs_production_api.Base.{
  ℕ, ◌≡◌, refl, sym, ap, ◌∙◌, ◌⊎◌, inl, inr, true, false, ◌&&◌, ◌||◌, not, Option, some, Text,
  codes, head?, map_where, Any, is_some, arith, Bool-cases, if◌then◌else◌,
}
use elysiajs_production_api.Errors.{
  pure, ok, forbidden, bad_request, not_found, >>=-eq-ok, ok_inj, ok_value,
}
use elysiajs_production_api.Calls.{require, require-ok, or_throw, or_throw-ok}
use elysiajs_production_api.Permissions.{update, Scope, all, own}
use elysiajs_production_api.Config.{Env}
use elysiajs_production_api.Schema.{User}
use elysiajs_production_api.Services.{Services, World, View, view}
use elysiajs_production_api.Services.Actions.{update_users, read_clock-bind}
use elysiajs_production_api.Services.Actions.Laws.{update_users-ok}
use elysiajs_production_api.Audit.{record_audit}
use elysiajs_production_api.Audit.BestEffort.{Audited, SameButAudits, record_audit-Audited}
use elysiajs_production_api.Auth.Accounts.{has_id}
use elysiajs_production_api.Guards.{Decision, allowed, denied, Grant, can}
use elysiajs_production_api.Guards.Matrix.{MayTouch, IsGranted, Judges, can-Judges}
use elysiajs_production_api.Users.{
  PublicUser, to_public_user, UserChanges, apply_changes, update_user,
}
use elysiajs_production_api.Users.Removal.{some_row}
use elysiajs_production_api.Requests.{Request}
use elysiajs_production_api.Routes.Protected.{served, protect, after_decision}
use elysiajs_production_api.Routes.UserRoutes.{is_all, update_handler, patch_user}

-- The state after an update of a user.
abbrev pub updated : ℕ → UserChanges → View → View
updated id changes v = record v {
  users = map_where (has_id id) (apply_changes changes v.now) v.users;
}

-- The answer shows an active row with the id, with the changes applied.
abbrev pub Shows : ℕ → UserChanges → View → PublicUser → Type 0
Shows id changes v p =
    (u : User) × Any (λ x. (has_id id x ≡ true) × (u ≡ apply_changes changes v.now x)) v.users
    × (p ≡ to_public_user u)

module _ (sv : Services) (env : Env) where
  update_user-ok :
      (id : ℕ) (changes : UserChanges) (p : PublicUser) (w w' : World sv)
      → update_user sv id changes w ≡ (ok p, w')
      → Shows id changes (view sv w) p × (view sv w' ≡ updated id changes (view sv w))
  unfolding update_user
  update_user-ok id changes p w w' h =
      let (a, v1, e1, k1) = >>=-eq-ok (require _ (bad_request "No fields to update")) _ w h in
      let (some_field, at1) =
        require-ok (is_some changes.name || is_some changes.role)
          (bad_request "No fields to update") e1 in
      let k = sym (read_clock-bind sv _ v1) ∙ k1 in
      let (rows, v2, e2, k2) = >>=-eq-ok (update_users sv (has_id id) _) _ v1 k in
      let (returned, s2) = update_users-ok sv _ _ v1 v2 rows e2 in
      let (row, v3, e3, k3) =
        >>=-eq-ok (or_throw (head? rows) (not_found "User not found")) _ v2 k2 in
      let (is, at3) = or_throw-ok (head? rows) (not_found "User not found") e3 in
      let there =
        some_row (has_id id) (apply_changes changes v1.now) (view sv v1).users rows row returned
          is in
      let still : view sv v1 ≡ view sv w = ap (view sv) (sym at1) in
      (
        subst (λ v. Shows id changes v p) still (row, there, sym (ok_value k3)),
        subst (λ x. view sv x ≡ updated id changes (view sv w)) (at3 ∙ (ok_inj k3).1)
            (s2 ∙ ap (updated id changes) still),
      )

  -- Only a grant of scope `all` may change a role.
  abbrev pub MayChange : Grant → UserChanges → Type 0
  MayChange g changes = (is_all g.scope ≡ true) ⊎ (is_some changes.role ≡ false)

  update_handler-ok :
      (request : Request) (id : ℕ) (changes : UserChanges) (g : Grant) (p : PublicUser)
      (w w' : World sv)
      → update_handler sv env request id changes g w ≡ (ok p, w')
      → MayChange g changes
        × Shows id changes (view sv w) p
        × SameButAudits (updated id changes (view sv w)) (view sv w')
  unfolding update_handler
  update_handler-ok request id changes g p w w' h =
      let (a, v1, e1, k1) =
        >>=-eq-ok (require _ (forbidden "Only admins can change roles")) _ w h in
      let (flag, at1) =
        require-ok (not (not (is_all g.scope) && is_some changes.role))
          (forbidden "Only admins can change roles") e1 in
      let (q, v2, e2, k2) = >>=-eq-ok (update_user sv id changes) _ v1 k1 in
      let (shows, s2) = update_user-ok id changes q v1 v2 e2 in
      let still : view sv v1 ≡ view sv w = ap (view sv) (sym at1) in
      let shows' = subst (λ v. Shows id changes v q) still shows in
      let s2' : view sv v2 ≡ updated id changes (view sv w) = s2 ∙ ap (updated id changes) still in
      let may : MayChange g changes = may_change g changes flag in
      elim (Bool-cases (is_some changes.role)) [
        | inl role ↦
            let (b, v3, e3, k3) =
              >>=-eq-ok (record_audit sv _) _ v2 (rw (role, if◌then◌else◌) at k2) in
            let audited = (subst (Audited sv v2) e3 (record_audit-Audited sv _ v2)).1 in
            (
              may,
              subst (Shows id changes (view sv w)) (ok_value k3) shows',
              subst (λ x. SameButAudits (updated id changes (view sv w)) (view sv x)) (ok_inj k3).1
                  (subst (λ v. SameButAudits v (view sv v3)) s2' audited),
            )
        | inr none_given ↦
            let k3 : pure {W = World sv} q v2 ≡ (ok p, w') = rw (none_given, if◌then◌else◌) at k2 in
            let s3 = subst (λ x. view sv x ≡ updated id changes (view sv w)) (ok_inj k3).1 s2' in
            (
              may,
              subst (Shows id changes (view sv w)) (ok_value k3) shows',
              s3
                  ∙ ap (λ (v : View). record (updated id changes (view sv w)) { audits = v.audits })
                      (sym s3),
            )
      ]
    where
      may_change :
          (g : Grant) (changes : UserChanges)
          → not (not (is_all g.scope) && is_some changes.role) ≡ true
          → MayChange g changes
      may_change g changes flag = elim (Bool-cases (is_all g.scope)) [
        | inl e ↦ inl e
        | inr e ↦ inr (ground arith)
      ]

  -- The grant that the request had, what the answer shows, and what has changed.
  abbrev pub Updates : Option Text → ℕ → UserChanges → View → PublicUser → View → Type 0
  Updates bearer id changes v p v' =
      (g : Grant) × IsGranted sv env (codes "user") update (some (some id)) bearer v g
      × ((is_all g.scope ≡ true) ⊎ ((g.user.sub ≡ id) × (is_some changes.role ≡ false)))
      × Shows id changes v p
      × SameButAudits (updated id changes v) v'

  -- An update that is served was asked for with a token that passes the guard `can` for updating users:
  -- the grant has scope `all`, or the id is the requester's own and no role is changed. The answer
  -- shows an active user with the id, with the changes applied, and the state has them applied to that
  -- user, with nothing else changed but the audit trail.
  pub patch_user-Updates :
      (request : Request) (bearer : Option Text) (id : ℕ) (changes : UserChanges) (p : PublicUser)
      (w w' : World sv)
      → patch_user sv env request bearer id changes w ≡ (ok (served p), w')
      → Updates bearer id changes (view sv w) p (view sv w')
  unfolding patch_user protect
  patch_user-Updates request bearer id changes p w w' h =
      let (d, v, e, k) =
        >>=-eq-ok (can sv env (codes "user") update (some (some id)) bearer) _ w h in
      decided d v
        (subst (Judges sv env (codes "user") update (some (some id)) bearer (view sv w)) e
          (can-Judges sv env (codes "user") update (some (some id)) bearer w))
        k
    where
      served_inj : {a b : PublicUser} → served a ≡ served b → a ≡ b
      served_inj e = cc

      own_or_all :
          (s : Scope) (sub : ℕ)
          → MayTouch s (some (some id)) sub
          → (is_all s ≡ true) ⊎ (is_some changes.role ≡ false)
          → (is_all s ≡ true) ⊎ ((sub ≡ id) × (is_some changes.role ≡ false))
      own_or_all all sub owned may = inl refl
      own_or_all own sub owned (inl no_scope) = absurd (cc)
      own_or_all own sub (inl e) (inr role) = absurd (cc)
      own_or_all own sub (inr (inl e)) (inr role) = absurd (cc)
      own_or_all own sub (inr (inr e)) (inr role) = inr (cc, role)

      decided :
          (d : Decision Grant) (v : World sv)
          → Judges sv env (codes "user") update (some (some id)) bearer (view sv w) (ok d, v)
          → after_decision d (update_handler sv env request id changes) v ≡ (ok (served p), w')
          → (g : Grant) × IsGranted sv env
              (codes "user")
              update
              (some (some id))
              bearer
              (view sv w)
              g
            × ((is_all g.scope ≡ true) ⊎ ((g.user.sub ≡ id) × (is_some changes.role ≡ false)))
            × Shows id changes (view sv w) p
            × SameButAudits (updated id changes (view sv w)) (view sv w')
      decided (denied status code) v judged k = absurd (cc)
      decided (allowed g) v (granted, same) k =
          let (b, v2, e2, k2) = >>=-eq-ok (update_handler sv env request id changes g) _ v k in
          let (may, shows, s2) = update_handler-ok request id changes g b v v2 e2 in
          let is_p : b ≡ p = served_inj (ok_value k2) in
          (
            g,
            granted,
            own_or_all g.scope g.user.sub granted.owned may,
            subst (λ x. Shows id changes x p) same
                (subst (Shows id changes (view sv v)) is_p shows),
            subst (λ x. SameButAudits (updated id changes x) (view sv w')) same
                (subst (λ x. SameButAudits (updated id changes (view sv v)) (view sv x))
                  (ok_inj k2).1 s2),
          )
