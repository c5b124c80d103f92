-- ===== src/Services/Actions/Laws/Tables.antt =====
-- The statements on the tables.
use elysiajs_production_api.Base.{
  ℕ, ◌≡◌, ap, Bool, false, not, Option, List, ◌∷◌, filter, map_where, count, length, All, ◌==◌,
}
use elysiajs_production_api.Errors.{ok, err, Thrown}
use elysiajs_production_api.Schema.{
  User, NewUser, user_row, user_clash, RefreshToken, NewRefreshToken, refresh_token_row,
  refresh_token_clash, AuditLog, NewAuditLog, audit_log_row,
}
use elysiajs_production_api.Services.Tables.{Finds, Returns, Pages, IsDriver}
use elysiajs_production_api.Services.State.{Services, World, view}
use elysiajs_production_api.Services.Actions
use elysiajs_production_api.Services.Actions.Laws.Lift.{on-eq}

module _ (sv : Services) where
  pub find_user-ok :
      (p : User → Bool) (w w' : World sv) (a : Option User)
      → Actions.find_user sv p w ≡ (ok a, w')
      → Finds p (view sv w).users a × (view sv w' ≡ view sv w)
  unfolding Actions.find_user
  find_user-ok p w w' a h =
      let (s, e, e') = on-eq _ _ (sv.user_table.find p) w h in
      let l = sv.user_table.find_ok p w.users s a e in
      (l.0, rw e' (ap (λ (l : List User). record (view sv w) { users = l }) l.1))

  pub find_user-err :
      (p : User → Bool) (w w' : World sv) (x : Thrown)
      → Actions.find_user sv p w ≡ (err x, w')
      → IsDriver x × (view sv w' ≡ view sv w)
  unfolding Actions.find_user
  find_user-err p w w' x h =
      let (s, e, e') = on-eq _ _ (sv.user_table.find p) w h in
      let (d, same) = sv.user_table.find_err p w.users s x e in
      (d, rw e' (ap (λ (l : List User). record (view sv w) { users = l }) same))

  pub page_users-ok :
      (p : User → Bool) (before : User → User → Bool) (n k : ℕ) (w w' : World sv) (a : List User)
      → Actions.page_users sv p before n k w ≡ (ok a, w')
      → Pages p before n k (view sv w).users a × (view sv w' ≡ view sv w)
  unfolding Actions.page_users
  page_users-ok p before n k w w' a h =
      let (s, e, e') = on-eq _ _ (sv.user_table.page p before n k) w h in
      let l = sv.user_table.page_ok p before n k w.users s a e in
      (l.0, rw e' (ap (λ (l : List User). record (view sv w) { users = l }) l.1))

  pub page_users-err :
      (p : User → Bool) (before : User → User → Bool) (n k : ℕ) (w w' : World sv) (x : Thrown)
      → Actions.page_users sv p before n k w ≡ (err x, w')
      → IsDriver x × (view sv w' ≡ view sv w)
  unfolding Actions.page_users
  page_users-err p before n k w w' x h =
      let (s, e, e') = on-eq _ _ (sv.user_table.page p before n k) w h in
      let (d, same) = sv.user_table.page_err p before n k w.users s x e in
      (d, rw e' (ap (λ (l : List User). record (view sv w) { users = l }) same))

  pub insert_user-ok :
      (v : NewUser) (w w' : World sv) (a : User)
      → Actions.insert_user sv v w ≡ (ok a, w')
      → (id : ℕ) × (a ≡ user_row v id w.now)
        × All (λ x. (x.id == id) ≡ false) (view sv w).users
        × All (λ x. user_clash a x ≡ false) (view sv w).users
        × (view sv w' ≡ record (view sv w) { users = a ∷ (view sv w).users })
  unfolding Actions.insert_user
  insert_user-ok v w w' a h =
      let (s, e, e') = on-eq _ _ (sv.user_table.insert v w.now) w h in
      let l = sv.user_table.insert_ok v w.now w.users s a e in
      (l.0, l.1, l.2, l.3, rw e' (ap (λ (l : List User). record (view sv w) { users = l }) l.4))

  pub insert_user-err :
      (v : NewUser) (w w' : World sv) (x : Thrown)
      → Actions.insert_user sv v w ≡ (err x, w')
      → IsDriver x × (view sv w' ≡ view sv w)
  unfolding Actions.insert_user
  insert_user-err v w w' x h =
      let (s, e, e') = on-eq _ _ (sv.user_table.insert v w.now) w h in
      let (d, same) = sv.user_table.insert_err v w.now w.users s x e in
      (d, rw e' (ap (λ (l : List User). record (view sv w) { users = l }) same))

  pub update_users-ok :
      (p : User → Bool) (f : User → User) (w w' : World sv) (a : List User)
      → Actions.update_users sv p f w ≡ (ok a, w')
      → Returns p f (view sv w).users a
        × (view sv w' ≡ record (view sv w) { users = map_where p f (view sv w).users })
  unfolding Actions.update_users
  update_users-ok p f w w' a h =
      let (s, e, e') = on-eq _ _ (sv.user_table.update p f) w h in
      let l = sv.user_table.update_ok p f w.users s a e in
      (l.0, rw e' (ap (λ (l : List User). record (view sv w) { users = l }) l.1))

  pub update_users-err :
      (p : User → Bool) (f : User → User) (w w' : World sv) (x : Thrown)
      → Actions.update_users sv p f w ≡ (err x, w')
      → IsDriver x × (view sv w' ≡ view sv w)
  unfolding Actions.update_users
  update_users-err p f w w' x h =
      let (s, e, e') = on-eq _ _ (sv.user_table.update p f) w h in
      let (d, same) = sv.user_table.update_err p f w.users s x e in
      (d, rw e' (ap (λ (l : List User). record (view sv w) { users = l }) same))

  pub find_token-ok :
      (p : RefreshToken → Bool) (w w' : World sv) (a : Option RefreshToken)
      → Actions.find_token sv p w ≡ (ok a, w')
      → Finds p (view sv w).tokens a × (view sv w' ≡ view sv w)
  unfolding Actions.find_token
  find_token-ok p w w' a h =
      let (s, e, e') = on-eq _ _ (sv.token_table.find p) w h in
      let l = sv.token_table.find_ok p w.tokens s a e in
      (l.0, rw e' (ap (λ (l : List RefreshToken). record (view sv w) { tokens = l }) l.1))

  pub find_token-err :
      (p : RefreshToken → Bool) (w w' : World sv) (x : Thrown)
      → Actions.find_token sv p w ≡ (err x, w')
      → IsDriver x × (view sv w' ≡ view sv w)
  unfolding Actions.find_token
  find_token-err p w w' x h =
      let (s, e, e') = on-eq _ _ (sv.token_table.find p) w h in
      let (d, same) = sv.token_table.find_err p w.tokens s x e in
      (d, rw e' (ap (λ (l : List RefreshToken). record (view sv w) { tokens = l }) same))

  pub insert_token-ok :
      (v : NewRefreshToken) (w w' : World sv) (a : RefreshToken)
      → Actions.insert_token sv v w ≡ (ok a, w')
      → (id : ℕ) × (a ≡ refresh_token_row v id w.now)
        × All (λ x. (x.id == id) ≡ false) (view sv w).tokens
        × All (λ x. refresh_token_clash a x ≡ false) (view sv w).tokens
        × (view sv w' ≡ record (view sv w) { tokens = a ∷ (view sv w).tokens })
  unfolding Actions.insert_token
  insert_token-ok v w w' a h =
      let (s, e, e') = on-eq _ _ (sv.token_table.insert v w.now) w h in
      let l = sv.token_table.insert_ok v w.now w.tokens s a e in
      (
        l.0,
        l.1,
        l.2,
        l.3,
        rw e' (ap (λ (l : List RefreshToken). record (view sv w) { tokens = l }) l.4),
      )

  pub insert_token-err :
      (v : NewRefreshToken) (w w' : World sv) (x : Thrown)
      → Actions.insert_token sv v w ≡ (err x, w')
      → IsDriver x × (view sv w' ≡ view sv w)
  unfolding Actions.insert_token
  insert_token-err v w w' x h =
      let (s, e, e') = on-eq _ _ (sv.token_table.insert v w.now) w h in
      let (d, same) = sv.token_table.insert_err v w.now w.tokens s x e in
      (d, rw e' (ap (λ (l : List RefreshToken). record (view sv w) { tokens = l }) same))

  pub update_tokens-ok :
      (p : RefreshToken → Bool) (f : RefreshToken → RefreshToken) (w w' : World sv)
      (a : List RefreshToken)
      → Actions.update_tokens sv p f w ≡ (ok a, w')
      → Returns p f (view sv w).tokens a
        × (view sv w' ≡ record (view sv w) { tokens = map_where p f (view sv w).tokens })
  unfolding Actions.update_tokens
  update_tokens-ok p f w w' a h =
      let (s, e, e') = on-eq _ _ (sv.token_table.update p f) w h in
      let l = sv.token_table.update_ok p f w.tokens s a e in
      (l.0, rw e' (ap (λ (l : List RefreshToken). record (view sv w) { tokens = l }) l.1))

  pub update_tokens-err :
      (p : RefreshToken → Bool) (f : RefreshToken → RefreshToken) (w w' : World sv) (x : Thrown)
      → Actions.update_tokens sv p f w ≡ (err x, w')
      → IsDriver x × (view sv w' ≡ view sv w)
  unfolding Actions.update_tokens
  update_tokens-err p f w w' x h =
      let (s, e, e') = on-eq _ _ (sv.token_table.update p f) w h in
      let (d, same) = sv.token_table.update_err p f w.tokens s x e in
      (d, rw e' (ap (λ (l : List RefreshToken). record (view sv w) { tokens = l }) same))

  pub delete_tokens-ok :
      (p : RefreshToken → Bool) (w w' : World sv) (a : List RefreshToken)
      → Actions.delete_tokens sv p w ≡ (ok a, w')
      → (length a ≡ count p (view sv w).tokens)
        × (view sv w' ≡ record (view sv w) { tokens = filter (λ r. not (p r)) (view sv w).tokens })
  unfolding Actions.delete_tokens
  delete_tokens-ok p w w' a h =
      let (s, e, e') = on-eq _ _ (sv.token_table.delete p) w h in
      let l = sv.token_table.delete_ok p w.tokens s a e in
      (l.0, rw e' (ap (λ (l : List RefreshToken). record (view sv w) { tokens = l }) l.1))

  pub delete_tokens-err :
      (p : RefreshToken → Bool) (w w' : World sv) (x : Thrown)
      → Actions.delete_tokens sv p w ≡ (err x, w')
      → IsDriver x × (view sv w' ≡ view sv w)
  unfolding Actions.delete_tokens
  delete_tokens-err p w w' x h =
      let (s, e, e') = on-eq _ _ (sv.token_table.delete p) w h in
      let (d, same) = sv.token_table.delete_err p w.tokens s x e in
      (d, rw e' (ap (λ (l : List RefreshToken). record (view sv w) { tokens = l }) same))

  pub insert_audit-ok :
      (v : NewAuditLog) (w w' : World sv) (a : AuditLog)
      → Actions.insert_audit sv v w ≡ (ok a, w')
      → (id : ℕ) × (a ≡ audit_log_row v id w.now)
        × All (λ x. (x.id == id) ≡ false) (view sv w).audits
        × (view sv w' ≡ record (view sv w) { audits = a ∷ (view sv w).audits })
  unfolding Actions.insert_audit
  insert_audit-ok v w w' a h =
      let (s, e, e') = on-eq _ _ (sv.audit_table.insert v w.now) w h in
      let l = sv.audit_table.insert_ok v w.now w.audits s a e in
      (l.0, l.1, l.2, rw e' (ap (λ (l : List AuditLog). record (view sv w) { audits = l }) l.4))

  pub insert_audit-err :
      (v : NewAuditLog) (w w' : World sv) (x : Thrown)
      → Actions.insert_audit sv v w ≡ (err x, w')
      → IsDriver x × (view sv w' ≡ view sv w)
  unfolding Actions.insert_audit
  insert_audit-err v w w' x h =
      let (s, e, e') = on-eq _ _ (sv.audit_table.insert v w.now) w h in
      let (d, same) = sv.audit_table.insert_err v w.now w.audits s x e in
      (d, rw e' (ap (λ (l : List AuditLog). record (view sv w) { audits = l }) same))

  pub delete_audits-ok :
      (p : AuditLog → Bool) (w w' : World sv) (a : List AuditLog)
      → Actions.delete_audits sv p w ≡ (ok a, w')
      → (length a ≡ count p (view sv w).audits)
        × (view sv w' ≡ record (view sv w) { audits = filter (λ r. not (p r)) (view sv w).audits })
  unfolding Actions.delete_audits
  delete_audits-ok p w w' a h =
      let (s, e, e') = on-eq _ _ (sv.audit_table.delete p) w h in
      let l = sv.audit_table.delete_ok p w.audits s a e in
      (l.0, rw e' (ap (λ (l : List AuditLog). record (view sv w) { audits = l }) l.1))

  pub delete_audits-err :
      (p : AuditLog → Bool) (w w' : World sv) (x : Thrown)
      → Actions.delete_audits sv p w ≡ (err x, w')
      → IsDriver x × (view sv w' ≡ view sv w)
  unfolding Actions.delete_audits
  delete_audits-err p w w' x h =
      let (s, e, e') = on-eq _ _ (sv.audit_table.delete p) w h in
      let (d, same) = sv.audit_table.delete_err p w.audits s x e in
      (d, rw e' (ap (λ (l : List AuditLog). record (view sv w) { audits = l }) same))
