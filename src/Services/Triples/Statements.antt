-- ===== src/Services/Triples/Statements.antt =====
-- Triples for the statements the services are made of: a read or a write of Redis, of a table, of a
-- queue or of the clock.
use mathlib.Core.Path.{subst}
use elysiajs_production_api.Base.{ℕ, refl, ◌≡◌, sym, inl, inr, Bool, Option, some, none, ◌⊎◌}
use elysiajs_production_api.Errors.{ok, err}
use elysiajs_production_api.Schema.{User, RefreshToken, NewAuditLog}
use elysiajs_production_api.Services.{
  Services, World, View, view, Key, Entries, Mail, put, entry_of, bumped, value_at,
}
use elysiajs_production_api.Services.Actions.{
  cache_get, cache_set, cache_del, cache_incr, cache_exists, add_email, find_user, update_users,
  delete_tokens, draw, read_clock,
}
use elysiajs_production_api.Services.Actions.Laws.{
  cache_get-ok, cache_get-err, cache_set-ok, cache_set-err, cache_del-ok, cache_del-err,
  cache_incr-ok, cache_incr-err, cache_exists-ok, cache_exists-err, add_email-ok, add_email-err,
  find_user-ok, find_user-err, update_users-ok, update_users-err, delete_tokens-ok,
  delete_tokens-err,
}
use elysiajs_production_api.Audit.{record_audit}
use elysiajs_production_api.Audit.BestEffort.{record_audit-Audited}
use elysiajs_production_api.Services.Triples.{At, Post, Ensures, Keeps}

module _ (sv : Services) where
  either_view :
      (P : Entries → ℕ → Type 0) (w w' : World sv) (u v : View)
      → (view sv w' ≡ u) ⊎ (view sv w' ≡ v)
      → P u.cache u.now
      → P v.cache v.now
      → At sv P w'
  either_view P w w' u v (inl e) p q = subst (λ (v : View). P v.cache v.now) (sym e) p
  either_view P w w' u v (inr e) p q = subst (λ (v : View). P v.cache v.now) (sym e) q

module _ (sv : Services) (P : Entries → ℕ → Type 0) where
  same_view : (w w' : World sv) → view sv w' ≡ view sv w → At sv P w → At sv P w'
  same_view w w' e = subst (λ (v : View). P v.cache v.now) (sym e)

  pub draw-Keeps : Keeps sv P (draw sv)
  unfolding draw
  draw-Keeps w w' r h p = subst (λ x. Post sv (λ a. P) P x.0 x.1) h p

  pub read_clock-Keeps : Keeps sv P (read_clock sv)
  unfolding read_clock
  read_clock-Keeps w w' r h p = subst (λ x. Post sv (λ a. P) P x.0 x.1) h p

  pub cache_get-Keeps : (k : Key) → Keeps sv P (cache_get sv k)
  cache_get-Keeps k w w' (ok a) h = same_view w w' (cache_get-ok sv k w w' a h).1
  cache_get-Keeps k w w' (err e) h = same_view w w' (cache_get-err sv k w w' e h).1

  -- What is read, and the time, are those of the state.
  pub cache_get-Reads :
      (k : Key) → Ensures sv P (cache_get sv k) (λ o m now. P m now × (o ≡ value_at m now k)) P
  cache_get-Reads k w w' (ok a) h p =
      let (read, same) = cache_get-ok sv k w w' a h in
      subst (λ (v : View). P v.cache v.now × (a ≡ value_at v.cache v.now k)) (sym same) (p, read)
  cache_get-Reads k w w' (err e) h p = same_view w w' (cache_get-err sv k w w' e h).1 p

  pub read_clock-Reads : Ensures sv P (read_clock sv) (λ t m now. P m now × (t ≡ now)) P
  unfolding read_clock
  read_clock-Reads w w' r h p =
      subst (λ x. Post sv (λ t m now. P m now × (t ≡ now)) P x.0 x.1) h (p, refl)

  pub cache_exists-Keeps : (k : Key) → Keeps sv P (cache_exists sv k)
  cache_exists-Keeps k w w' (ok a) h = same_view w w' (cache_exists-ok sv k w w' a h).1
  cache_exists-Keeps k w w' (err e) h = same_view w w' (cache_exists-err sv k w w' e h).1

  pub find_user-Keeps : (p : User → Bool) → Keeps sv P (find_user sv p)
  find_user-Keeps p w w' (ok a) h = same_view w w' (find_user-ok sv p w w' a h).1
  find_user-Keeps p w w' (err e) h = same_view w w' (find_user-err sv p w w' e h).1

  pub update_users-Keeps : (p : User → Bool) (f : User → User) → Keeps sv P (update_users sv p f)
  update_users-Keeps p f w w' (ok a) h =
      subst (λ (v : View). P v.cache v.now) (sym (update_users-ok sv p f w w' a h).1)
  update_users-Keeps p f w w' (err e) h = same_view w w' (update_users-err sv p f w w' e h).1

  pub delete_tokens-Keeps : (p : RefreshToken → Bool) → Keeps sv P (delete_tokens sv p)
  delete_tokens-Keeps p w w' (ok a) h =
      subst (λ (v : View). P v.cache v.now) (sym (delete_tokens-ok sv p w w' a h).1)
  delete_tokens-Keeps p w w' (err e) h = same_view w w' (delete_tokens-err sv p w w' e h).1

  pub add_email-Keeps : (m : Mail) → Keeps sv P (add_email sv m)
  add_email-Keeps m w w' (ok a) h p =
      subst (λ (v : View). P v.cache v.now) (sym (add_email-ok sv m w w' a h)) p
  add_email-Keeps m w w' (err e) h p = either_view sv P w w' _ _ (add_email-err sv m w w' e h).1 p p

  pub record_audit-Keeps : (entry : NewAuditLog) → Keeps sv P (record_audit sv entry)
  record_audit-Keeps entry w w' r h p =
      let (returned, same) = record_audit-Audited sv entry w in
      subst (λ x. Post sv (λ a. P) P x.0 x.1) h
        (rw returned (subst (λ (v : View). P v.cache v.now) (sym same) p))

  -- A change of the cache that keeps the property, whether it returns or throws.
  pub cache_set-Ensures :
      (Q E : Entries → ℕ → Type 0) (k : Key) (n : ℕ) (ttl : Option ℕ)
      → ((m : Entries) (now : ℕ) → P m now → Q (put m k (some (entry_of n ttl now))) now)
      → ((m : Entries) (now : ℕ) → P m now → E m now)
      → ((m : Entries) (now : ℕ) → Q m now → E m now)
      → Ensures sv P (cache_set sv k n ttl) (λ u. Q) E
  cache_set-Ensures Q E k n ttl set before after w w' (ok a) h p =
      subst (λ (v : View). Q v.cache v.now) (sym (cache_set-ok sv k n ttl w w' a h)) (set _ _ p)
  cache_set-Ensures Q E k n ttl set before after w w' (err e) h p =
      either_view sv E w w' _ _ (cache_set-err sv k n ttl w w' e h).1 (before _ _ p)
        (after _ _ (set _ _ p))

  pub cache_del-Ensures :
      (Q E : Entries → ℕ → Type 0) (k : Key)
      → ((m : Entries) (now : ℕ) → P m now → Q (put m k none) now)
      → ((m : Entries) (now : ℕ) → P m now → E m now)
      → ((m : Entries) (now : ℕ) → Q m now → E m now)
      → Ensures sv P (cache_del sv k) (λ u. Q) E
  cache_del-Ensures Q E k del before after w w' (ok a) h p =
      subst (λ (v : View). Q v.cache v.now) (sym (cache_del-ok sv k w w' a h)) (del _ _ p)
  cache_del-Ensures Q E k del before after w w' (err e) h p =
      either_view sv E w w' _ _ (cache_del-err sv k w w' e h).1 (before _ _ p)
        (after _ _ (del _ _ p))

  pub cache_incr-Keeps :
      (k : Key)
      → ((m : Entries) (now : ℕ) → P m now → P (put m k (some (bumped m now k))) now)
      → Keeps sv P (cache_incr sv k)
  cache_incr-Keeps k incr w w' (ok a) h p =
      subst (λ (v : View). P v.cache v.now) (sym (cache_incr-ok sv k w w' a h).1) (incr _ _ p)
  cache_incr-Keeps k incr w w' (err e) h p =
      either_view sv P w w' _ _ (cache_incr-err sv k w w' e h).1 p (incr _ _ p)
