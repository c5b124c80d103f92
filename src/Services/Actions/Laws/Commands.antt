-- ===== src/Services/Actions/Laws/Commands.antt =====
-- The commands of the cache, and the mail queue.
use elysiajs_production_api.Base.{ℕ, ◌≡◌, ap, ◌⊎◌, Bool, Option, some, none, List, ◌∷◌, is_some}
use elysiajs_production_api.Errors.{ok, err, Thrown}
use elysiajs_production_api.Services.Tables.{IsDriver}
use elysiajs_production_api.Services.Cache.{Key, Mail, put, entry_of, bumped, value_at, Entries}
use elysiajs_production_api.Services.State.{Services, World, view}
use elysiajs_production_api.Services.Actions
use elysiajs_production_api.Services.Actions.Laws.Lift.{on-eq, either_eq}

module _ (sv : Services) where
  pub cache_get-ok :
      (k : Key) (w w' : World sv) (a : Option ℕ)
      → Actions.cache_get sv k w ≡ (ok a, w')
      → (a ≡ value_at (view sv w).cache w.now k) × (view sv w' ≡ view sv w)
  unfolding Actions.cache_get
  cache_get-ok k w w' a h =
      let (s, e, e') = on-eq _ _ (sv.redis.get k w.now) w h in
      let l = sv.redis.get_ok k w.now w.cache s a e in
      (l.0, rw e' (ap (λ (m : Entries). record (view sv w) { cache = m }) l.1))

  pub cache_get-err :
      (k : Key) (w w' : World sv) (x : Thrown)
      → Actions.cache_get sv k w ≡ (err x, w')
      → IsDriver x × (view sv w' ≡ view sv w)
  unfolding Actions.cache_get
  cache_get-err k w w' x h =
      let (s, e, e') = on-eq _ _ (sv.redis.get k w.now) w h in
      let l = sv.redis.get_err k w.now w.cache s x e in
      (l.0, rw e' (ap (λ (m : Entries). record (view sv w) { cache = m }) l.1))

  pub cache_exists-ok :
      (k : Key) (w w' : World sv) (a : Bool)
      → Actions.cache_exists sv k w ≡ (ok a, w')
      → (a ≡ is_some (value_at (view sv w).cache w.now k)) × (view sv w' ≡ view sv w)
  unfolding Actions.cache_exists
  cache_exists-ok k w w' a h =
      let (s, e, e') = on-eq _ _ (sv.redis.exists k w.now) w h in
      let l = sv.redis.exists_ok k w.now w.cache s a e in
      (l.0, rw e' (ap (λ (m : Entries). record (view sv w) { cache = m }) l.1))

  pub cache_exists-err :
      (k : Key) (w w' : World sv) (x : Thrown)
      → Actions.cache_exists sv k w ≡ (err x, w')
      → IsDriver x × (view sv w' ≡ view sv w)
  unfolding Actions.cache_exists
  cache_exists-err k w w' x h =
      let (s, e, e') = on-eq _ _ (sv.redis.exists k w.now) w h in
      let l = sv.redis.exists_err k w.now w.cache s x e in
      (l.0, rw e' (ap (λ (m : Entries). record (view sv w) { cache = m }) l.1))

  pub cache_set-ok :
      (k : Key) (v : ℕ) (ttl : Option ℕ) (w w' : World sv) (a : Unit {0})
      → Actions.cache_set sv k v ttl w ≡ (ok a, w')
      → view sv w'
        ≡ record (view sv w) { cache = put (view sv w).cache k (some (entry_of v ttl w.now)) }
  unfolding Actions.cache_set
  cache_set-ok k v ttl w w' a h =
      let (s, e, e') = on-eq _ _ (sv.redis.set k v ttl w.now) w h in
      let l = sv.redis.set_ok k v ttl w.now w.cache s a e in
      rw e' (ap (λ (m : Entries). record (view sv w) { cache = m }) l)

  pub cache_set-err :
      (k : Key) (v : ℕ) (ttl : Option ℕ) (w w' : World sv) (x : Thrown)
      → Actions.cache_set sv k v ttl w ≡ (err x, w')
      → IsDriver x
        × ((view sv w' ≡ view sv w)
            ⊎ (view sv w' ≡ record (view sv w) {
              cache = put (view sv w).cache k (some (entry_of v ttl w.now));
            }))
  unfolding Actions.cache_set
  cache_set-err k v ttl w w' x h =
      let (s, e, e') = on-eq _ _ (sv.redis.set k v ttl w.now) w h in
      let l = sv.redis.set_err k v ttl w.now w.cache s x e in
      (l.0, rw e' (either_eq (λ (m : Entries). record (view sv w) { cache = m }) l.1))

  pub cache_del-ok :
      (k : Key) (w w' : World sv) (a : Unit {0})
      → Actions.cache_del sv k w ≡ (ok a, w')
      → view sv w' ≡ record (view sv w) { cache = put (view sv w).cache k none }
  unfolding Actions.cache_del
  cache_del-ok k w w' a h =
      let (s, e, e') = on-eq _ _ (sv.redis.del k w.now) w h in
      let l = sv.redis.del_ok k w.now w.cache s a e in
      rw e' (ap (λ (m : Entries). record (view sv w) { cache = m }) l)

  pub cache_del-err :
      (k : Key) (w w' : World sv) (x : Thrown)
      → Actions.cache_del sv k w ≡ (err x, w')
      → IsDriver x
        × ((view sv w' ≡ view sv w)
            ⊎ (view sv w' ≡ record (view sv w) { cache = put (view sv w).cache k none }))
  unfolding Actions.cache_del
  cache_del-err k w w' x h =
      let (s, e, e') = on-eq _ _ (sv.redis.del k w.now) w h in
      let l = sv.redis.del_err k w.now w.cache s x e in
      (l.0, rw e' (either_eq (λ (m : Entries). record (view sv w) { cache = m }) l.1))

  pub cache_incr-ok :
      (k : Key) (w w' : World sv) (a : ℕ)
      → Actions.cache_incr sv k w ≡ (ok a, w')
      → (a ≡ (bumped (view sv w).cache w.now k).value)
        × (view sv w' ≡ record (view sv w) {
          cache = put (view sv w).cache k (some (bumped (view sv w).cache w.now k));
        })
  unfolding Actions.cache_incr
  cache_incr-ok k w w' a h =
      let (s, e, e') = on-eq _ _ (sv.redis.incr k w.now) w h in
      let l = sv.redis.incr_ok k w.now w.cache s a e in
      (l.0, rw e' (ap (λ (m : Entries). record (view sv w) { cache = m }) l.1))

  pub cache_incr-err :
      (k : Key) (w w' : World sv) (x : Thrown)
      → Actions.cache_incr sv k w ≡ (err x, w')
      → IsDriver x
        × ((view sv w' ≡ view sv w)
            ⊎ (view sv w' ≡ record (view sv w) {
              cache = put (view sv w).cache k (some (bumped (view sv w).cache w.now k));
            }))
  unfolding Actions.cache_incr
  cache_incr-err k w w' x h =
      let (s, e, e') = on-eq _ _ (sv.redis.incr k w.now) w h in
      let l = sv.redis.incr_err k w.now w.cache s x e in
      (l.0, rw e' (either_eq (λ (m : Entries). record (view sv w) { cache = m }) l.1))

  pub add_email-ok :
      (m : Mail) (w w' : World sv) (a : Unit {0})
      → Actions.add_email sv m w ≡ (ok a, w')
      → view sv w' ≡ record (view sv w) { emails = m ∷ (view sv w).emails }
  unfolding Actions.add_email
  add_email-ok m w w' a h =
      let (s, e, e') = on-eq _ _ (sv.email_queue.add m) w h in
      rw e' (
        ap (λ (l : List Mail). record (view sv w) { emails = l })
          (sv.email_queue.add_ok m w.emails s a e))

  pub add_email-err :
      (m : Mail) (w w' : World sv) (x : Thrown)
      → Actions.add_email sv m w ≡ (err x, w')
      → IsDriver x
        × ((view sv w' ≡ view sv w)
            ⊎ (view sv w' ≡ record (view sv w) { emails = m ∷ (view sv w).emails }))
  unfolding Actions.add_email
  add_email-err m w w' x h =
      let (s, e, e') = on-eq _ _ (sv.email_queue.add m) w h in
      let l = sv.email_queue.add_err m w.emails s x e in
      (l.0, rw e' (either_eq (λ (j : List Mail). record (view sv w) { emails = j }) l.1))
