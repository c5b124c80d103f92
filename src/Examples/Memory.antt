-- ===== src/Examples/Memory.antt =====
-- Services that live in memory. They meet every law of the interfaces, so the laws can hold together.
use mathlib.Core.Path.{subst}
use mathlib.Core.List.Perm
use elysiajs_production_api.Base.{
  sym, ap, ◌<◌, ◌||◌, ◌∙◌, All-map, ℕ, suc, ◌+◌, ◌*◌, ◌≤◌, ◌≡◌, refl, Bool, true, false, not,
  Option, none, some, List, [], ◌∷◌, ◌++◌, Text, codes, length, count, filter, map_where, map, All,
  Any, is_some, inl, inr, ◌==◌, arith, if◌then◌else◌, Bool-cases, text_eq, drop, take,
}
use elysiajs_production_api.Errors.{Thrown, app, driver, Result, ok, err}
use elysiajs_production_api.Schema.{
  user_row, user_clash, refresh_token_row, refresh_token_clash, audit_log_row, audit_log_clash,
}
use elysiajs_production_api.Jwt.{role_text}
use elysiajs_production_api.Services.{
  Finds, Returns, Pages, IsOrdered, Table, IsDriver, Entries, Redis, Queue, Mail, value_at, put,
  entry_of, bumped, Services, Claims, current,
}

abbrev pub offline : Thrown
offline = driver none none

abbrev pub unique_violation : Thrown
unique_violation = driver none (some (codes "23505"))

module _ {A S : Type 0} where
  pub ok_not_err : {a : A} {e : Thrown} {s t : S} → ¬ (◌≡◌ {A = Result A × S} (ok a, s) (err e, t))
  ok_not_err h = cc

  pub err_not_ok : {a : A} {e : Thrown} {s t : S} → ¬ (◌≡◌ {A = Result A × S} (err e, s) (ok a, t))
  err_not_ok h = cc

  pub value_of : {a b : A} {s t : S} → ◌≡◌ {A = Result A × S} (ok a, s) (ok b, t) → a ≡ b
  value_of h = cc

  pub state_of : {a b : A} {s t : S} → ◌≡◌ {A = Result A × S} (ok a, s) (ok b, t) → s ≡ t
  state_of h = λ i. (h i).1

module _ {Row : Type 0} where
  -- A page of the rows that meet a condition, if there is at most one; to sort more is not tried.
  abbrev pub page_of : ℕ → ℕ → List Row → Result (List Row)
  page_of n k [] = ok (take n (drop k []))
  page_of n k (r ∷ []) = ok (take n (drop k (r ∷ [])))
  page_of n k (r ∷ q ∷ l) = err offline

  pub page_of-ok :
      (before : Row → Row → Bool) (n k : ℕ) (ordered l : List Row)
      → page_of n k ordered ≡ ok l
      → IsOrdered before ordered × (l ≡ take n (drop k ordered))
  page_of-ok before n k [] l h = (tt, cc)
  page_of-ok before n k (r ∷ []) l h = ((tt, tt), cc)
  page_of-ok before n k (r ∷ q ∷ ordered) l h = absurd (cc)

  pub page_of-err :
      (n k : ℕ) (ordered : List Row) (e : Thrown) → page_of n k ordered ≡ err e → IsDriver e
  page_of-err n k [] e h = absurd (cc)
  page_of-err n k (r ∷ []) e h = absurd (cc)
  page_of-err n k (r ∷ q ∷ ordered) (app e) h = absurd (cc)
  page_of-err n k (r ∷ q ∷ ordered) (driver code cause) h = tt

  abbrev pub first : (Row → Bool) → List Row → Option Row
  first p [] = none
  first p (r ∷ l) = if p r then some r else first p l

  first-Finds : (p : Row → Bool) (l : List Row) → Finds p l (first p l)
  first-Finds p [] = tt
  first-Finds p (r ∷ l) = elim (Bool-cases (p r)) [
    | inl e ↦ rw e (e, inl refl)
    | inr e ↦ rw e (later (first p l) (first-Finds p l) e)
  ]
    where
      later : (o : Option Row) → Finds p l o → p r ≡ false → Finds p (r ∷ l) o
      later none h e = (e, h)
      later (some x) h e = (h.0, inr h.1)

  abbrev pub changed : (Row → Bool) → (Row → Row) → List Row → List Row
  changed p f l = map f (filter p l)

  length-changed :
      (p : Row → Bool) (f : Row → Row) (l : List Row) → length (changed p f l) ≡ count p l
  length-changed p f [] = refl
  length-changed p f (r ∷ l) = elim (Bool-cases (p r)) [
    | inl e ↦ rw e (ap suc (length-changed p f l))
    | inr e ↦ rw e (length-changed p f l)
  ]

  -- An element of the answer is a changed row.
  abbrev Comes : (Row → Bool) → (Row → Row) → List Row → Row → Type 0
  Comes p f l r = Any (λ x. (p x ≡ true) × (r ≡ f x)) l

  changed-Comes :
      (p : Row → Bool) (f : Row → Row) (l : List Row) → All (Comes p f l) (changed p f l)
  changed-Comes p f [] = tt
  changed-Comes p f (r ∷ l) =
      let rest : All (Comes p f (r ∷ l)) (changed p f l) =
        All-map (Comes p f l) (Comes p f (r ∷ l)) (λ x h. inr h) (changed p f l)
          (changed-Comes p f l) in
      elim (Bool-cases (p r)) [ inl e ↦ rw e (inl (e, refl), rest) | inr e ↦ rw e rest ]

  length-filter : (p : Row → Bool) (l : List Row) → length (filter p l) ≡ count p l
  length-filter p [] = refl
  length-filter p (r ∷ l) = elim (Bool-cases (p r)) [
    | inl e ↦ rw e (ap suc (length-filter p l))
    | inr e ↦ rw e (length-filter p l)
  ]

  abbrev clashes : (Row → Row → Bool) → Row → List Row → Bool
  clashes clash r [] = false
  clashes clash r (x ∷ l) = clash r x || clashes clash r l

  not_clashes :
      (clash : Row → Row → Bool) (r : Row) (l : List Row)
      → clashes clash r l ≡ false
      → All (λ x. clash r x ≡ false) l
  not_clashes clash r [] h = tt
  not_clashes clash r (x ∷ l) h = (ground arith, not_clashes clash r l (ground arith))

  module _ (id_of : Row → ℕ) where
    -- An id above all ids of the table.
    abbrev next_id : List Row → ℕ
    next_id [] = 1
    next_id (r ∷ l) = suc (id_of r) + next_id l

    next_id-fresh : (k : ℕ) (l : List Row) → next_id l ≤ k → All (λ x. (id_of x == k) ≡ false) l
    next_id-fresh k [] h = tt
    next_id-fresh k (r ∷ l) h = (ground (arith, next_id-pos l), next_id-fresh k l (omega arith))
      where
        next_id-pos : (l : List Row) → 0 < next_id l
        next_id-pos [] = omega arith
        next_id-pos (r ∷ l) = omega arith

    module _ {New : Type 0} (make : New → ℕ → ℕ → Row) (clash : Row → Row → Bool) where
      abbrev insert_row : New → ℕ → List Row → Result Row × List Row
      insert_row v now l =
          let r = make v (next_id l) now in
          if clashes clash r l then (err unique_violation, l) else (ok r, r ∷ l)

      abbrev pub Inserted : New → ℕ → List Row → Row → List Row → Type 0
      Inserted v now l r l' =
          (id : ℕ) × (r ≡ make v id now)
          × All (λ x. (id_of x == id) ≡ false) l
          × All (λ x. clash r x ≡ false) l
          × (l' ≡ r ∷ l)

      pub insert_row-ok :
          (v : New) (now : ℕ) (l l' : List Row) (r : Row)
          → insert_row v now l ≡ (ok r, l')
          → Inserted v now l r l'
      insert_row-ok v now l l' r h = elim (Bool-cases (clashes clash (make v (next_id l) now) l)) [
        | inl c ↦ absurd (ground arith)
        | inr c ↦
            let e : make v (next_id l) now ≡ r = ground arith in
            (
              next_id l,
              sym e,
              next_id-fresh (next_id l) l (omega arith),
              subst (λ x. All (λ y. clash x y ≡ false) l) e (not_clashes clash _ l c),
              ground arith,
            )
      ]

      pub insert_row-err :
          (v : New) (now : ℕ) (l l' : List Row) (e : Thrown)
          → insert_row v now l ≡ (err e, l')
          → IsDriver e × (l' ≡ l)
      insert_row-err v now l l' e h = elim (Bool-cases (clashes clash (make v (next_id l) now) l)) [
        | inl c ↦
            let same : unique_violation ≡ e = ground arith in (subst IsDriver same tt, ground arith)
        | inr c ↦ absurd (ground arith)
      ]

      pub find_ok :
          (p : Row → Bool) (s s' : List Row) (o : Option Row)
          → ◌≡◌ {A = Result (Option Row) × List Row} (ok (first p s), s) (ok o, s')
          → Finds p s o × (s' ≡ s)
      find_ok p s s' o h = let e : first p s ≡ o = cc in (subst (Finds p s) e (first-Finds p s), cc)

      pub update_ok :
          (p : Row → Bool) (f : Row → Row) (s s' l : List Row)
          → ◌≡◌ {A = Result (List Row) × List Row} (ok (changed p f s), map_where p f s) (ok l, s')
          → Returns p f s l × (s' ≡ map_where p f s)
      update_ok p f s s' l h =
          let e : changed p f s ≡ l = cc in
          (subst (Returns p f s) e (changed-Comes p f s, length-changed p f s), cc)

      pub delete_ok :
          (p : Row → Bool) (s s' l : List Row)
          → ◌≡◌ {A = Result (List Row) × List Row}
              (ok (filter p s), filter (λ r. not (p r)) s)
              (ok l, s')
          → (length l ≡ count p s) × (s' ≡ filter (λ r. not (p r)) s)
      delete_ok p s s' l h =
          let e : filter p s ≡ l = cc in (ap length (sym e) ∙ length-filter p s, cc)

      pub page_ok :
          (p : Row → Bool) (before : Row → Row → Bool) (n k : ℕ) (s s' l : List Row)
          → ◌≡◌ {A = Result (List Row) × List Row} (page_of n k (filter p s), s) (ok l, s')
          → Pages p before n k s l × (s' ≡ s)
      page_ok p before n k s s' l h =
          let (sorted, e) = page_of-ok before n k (filter p s) l (λ i. (h i).0) in
          ((filter p s, Perm.refl (filter p s), sorted, e), sym (λ i. (h i).1))

      pub page_err :
          (p : Row → Bool) (n k : ℕ) (s s' : List Row) (e : Thrown)
          → ◌≡◌ {A = Result (List Row) × List Row} (page_of n k (filter p s), s) (err e, s')
          → IsDriver e × (s' ≡ s)
      page_err p n k s s' e h = (page_of-err n k (filter p s) e (λ i. (h i).0), sym (λ i. (h i).1))

      unfoldable pub memory_table : Table id_of make clash
      memory_table = record {
        State = List Row;
        rows = λ l. l;
        find = λ p l. (ok (first p l), l);
        page = λ p before n k l. (page_of n k (filter p l), l);
        insert = insert_row;
        update = λ p f l. (ok (changed p f l), map_where p f l);
        delete = λ p l. (ok (filter p l), filter (λ r. not (p r)) l);
        find_ok = find_ok;
        page_ok = page_ok;
        insert_ok = insert_row-ok;
        update_ok = update_ok;
        delete_ok = delete_ok;
        find_err = λ p s s' e h. absurd (ok_not_err h);
        page_err = λ p before n k s s' e h. page_err p n k s s' e h;
        insert_err = insert_row-err;
        update_err = λ p f s s' e h. absurd (ok_not_err h);
        delete_err = λ p s s' e h. absurd (ok_not_err h);
      }

-- Redis: an association of entries with keys.
unfoldable pub memory_redis : Redis
memory_redis = record {
  State = Entries;
  entries = λ m. m;
  get = λ k now m. (ok (value_at m now k), m);
  set = λ k v ttl now m. (ok tt, put m k (some (entry_of v ttl now)));
  del = λ k now m. (ok tt, put m k none);
  incr = λ k now m. (ok (bumped m now k).value, put m k (some (bumped m now k)));
  exists = λ k now m. (ok (is_some (value_at m now k)), m);
  get_ok = λ k now s s' o h. (sym (value_of h), sym (state_of h));
  exists_ok = λ k now s s' b h. (sym (value_of h), sym (state_of h));
  set_ok = λ k v ttl now s s' u h. sym (state_of h);
  del_ok = λ k now s s' u h. sym (state_of h);
  incr_ok = λ k now s s' n h. (sym (value_of h), sym (state_of h));
  get_err = λ k now s s' e h. absurd (ok_not_err h);
  exists_err = λ k now s s' e h. absurd (ok_not_err h);
  set_err = λ k v ttl now s s' e h. absurd (ok_not_err h);
  del_err = λ k now s s' e h. absurd (ok_not_err h);
  incr_err = λ k now s s' e h. absurd (ok_not_err h);
}

unfoldable pub memory_queue : Queue
memory_queue = record {
  State = List Mail;
  jobs = λ l. l;
  add = λ m l. (ok tt, m ∷ l);
  add_ok = λ m s s' u h. sym (state_of h);
  add_err = λ m s s' e h. absurd (ok_not_err h);
}

-- A simple digest, and tokens that spell their claims: the first two entries of a token are the
-- secret's digest and the subject, the rest is the role.
abbrev digest : Text → ℕ
digest [] = 7
digest (c ∷ s) = c + 257 * digest s

abbrev read_token : Text → Text → Option Claims
read_token secret (n ∷ sub ∷ role) =
    if n == digest secret then some (record { sub = some sub; role = some role }) else none
read_token secret _ = none

unfoldable pub memory : Services
unfolding memory_table memory_redis memory_queue
memory = record {
  user_table = memory_table (λ u. u.id) user_row user_clash;
  token_table = memory_table (λ r. r.id) refresh_token_row refresh_token_clash;
  audit_table = memory_table (λ a. a.id) audit_log_row audit_log_clash;
  redis = memory_redis;
  email_queue = memory_queue;
  sha256 = digest;
  hash_password = λ salt password. salt ∷ password;
  verify_password = λ password hash. text_eq (drop 1 hash) password;
  verify_dummy = λ password. none;
  random_token = λ n. n ∷ 1 ∷ [];
  random_uuid = λ n. 1000 + n;
  random_uint32 = λ n. n * 123457;
  random_secret = λ n. n ∷ 2 ∷ [];
  sign_jwt = λ secret payload now exp. digest secret ∷ payload.sub ∷ role_text payload.role;
  verify_jwt = λ secret token now. read_token secret token;
  validate_totp = λ secret code now. if text_eq secret code then some current else none;
  otpauth_url = λ secret label. label ++ secret;
}
