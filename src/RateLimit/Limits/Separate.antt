-- ===== src/RateLimit/Limits/Separate.antt =====
-- Which requests share a counter.
use mathlib.Core.Path.{subst}
use elysiajs_production_api.Base.{
  arith, ℕ, ◌≡◌, refl, sym, ◌∙◌, inl, inr, true, false, Bool-cases, Option, none, some, [], ◌∷◌,
  ◌++◌, Text, codes, is_empty, starts_with, take, drop, All, ◌==◌, if◌then◌else◌,
}
use elysiajs_production_api.Config.{Env}
use elysiajs_production_api.Requests.{client_ip}
use elysiajs_production_api.RateLimit.{RateStoreClient, store_key}
use elysiajs_production_api.RateLimit.Limits.{
  Caller, by_user, by_token, by_ip, caller_key, store_prefix, Opts, Counted, token_or_ip, user_or,
  user_caller, user_rate_limit,
}

-- A name of a keyspace.
abbrev pub IsKeyspace : Text → Type 0
IsKeyspace s = (is_empty s ≡ false) × All (λ c. (c == b':') ≡ false) s

some_inj : {s t : Text} → ◌≡◌ {A = Option Text} (some s) (some t) → s ≡ t
some_inj h = cc

head_eq : {a b : ℕ} {s t : Text} → a ∷ s ≡ b ∷ t → a ≡ b
head_eq h = cc

tail_eq : {a b : ℕ} {s t : Text} → a ∷ s ≡ b ∷ t → s ≡ t
tail_eq h = cc

apart : {a b : ℕ} {s t : Text} → (a == b) ≡ false → ¬ (a ∷ s ≡ b ∷ t)
apart h e = let same : _ ≡ _ = head_eq e in ground arith

-- What stands before the first colon, and after it.
colon_inj :
    (s s' t t' : Text)
    → All (λ c. (c == b':') ≡ false) s
    → All (λ c. (c == b':') ≡ false) s'
    → s ++ (b':' ∷ t) ≡ s' ++ (b':' ∷ t')
    → (s ≡ s') × (t ≡ t')
colon_inj [] [] t t' p p' h = (refl, tail_eq h)
colon_inj [] (d ∷ s') t t' p p' h = absurd (apart p'.0 (sym h))
colon_inj (c ∷ s) [] t t' p p' h = absurd (apart p.0 h)
colon_inj (c ∷ s) (d ∷ s') t t' p p' h =
    let (e, k) = colon_inj s s' t t' p.1 p'.1 (tail_eq h) in (cc, k)

caller_key-inj : (c d : Caller) → caller_key c ≡ caller_key d → c ≡ d
unfolding caller_key
caller_key-inj (by_user s) (by_user t) h = cc
caller_key-inj (by_token s) (by_token t) h = cc
caller_key-inj (by_ip s) (by_ip t) h = cc
caller_key-inj (by_user s) (by_token t) h = absurd (apart refl h)
caller_key-inj (by_user s) (by_ip t) h = absurd (apart refl h)
caller_key-inj (by_token s) (by_user t) h = absurd (apart refl h)
caller_key-inj (by_token s) (by_ip t) h = absurd (apart refl h)
caller_key-inj (by_ip s) (by_user t) h = absurd (apart refl h)
caller_key-inj (by_ip s) (by_token t) h = absurd (apart refl h)

-- Whom a request is counted as: its user; else the first 32 characters of its bearer token, whatever
-- follows them; else its address.
module _ (env : Env) (c : Counted) where
  abbrev HasNoUser : Type 0
  HasNoUser = (sub : Text) → c.sub ≡ some sub → is_empty sub ≡ true

  abbrev HasNoBearer : Type 0
  HasNoBearer =
      (auth : Text) → c.authorization ≡ some auth → starts_with (codes "Bearer ") auth ≡ false

  pub data IsCountedAs : Caller → Type 0 where
    its_user : (sub : Text) → c.sub ≡ some sub → is_empty sub ≡ false → IsCountedAs (by_user sub)
    its_token :
        (auth : Text)
        → HasNoUser
        → c.authorization ≡ some auth
        → starts_with (codes "Bearer ") auth ≡ true
        → IsCountedAs (by_token (take 32 (drop 7 auth)))
    its_address : HasNoUser → HasNoBearer → IsCountedAs (by_ip (client_ip env c.request))

  token_or_ip-IsCountedAs :
      (authorization : Option Text)
      → c.authorization ≡ authorization
      → HasNoUser
      → IsCountedAs (token_or_ip env c.request authorization)
  token_or_ip-IsCountedAs none e nobody =
      its_address nobody (λ auth k. absurd (let x = sym e ∙ k in cc))
  token_or_ip-IsCountedAs (some auth) e nobody =
      elim (Bool-cases (starts_with (codes "Bearer ") auth)) [
        | inl bearer ↦ rw (bearer, if◌then◌else◌) (its_token auth nobody e bearer)
        | inr other ↦
            rw (other, if◌then◌else◌)
              (its_address nobody (λ a k.
                let same : a ≡ auth = some_inj (sym k ∙ e) in
                subst (λ t. starts_with (codes "Bearer ") t ≡ false) (sym same) other))
      ]

  user_caller-IsCountedAs : IsCountedAs (user_caller env c)
  unfolding user_caller
  user_caller-IsCountedAs = of_sub c.sub refl
    where
      other : HasNoUser → IsCountedAs (token_or_ip env c.request c.authorization)
      other = token_or_ip-IsCountedAs c.authorization refl

      of_sub :
          (sub : Option Text)
          → c.sub ≡ sub
          → IsCountedAs (user_or env sub (token_or_ip env c.request c.authorization))
      of_sub none e = other (λ sub k. absurd (let x = sym e ∙ k in cc))
      of_sub (some sub) e = elim (Bool-cases (is_empty sub)) [
        | inl empty ↦
            rw (empty, if◌then◌else◌)
              (other (λ t k.
                let same : t ≡ sub = some_inj (sym k ∙ e) in
                subst (λ x. is_empty x ≡ true) (sym same) empty))
        | inr named ↦ rw (named, if◌then◌else◌) (its_user sub e named)
      ]

module _ (client : RateStoreClient) (env : Env) where
  -- The key in Redis under which the limiter of a keyspace counts a request.
  abbrev pub counter_key : Opts → Counted → Text
  counter_key opts c =
      let limiter = user_rate_limit env opts in
      store_key client limiter.prefix (limiter.generator c)

  counter_key-named :
      (k : Text) (opts : Opts) (c : Counted)
      → opts.keyspace ≡ some k
      → is_empty k ≡ false
      → counter_key opts c ≡ codes "rl:" ++ (k ++ (b':' ∷ caller_key (user_caller env c)))
  unfolding store_prefix user_rate_limit
  counter_key-named k opts c named e = rw (named, e) refl

  -- For the limiters by user of two keyspaces, whose names are not empty and have no colon: two requests
  -- are counted under one key only if the keyspaces are the same and both are counted as the same
  -- caller. That is the same user for requests with a user, the same first 32 characters of the token
  -- for requests with a bearer token and no user, and the same address for all others.
  pub counter_key-Separate :
      (k k' : Text) (opts opts' : Opts) (c c' : Counted)
      → opts.keyspace ≡ some k
      → opts'.keyspace ≡ some k'
      → IsKeyspace k
      → IsKeyspace k'
      → counter_key opts c ≡ counter_key opts' c'
      → (k ≡ k') × (caller : Caller) × IsCountedAs env c caller × IsCountedAs env c' caller
  counter_key-Separate k k' opts opts' c c' named named' is is' h =
      let (same, rest) = colon_inj k k' _ _ is.1 is'.1 (
        tail_eq (
          tail_eq (
            tail_eq (
              sym (counter_key-named k opts c named is.0)
              ∙ h
              ∙ counter_key-named k' opts' c' named' is'.0)))) in
      (
        same,
        user_caller env c,
        user_caller-IsCountedAs env c,
        subst (IsCountedAs env c') (sym (caller_key-inj _ _ rest)) (user_caller-IsCountedAs env c'),
      )
