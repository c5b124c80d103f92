-- ===== src/Models/Bounds.antt =====
-- What an accepted registration satisfies.
use mathlib.Core.Path.{subst}
use elysiajs_production_api.Base.{
  ℕ, ◌≤◌, ◌≡◌, refl, sym, inl, inr, Bool, true, false, ◌&&◌, Option, none, some, Text, length, leb,
  ltb, arith, Bool-cases, if◌then◌else◌,
}
use elysiajs_production_api.Models.{
  Decoded, decoded, invalid, too_short, too_long, map_decoded, raw_max_length, is_password,
  sanitize_text, check_clean, sanitized_string, optional_name, RegisterBody, register_body,
}

map_decoded-decoded :
    {A B : Type 0} (f : A → B) (d : Decoded A) (b : B)
    → map_decoded f d ≡ decoded b
    → (a : A) × (d ≡ decoded a) × (f a ≡ b)
map_decoded-decoded f (decoded a) b h = (a, refl, cc)
map_decoded-decoded f invalid b h = absurd (cc)
map_decoded-decoded f (too_short n) b h = absurd (cc)
map_decoded-decoded f (too_long n) b h = absurd (cc)

decoded_inj : {A : Type 0} {a b : A} → decoded a ≡ decoded b → a ≡ b
decoded_inj h = cc

leb_le : {a b : ℕ} → leb a b ≡ true → a ≤ b
leb_le h = ground arith

and_left : (a b : Bool) → (a && b) ≡ true → a ≡ true
and_left true b h = refl
and_left false b h = h

and_right : (a b : Bool) → (a && b) ≡ true → b ≡ true
and_right true b h = h
and_right false b h = absurd (cc)

least_length : (s : Text) → is_password s ≡ true → 8 ≤ length s
least_length s h = leb_le (and_left (leb 8 (length s)) (leb (length s) 128) h)

most_length : (s : Text) → is_password s ≡ true → length s ≤ 128
most_length s h = leb_le (and_right (leb 8 (length s)) (leb (length s) 128) h)

module _ (sanitize_html : Text → Text) where
  -- A clean name: what sanitizing makes of the one that was sent, within the bounds of both.
  abbrev pub IsClean : Text → Text → Type 0
  IsClean raw clean =
      (clean ≡ sanitize_text sanitize_html raw)
      × (length raw ≤ raw_max_length)
      × (length clean ≤ 255)

  abbrev pub IsCleanName : Option Text → Option Text → Type 0
  IsCleanName none clean = clean ≡ none
  IsCleanName (some raw) clean = (s : Text) × (clean ≡ some s) × IsClean raw s

  check_clean-bound :
      (clean s : Text)
      → check_clean none (some 255) clean ≡ decoded s
      → (s ≡ clean) × (length clean ≤ 255)
  check_clean-bound clean s h = elim (Bool-cases (ltb 255 (length clean))) [
    | inl e ↦ absurd (let long : too_long 255 ≡ decoded s = rw e at h in cc)
    | inr e ↦ (sym (decoded_inj (rw e at h)), ground arith)
  ]

  sanitized_string-IsClean :
      (raw s : Text)
      → sanitized_string sanitize_html none (some 255) raw ≡ decoded s
      → IsClean raw s
  unfolding sanitized_string
  sanitized_string-IsClean raw s h = elim (Bool-cases (leb (length raw) raw_max_length)) [
    | inl e ↦
        let (same, short) = check_clean-bound clean s (subst Chosen e h) in
        (same, leb_le e, subst (λ x. length x ≤ 255) (sym same) short)
    | inr e ↦ absurd (let refused : invalid ≡ decoded s = subst Chosen e h in cc)
  ]
    where
      clean : Text
      clean = sanitize_text sanitize_html raw

      Chosen : Bool → Type 0
      Chosen b = (if b then check_clean none (some 255) clean else invalid) ≡ decoded s

  optional_name-IsCleanName :
      (raw name : Option Text)
      → optional_name sanitize_html raw ≡ decoded name
      → IsCleanName raw name
  unfolding optional_name
  optional_name-IsCleanName none name h = sym (decoded_inj h)
  optional_name-IsCleanName (some raw) name h =
      let (s, e, k) = map_decoded-decoded some _ name h in
      (s, sym k, sanitized_string-IsClean raw s e)

  -- A registration that is accepted has an address that passes the check, the address and the password
  -- that were sent, a password of 8 to 128 characters, and no name if none was sent; if one was, of at
  -- most 65536 characters, the name is what sanitizing makes of it, of at most 255.
  pub register_body-IsCleanName :
      (is_email : Text → Bool) (b c : RegisterBody)
      → register_body sanitize_html is_email b ≡ decoded c
      → (is_email c.email ≡ true)
        × (c.email ≡ b.email)
        × (c.password ≡ b.password)
        × (8 ≤ length c.password)
        × (length c.password ≤ 128)
        × IsCleanName b.name c.name
  unfolding register_body
  register_body-IsCleanName is_email b c h =
      elim (Bool-cases (is_email b.email && is_password b.password)) [
        | inl e ↦
            let (name, d, k) =
              map_decoded-decoded (λ name. record b { name = name }) _ c (subst Chosen e h) in
            subst Holds k (
              and_left (is_email b.email) (is_password b.password) e,
              refl,
              refl,
              least_length b.password (and_right (is_email b.email) (is_password b.password) e),
              most_length b.password (and_right (is_email b.email) (is_password b.password) e),
              optional_name-IsCleanName b.name name d,
            )
        | inr e ↦ absurd (let refused : invalid ≡ decoded c = subst Chosen e h in cc)
      ]
    where
      Chosen : Bool → Type 0
      Chosen t =
          (if t
            then map_decoded (λ name. record b { name = name }) (optional_name sanitize_html b.name)
            else invalid)
          ≡ decoded c

      Holds : RegisterBody → Type 0
      Holds x =
          (is_email x.email ≡ true)
          × (x.email ≡ b.email)
          × (x.password ≡ b.password)
          × (8 ≤ length x.password)
          × (length x.password ≤ 128)
          × IsCleanName b.name x.name
