-- ===== src/Models.antt =====
-- src/modules/auth/model.ts, src/modules/user/model.ts and src/lib/sanitize.ts: what a request has to look
-- like. That a field is there and of its type is TypeBox's, as are the formats; sanitize-html is a
-- parameter. A length counts code points.
pub mod Listing
pub mod Bounds
use elysiajs_production_api.Base.{
  or_default, ℕ, Bool, true, false, ◌&&◌, Option, none, some, Text, length, leb, ltb, if◌then◌else◌,
}
use elysiajs_production_api.Permissions.{Role}
use elysiajs_production_api.Time.{trim}
use elysiajs_production_api.Users.{UserChanges}

-- A value that is decoded, one that the schema refuses, and the two errors of `sanitizedString`, each
-- with the length that its message names.
pub data Decoded (A : Type 0) : Type 0 where
  decoded : A → Decoded A
  invalid : Decoded A
  too_short too_long : ℕ → Decoded A

abbrev pub map_decoded : {A B : Type 0} → (A → B) → Decoded A → Decoded B
map_decoded f (decoded a) = decoded (f a)
map_decoded f invalid = invalid
map_decoded f (too_short n) = too_short n
map_decoded f (too_long n) = too_long n

abbrev pub raw_max_length : ℕ
raw_max_length = 65536

-- `t.String({ minLength, maxLength })`
abbrev pub has_length : ℕ → ℕ → Text → Bool
has_length least most s = leb least (length s) && leb (length s) most

abbrev pub is_password : Text → Bool
is_password = has_length 8 128

abbrev pub is_code : Text → Bool
is_code = has_length 6 6

abbrev pub below_min : Option ℕ → Text → Bool
below_min none s = false
below_min (some n) s = ltb (length s) n

abbrev pub above_max : Option ℕ → Text → Bool
above_max none s = false
above_max (some n) s = ltb n (length s)

abbrev pub bound : Option ℕ → ℕ
bound none = 0
bound (some n) = n

-- `query.limit` and `query.offset`
pub record ListQuery : Type 0 where
  pub limit : ℕ
  pub offset : ℕ

-- `listQuery`: the defaults, and the bounds of the limit.
unfoldable pub list_query : Option ℕ → Option ℕ → Decoded ListQuery
list_query limit offset =
    if leb 1 (or_default limit 20) && leb (or_default limit 20) 100
    then decoded (record { limit = or_default limit 20; offset = or_default offset 0 })
    else invalid

pub record RegisterBody : Type 0 where
  pub email : Text
  pub password : Text
  pub name : Option Text

pub record LoginBody : Type 0 where
  pub email : Text
  pub password : Text

pub record ResetPasswordBody : Type 0 where
  pub email : Text
  pub code : Text
  pub password : Text

pub record TwoFaVerifyBody : Type 0 where
  pub mfa_token : Text
  pub code : Text

abbrev pub check : {A : Type 0} → Bool → A → Decoded A
check true a = decoded a
check false a = invalid

-- `twoFaVerifyBody`, and the bodies that are one code
abbrev pub two_fa_verify_body : TwoFaVerifyBody → Decoded TwoFaVerifyBody
two_fa_verify_body b = check (leb 1 (length b.mfa_token) && is_code b.code) b

abbrev pub code_body : Text → Decoded Text
code_body code = check (is_code code) code

-- `refreshBody`: the token may be missing, and is not empty.
abbrev pub refresh_body : Option Text → Decoded (Option Text)
refresh_body none = decoded none
refresh_body (some token) = check (leb 1 (length token)) (some token)

-- The lengths are those of the clean text.
abbrev pub check_clean : Option ℕ → Option ℕ → Text → Decoded Text
check_clean least most clean =
    if below_min least clean
    then too_short (bound least)
    else if above_max most clean
    then too_long (bound most)
    else decoded clean

module _ (sanitize_html : Text → Text) where
  unfoldable pub sanitize_text : Text → Text
  unfolding trim
  sanitize_text input = trim (sanitize_html input)

  unfoldable pub sanitized_string : Option ℕ → Option ℕ → Text → Decoded Text
  unfolding sanitize_text
  sanitized_string least most value =
      if leb (length value) raw_max_length
      then check_clean least most (sanitize_text value)
      else invalid

  -- `t.Optional(sanitizedString({ maxLength: 255 }))`
  unfoldable pub optional_name : Option Text → Decoded (Option Text)
  unfolding sanitized_string
  optional_name none = decoded none
  optional_name (some name) = map_decoded some (sanitized_string none (some 255) name)

  -- `updateUserBody`; the role is a literal of the two.
  unfoldable pub update_user_body : Option Text → Option Role → Decoded UserChanges
  unfolding optional_name
  update_user_body name role =
      map_decoded (λ clean. record { name = clean; role = role }) (optional_name name)

  unfoldable pub register_body : (Text → Bool) → RegisterBody → Decoded RegisterBody
  unfolding optional_name
  register_body is_email b =
      if is_email b.email && is_password b.password
      then map_decoded (λ name. record b { name = name }) (optional_name b.name)
      else invalid

module _ (is_email : Text → Bool) where
  unfoldable pub login_body : LoginBody → Decoded LoginBody
  login_body b = check (is_email b.email && is_password b.password) b

  unfoldable pub request_password_reset_body : Text → Decoded Text
  request_password_reset_body email = check (is_email email) email

  unfoldable pub reset_password_body : ResetPasswordBody → Decoded ResetPasswordBody
  reset_password_body b = check (is_email b.email && (is_code b.code && is_password b.password)) b
