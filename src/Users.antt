-- ===== src/Users.antt =====
-- src/lib/user-public.ts and src/modules/user/service.ts: the public shape of a user, and the
-- reading, changing and soft deletion of users.
pub mod Removal
pub mod Addresses
use elysiajs_production_api.Base.{
  ℕ, Bool, ◌&&◌, ◌||◌, Option, none, some, List, map, Text, head?, is_some, ltb, ◌==◌,
}
use elysiajs_production_api.Errors.{bad_request, not_found, Call, pure, ◌>>=◌, ◌>>◌}
use elysiajs_production_api.Calls.{require, or_throw}
use elysiajs_production_api.Permissions.{Role}
use elysiajs_production_api.Schema.{User, not_deleted}
use elysiajs_production_api.Services.{Services, World}
use elysiajs_production_api.Services.Actions.{find_user, page_users, update_users, read_clock}
use elysiajs_production_api.Auth.Accounts.{has_id}
use elysiajs_production_api.Auth.Tokens.{revoke_all_refresh_tokens}

pub record PublicUser : Type 0 where
  pub id : ℕ
  pub email : Text
  pub name : Option Text
  pub role : Role
  pub email_verified : Bool
  pub totp_enabled : Bool
  pub created_at : ℕ

abbrev pub to_public_user : User → PublicUser
to_public_user u = record {
  id = u.id;
  email = u.email;
  name = u.name;
  role = u.role;
  email_verified = is_some u.email_verified_at;
  totp_enabled = is_some u.totp_enabled_at;
  created_at = u.created_at;
}

-- The body of an update: a missing field is left as it is.
pub record UserChanges : Type 0 where
  pub name : Option Text
  pub role : Option Role

abbrev pub new_name : Option Text → Option Text → Option Text
new_name none old = old
new_name (some n) old = some n

abbrev pub new_role : Option Role → Role → Role
new_role none old = old
new_role (some r) old = r

abbrev pub apply_changes : UserChanges → ℕ → User → User
apply_changes c now u = record u {
  name = new_name c.name u.name;
  role = new_role c.role u.role;
  updated_at = now;
}

abbrev pub is_listed : Option ℕ → User → Bool
is_listed none u = not_deleted u
is_listed (some owner_id) u = has_id owner_id u

-- `orderBy(desc(users.createdAt), users.id)`: does the first row come before the second?
abbrev pub comes_before : User → User → Bool
comes_before u v = ltb v.created_at u.created_at || (v.created_at == u.created_at && ltb u.id v.id)

module _ (sv : Services) where
  unfoldable pub list_users : ℕ → ℕ → Option ℕ → Call (World sv) (List PublicUser)
  list_users limit offset owner_id = do
    rows ← page_users sv (is_listed owner_id) comes_before limit offset
    pure (map to_public_user rows)

  unfoldable pub get_by_id : ℕ → Call (World sv) PublicUser
  get_by_id id = do
    found ← find_user sv (has_id id)
    user ← or_throw found (not_found "User not found")
    pure (to_public_user user)

  unfoldable pub update_user : ℕ → UserChanges → Call (World sv) PublicUser
  update_user id changes = do
    require (is_some changes.name || is_some changes.role) (bad_request "No fields to update")
    now ← read_clock sv
    rows ← update_users sv (has_id id) (apply_changes changes now)
    user ← or_throw (head? rows) (not_found "User not found")
    pure (to_public_user user)

  -- Soft delete: the row is marked, and every session of the user is revoked.
  unfoldable pub remove_user : ℕ → Call (World sv) (Unit {0})
  remove_user id = do
    now ← read_clock sv
    rows ← update_users sv (has_id id) (λ u. record u { deleted_at = some now; updated_at = now })
    or_throw (head? rows) (not_found "User not found")
    revoke_all_refresh_tokens sv id
