-- ===== src/Schema.antt =====
-- The tables of src/db/schema/: their rows, the defaults of an insert, and the unique indexes.
-- Uuids and digests are numbers (they are only compared and stored); times are milliseconds.
use elysiajs_production_api.Base.{
  ℕ, Bool, false, ◌&&◌, Option, none, some, String, List, Text, text_eq, ◌==◌, is_some, not,
}
use elysiajs_production_api.Permissions.{Role, user}

pub record User : Type 0 where
  pub id : ℕ
  pub email : Text
  pub password_hash : Text
  pub name : Option Text
  pub role : Role
  pub email_verified_at : Option ℕ
  pub totp_secret : Option Text
  pub totp_enabled_at : Option ℕ
  pub deleted_at : Option ℕ
  pub created_at : ℕ
  pub updated_at : ℕ

-- The values that an insert gives; `role` has a default.
pub record NewUser : Type 0 where
  pub email : Text
  pub password_hash : Text
  pub name : Option Text
  pub role : Option Role
  pub email_verified_at : Option ℕ

abbrev or_default : Option Role → Role
or_default none = user
or_default (some r) = r

-- The row of an insert: the values and the columns' defaults, with the fresh id and the time.
abbrev pub user_row : NewUser → ℕ → ℕ → User
user_row v id now = record {
  id = id;
  email = v.email;
  password_hash = v.password_hash;
  name = v.name;
  role = or_default v.role;
  email_verified_at = v.email_verified_at;
  totp_secret = none;
  totp_enabled_at = none;
  deleted_at = none;
  created_at = now;
  updated_at = now;
}

-- `isNull(users.deletedAt)`, the `notDeleted` of the services
abbrev pub not_deleted : User → Bool
not_deleted u = not (is_some u.deleted_at)

-- `users_email_active_unique`: only active accounts hold an address.
abbrev pub user_clash : User → User → Bool
user_clash u v = not_deleted u && (not_deleted v && text_eq u.email v.email)

pub record RefreshToken : Type 0 where
  pub id : ℕ
  pub token : ℕ
  pub user_id : ℕ
  pub family_id : ℕ
  pub used_at : Option ℕ
  pub expires_at : ℕ
  pub created_at : ℕ

pub record NewRefreshToken : Type 0 where
  pub token : ℕ
  pub user_id : ℕ
  pub family_id : ℕ
  pub expires_at : ℕ

abbrev pub refresh_token_row : NewRefreshToken → ℕ → ℕ → RefreshToken
refresh_token_row v id now = record {
  id = id;
  token = v.token;
  user_id = v.user_id;
  family_id = v.family_id;
  used_at = none;
  expires_at = v.expires_at;
  created_at = now;
}

-- `token` is unique.
abbrev pub refresh_token_clash : RefreshToken → RefreshToken → Bool
refresh_token_clash r s = r.token == s.token

pub record NewAuditLog : Type 0 where
  pub action : String
  pub actor_id : Option ℕ
  pub target_type : Option String
  pub target_id : Option ℕ
  pub metadata : Option (List (String × Text))
  pub ip : Option Text

pub record AuditLog : Type 0 where
  pub id : ℕ
  pub action : String
  pub actor_id : Option ℕ
  pub target_type : Option String
  pub target_id : Option ℕ
  pub metadata : Option (List (String × Text))
  pub ip : Option Text
  pub created_at : ℕ

abbrev pub audit_log_row : NewAuditLog → ℕ → ℕ → AuditLog
audit_log_row v id now = record {
  id = id;
  action = v.action;
  actor_id = v.actor_id;
  target_type = v.target_type;
  target_id = v.target_id;
  metadata = v.metadata;
  ip = v.ip;
  created_at = now;
}

-- No unique index but the primary key.
abbrev pub audit_log_clash : AuditLog → AuditLog → Bool
audit_log_clash a b = false
