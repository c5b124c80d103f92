-- ===== src/Seed.antt =====
-- src/db/seed.ts: the script that sees to an administrator. It ends the process with an exit code.
pub mod Outcome
use elysiajs_production_api.Base.{
  ℕ, Bool, Option, none, some, Text, codes, text_eq, is_empty, ◌==◌, if◌then◌else◌,
}
use elysiajs_production_api.Errors.{Call, pure, ◌>>=◌, ◌>>◌}
use elysiajs_production_api.Permissions.{Role, user, admin}
use elysiajs_production_api.Config.{Env}
use elysiajs_production_api.Schema.{User}
use elysiajs_production_api.Services.{Services, World}
use elysiajs_production_api.Services.Actions.{
  find_user, insert_user, update_users, read_clock, draw,
}

-- `eq(users.email, email)`: rows that are marked as deleted count too.
abbrev pub has_address : Text → User → Bool
has_address email u = text_eq u.email email

abbrev pub promoted : ℕ → User → User
promoted now u = record u { role = admin; updated_at = now }

module _ (sv : Services) (env : Env) where
  unfoldable pub create_admin : Call (World sv) (Unit {0})
  create_admin = do
    salt ← draw sv
    now ← read_clock sv
    insert_user sv (record {
      email = env.seed_admin_email;
      password_hash = sv.hash_password salt env.seed_admin_password;
      name = some (codes "Admin");
      role = some admin;
      email_verified_at = some now;
    })
    pure tt

  unfoldable pub promote : ℕ → Call (World sv) (Unit {0})
  promote id = do now ← read_clock sv; update_users sv (λ u. u.id == id) (promoted now); pure tt

  abbrev pub unless_admin : Role → ℕ → Call (World sv) (Unit {0})
  unless_admin admin id = pure tt
  unless_admin user id = promote id

  unfoldable pub ensure_admin : Option User → Call (World sv) (Unit {0})
  unfolding create_admin promote
  ensure_admin none = create_admin
  ensure_admin (some u) = unless_admin u.role u.id

  unfoldable pub seed : Call (World sv) ℕ
  unfolding ensure_admin
  seed = if is_empty env.seed_admin_password then pure 1 else do
    existing ← find_user sv (has_address env.seed_admin_email)
    ensure_admin existing
    pure 0
