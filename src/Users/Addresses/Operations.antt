-- ===== src/Users/Addresses/Operations.antt =====
-- Every operation on the users, of AuthService, UserService and TotpService and of the seed, keeps the
-- addresses of the active accounts different.
use mathlib.Core.Path.{subst}
use mathlib.Core.Bool.{and-false}
use elysiajs_production_api.Base.{
  ℕ, refl, not, Option, none, some, List, [], ◌∷◌, Text, is_empty, is_some, head?, ◌&&◌, ◌||◌,
}
use elysiajs_production_api.Errors.{ok}
use elysiajs_production_api.Calls.{is_present}
use elysiajs_production_api.Config.{Env}
use elysiajs_production_api.Permissions.{Role, user, admin}
use elysiajs_production_api.Schema.{User, not_deleted}
use elysiajs_production_api.Services.{Services, World, view}
use elysiajs_production_api.Auth.Accounts.{
  find_by_id, create_user, update_password, mark_email_verified,
}
use elysiajs_production_api.Auth.Accounts.Unique.{HasUniqueEmails, create_user-HasUniqueEmails}
use elysiajs_production_api.Auth.Tokens.{revoke_all_refresh_tokens}
use elysiajs_production_api.Auth.Totp.{validate_code, setup, enable, disable}
use elysiajs_production_api.Users.{UserChanges, update_user, remove_user}
use elysiajs_production_api.Users.Addresses.{
  IsHarmless, Keeps, bind-Keeps, returns-Keeps, if-Keeps, require-Keeps, or_throw-Keeps, draw-Keeps,
  read_clock-Keeps, find_user-Keeps, update_users-Keeps, insert_user-Keeps, delete_tokens-Keeps,
  record_audit-Keeps,
}
use elysiajs_production_api.Seed.{create_admin, promote, unless_admin, ensure_admin, seed}

-- A removed row clashes with none.
removal-IsHarmless :
    (now : ℕ) → IsHarmless (λ u. record u { deleted_at = some now; updated_at = now })
removal-IsHarmless now u x h = (refl, and-false (not_deleted u))

module _ (sv : Services) where
  create_user-Keeps :
      (email password : Text) (name : Option Text) → Keeps sv (create_user sv email password name)
  create_user-Keeps email password name w w' r h unique =
      subst (λ v. HasUniqueEmails (view sv v).users) (λ i. (h i).1)
        (create_user-HasUniqueEmails sv email password name w unique)

  update_password-Keeps : (id : ℕ) (password : Text) → Keeps sv (update_password sv id password)
  unfolding update_password
  update_password-Keeps id password = bind-Keeps sv _ _ (draw-Keeps sv) (λ salt.
      bind-Keeps sv _ _ (read_clock-Keeps sv) (λ now.
        bind-Keeps sv _ _ (update_users-Keeps sv _ _ (λ u x h. (h, h)))
          (λ l. returns-Keeps sv (ok tt))))

  mark_email_verified-Keeps : (id : ℕ) → Keeps sv (mark_email_verified sv id)
  unfolding mark_email_verified
  mark_email_verified-Keeps id = bind-Keeps sv _ _ (read_clock-Keeps sv) (λ now.
      bind-Keeps sv _ _ (update_users-Keeps sv _ _ (λ u x h. (h, h)))
        (λ l. returns-Keeps sv (ok tt)))

  update_user-Keeps : (id : ℕ) (changes : UserChanges) → Keeps sv (update_user sv id changes)
  unfolding update_user
  update_user-Keeps id changes =
      bind-Keeps sv _ _ (require-Keeps sv (is_some changes.name || is_some changes.role) _) (λ a.
        bind-Keeps sv _ _ (read_clock-Keeps sv) (λ now.
          bind-Keeps sv _ _ (update_users-Keeps sv _ _ (λ u x h. (h, h))) (λ rows.
            bind-Keeps sv _ _ (or_throw-Keeps sv (head? rows) _) (λ row. returns-Keeps sv (ok _)))))

  remove_user-Keeps : (id : ℕ) → Keeps sv (remove_user sv id)
  unfolding remove_user revoke_all_refresh_tokens
  remove_user-Keeps id = bind-Keeps sv _ _ (read_clock-Keeps sv) (λ now.
      bind-Keeps sv _ _ (update_users-Keeps sv _ _ (removal-IsHarmless now)) (λ rows.
        bind-Keeps sv _ _ (or_throw-Keeps sv (head? rows) _)
          (λ row. bind-Keeps sv _ _ (delete_tokens-Keeps sv _) (λ l. returns-Keeps sv (ok tt)))))

  validate_code-Keeps :
      (secret : Option Text) (code : Text) → Keeps sv (validate_code sv secret code)
  unfolding validate_code
  validate_code-Keeps secret code =
      bind-Keeps sv _ _ (read_clock-Keeps sv) (λ now. returns-Keeps sv (ok _))

  setup-Keeps : (id : ℕ) → Keeps sv (setup sv id)
  unfolding setup find_by_id
  setup-Keeps id = bind-Keeps sv _ _ (find_user-Keeps sv _) (λ found.
      bind-Keeps sv _ _ (or_throw-Keeps sv found _) (λ u.
        bind-Keeps sv _ _ (require-Keeps sv (not (is_some u.totp_enabled_at)) _) (λ a.
          bind-Keeps sv _ _ (draw-Keeps sv) (λ n. bind-Keeps sv _ _ (read_clock-Keeps sv) (λ now.
            bind-Keeps sv _ _ (update_users-Keeps sv _ _ (λ u x h. (h, h)))
              (λ l. returns-Keeps sv (ok _)))))))

  enable-Keeps : (id : ℕ) (code : Text) → Keeps sv (enable sv id code)
  unfolding enable find_by_id
  enable-Keeps id code = bind-Keeps sv _ _ (find_user-Keeps sv _) (λ found.
      bind-Keeps sv _ _ (or_throw-Keeps sv found _) (λ u.
        bind-Keeps sv _ _ (require-Keeps sv (not (is_some u.totp_enabled_at)) _) (λ a.
          bind-Keeps sv _ _ (require-Keeps sv (is_present u.totp_secret) _) (λ b.
            bind-Keeps sv _ _ (validate_code-Keeps u.totp_secret code) (λ accepted.
              bind-Keeps sv _ _ (require-Keeps sv (is_some accepted) _) (λ d.
                bind-Keeps sv _ _ (read_clock-Keeps sv) (λ now.
                  bind-Keeps sv _ _ (update_users-Keeps sv _ _ (λ u x h. (h, h)))
                    (λ l. record_audit-Keeps sv _))))))))

  disable-Keeps : (id : ℕ) (code : Text) → Keeps sv (disable sv id code)
  unfolding disable find_by_id
  disable-Keeps id code = bind-Keeps sv _ _ (find_user-Keeps sv _) (λ found.
      bind-Keeps sv _ _ (or_throw-Keeps sv found _) (λ u.
        bind-Keeps sv _ _
          (require-Keeps sv (is_some u.totp_enabled_at && is_present u.totp_secret) _)
          (λ a. bind-Keeps sv _ _ (validate_code-Keeps u.totp_secret code) (λ accepted.
            bind-Keeps sv _ _ (require-Keeps sv (is_some accepted) _) (λ d.
              bind-Keeps sv _ _ (read_clock-Keeps sv) (λ now.
                bind-Keeps sv _ _ (update_users-Keeps sv _ _ (λ u x h. (h, h)))
                  (λ l. record_audit-Keeps sv _)))))))

  module _ (env : Env) where
    promote-Keeps : (role : Role) (id : ℕ) → Keeps sv (unless_admin sv env role id)
    unfolding promote
    promote-Keeps admin id = returns-Keeps sv (ok tt)
    promote-Keeps user id = bind-Keeps sv _ _ (read_clock-Keeps sv) (λ now.
        bind-Keeps sv _ _ (update_users-Keeps sv _ _ (λ u x h. (h, h)))
          (λ l. returns-Keeps sv (ok tt)))

    ensure_admin-Keeps : (found : Option User) → Keeps sv (ensure_admin sv env found)
    unfolding ensure_admin create_admin
    ensure_admin-Keeps none = bind-Keeps sv _ _ (draw-Keeps sv) (λ salt.
        bind-Keeps sv _ _ (read_clock-Keeps sv)
          (λ now. bind-Keeps sv _ _ (insert_user-Keeps sv _) (λ row. returns-Keeps sv (ok tt))))
    ensure_admin-Keeps (some u) = promote-Keeps u.role u.id

    seed-Keeps : Keeps sv (seed sv env)
    unfolding seed
    seed-Keeps = if-Keeps sv (is_empty env.seed_admin_password) _ _ (returns-Keeps sv (ok 1)) (
        bind-Keeps sv _ _ (find_user-Keeps sv _)
          (λ found. bind-Keeps sv _ _ (ensure_admin-Keeps found) (λ a. returns-Keeps sv (ok 0))))

    -- The operations that write to the table of users.
    pub data Operation : Type 0 where
      creates : (email password : Text) (name : Option Text) → Operation
      changes_password : (id : ℕ) (password : Text) → Operation
      verifies_email : (id : ℕ) → Operation
      updates : (id : ℕ) (changes : UserChanges) → Operation
      removes : (id : ℕ) → Operation
      sets_up_totp : (id : ℕ) → Operation
      enables_totp : (id : ℕ) (code : Text) → Operation
      disables_totp : (id : ℕ) (code : Text) → Operation
      seeds : Operation

    -- The state after an operation, whether it returns or throws, and after some of them.
    abbrev pub perform : Operation → World sv → World sv
    perform (creates email password name) w = (create_user sv email password name w).1
    perform (changes_password id password) w = (update_password sv id password w).1
    perform (verifies_email id) w = (mark_email_verified sv id w).1
    perform (updates id changes) w = (update_user sv id changes w).1
    perform (removes id) w = (remove_user sv id w).1
    perform (sets_up_totp id) w = (setup sv id w).1
    perform (enables_totp id code) w = (enable sv id code w).1
    perform (disables_totp id code) w = (disable sv id code w).1
    perform seeds w = (seed sv env w).1

    abbrev pub perform_all : List Operation → World sv → World sv
    perform_all [] w = w
    perform_all (o ∷ later) w = perform_all later (perform o w)

    perform-HasUniqueEmails :
        (o : Operation) (w : World sv)
        → HasUniqueEmails (view sv w).users
        → HasUniqueEmails (view sv (perform o w)).users
    perform-HasUniqueEmails (creates email password name) w =
        create_user-Keeps email password name w _ _ refl
    perform-HasUniqueEmails (changes_password id password) w =
        update_password-Keeps id password w _ _ refl
    perform-HasUniqueEmails (verifies_email id) w = mark_email_verified-Keeps id w _ _ refl
    perform-HasUniqueEmails (updates id changes) w = update_user-Keeps id changes w _ _ refl
    perform-HasUniqueEmails (removes id) w = remove_user-Keeps id w _ _ refl
    perform-HasUniqueEmails (sets_up_totp id) w = setup-Keeps id w _ _ refl
    perform-HasUniqueEmails (enables_totp id code) w = enable-Keeps id code w _ _ refl
    perform-HasUniqueEmails (disables_totp id code) w = disable-Keeps id code w _ _ refl
    perform-HasUniqueEmails seeds w = seed-Keeps w _ _ refl

    -- If active accounts have different addresses, then they still do after any sequence of the
    -- operations that write to the table of users, whether these return or throw.
    pub perform_all-HasUniqueEmails :
        (operations : List Operation) (w : World sv)
        → HasUniqueEmails (view sv w).users
        → HasUniqueEmails (view sv (perform_all operations w)).users
    perform_all-HasUniqueEmails [] w unique = unique
    perform_all-HasUniqueEmails (o ∷ later) w unique =
        perform_all-HasUniqueEmails later (perform o w) (perform-HasUniqueEmails o w unique)
