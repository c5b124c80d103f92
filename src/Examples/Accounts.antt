-- ===== src/Examples/Accounts.antt =====
-- The theorems on accounts at concrete requests.
use elysiajs_production_api.Base.{ℕ, ◌≡◌, refl, true, none, some, List, [], ◌∷◌, codes, Any}
use elysiajs_production_api.Errors.{◌>>=◌, try_catch}
use elysiajs_production_api.Schema.{User}
use elysiajs_production_api.Services.{
  World, view, put, key, entry_of, reset_code, mfa_challenge, otp_code, Entries,
}
use elysiajs_production_api.Services.Actions.{
  on, on_users, on_tokens, on_audits, on_cache, read_clock, draw, find_user, update_users,
  delete_tokens, insert_audit, cache_get, cache_set, cache_del, cache_incr,
}
use elysiajs_production_api.Audit.{record_audit}
use elysiajs_production_api.Audit.BestEffort.{SameButAudits}
use elysiajs_production_api.Auth.Accounts.{has_id, find_by_id, find_by_email, update_password}
use elysiajs_production_api.Auth.Accounts.Unique.{HasUniqueEmails}
use elysiajs_production_api.Auth.Tokens.{revoke_all_refresh_tokens}
use elysiajs_production_api.Auth.PasswordReset.{reset, check_reset, apply_reset, match_code}
use elysiajs_production_api.Auth.PasswordReset.Effects.{IsChecked, granted, reset-IsChecked}
use elysiajs_production_api.Auth.Otp.{verify, check_code}
use elysiajs_production_api.Auth.Otp.Checks.{Verdict, verify-Verdict}
use elysiajs_production_api.Auth.Totp.{
  validate_code, enrolled_user, open_challenge, close_challenge, consume_login_challenge,
}
use elysiajs_production_api.Auth.Totp.Challenge.{
  IsAccepted, burnt, remembered, counted, consume_login_challenge-IsAccepted,
}
use elysiajs_production_api.Users.Addresses.Operations.{
  Operation, creates, removes, perform_all, perform_all-HasUniqueEmails,
}
use elysiajs_production_api.Users.{remove_user}
use elysiajs_production_api.Users.Removal.{removed, IsGone, remove_user-removed}
use elysiajs_production_api.Examples.Memory.{memory, memory_table, memory_redis, memory_queue}
use elysiajs_production_api.Examples.Sessions.{ada, start, env}

-- A code, a reset code and a challenge are stored; the digest of the text `c` is 1898.
abbrev keys : Entries
keys =
    put
      (put (put (λ k. none) (key otp_code 1) (some (entry_of 1898 (some 600) 1000000)))
        (key reset_code 1) (some (entry_of 1898 (some 600) 1000000)))
      (key mfa_challenge 1806) (some (entry_of 1 (some 300) 1000000))

abbrev stocked : World memory
unfolding memory memory_table memory_redis memory_queue
stocked = record start { cache = keys }

abbrev after_reset : World memory
unfolding memory memory_table memory_redis memory_queue on on_users on_tokens on_audits on_cache
    find_user update_users delete_tokens insert_audit cache_get cache_incr cache_del read_clock draw
    ◌>>=◌ try_catch reset check_reset match_code apply_reset find_by_email update_password
    revoke_all_refresh_tokens record_audit
after_reset = (reset memory (codes "a@x") (codes "c") (codes "new") stocked).1

reset-IsChecked_example :
    (u : User) × IsChecked memory (codes "a@x") (codes "c") (view memory stocked) u
    × SameButAudits
        (granted memory u.id (codes "new") (view memory stocked))
        (view memory after_reset)
unfolding memory memory_table memory_redis memory_queue on on_users on_tokens on_audits on_cache
    find_user update_users delete_tokens insert_audit cache_get cache_incr cache_del read_clock draw
    ◌>>=◌ try_catch reset check_reset match_code apply_reset find_by_email update_password
    revoke_all_refresh_tokens record_audit
reset-IsChecked_example =
    reset-IsChecked memory (codes "a@x") (codes "c") (codes "new") stocked after_reset tt refl

abbrev after_verify : World memory
unfolding memory memory_table memory_redis memory_queue on on_cache cache_get cache_incr cache_del
    ◌>>=◌ verify check_code
after_verify = (verify memory 1 (codes "c") stocked).1

verify-Verdict_example :
    Verdict memory 1 (codes "c") (view memory stocked) (view memory after_verify) true
unfolding memory memory_table memory_redis memory_queue on on_cache cache_get cache_incr cache_del
    ◌>>=◌ verify check_code
verify-Verdict_example = verify-Verdict memory 1 (codes "c") stocked after_verify true refl

abbrev after_login : World memory
unfolding memory memory_table memory_redis memory_queue on on_users on_cache find_user cache_get
    cache_set cache_incr cache_del read_clock ◌>>=◌ find_by_id validate_code enrolled_user
    open_challenge close_challenge consume_login_challenge
after_login = (consume_login_challenge memory (7 ∷ []) (codes "s") stocked).1

consume_login_challenge-IsAccepted_example :
    (user_id counter : ℕ) × IsAccepted memory
      (memory.sha256 (7 ∷ []))
      (codes "s")
      (view memory stocked)
      user_id
      ada
      counter
    × (view memory after_login
        ≡ burnt memory (memory.sha256 (7 ∷ [])) (
            remembered memory user_id counter
              (counted memory (memory.sha256 (7 ∷ [])) (view memory stocked))))
unfolding memory memory_table memory_redis memory_queue on on_users on_cache find_user cache_get
    cache_set cache_incr cache_del read_clock ◌>>=◌ find_by_id validate_code enrolled_user
    open_challenge close_challenge consume_login_challenge
consume_login_challenge-IsAccepted_example =
    consume_login_challenge-IsAccepted memory (7 ∷ []) (codes "s") stocked after_login ada refl

abbrev after_remove : World memory
unfolding memory memory_table memory_redis memory_queue on on_users on_tokens update_users
    delete_tokens read_clock ◌>>=◌ remove_user revoke_all_refresh_tokens
after_remove = (remove_user memory 1 start).1

remove_user-removed_example :
    Any (λ x. has_id 1 x ≡ true) (view memory start).users
    × (view memory after_remove ≡ removed 1 (view memory start))
    × IsGone 1 (view memory after_remove)
unfolding memory memory_table memory_redis memory_queue on on_users on_tokens update_users
    delete_tokens read_clock ◌>>=◌ remove_user revoke_all_refresh_tokens
remove_user-removed_example = remove_user-removed memory 1 start after_remove tt refl

-- An account is created, its address is taken again, and ada is removed and registers anew.
abbrev registrations : List (Operation memory env)
registrations =
    creates (codes "b@x") (codes "pw") none
    ∷ creates (codes "b@x") (codes "qw") none
    ∷ removes 1
    ∷ creates (codes "a@x") (codes "pw") none
    ∷ []

perform_all-HasUniqueEmails_example :
    HasUniqueEmails (view memory (perform_all memory env registrations start)).users
unfolding memory memory_table
perform_all-HasUniqueEmails_example =
    perform_all-HasUniqueEmails memory env registrations start (tt, tt)
