-- ===== src/Routes/UserRoutes.antt =====
-- src/modules/user/index.ts: the routes of users, behind the permission guard `can`.
pub mod Updates
use elysiajs_production_api.Base.{
  ℕ, Bool, true, false, ◌&&◌, not, Option, none, some, List, [], ◌∷◌, String, Text, codes, is_some,
  if◌then◌else◌,
}
use elysiajs_production_api.Errors.{forbidden, Call, pure, ◌>>=◌, ◌>>◌}
use elysiajs_production_api.Calls.{require}
use elysiajs_production_api.Permissions.{Role, read, update, delete, Scope, all, own}
use elysiajs_production_api.Config.{Env}
use elysiajs_production_api.Services.{Services, World}
use elysiajs_production_api.Guards.{Grant, can}
use elysiajs_production_api.Jwt.{role_text}
use elysiajs_production_api.Requests.{Request, client_ip}
use elysiajs_production_api.Audit.{record_audit}
use elysiajs_production_api.Users.{
  PublicUser, UserChanges, list_users, get_by_id, update_user, remove_user,
}
use elysiajs_production_api.Routes.Protected.{Answer, protect}

abbrev pub is_all : Scope → Bool
is_all all = true
is_all own = false

abbrev pub role_metadata : Option Role → Option (List (String × Text))
role_metadata none = none
role_metadata (some r) = some (("role", role_text r) ∷ [])

module _ (sv : Services) (env : Env) where
  -- With scope `own` the list holds the requester alone.
  unfoldable pub list_handler : ℕ → ℕ → Grant → Call (World sv) (List PublicUser)
  list_handler limit offset g =
      if is_all g.scope
      then list_users sv limit offset none
      else list_users sv limit offset (some g.user.sub)

  -- Only a grant of scope `all` may change a role; a change of role is audited.
  unfoldable pub update_handler : Request → ℕ → UserChanges → Grant → Call (World sv) PublicUser
  update_handler request id changes g = do
    require (not (not (is_all g.scope) && is_some changes.role))
        (forbidden "Only admins can change roles")
    updated ← update_user sv id changes
    if is_some changes.role
        then (do
          record_audit sv (record {
            action = "user.role_changed";
            actor_id = some g.user.sub;
            target_type = some "user";
            target_id = some id;
            metadata = role_metadata changes.role;
            ip = some (client_ip env request);
          })
          pure updated)
        else pure updated

  unfoldable pub delete_handler : Request → ℕ → Grant → Call (World sv) (Unit {0})
  delete_handler request id g = do
    remove_user sv id
    record_audit sv (record {
      action = "user.deleted";
      actor_id = some g.user.sub;
      target_type = some "user";
      target_id = some id;
      metadata = none;
      ip = some (client_ip env request);
    })

  unfoldable pub get_users : Option Text → ℕ → ℕ → Call (World sv) (Answer (List PublicUser))
  unfolding list_handler protect
  get_users bearer limit offset =
      protect (can sv env (codes "user") read none bearer) (list_handler limit offset)

  unfoldable pub get_user : Option Text → ℕ → Call (World sv) (Answer PublicUser)
  unfolding protect
  get_user bearer id =
      protect (can sv env (codes "user") read (some (some id)) bearer) (λ g. get_by_id sv id)

  unfoldable pub patch_user :
      Request → Option Text → ℕ → UserChanges → Call (World sv) (Answer PublicUser)
  unfolding update_handler protect
  patch_user request bearer id changes =
      protect (can sv env (codes "user") update (some (some id)) bearer)
        (update_handler request id changes)

  unfoldable pub delete_user : Request → Option Text → ℕ → Call (World sv) (Answer (Unit {0}))
  unfolding delete_handler protect
  delete_user request bearer id =
      protect (can sv env (codes "user") delete (some (some id)) bearer) (delete_handler request id)
