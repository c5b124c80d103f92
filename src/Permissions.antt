-- ===== src/Permissions.antt =====
-- src/lib/permissions.ts: a role's grants, and the scope that they give for a model and an operation.
-- Permissions are texts, `<model>:<operation>:<scope>`, as in the source.
pub mod Scopes
use elysiajs_production_api.Base.{
  Bool, Option, none, some, List, [], ◌∷◌, ◌++◌, Text, codes, mem_text, if◌then◌else◌,
}

pub data Role : Type 0 where
  user admin : Role

pub data Operation : Type 0 where
  create read update delete : Operation

pub data Scope : Type 0 where
  all own : Scope

abbrev pub operation_text : Operation → Text
operation_text create = codes "create"
operation_text read = codes "read"
operation_text update = codes "update"
operation_text delete = codes "delete"

-- What a role is granted: everything ("*"), or a list of permissions.
pub data Grants : Type 0 where
  everything : Grants
  listed : List Text → Grants

-- `ROLE_PERMISSIONS`
abbrev pub role_permissions : Role → Grants
role_permissions admin = everything
role_permissions user =
    listed (codes "user:read:own" ∷ codes "user:update:own" ∷ codes "user:delete:own" ∷ [])

-- The template text `${model}:${operation}:` and a scope.
abbrev pub permission : Text → Operation → Text → Text
permission model op scope = model ++ (codes ":" ++ (operation_text op ++ (codes ":" ++ scope)))

abbrev pub scope_of : Grants → Text → Operation → Option Scope
scope_of everything model op = some all
scope_of (listed grants) model op =
    if mem_text (permission model op (codes "all")) grants
    then some all
    else if mem_text (permission model op (codes "own")) grants
    then some own
    else none

unfoldable pub resolve_scope : Role → Text → Operation → Option Scope
resolve_scope role = scope_of (role_permissions role)
