-- ===== src/Auth/Rbac.antt =====
-- auth/rbac.py: the role needed for an operation, and the upper bounds on generated keys.
pub mod Specific
pub mod Bounds
use Prim.Native.String.{len}
use commandclaw_gateway.Prelude.{
  ℕ, String, Bool, true, false, Option, none, some, List, [], ◌∷◌, ◌==◌, ltb, leb, if◌then◌else◌,
  starts_with, lookup, ◌<>◌, ◌&&◌,
}
use commandclaw_gateway.Floats.{Floats}
use commandclaw_gateway.Schemas.{IdentityContext}

abbrev pub role_hierarchy : List (String × ℕ)
role_hierarchy = ("proxy_admin", 3) ∷ ("team_admin", 2) ∷ ("internal_user", 1) ∷ []

-- `ROLE_HIERARCHY.get(role, 1)`
unfoldable pub level : String → ℕ
unfolding lookup
level role = elim (lookup role role_hierarchy) [ none ↦ 1 | some n ↦ n ]

pub record Permission : Type 0 where
  pub method : String
  pub path_prefix : String
  pub min_role : String

abbrev permission : String → String → String → Permission
permission m p r = record { method = m; path_prefix = p; min_role = r }

abbrev pub endpoint_permissions : List Permission
endpoint_permissions =
    permission "POST" "/key/generate" "internal_user"
    ∷ permission "POST" "/key/block" "team_admin"
    ∷ permission "POST" "/key/unblock" "team_admin"
    ∷ permission "DELETE" "/key/" "team_admin"
    ∷ permission "PATCH" "/key/" "team_admin"
    ∷ permission "POST" "/key/" "team_admin"
    ∷ permission "POST" "/team/new" "proxy_admin"
    ∷ permission "DELETE" "/team/" "proxy_admin"
    ∷ permission "PATCH" "/team/" "team_admin"
    ∷ permission "POST" "/org/new" "proxy_admin"
    ∷ permission "DELETE" "/org/" "proxy_admin"
    ∷ permission "PATCH" "/org/" "proxy_admin"
    ∷ permission "POST" "/global/spend/reset" "proxy_admin"
    ∷ permission "DELETE" "/cache/" "team_admin"
    ∷ []

-- `(allowed, reason)`: `none` where the operation is allowed.
abbrev pub Verdict : Type 0
Verdict = Option String

unfoldable pub applies : String → String → Permission → Bool
applies method path p = method == p.method && starts_with path p.path_prefix

-- The loop over the table: the role of the longest prefix so far, and that length.
unfoldable pub most_specific : String → String → List Permission → Option String → ℕ → Option String
unfolding applies
most_specific method path [] role n = role
most_specific method path (p ∷ ps) role n =
    let better = applies method path p && ltb n (len p.path_prefix) in
    most_specific method path ps (if better then some p.min_role else role)
      (if better then len p.path_prefix else n)

-- `if matched_role: …`, for a user of the level given.
unfoldable pub deny_below : ℕ → String → String → String → Option String → Verdict
deny_below user_level role method path none = none
deny_below user_level role method path (some min_role) =
    if min_role == ""
    then none
    else if ltb user_level (level min_role)
    then some (
        "Role '" <> role <> "' cannot perform " <> method <> " " <> path <> " (requires '"
        <> min_role <> "')")
    else none

module _ {F : Type 0} where
  unfoldable pub check_rbac : IdentityContext F → String → String → Verdict
  check_rbac identity method path =
      if leb 3 (level identity.user_role)
      then none
      else deny_below (level identity.user_role) identity.user_role method path
          (most_specific method path endpoint_permissions none 0)
