-- ===== src/Auth/Gate.antt =====
-- auth/middleware.py: which requests reach a handler. The check of a token (auth/jwt_auth.py, by the
-- PyJWT library) is a parameter.
pub mod Genuine
use commandclaw_gateway.Prelude.{
  ℕ, String, Bool, true, false, not, ◌&&◌, ◌||◌, Option, none, some, List, [], ◌∷◌, ◌==◌,
  if◌then◌else◌, contains, starts_with, strip, rstrip_slash, drop_chars, Try, ok, raise, ◌>>=◌,
}
use commandclaw_gateway.Floats.{Floats}
use commandclaw_gateway.Redis.{Redis}
use commandclaw_gateway.Schemas.{IdentityContext, no_metadata}
use commandclaw_gateway.Auth.Rbac.{check_rbac}
use commandclaw_gateway.Auth.VirtualKeys.{Codec, validate_key}

abbrev pub public_paths : List String
public_paths =
    "/health" ∷ "/health/readiness" ∷ "/health/liveliness" ∷ "/metrics" ∷ "/" ∷ "/docs"
    ∷ "/openapi.json" ∷ []

-- A request: its method and path, and two headers, `""` where they are missing.
pub record HttpRequest : Type 0 where
  pub method : String
  pub path : String
  pub authorization : String
  pub x_api_key : String

-- `none` and the empty key are both a missing key.
unfoldable pub extract_key : HttpRequest → String
extract_key q =
    if starts_with q.authorization "Bearer "
    then strip (drop_chars 7 q.authorization)
    else if q.x_api_key == ""
    then ""
    else strip q.x_api_key

unfoldable pub is_admin_path : String → Bool
is_admin_path path =
    starts_with path "/key/"
    || starts_with path "/user/"
    || starts_with path "/spend/"
    || starts_with path "/cache/"
    || starts_with path "/team/"
    || starts_with path "/org/"
    || starts_with path "/audit/"
    || starts_with path "/global/"

-- `request.url.path.rstrip("/") or "/"`
unfoldable pub route_path : HttpRequest → String
route_path q = let path = rstrip_slash q.path in if path == "" then "/" else path

-- What becomes of a request: it reaches a handler without an identity or with one, or it is answered
-- with status 401, 401 or 403.
pub data Admission (F : Type 0) : Type 0 where
  public_request : Admission F
  admitted : IdentityContext F → Admission F
  missing_key : Admission F
  invalid_key : Admission F
  denied : String → Admission F

module _ (F : Floats) (C : Codec F) (R : Redis) where
  pub record Settings : Type 0 where
    pub gateway_master_key : String
    pub auth_strategy : String
    pub validate_jwt : String → Try (Option (IdentityContext F.Float))

  abbrev pub master : IdentityContext F.Float
  master = record {
    key_id = "master";
    user_id = "admin";
    team_id = none;
    org_id = none;
    key_alias = none;
    user_role = "proxy_admin";
    model_allowlist = none;
    max_budget = none;
    budget_duration = none;
    budget_remaining = F.inf;
    rpm_limit = none;
    tpm_limit = none;
    max_parallel_requests = none;
    guardrail_policy = none;
    region_constraint = none;
    metadata = no_metadata;
  }

  -- `if identity is None: identity = await validate_key(raw_key)`
  or_virtual :
      String
      → F.Float
      → R.State
      → Option (IdentityContext F.Float)
      → Try (Option (IdentityContext F.Float))
  or_virtual raw_key now s (some identity) = ok (some identity)
  or_virtual raw_key now s none = validate_key F C R raw_key now s

  unfoldable pub authenticate :
      Settings → String → F.Float → R.State → Try (Option (IdentityContext F.Float))
  unfolding or_virtual
  authenticate c raw_key now s =
      if raw_key == c.gateway_master_key
      then ok (some master)
      else if c.auth_strategy == "jwt"
      then c.validate_jwt raw_key >>= or_virtual raw_key now s
      else validate_key F C R raw_key now s

  -- An administrative path with a method other than GET, HEAD and OPTIONS.
  unfoldable pub needs_role : String → String → Bool
  unfolding contains is_admin_path
  needs_role method path =
      is_admin_path path && not (contains ("GET" ∷ "HEAD" ∷ "OPTIONS" ∷ []) method)

  by_verdict : IdentityContext F.Float → Option String → Admission F.Float
  by_verdict identity none = admitted identity
  by_verdict identity (some reason) = denied reason

  unfoldable pub authorize : String → String → Option (IdentityContext F.Float) → Admission F.Float
  unfolding needs_role by_verdict
  authorize method path none = invalid_key
  authorize method path (some identity) =
      if needs_role method path
      then by_verdict identity (check_rbac identity method path)
      else admitted identity

  unfoldable pub dispatch : Settings → HttpRequest → F.Float → R.State → Try (Admission F.Float)
  unfolding contains route_path extract_key authenticate authorize
  dispatch c q now s =
      let path = route_path q in
      let raw_key = extract_key q in
      if contains public_paths path
      then ok public_request
      else if raw_key == ""
      then ok missing_key
      else authenticate c raw_key now s >>= λ identity. ok (authorize q.method path identity)
