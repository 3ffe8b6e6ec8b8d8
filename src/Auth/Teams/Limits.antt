-- ===== src/Auth/Teams/Limits.antt =====
-- auth/teams.py `create_team`: what the rate limits and the router read of a new team.
use commandclaw_gateway.Prelude.{
  String, ◌≡◌, ◌≢◌, refl, ◌∙◌, Option, none, some, List, [], ◌∷◌, if◌then◌else◌, lookup, is_empty,
  ok, raise, value_error, int, eq-false_of_ne,
}
use commandclaw_gateway.Floats.{Floats}
use commandclaw_gateway.Redis.{Redis, IsLawful}
use commandclaw_gateway.Schemas.{IdentityContext}
use commandclaw_gateway.Auth.Teams.{
  TeamCodec, TeamRequest, team_key, team_data, create_team, list_text,
}
use commandclaw_gateway.Middleware.RateLimiter.{Clock, Request, limits_of_team}
use commandclaw_gateway.Middleware.Limits.{Headers, limit_field}
use commandclaw_gateway.Routing.Router.{World, team_regions}

module _ (F : Floats) (C : TeamCodec F) (R : Redis) (L : IsLawful R) (team : String)
    (q : TeamRequest F C R) (now : F.Float) (s : R.State) where
  -- The server after the team has been created.
  abbrev pub created : R.State
  created = (create_team F C R team q now s).1

  lookup-created :
      (field value : String)
      → lookup field (team_data F C R team q now) ≡ some value
      → lookup field (R.hgetall (team_key team) created) ≡ some value
  unfolding create_team
  lookup-created field value e =
      L.hgetall-hset (team_key team) field (team_data F C R team q now) s ∙ rw e refl

  -- A team that is created without a limit of requests has the empty text for it, which is no number:
  -- the rate limits of each request of the team raise a ValueError.
  pub create_team-raises :
      (identity : IdentityContext F.Float) (clock : Clock F R) (request : Request F R)
      (headers : Headers R)
      → q.rpm_limit ≡ none
      → limits_of_team F R identity clock request team headers created ≡ raise value_error
  unfolding limits_of_team limit_field
  create_team-raises identity clock request headers unlimited =
      rw (lookup-created "rpm_limit" "" (unfold team_data lookup in rw unlimited refl), limit_field)
        (unfold int in refl)

  -- The regions that a team is created with are those that the router reads for its members, if
  -- `json` reads the text that it has written for them.
  pub create_team-regions :
      (W : World F R) (identity : IdentityContext F.Float) (regions : List String)
      → C.dumps regions ≢ ""
      → W.loads (C.dumps regions) ≡ some regions
      → identity.team_id ≡ some team
      → team ≢ ""
      → q.allowed_regions ≡ some regions
      → regions ≢ []
      → team_regions F R W created identity ≡ ok (some regions)
  unfolding team_regions
  create_team-regions W identity regions some_text readable member named allowed some_region =
      let stored =
        lookup-created "allowed_regions" (C.dumps regions)
          (unfold team_data lookup list_text in rw allowed (nonempty regions some_region)) in
      rw member (
        rw (eq-false_of_ne team "" named)
          (rw stored (rw (eq-false_of_ne (C.dumps regions) "" some_text) (rw readable refl))))
    where
      nonempty :
          (xs : List String)
          → xs ≢ []
          → ◌≡◌ {A = Option String}
              (some (if is_empty xs then "" else C.dumps xs))
              (some (C.dumps xs))
      nonempty [] h = absurd (h refl)
      nonempty (x ∷ xs) h = unfold is_empty in refl
