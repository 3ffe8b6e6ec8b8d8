-- ===== src/Tests/Teams.antt =====
-- Runs of auth/teams.py and auth/audit.py.
use commandclaw_gateway.Prelude.{
  ℕ, String, ◌≡◌, refl, false, Option, none, some, List, [], ◌∷◌, take, drop, arith, raise,
  value_error, ok, ◌==◌, if◌then◌else◌, ne_of_eq-false,
}
use commandclaw_gateway.Floats.Naturals.{naturals}
use commandclaw_gateway.Redis.Memory.{Memory, memory, memory-IsLawful, empty}
use commandclaw_gateway.Schemas.{IdentityContext}
use commandclaw_gateway.Auth.Teams.{TeamCodec, TeamRequest}
use commandclaw_gateway.Auth.Teams.Limits.{created, create_team-raises, create_team-regions}
use commandclaw_gateway.Auth.Audit.{Event, Query, get_audit_logs, audit_log_key}
use commandclaw_gateway.Auth.Audit.Queried.{Filtered, readable, get_audit_logs_lem}
use commandclaw_gateway.Middleware.RateLimiter.{Clock, Request, limits_of_team}
use commandclaw_gateway.Routing.Router.{World, team_regions}
use commandclaw_gateway.Tests.{user, world}

-- Lists of regions are written as one text, which is read as that list.
abbrev team_codec : TeamCodec naturals
team_codec = record {
  Metadata = String;
  dumps = λ xs. "list";
  dump_metadata = λ metadata. metadata;
  dump_members = λ members. "[]";
  load_members = λ text. some [];
}

abbrev unlimited_team : TeamRequest naturals team_codec memory
unlimited_team = record {
  name = "t1";
  org_id = none;
  max_budget = none;
  budget_duration = none;
  rpm_limit = none;
  tpm_limit = none;
  model_allowlist = none;
  guardrail_policy = none;
  allowed_regions = some ("eu" ∷ []);
  metadata = "{}";
}

abbrev team_clock : Clock naturals memory
team_clock = record { now_ms = 70000; now = 70; today = "20250101"; month = "202501" }

abbrev team_question : Request naturals memory
team_question = record { model = "gpt"; tokens = 10; request_id = "r1"; cache_hit = false }

create_team-raises_example :
    limits_of_team naturals memory user team_clock team_question "t1" []
      (created naturals team_codec memory memory-IsLawful "t1" unlimited_team 0 empty)
    ≡ raise value_error
create_team-raises_example =
    create_team-raises naturals team_codec memory memory-IsLawful "t1" unlimited_team 0 empty user
      team_clock team_question [] refl

abbrev member : IdentityContext ℕ
member = record user { team_id = some "t1" }

abbrev reading_world : World naturals memory
reading_world = record world { loads = λ text. some ("eu" ∷ []) }

create_team-regions_example :
    team_regions naturals memory reading_world
      (created naturals team_codec memory memory-IsLawful "t1" unlimited_team 0 empty)
      member
    ≡ ok (some ("eu" ∷ []))
create_team-regions_example =
    create_team-regions naturals team_codec memory memory-IsLawful "t1" unlimited_team 0 empty
      reading_world member ("eu" ∷ []) (ne_of_eq-false "list" "" refl) refl refl
      (ne_of_eq-false "t1" "" refl) refl (λ e. cc)

-- Two events, and a reader for the texts that name them.
abbrev read_event : String → Option Event
read_event text =
    if text == "a"
    then some (record {
      action = "key.block";
      actor_id = "admin";
      resource_type = "key";
      resource_id = "k1";
    })
    else if text == "b"
    then some (record {
      action = "team.create";
      actor_id = "admin";
      resource_type = "team";
      resource_id = "t1";
    })
    else none

abbrev key_query : Query
key_query = record {
  resource_type = some "key";
  resource_id = none;
  actor_id = none;
  action = none;
  limit = 1;
  offset = 0;
}

abbrev two_events : Memory
two_events = memory.lpush audit_log_key "a" (memory.lpush audit_log_key "b" empty)

get_audit_logs_lem_example :
    (answers : List Event) × Filtered key_query
      (readable
        (λ e. "")
        read_event
        memory
        key_query
        (take 6 (memory.lrange audit_log_key two_events)))
      answers
    × (get_audit_logs (λ e. "") read_event memory key_query two_events ≡ take 1 (drop 0 answers))
get_audit_logs_lem_example =
    get_audit_logs_lem (λ e. "") read_event memory key_query two_events (omega arith)
