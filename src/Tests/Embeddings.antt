-- ===== src/Tests/Embeddings.antt =====
-- A run of a request for embeddings.
use commandclaw_gateway.Prelude.{
  String, ◌≡◌, refl, none, [], Try, ok, lookup, contains, is_empty, keep_try, keep, insert, str,
  nat,
}
use commandclaw_gateway.Floats.Naturals.{naturals}
use commandclaw_gateway.Redis.Memory.{memory, empty, held}
use commandclaw_gateway.Config.{get_deployments_for_model}
use commandclaw_gateway.Routing.Cooldowns.{is_cooled_down}
use commandclaw_gateway.Routing.Strategies.{filter_by_region, constraint_of}
use commandclaw_gateway.Routing.Router.{
  select_deployment, get_upstream_remaining, team_regions, forbidden,
}
use commandclaw_gateway.Middleware.RateLimiter.{check_and_increment_rate_limit}
use commandclaw_gateway.Auth.Budgets.{check_budget}
use commandclaw_gateway.Routes.Embeddings.{
  Query, responded, Remote, Reply, Result, answered, failed, embeddings,
}
use commandclaw_gateway.Routes.Embeddings.Charged.{AllTell, embeddings-Tells}
use commandclaw_gateway.Tests.{user, config, world}
use commandclaw_gateway.Tests.Completions.{clock, dump, log}

abbrev remote : Remote naturals memory world String
remote = record { prepare = λ d. none; fetch = λ d. responded 200 "v"; usage = λ v. none }

abbrev query : Query
query = record { model = "gpt"; estimated_tokens = 10; request_id = "r1"; log_id = "l1" }

abbrev result : Result naturals memory world String
result = embeddings naturals memory world String remote config [] dump user clock query empty

embeddings-Tells_example :
    AllTell naturals memory world String remote config [] dump user clock query empty
      (embeddings naturals memory world String remote config [] dump user clock query empty)
embeddings-Tells_example =
    embeddings-Tells naturals memory world String remote config [] dump user clock query empty

abbrev reply_of : Result naturals memory world String → Reply naturals memory world String
reply_of (ok (r, s)) = r
reply_of (Try.raise e) = failed

v_is_answered : reply_of result ≡ answered "v" log
unfolding embeddings check_and_increment_rate_limit check_budget select_deployment
    get_deployments_for_model is_cooled_down held is_empty filter_by_region constraint_of contains
    keep_try get_upstream_remaining team_regions forbidden lookup keep insert str nat
v_is_answered = refl
