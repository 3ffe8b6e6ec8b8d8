-- ===== src/Routing/Latency.antt =====
-- routing/strategies.py: the latencies of a deployment in the last five minutes, and their median.
-- Times are whole seconds, and a latency is printed by `str` of a float.
use commandclaw_gateway.Prelude.{
  ℕ, zero, suc, ◌+◌, ◌-◌, ◌/◌, String, Option, none, some, List, [], ◌∷◌, ◌==◌, leb, if◌then◌else◌,
  keep, length, str, ◌<>◌,
}
use commandclaw_gateway.Floats.{Floats}
use commandclaw_gateway.Redis.{Redis}

abbrev pub latency_key : String → String
latency_key deployment_id = "gateway:latency:" <> deployment_id

abbrev pub latency_window : ℕ
latency_window = 300

-- The text up to the first colon, and the text behind it if there is one.
until_colon : String → String
until_colon String.[] = String.[]
until_colon (String.◌∷◌ c s) =
    let rest = until_colon s in
    if (String.◌∷◌ c String.[]) == ":" then String.[] else String.◌∷◌ c rest

behind_colon : String → Option String
behind_colon String.[] = none
behind_colon (String.◌∷◌ c s) =
    let rest = behind_colon s in if (String.◌∷◌ c String.[]) == ":" then some s else rest

-- `parts[1]` of `member.split(":")`, if there are two parts.
unfoldable pub second_part : String → Option String
unfolding until_colon behind_colon
second_part s = elim (behind_colon s) [ none ↦ none | some t ↦ some (until_colon t) ]

module _ (F : Floats) (R : Redis) where
  -- `zremrangebyscore(key, 0, now - LATENCY_WINDOW)` removes nothing before the window has passed.
  unfoldable pub record_latency : String → F.Float → ℕ → R.State → R.State
  record_latency deployment_id latency_ms now s =
      let key = latency_key deployment_id in
      let s' = R.zadd key now (str now <> ":" <> F.print latency_ms) s in
      R.expire key (latency_window + 60)
        (if leb latency_window now then R.zremrangebyscore key (now - latency_window) s' else s')

  -- `float(parts[1])` of the members that have one; the others are passed over.
  parsed : List (String × ℕ) → List F.Float
  unfolding second_part
  parsed [] = []
  parsed ((m, score) ∷ ms) = elim (second_part m) [
    | none ↦ parsed ms
    | some t ↦ elim (F.parse t) [ none ↦ parsed ms | some x ↦ x ∷ parsed ms ]
  ]

  insert_float : F.Float → List F.Float → List F.Float
  insert_float x [] = x ∷ []
  insert_float x (y ∷ ys) =
      let rest = insert_float x ys in if F.lt y x then y ∷ rest else x ∷ y ∷ ys

  -- `latencies.sort()`
  unfoldable pub sorted : List F.Float → List F.Float
  unfolding insert_float
  sorted [] = []
  sorted (x ∷ xs) = insert_float x (sorted xs)

  unfoldable pub nth_float : ℕ → List F.Float → Option F.Float
  nth_float n [] = none
  nth_float zero (x ∷ xs) = some x
  nth_float (suc n) (x ∷ xs) = nth_float n xs

  -- `latencies[len(latencies) // 2]`
  unfoldable pub get_p50_latency : String → ℕ → R.State → Option F.Float
  unfolding parsed sorted nth_float keep
  get_p50_latency deployment_id now s =
      let members =
        keep (λ (p : String × ℕ). leb (now - latency_window) p.1)
          (R.zrange (latency_key deployment_id) s) in
      let latencies = sorted (parsed members) in nth_float (length latencies / 2) latencies
