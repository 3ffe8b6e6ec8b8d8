-- ===== src/Tests/Auth.antt =====
-- Runs of auth/.
use commandclaw_gateway.Prelude.{
  ne_of_eq-false, String, ◌≢◌, true, false, [], ◌∷◌, ok, contains, clash, ==-clash, strip,
  drop_chars, rstrip_slash, ℕ, lookup, ◌≡◌, refl, none, some,
}
use commandclaw_gateway.Floats.Naturals.{naturals}
use commandclaw_gateway.Auth.Rbac.{level, check_rbac, most_specific, applies, deny_below}
use commandclaw_gateway.Auth.Rbac.Specific.{IsJustified, check_rbac-IsJustified}
use commandclaw_gateway.Redis.Memory.{Memory, memory, memory-IsLawful, empty}
use commandclaw_gateway.Schemas.{no_metadata}
use commandclaw_gateway.Auth.VirtualKeys.{Codec, hash_entry, key_entry, validate_key}
use commandclaw_gateway.Auth.KeyChanges.{block_key, unblock_key, delete_key}
use commandclaw_gateway.Auth.KeyChanges.Revoked.{IsProper, block_key-reports, delete_key-invalid}
use commandclaw_gateway.Auth.Budgets.{key_level, user_level, team_level, org_level, check_budget}
use commandclaw_gateway.Auth.Budgets.Covered.{IsBelow, IsCovered, check_budget-IsCovered}
use commandclaw_gateway.Auth.Gate.{
  HttpRequest, Settings, extract_key, route_path, public_paths, needs_role, dispatch, admitted,
  invalid_key, master,
}
use commandclaw_gateway.Auth.Gate.Genuine.{IsGenuine, dispatch-IsGenuine, dispatch-blocked}
use commandclaw_gateway.Tests.{user}

check_rbac-IsJustified_example :
    IsJustified user "POST" "/key/block" (check_rbac user "POST" "/key/block")
check_rbac-IsJustified_example = check_rbac-IsJustified user "POST" "/key/block"

generate_allowed : check_rbac user "POST" "/key/generate" ≡ none
unfolding check_rbac level most_specific applies deny_below lookup
generate_allowed = refl

-- A hash that keeps the key, and readers that find nothing.
abbrev codec : Codec naturals
codec = record {
  hash_key = λ key. key;
  dumps = λ models. "";
  loads = λ text. none;
  dump_metadata = λ metadata. "{}";
  load_metadata = λ text. some no_metadata;
}

abbrev gate : Settings naturals codec memory
gate = record {
  gateway_master_key = "sk-master";
  auth_strategy = "api_key";
  validate_jwt = λ token. ok none;
}

abbrev blocking : HttpRequest
blocking = record {
  method = "POST";
  path = "/key/block/";
  authorization = "Bearer sk-master";
  x_api_key = "";
}

master_admitted :
    dispatch naturals codec memory gate blocking 0 empty
    ≡ ok (admitted (master naturals codec memory))
unfolding dispatch check_rbac level lookup contains strip drop_chars rstrip_slash
master_admitted = refl

dispatch-IsGenuine_example :
    (extract_key blocking ≢ "")
    × IsGenuine naturals codec memory gate
        (extract_key blocking)
        0
        empty
        (master naturals codec memory)
    × (needs_role naturals codec memory "POST" (route_path blocking) ≡ true
        → check_rbac (master naturals codec memory) "POST" (route_path blocking) ≡ none)
dispatch-IsGenuine_example =
    dispatch-IsGenuine naturals codec memory gate blocking 0 empty (master naturals codec memory)
      master_admitted

abbrev asking : HttpRequest
asking = record {
  method = "POST";
  path = "/v1/chat/completions";
  authorization = "";
  x_api_key = "sk-1";
}

-- A server that knows one key.
abbrev one_key : Memory
one_key =
    memory.set (hash_entry "sk-1") "k1"
      (memory.hset (key_entry "k1") (("key_hash", "sk-1") ∷ ("is_blocked", "0") ∷ []) empty).1

k1-IsProper : IsProper "k1"
unfolding clash
k1-IsProper h = ==-clash "gateway:vk:hash:" "gateway:vk:k1" h "" refl

not_public : contains public_paths (route_path asking) ≡ false
unfolding contains route_path rstrip_slash
not_public = refl

key_named : extract_key asking ≢ ""
unfolding extract_key strip
key_named = ne_of_eq-false (extract_key asking) "" refl

key_not_master : extract_key asking ≢ "sk-master"
unfolding extract_key strip
key_not_master = ne_of_eq-false (extract_key asking) "sk-master" refl

key_known : memory.get (hash_entry (extract_key asking)) one_key ≡ some "k1"
unfolding extract_key strip
key_known = refl

dispatch-blocked_example :
    dispatch naturals codec memory gate asking 0 (block_key memory "k1" one_key).1 ≡ ok invalid_key
dispatch-blocked_example =
    dispatch-blocked naturals codec memory gate memory-IsLawful asking "k1" 0 one_key (λ e. cc)
      not_public key_named key_not_master k1-IsProper key_known

delete_key-invalid_example :
    validate_key naturals codec memory "sk-1" 0 (delete_key memory "k1" one_key).1 ≡ ok none
delete_key-invalid_example =
    delete_key-invalid naturals codec memory memory-IsLawful "sk-1" "k1" 0 one_key k1-IsProper refl

block_key-reports_example :
    ((v : String)
      → lookup "is_blocked" (memory.hgetall (key_entry "k1") one_key) ≡ some v
      → ((block_key memory "k1" one_key).0 ≡ false) × ((unblock_key memory "k1" one_key).0 ≡ false))
    × (lookup "is_blocked" (memory.hgetall (key_entry "k1") one_key) ≡ none
        → ((block_key memory "k1" one_key).0 ≡ true) × ((unblock_key memory "k1" one_key).0 ≡ true))
block_key-reports_example = block_key-reports memory memory-IsLawful "k1" one_key

within_budget : check_budget naturals memory user 1 empty ≡ ok none
unfolding check_budget lookup
within_budget = refl

check_budget-IsCovered_example :
    ((limit : ℕ)
      → user.max_budget ≡ some limit
      → IsBelow naturals memory key_level "k1" 1 empty limit)
    × IsCovered naturals memory user_level "u1" 1 empty
    × IsCovered naturals memory team_level "" 1 empty
    × IsCovered naturals memory org_level "" 1 empty
check_budget-IsCovered_example = check_budget-IsCovered naturals memory user 1 empty within_budget
