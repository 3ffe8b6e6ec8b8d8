-- ===== src/Middleware/Streaming.antt =====
-- middleware/cache.py: the assembly of a stream, and a cached response that is sent as one. The list
-- of the chunks themselves, which nothing reads, is left out.
pub mod RoundTrip
pub mod Fields
use commandclaw_gateway.Prelude.{
  ℕ, zero, suc, ◌+◌, String, Bool, true, false, not, ◌&&◌, Option, none, some, List, [], ◌∷◌, ◌++◌,
  ◌==◌, nat_eq, if◌then◌else◌, keep, contains, is_empty, lookup, truthy, starts_with, ◌<>◌,
  drop_chars, Try, ok, raise,
}
use commandclaw_gateway.Floats.{Floats}
use commandclaw_gateway.Redis.{Redis}
use commandclaw_gateway.Config.{CacheSettings}
use commandclaw_gateway.Auth.VirtualKeys.{text_or}
use commandclaw_gateway.Middleware.MemoryCache.{MemoryCache, get, set}

-- What the gateway reads of a chunk of a stream.
pub record Chunk (T U : Type 0) : Type 0 where
  pub id : Option String
  pub has_choice : Bool
  pub content : Option String
  pub tool_calls : List T
  pub finish_reason : Option String
  pub usage : Option U

-- The state of a `StreamingCacheAssembler`.
pub record Assembler (T U : Type 0) : Type 0 where
  pub full_content : String
  pub tool_calls : List T
  pub usage : Option U
  pub response_id : String
  pub finish_reason : Option String

-- `content[:n]`
unfoldable pub take_chars : ℕ → String → String
take_chars zero s = String.[]
take_chars (suc n) String.[] = String.[]
take_chars (suc n) (String.◌∷◌ c s) = String.◌∷◌ c (take_chars n s)

-- `content[i:i + 20] for i in range(0, len(content), 20)`; the fuel is at least the length.
unfoldable pub pieces : ℕ → String → List String
unfolding take_chars drop_chars
pieces zero s = []
pieces (suc fuel) String.[] = []
pieces (suc fuel) (String.◌∷◌ c s) =
    take_chars 20 (String.◌∷◌ c s) ∷ pieces fuel (drop_chars 20 (String.◌∷◌ c s))

module _ {T U : Type 0} where
  unfoldable pub new_assembler : Assembler T U
  new_assembler = record {
    full_content = "";
    tool_calls = [];
    usage = none;
    response_id = "";
    finish_reason = none;
  }

  unfoldable pub take_choice : Chunk T U → Assembler T U → Assembler T U
  take_choice c a =
      if c.has_choice
      then record a {
        full_content = a.full_content <> text_or "" c.content;
        tool_calls = a.tool_calls ++ c.tool_calls;
        finish_reason = if truthy c.finish_reason then c.finish_reason else a.finish_reason;
      }
      else a

  unfoldable pub add_chunk : Assembler T U → Chunk T U → Assembler T U
  unfolding take_choice
  add_chunk a c =
      let b = take_choice c a in
      record b {
        response_id = if a.response_id == "" then text_or "" c.id else a.response_id;
        usage = elim c.usage [ none ↦ a.usage | some u ↦ some u ];
      }

  unfoldable pub add_chunks : Assembler T U → List (Chunk T U) → Assembler T U
  unfolding add_chunk
  add_chunks a [] = a
  add_chunks a (c ∷ cs) = add_chunks (add_chunk a c) cs

  delta : String → Option String → List T → Option String → Chunk T U
  delta id content tool_calls finish_reason = record {
    id = some id;
    has_choice = true;
    content = content;
    tool_calls = tool_calls;
    finish_reason = finish_reason;
    usage = none;
  }

  content_chunks : String → List String → List (Chunk T U)
  unfolding delta
  content_chunks id [] = []
  content_chunks id (p ∷ ps) = delta id (some p) [] none ∷ content_chunks id ps

  tool_chunks : String → List T → List (Chunk T U)
  unfolding delta
  tool_chunks id [] = []
  tool_chunks id (t ∷ ts) = delta id none (t ∷ []) none ∷ tool_chunks id ts

  -- The chunks that `rechunk_for_streaming` sends in the format of OpenAI, for a response with a
  -- choice.
  unfoldable pub rechunk_for_streaming : ℕ → String → String → List T → String → List (Chunk T U)
  unfolding delta content_chunks tool_chunks pieces
  rechunk_for_streaming fuel id content tool_calls finish_reason =
      delta id none [] none ∷ content_chunks id (pieces fuel content)
      ++ tool_chunks id tool_calls
      ++ delta id none [] (some finish_reason) ∷ []
