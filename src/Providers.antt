-- ===== src/Providers.antt =====
-- providers/base.py and the formats that the adapters under providers/ translate: dicts of JSON as
-- records of the keys that the code reads, where a key may be missing. A key that is there holds a
-- value of the type that the code expects of it.
pub mod Anthropic
use commandclaw_gateway.Prelude.{
  ℕ, String, Bool, Option, none, some, List, ◌==◌, if◌then◌else◌, starts_with, drop_chars,
  rstrip_slash, ◌<>◌, lookup,
}
use commandclaw_gateway.Schemas.{Deployment}
use commandclaw_gateway.Auth.VirtualKeys.{text_or}
use commandclaw_gateway.Middleware.Cache.{CacheMetadata}

-- `json` on the values inside of a message, the dict without keys, and `str` on values that are no
-- text.
pub record Values : Type 1 where
  pub Value : Type 0
  pub empty : Value
  pub dumps : Value → String
  pub loads : String → Option Value
  pub text : Value → Option String

-- `metadata` of a request: what the cache reads of it, and the tags.
pub record RequestMetadata : Type 0 where
  pub cache : CacheMetadata
  pub tags : List String

-- A call of a tool in the format of OpenAI, with the keys of its `function`.
pub record ToolCall : Type 0 where
  pub id : Option String
  pub name : Option String
  pub arguments : Option String

-- `stop`: one text or several.
pub data Stop : Type 0 where
  single : String → Stop
  several : List String → Stop

-- `usage`, with 0 for a count that is missing.
pub record Tokens : Type 0 where
  pub input : ℕ
  pub output : ℕ
  pub cache_creation : ℕ
  pub cache_read : ℕ

-- The content of the result of a tool: a text, or the texts of its blocks.
pub data ToolOutput : Type 0 where
  output_text : String → ToolOutput
  output_parts : List (Option String) → ToolOutput

module _ (V : Values) where
  -- A block of content: a text, a call of a tool (its id, name and input), the result of one, or
  -- any other dict.
  pub data Block : Type 0 where
    text_part : Option String → Block
    tool_use : Option String → Option String → Option V.Value → Block
    tool_result : Option String → Option ToolOutput → Block
    other : V.Value → Block

  -- The content of a message: None, a text or blocks.
  pub data Content : Type 0 where
    null : Content
    words : String → Content
    blocks : List Block → Content

  -- Values of Python: `str` of a content, and the dict `{"type": "text", "text": content}` of a
  -- content that is a list.
  pub record Printing : Type 0 where
    pub str : Content → String
    pub wrapped : List Block → V.Value

  -- A message in the format of Anthropic.
  pub record Spoken : Type 0 where
    pub role : Option String
    pub content : Option Content

  -- A tool in either format: `function.parameters` or `input_schema`.
  pub record Tool : Type 0 where
    pub name : Option String
    pub description : Option String
    pub parameters : Option V.Value

  -- A request in the format of Anthropic; a key without a value, an empty text or an empty list is
  -- left out where the code tests for it.
  pub record SpokenRequest (F : Type 0) : Type 0 where
    pub model : Option String
    pub system : Option Content
    pub messages : List Spoken
    pub max_tokens : Option ℕ
    pub temperature : Option F
    pub top_p : Option F
    pub stop_sequences : List String
    pub stream : Bool
    pub metadata : Option RequestMetadata
    pub tools : List Tool

  -- A message in the format of OpenAI; None and [] for `tool_calls` are the same to the code.
  pub record Message : Type 0 where
    pub role : Option String
    pub content : Option Content
    pub tool_call_id : Option String
    pub tool_calls : List ToolCall

  -- A request in the format of OpenAI.
  pub record ChatRequest (F : Type 0) : Type 0 where
    pub model : Option String
    pub messages : List Message
    pub max_tokens : Option ℕ
    pub temperature : Option F
    pub top_p : Option F
    pub stop : Option Stop
    pub stream : Bool
    pub metadata : Option RequestMetadata
    pub tools : List Tool

  -- A response of Anthropic.
  pub record SpokenResponse : Type 0 where
    pub id : Option String
    pub model : Option String
    pub content : List Block
    pub stop_reason : Option String
    pub usage : Tokens

-- A response in the format of OpenAI.
pub record Choice : Type 0 where
  pub content : Option String
  pub tool_calls : List ToolCall
  pub finish_reason : Option String

pub record ChatResponse : Type 0 where
  pub id : Option String
  pub model : Option String
  pub choices : List Choice
  pub usage : Tokens

-- `BaseLLMProvider.resolve_api_key`, with `os.environ`.
unfoldable pub resolve_api_key : {F : Type 0} → (String → Option String) → Deployment F → String
unfolding drop_chars
resolve_api_key environ d =
    if starts_with d.api_key_env "os.environ/"
    then text_or "" (environ (drop_chars 11 d.api_key_env))
    else d.api_key_env
