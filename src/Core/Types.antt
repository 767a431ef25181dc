-- ===== src/Core/Types.antt =====
-- `crates/core/src/types.rs`: the request and response types of the OpenAI-shaped API. Texts are
-- native strings, whose `len` counts bytes as Rust's does; the serde attributes are left out.
use Prim.Native.String as Str
use rusty_provider.Prelude.{
  ℕ, String, Bool, false, Option, none, some, List, [], ◌∷◌, Map, unwrap_or, is_empty, eqb,
}
use rusty_provider.Prelude.Int.{ℤ}
use rusty_provider.Platform.{Platform}

pub data Role : Type 0 where
  system user assistant tool : Role

pub data CacheControl : Type 0 where
  ephemeral : CacheControl

pub record ImageUrl : Type 0 where
  pub url : String
  pub detail : Option String

pub record FileData : Type 0 where
  pub file_data : String
  pub filename : Option String

pub record InputAudio : Type 0 where
  pub audio_data : String
  pub format : String

pub data ContentPart : Type 0 where
  text_part : String → ContentPart
  image_url : ImageUrl → ContentPart
  input_audio : InputAudio → ContentPart
  file : FileData → ContentPart

pub data MessageContent : Type 0 where
  text : String → MessageContent
  parts : List ContentPart → MessageContent

-- The texts of the text parts, joined by "".
unfoldable pub join_texts : List ContentPart → String
join_texts [] = ""
join_texts (text_part s ∷ ps) = Str.◌++◌ s (join_texts ps)
join_texts (image_url u ∷ ps) = join_texts ps
join_texts (input_audio a ∷ ps) = join_texts ps
join_texts (file f ∷ ps) = join_texts ps

unfoldable pub as_plain_text : MessageContent → String
unfolding join_texts
as_plain_text (text s) = s
as_plain_text (parts ps) = join_texts ps

-- `MessageContent::is_empty`.
unfoldable pub content_is_empty : MessageContent → Bool
content_is_empty (text s) = eqb (Str.len s) 0
content_is_empty (parts ps) = is_empty ps

pub record FunctionCall : Type 0 where
  pub name : String
  pub arguments : String

pub record ToolCall : Type 0 where
  pub id : String
  pub kind : String
  pub function : FunctionCall

pub record ChatMessage : Type 0 where
  pub role : Role
  pub content : Option MessageContent
  pub name : Option String
  pub tool_calls : Option (List ToolCall)
  pub tool_call_id : Option String
  pub reasoning : Option String
  pub cache_control : Option CacheControl

unfoldable pub message_of : Role → String → ChatMessage
message_of r s = record {
  role = r;
  content = some (text s);
  name = none;
  tool_calls = none;
  tool_call_id = none;
  reasoning = none;
  cache_control = none;
}

pub record ReasoningConfig : Type 0 where
  pub effort : Option String
  pub max_tokens : Option ℕ
  pub exclude : Option Bool

pub record Usage : Type 0 where
  pub prompt_tokens : ℕ
  pub completion_tokens : ℕ
  pub total_tokens : ℕ
  pub cached_tokens : Option ℕ
  pub cache_creation_tokens : Option ℕ

module _ (P : Platform) where
  pub record FunctionDef : Type 0 where
    pub name : String
    pub description : Option String
    pub parameters : Option P.Json

  pub record Tool : Type 0 where
    pub kind : String
    pub function : FunctionDef

  pub record JsonSchemaFormat : Type 0 where
    pub name : String
    pub description : Option String
    pub schema : P.Json
    pub strict : Option Bool

  pub data ResponseFormat : Type 0 where
    plain_text : ResponseFormat
    json_object : ResponseFormat
    json_schema : JsonSchemaFormat → ResponseFormat

  pub record ProviderPreferences : Type 0 where
    pub only : Option (List String)
    pub ignore : Option (List String)
    pub sort : Option String
    pub zdr : Option Bool
    pub data_collection : Option Bool
    pub auto_bias : Option String
    pub max_price : Option P.F64
    pub require_parameters : Option Bool
    pub byok : Option (Map String String)
    pub max_request_price_usd : Option P.F64
    pub budget_fallback : Option String

  pub record ChatRequest : Type 0 where
    pub model : String
    pub models : Option (List String)
    pub preset : Option String
    pub messages : List ChatMessage
    pub temperature : Option P.F32
    pub top_p : Option P.F32
    pub max_tokens : Option ℕ
    pub stop : Option (List String)
    pub stream : Option Bool
    pub user_id : Option String
    pub tools : Option (List Tool)
    pub tool_choice : Option P.Json
    pub provider : Option ProviderPreferences
    pub response_format : Option ResponseFormat
    pub reasoning : Option ReasoningConfig
    pub top_k : Option ℕ
    pub min_p : Option P.F32
    pub top_a : Option P.F32
    pub frequency_penalty : Option P.F32
    pub presence_penalty : Option P.F32
    pub repetition_penalty : Option P.F32
    pub logit_bias : Option (Map String P.F32)
    pub seed : Option ℤ
    pub transforms : Option (List String)
    pub logprobs : Option Bool
    pub top_logprobs : Option ℕ
    pub web_search : Option Bool

  pub record TopLogprob : Type 0 where
    pub token : String
    pub logprob : P.F32
    pub bytes : Option (List ℕ)

  pub record TokenLogprob : Type 0 where
    pub token : String
    pub logprob : P.F32
    pub bytes : Option (List ℕ)
    pub top_logprobs : Option (List TopLogprob)

  pub record ChoiceLogprobs : Type 0 where
    pub content : Option (List TokenLogprob)

  pub record Choice : Type 0 where
    pub index : ℕ
    pub message : ChatMessage
    pub finish_reason : Option String
    pub logprobs : Option ChoiceLogprobs

  pub record ChatResponse : Type 0 where
    pub id : String
    pub object : String
    pub created : ℤ
    pub model : String
    pub choices : List Choice
    pub usage : Option Usage
    pub cost_usd : Option P.F64

-- Methods and constants over a request.
module _ {P : Platform} where
  unfoldable pub is_streaming : ChatRequest P → Bool
  is_streaming req = unwrap_or req.stream false

  -- `ProviderPreferences::default()`.
  unfoldable pub default_preferences : ProviderPreferences P
  default_preferences = record {
    only = none;
    ignore = none;
    sort = none;
    zdr = none;
    data_collection = none;
    auto_bias = none;
    max_price = none;
    require_parameters = none;
    byok = none;
    max_request_price_usd = none;
    budget_fallback = none;
  }
