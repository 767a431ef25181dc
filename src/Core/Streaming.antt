-- ===== src/Core/Streaming.antt =====
-- `crates/core/src/types.rs`: the chunks of a streamed response.
use rusty_provider.Prelude.{ℕ, String, Option, List}
use rusty_provider.Prelude.Int.{ℤ}
use rusty_provider.Platform.{Platform}
use rusty_provider.Core.Types.{Role, ChoiceLogprobs, Usage}

pub record FunctionCallDelta : Type 0 where
  pub name : Option String
  pub arguments : Option String

pub record ToolCallDelta : Type 0 where
  pub index : ℕ
  pub id : Option String
  pub kind : Option String
  pub function : Option FunctionCallDelta

pub record ChatMessageDelta : Type 0 where
  pub role : Option Role
  pub content : Option String
  pub tool_calls : Option (List ToolCallDelta)
  pub reasoning : Option String

module _ (P : Platform) where
  pub record ChunkChoice : Type 0 where
    pub index : ℕ
    pub delta : ChatMessageDelta
    pub finish_reason : Option String
    pub logprobs : Option (ChoiceLogprobs P)

  pub record ChatChunk : Type 0 where
    pub id : String
    pub object : String
    pub created : ℤ
    pub model : String
    pub choices : List ChunkChoice
    pub usage : Option Usage
    pub cost_usd : Option P.F64
