-- ===== src/Core/Embeddings.antt =====
-- `crates/core/src/types.rs`: the request and response of `POST /v1/embeddings`.
use rusty_provider.Prelude.{ℕ, String, Option, List, [], ◌∷◌}
use rusty_provider.Platform.{Platform}

pub data EmbeddingsInput : Type 0 where
  single : String → EmbeddingsInput
  multiple : List String → EmbeddingsInput

-- `EmbeddingsInput::as_slice`.
unfoldable pub as_slice : EmbeddingsInput → List String
as_slice (single text) = text ∷ []
as_slice (multiple texts) = texts

pub record EmbeddingsRequest : Type 0 where
  pub model : String
  pub input : EmbeddingsInput
  pub encoding_format : Option String
  pub dimensions : Option ℕ

pub record EmbeddingsUsage : Type 0 where
  pub prompt_tokens : ℕ
  pub total_tokens : ℕ

module _ (P : Platform) where
  pub record EmbeddingData : Type 0 where
    pub object : String
    pub embedding : List P.F32
    pub index : ℕ

  pub record EmbeddingsResponse : Type 0 where
    pub object : String
    pub results : List EmbeddingData
    pub model : String
    pub usage : Option EmbeddingsUsage
