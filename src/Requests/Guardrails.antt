-- ===== src/Requests/Guardrails.antt =====
-- `crates/router/src/guardrails.rs`, and `Router::apply_guardrails`. The `regex` crate's matching and
-- replacement are a parameter.
pub mod Laws
use rusty_provider.Prelude.{
  String, Option, none, some, List, [], ◌∷◌, Bool, true, false, if◌then◌else◌, any, map,
}
use rusty_provider.Prelude.Results.{Result, ok, err, ◌>>=◌}
use rusty_provider.Platform.{Platform}
use rusty_provider.Core.Types.{
  ChatMessage, ChatRequest, MessageContent, text, parts, ContentPart, text_part, image_url,
  input_audio, file,
}
use rusty_provider.Core.Errors.{RouterError, guardrail_blocked}

pub data GuardrailAction : Type 0 where
  block redact : GuardrailAction

pub record GuardrailConfig : Type 0 where
  pub name : String
  pub pattern : String
  pub action : GuardrailAction
  pub replacement : String

-- The `regex` crate: compilation, `is_match`, and `replace_all`.
pub record Regexes : Type 1 where
  pub Regex : Type 0
  pub Error : Type 0
  pub compile : String → Result Regex Error
  pub is_match : Regex → String → Bool
  pub replace_all : Regex → String → (replacement : String) → String

pub record Guardrail (X : Regexes) : Type 0 where
  pub name : String
  pub action : GuardrailAction
  pub replacement : String
  pub regex : X.Regex

module _ (X : Regexes) where
  unfoldable pub part_matches : X.Regex → ContentPart → Bool
  part_matches regex (text_part words) = X.is_match regex words
  part_matches regex (image_url u) = false
  part_matches regex (input_audio a) = false
  part_matches regex (file f) = false

  unfoldable pub content_matches : X.Regex → MessageContent → Bool
  unfolding part_matches
  content_matches regex (text words) = X.is_match regex words
  content_matches regex (parts ps) = any (part_matches regex) ps

  unfoldable pub redact_text : X.Regex → String → String → String
  redact_text regex replacement words =
      if X.is_match regex words then X.replace_all regex words replacement else words

  unfoldable pub redact_part : X.Regex → String → ContentPart → ContentPart
  unfolding redact_text
  redact_part regex replacement (text_part words) = text_part (redact_text regex replacement words)
  redact_part regex replacement (image_url u) = image_url u
  redact_part regex replacement (input_audio a) = input_audio a
  redact_part regex replacement (file f) = file f

  unfoldable pub redact_content : X.Regex → String → MessageContent → MessageContent
  unfolding redact_part
  redact_content regex replacement (text words) = text (redact_text regex replacement words)
  redact_content regex replacement (parts ps) = parts (map (redact_part regex replacement) ps)

module _ {X : Regexes} where
  -- `Guardrail::compile`.
  unfoldable pub compile_guardrail : GuardrailConfig → Result (Guardrail X) X.Error
  compile_guardrail cfg = do
    regex ← X.compile cfg.pattern
    ok (record {
      name = cfg.name;
      action = cfg.action;
      replacement = cfg.replacement;
      regex = regex;
    })

  -- One guardrail at one message.
  unfoldable pub guard_message : Guardrail X → ChatMessage → Result ChatMessage String
  unfolding content_matches redact_content
  guard_message g m = elim m.content [
    | none ↦ ok m
    | some content ↦ elim g.action [
      | block ↦ if content_matches X g.regex content then err g.name else ok m
      | redact ↦ ok (record m { content = some (redact_content X g.regex g.replacement content) })
    ]
  ]

  -- The inner loop, over the messages.
  unfoldable pub guard_messages : Guardrail X → List ChatMessage → Result (List ChatMessage) String
  unfolding guard_message
  guard_messages g [] = ok []
  guard_messages g (m ∷ ms) =
      let rest = guard_messages g ms in do m' ← guard_message g m; ms' ← rest; ok (m' ∷ ms')

  -- The outer loop, over the guardrails.
  unfoldable pub guard_all :
      List (Guardrail X) → List ChatMessage → Result (List ChatMessage) String
  unfolding guard_messages
  guard_all [] ms = ok ms
  guard_all (g ∷ gs) ms = do ms' ← guard_messages g ms; guard_all gs ms'

  unfoldable pub apply_guardrails :
      {P : Platform} → List (Guardrail X) → ChatRequest P → Result (ChatRequest P) (RouterError P)
  unfolding guard_all
  apply_guardrails guardrails req = elim (guard_all guardrails req.messages) [
    | err name ↦ err (guardrail_blocked name)
    | ok ms ↦ ok (record req { messages = ms })
  ]
