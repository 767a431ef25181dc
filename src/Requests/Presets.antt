-- ===== src/Requests/Presets.antt =====
-- `crates/router/src/presets.rs`, `PresetConfig`, and `Router::apply_preset`.
pub mod Laws
use rusty_provider.Prelude.{
  ℕ, String, Option, none, some, List, ◌∷◌, Map, Bool, true, false, unwrap_or, or_else, lookup,
  string_eq, if◌then◌else◌, any,
}
use rusty_provider.Prelude.Int.{ℤ}
use rusty_provider.Prelude.Results.{Result, ok, err}
use rusty_provider.Platform.{Platform}
use rusty_provider.Core.Types.{
  Role, system, user, assistant, tool, ChatMessage, ChatRequest, ProviderPreferences, message_of,
}
use rusty_provider.Core.Errors.{RouterError, unknown_preset}

pub record PresetConfig (P : Platform) : Type 0 where
  pub name : String
  pub model : Option String
  pub system_prompt : Option String
  pub provider : Option (ProviderPreferences P)
  pub temperature : Option P.F32
  pub top_p : Option P.F32
  pub max_tokens : Option ℕ
  pub stop : Option (List String)
  pub top_k : Option ℕ
  pub min_p : Option P.F32
  pub top_a : Option P.F32
  pub frequency_penalty : Option P.F32
  pub presence_penalty : Option P.F32
  pub repetition_penalty : Option P.F32
  pub logit_bias : Option (Map String P.F32)
  pub seed : Option ℤ

abbrev pub is_system : ChatMessage → Bool
is_system m = elim m.role [ system ↦ true | user ↦ false | assistant ↦ false | tool ↦ false ]

-- The system prompt in front, unless a message is a system message.
unfoldable pub with_system_prompt : Option String → List ChatMessage → List ChatMessage
unfolding message_of
with_system_prompt none ms = ms
with_system_prompt (some words) ms = if any is_system ms then ms else message_of system words ∷ ms

module _ {P : Platform} where
  unfoldable pub fill_defaults : PresetConfig P → ChatRequest P → ChatRequest P
  unfolding with_system_prompt
  fill_defaults preset req = record req {
    model = unwrap_or preset.model req.model;
    messages = with_system_prompt preset.system_prompt req.messages;
    provider = or_else req.provider preset.provider;
    temperature = or_else req.temperature preset.temperature;
    top_p = or_else req.top_p preset.top_p;
    max_tokens = or_else req.max_tokens preset.max_tokens;
    stop = or_else req.stop preset.stop;
    top_k = or_else req.top_k preset.top_k;
    min_p = or_else req.min_p preset.min_p;
    top_a = or_else req.top_a preset.top_a;
    frequency_penalty = or_else req.frequency_penalty preset.frequency_penalty;
    presence_penalty = or_else req.presence_penalty preset.presence_penalty;
    repetition_penalty = or_else req.repetition_penalty preset.repetition_penalty;
    logit_bias = or_else req.logit_bias preset.logit_bias;
    seed = or_else req.seed preset.seed;
  }

  unfoldable pub apply_preset :
      Map String (PresetConfig P) → ChatRequest P → Result (ChatRequest P) (RouterError P)
  unfolding fill_defaults
  apply_preset presets req = elim req.preset [
    | none ↦ ok req
    | some name ↦ elim (lookup name presets) [
      | none ↦ err (unknown_preset name)
      | some preset ↦ ok (fill_defaults preset req)
    ]
  ]
