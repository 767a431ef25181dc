-- ===== src/AutoRouting.antt =====
-- `crates/router/src/auto_routing.rs`, and the request's target model in `crates/router/src/lib.rs`.
use Prim.Native.Char.{code}
use Prim.Native.String as Str
use rusty_provider.Prelude.{
  ℕ, ◌+◌, ◌-◌, ◌*◌, ◌%◌, ◌^◌, String, Option, none, some, List, [], ◌∷◌, Bool, true, false,
  unwrap_or, lookup, zero, suc, string_eq, if◌then◌else◌, leb, ltb, eqb, ◌==◌, ◌&&◌, ◌||◌, not, any,
  length, is_some, or_else,
}
use rusty_provider.Platform.{Platform}
use rusty_provider.Core.Types.{
  ChatMessage, ChatRequest, MessageContent, ProviderPreferences, ResponseFormat, plain_text,
  json_object, json_schema, as_plain_text, default_preferences,
}
use rusty_provider.Chain.Settings.{AutoRoutingConfig, RouterSettings}
use rusty_provider.Chain.Preferences.{is_word}
use rusty_provider.Transforms.{estimate_tokens}

-- `s.contains("```")`: whether some suffix starts with three backquotes.
unfoldable pub starts_with_fence : String → ℕ → Bool
starts_with_fence s zero = true
starts_with_fence Str.[] (suc n) = false
starts_with_fence (Str.◌∷◌ c s) (suc n) = eqb (code c) b'`' && starts_with_fence s n

unfoldable pub contains_fence : String → Bool
unfolding starts_with_fence
contains_fence Str.[] = false
contains_fence (Str.◌∷◌ c s) = starts_with_fence (Str.◌∷◌ c s) 3 || contains_fence s

unfoldable pub message_contains_code : Option MessageContent → Bool
message_contains_code none = false
message_contains_code (some c) = contains_fence (as_plain_text c)

abbrev pub u32 : ℕ → ℕ
u32 n = n % 2 ^ 32

-- The sum of the estimates, in 32 bits.
unfoldable pub prompt_score : List ChatMessage → ℕ
prompt_score [] = 0
prompt_score (m ∷ ms) = u32 (u32 (estimate_tokens m) + prompt_score ms)

abbrev pub bonus : Bool → ℕ → ℕ
bonus b points = if b then points else 0

-- `bias_multiplier`: 2, one half or 1.
unfoldable pub bias_multiplier : (Q : Platform) → Option String → Q.F64
bias_multiplier Q auto_bias =
    if is_word auto_bias "cost"
    then Q.of_nat 2
    else if is_word auto_bias "quality"
    then Q.div (Q.of_nat 1) (Q.of_nat 2)
    else Q.of_nat 1

module _ {P : Platform} where
  abbrev pub is_json_schema : Option (ResponseFormat P) → Bool
  is_json_schema none = false
  is_json_schema (some plain_text) = false
  is_json_schema (some json_object) = false
  is_json_schema (some (json_schema f)) = true

  unfoldable pub estimate_complexity : ChatRequest P → ℕ
  estimate_complexity req = u32 (
      prompt_score req.messages
      + bonus (ltb 1 (length req.messages)) (u32 (u32 (length req.messages) + 2 ^ 32 - 1) * 10)
      + bonus (any (λ m. message_contains_code m.content) req.messages) 50
      + bonus (is_some req.tools) 50
      + bonus (is_some req.reasoning) 50
      + bonus (is_json_schema req.response_format) 30)

  unfoldable pub biased : ChatRequest P → ℕ → ℕ
  unfolding bias_multiplier
  biased req max_score =
      let auto_bias : Option String = elim req.provider [ none ↦ none | some p ↦ p.auto_bias ] in
      P.to_u32 (P.mul (P.of_nat max_score) (bias_multiplier P auto_bias))

  unfoldable pub resolve_tier : AutoRoutingConfig P → ChatRequest P → String
  unfolding biased
  resolve_tier config req =
      if leb (estimate_complexity req) (biased req config.simple_max_score)
      then config.simple_model
      else if leb (estimate_complexity req) (biased req config.medium_max_score)
      then config.medium_model
      else config.complex_model

  -- The model to resolve, and whether auto-routing chose it.
  unfoldable pub resolve_target_model : RouterSettings P → ChatRequest P → String × Bool
  resolve_target_model s req =
      if req.model == "auto"
      then (elim s.auto_routing [
        | none ↦ (req.model, false)
        | some config ↦ (resolve_tier config req, true)
      ])
      else (req.model, false)

  unfoldable pub auto_routed_price_preference :
      ChatRequest P → Bool → Option (ProviderPreferences P)
  auto_routed_price_preference req was_auto_routed =
      let sort : Option String = elim req.provider [ none ↦ none | some p ↦ p.sort ] in
      if was_auto_routed && not (is_some sort)
      then some (record (unwrap_or req.provider default_preferences) { sort = some "price" })
      else none

  -- What a request's preferences are in effect: the auto-routed ones, or its own.
  unfoldable pub effective_preferences : ChatRequest P → Bool → Option (ProviderPreferences P)
  unfolding auto_routed_price_preference
  effective_preferences req was_auto_routed =
      or_else (auto_routed_price_preference req was_auto_routed) req.provider

  unfoldable pub byok_key_for : ChatRequest P → String → Option String
  byok_key_for req provider_name = elim req.provider [
    | none ↦ none
    | some p ↦ elim p.byok [ none ↦ none | some keys ↦ lookup provider_name keys ]
  ]
