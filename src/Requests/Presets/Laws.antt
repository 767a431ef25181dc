-- ===== src/Requests/Presets/Laws.antt =====
-- What a preset leaves of a request, and a preset applied again.
use rusty_provider.Prelude.{
  String, Option, none, some, List, Map, unwrap_or, or_else, lookup, string_eq, ◌≡◌, inl, inr, refl,
  sym, ◌∙◌, ap, arith, Option-cases,
}
use rusty_provider.Prelude.Results.{ok, ◌>>=◌}
use rusty_provider.Platform.{Platform}
use rusty_provider.Core.Types.{ChatMessage, ChatRequest, message_of}
use rusty_provider.Requests.Presets.{PresetConfig, with_system_prompt, fill_defaults, apply_preset}

or_else-same :
    {A : Type 0} (own given : Option A) → or_else (or_else own given) given ≡ or_else own given
or_else-same none none = refl
or_else-same none (some a) = refl
or_else-same (some a) given = refl

unwrap_or-same :
    {A : Type 0} (given : Option A) (own : A)
    → unwrap_or given (unwrap_or given own) ≡ unwrap_or given own
unwrap_or-same none own = refl
unwrap_or-same (some a) own = refl

with_system_prompt-same :
    (prompt : Option String) (ms : List ChatMessage)
    → with_system_prompt prompt (with_system_prompt prompt ms) ≡ with_system_prompt prompt ms
unfolding with_system_prompt message_of
with_system_prompt-same none ms = refl
with_system_prompt-same (some words) ms = ground arith

module _ {P : Platform} where
  fill_defaults-same :
      (preset : PresetConfig P) (req : ChatRequest P)
      → fill_defaults preset (fill_defaults preset req) ≡ fill_defaults preset req
  unfolding fill_defaults
  fill_defaults-same preset req =
      rw
        (
          unwrap_or-same preset.model req.model,
          with_system_prompt-same preset.system_prompt req.messages,
          or_else-same req.provider preset.provider,
          or_else-same req.temperature preset.temperature,
          or_else-same req.top_p preset.top_p,
          or_else-same req.max_tokens preset.max_tokens,
          or_else-same req.stop preset.stop,
          or_else-same req.top_k preset.top_k,
          or_else-same req.min_p preset.min_p,
          or_else-same req.top_a preset.top_a,
          or_else-same req.frequency_penalty preset.frequency_penalty,
          or_else-same req.presence_penalty preset.presence_penalty,
          or_else-same req.repetition_penalty preset.repetition_penalty,
          or_else-same req.logit_bias preset.logit_bias,
          or_else-same req.seed preset.seed,
        )
        refl

  apply_preset-filled :
      (presets : Map String (PresetConfig P)) (req : ChatRequest P) (name : String)
      (preset : PresetConfig P)
      → req.preset ≡ some name
      → lookup name presets ≡ some preset
      → apply_preset presets req ≡ ok (fill_defaults preset req)
  unfolding apply_preset
  apply_preset-filled presets req name preset named found = ground (arith, named, found)

  -- A preset that is applied again changes nothing, and an unknown name is the same error again.
  pub apply_preset-again :
      (presets : Map String (PresetConfig P)) (req : ChatRequest P)
      → (apply_preset presets req >>= apply_preset presets) ≡ apply_preset presets req
  unfolding apply_preset fill_defaults
  apply_preset-again presets req = elim (Option-cases req.preset) [
    | inl unnamed ↦ ground (arith, unnamed)
    | inr (name, named) ↦ elim (Option-cases (lookup name presets)) [
      | inl unknown ↦ ground (arith, named, unknown)
      | inr (preset, found) ↦
          let once = apply_preset-filled presets req name preset named found in
          let twice =
            apply_preset-filled presets (fill_defaults preset req) name preset named found in
          ap (λ r. r >>= apply_preset presets) once
          ∙ twice
          ∙ ap ok (fill_defaults-same preset req)
          ∙ sym once
    ]
  ]
