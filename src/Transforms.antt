-- ===== src/Transforms.antt =====
-- The rewriting of a request for one candidate, in `crates/router/src/lib.rs`: reasoning replay, tool
-- output compression and `transforms: ["middle-out"]`. The compressor of `rtk.rs` is a parameter.
pub mod MiddleOut
mod Tests
use Prim.Native.String as Str
use rusty_provider.Prelude.{
  ℕ, ◌+◌, ◌-◌, ◌/◌, String, Option, none, some, List, [], ◌∷◌, Map, Bool, true, false, unwrap_or,
  lookup, string_eq, if◌then◌else◌, leb, ltb, ◌==◌, contains, any, map, ◌&&◌,
}
use rusty_provider.Platform.{Platform}
use rusty_provider.Core.Types.{
  Role, system, user, assistant, tool, ChatMessage, ChatRequest, ChatResponse, Choice,
  MessageContent, text, parts, ContentPart, text_part, image_url, input_audio, file, ToolCall,
  as_plain_text,
}
use rusty_provider.Caches.Fifo.{ReasoningReplayCache, reasoning_get, reasoning_insert}
use rusty_provider.Chain.Settings.{Candidate, key_of, RouterSettings}

abbrev pub chars_per_token_estimate : ℕ
chars_per_token_estimate = 4

unfoldable pub estimate_tokens : ChatMessage → ℕ
estimate_tokens m = elim m.content [
  | none ↦ 0
  | some c ↦ Str.len (as_plain_text c) / chars_per_token_estimate
]

unfoldable pub total_tokens : List ChatMessage → ℕ
total_tokens [] = 0
total_tokens (m ∷ ms) = estimate_tokens m + total_tokens ms

-- The loop: while the estimate is over budget and more than two messages are left, the message
-- behind the first goes. The list is what follows the first message.
unfoldable pub drop_second : ℕ → ℕ → List ChatMessage → List ChatMessage
drop_second budget total [] = []
drop_second budget total (m ∷ []) = m ∷ []
drop_second budget total (m ∷ n ∷ ms) =
    let rest = drop_second budget (total - estimate_tokens m) (n ∷ ms) in
    if ltb budget total then rest else m ∷ n ∷ ms

unfoldable pub apply_middle_out : List ChatMessage → ℕ → List ChatMessage
unfolding drop_second total_tokens
apply_middle_out [] budget = []
apply_middle_out (m ∷ ms) budget = m ∷ drop_second budget (total_tokens (m ∷ ms)) ms

-- The reasoning trace for a message that has none, by its first tool call.
unfoldable pub replayed_reasoning : ReasoningReplayCache → ChatMessage → Option String
replayed_reasoning cache m = elim m.reasoning [
  | some r ↦ none
  | none ↦ elim m.tool_calls [
    | none ↦ none
    | some calls ↦ elim calls [ [] ↦ none | call ∷ rest ↦ reasoning_get call.id cache ]
  ]
]

-- The messages with their traces, or none if no message gets one.
unfoldable pub replay_messages : ReasoningReplayCache → List ChatMessage → Option (List ChatMessage)
unfolding replayed_reasoning
replay_messages cache [] = none
replay_messages cache (m ∷ ms) =
    let rest = replay_messages cache ms in
    elim (replayed_reasoning cache m) [
      | some r ↦ some (record m { reasoning = some r } ∷ unwrap_or rest ms)
      | none ↦ elim rest [ none ↦ none | some ms' ↦ some (m ∷ ms') ]
    ]

-- Whether a request's `transforms` names the transform.
abbrev pub wants : Option (List String) → String → Bool
wants none name = false
wants (some names) name = contains names name

module _ {P : Platform} where
  unfoldable pub maybe_apply_reasoning_replay :
      ChatRequest P → ReasoningReplayCache → Option (ChatRequest P)
  maybe_apply_reasoning_replay req cache = elim (replay_messages cache req.messages) [
    | none ↦ none
    | some ms ↦ some (record req { messages = ms })
  ]

  unfoldable pub maybe_apply_middle_out :
      RouterSettings P → ChatRequest P → Candidate → Option (ChatRequest P)
  maybe_apply_middle_out s req c =
      if wants req.transforms "middle-out"
      then (elim (lookup (key_of c) s.pricing) [
        | none ↦ none
        | some rates ↦ elim rates.context_length [
          | none ↦ none
          | some context_length ↦
              let budget_tokens = context_length - unwrap_or req.max_tokens 4096 in
              if leb (total_tokens req.messages) budget_tokens
              then none
              else some (record req { messages = apply_middle_out req.messages budget_tokens })
        ]
      ])
      else none

-- The traces of a response's choices, stored under every tool call that they led to.
unfoldable pub insert_calls : String → List ToolCall → ReasoningReplayCache → ReasoningReplayCache
insert_calls reasoning [] cache = cache
insert_calls reasoning (call ∷ calls) cache =
    insert_calls reasoning calls (reasoning_insert call.id reasoning cache)

module _ {P : Platform} where
  unfoldable pub cache_reasoning : List (Choice P) → ReasoningReplayCache → ReasoningReplayCache
  unfolding insert_calls
  cache_reasoning [] cache = cache
  cache_reasoning (choice ∷ choices) cache =
      cache_reasoning choices (elim choice.message.reasoning [
        | none ↦ cache
        | some reasoning ↦ elim choice.message.tool_calls [
          | none ↦ cache
          | some calls ↦ insert_calls reasoning calls cache
        ]
      ])

  unfoldable pub cache_reasoning_for_replay :
      ReasoningReplayCache → ChatResponse P → ReasoningReplayCache
  cache_reasoning_for_replay cache resp = cache_reasoning resp.choices cache

-- `maybe_apply_rtk`, given `rtk::compress`: the text of the tool messages is compressed.
module _ (compress : String → String) where
  unfoldable pub compress_parts : List ContentPart → List ContentPart
  compress_parts [] = []
  compress_parts (text_part t ∷ ps) = text_part (compress t) ∷ compress_parts ps
  compress_parts (image_url u ∷ ps) = image_url u ∷ compress_parts ps
  compress_parts (input_audio a ∷ ps) = input_audio a ∷ compress_parts ps
  compress_parts (file f ∷ ps) = file f ∷ compress_parts ps

  unfoldable pub parts_changed : List ContentPart → Bool
  parts_changed [] = false
  parts_changed (text_part t ∷ ps) = if compress t == t then parts_changed ps else true
  parts_changed (image_url u ∷ ps) = parts_changed ps
  parts_changed (input_audio a ∷ ps) = parts_changed ps
  parts_changed (file f ∷ ps) = parts_changed ps

  unfoldable pub compress_content : MessageContent → MessageContent
  unfolding compress_parts
  compress_content (text t) = text (compress t)
  compress_content (parts ps) = parts (compress_parts ps)

  unfoldable pub content_changed : MessageContent → Bool
  unfolding parts_changed
  content_changed (text t) = if compress t == t then false else true
  content_changed (parts ps) = parts_changed ps

  unfoldable pub is_tool : Role → Bool
  is_tool tool = true
  is_tool system = false
  is_tool user = false
  is_tool assistant = false

  unfoldable pub compress_message : ChatMessage → ChatMessage
  compress_message m = elim m.content [
    | none ↦ m
    | some c ↦ if is_tool m.role then record m { content = some (compress_content c) } else m
  ]

  unfoldable pub message_changed : ChatMessage → Bool
  message_changed m = elim m.content [
    | none ↦ false
    | some c ↦ if is_tool m.role then content_changed c else false
  ]

  module _ {P : Platform} where
    unfoldable pub maybe_apply_rtk : ChatRequest P → Option (ChatRequest P)
    unfolding compress_message message_changed
    maybe_apply_rtk req =
        if wants req.transforms "rtk" && any message_changed req.messages
        then some (record req { messages = map compress_message req.messages })
        else none
