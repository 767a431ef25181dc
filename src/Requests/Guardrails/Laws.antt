-- ===== src/Requests/Guardrails/Laws.antt =====
-- What the guardrails let through, and what they make of it.
use rusty_provider.Prelude.{
  none, some, List, [], ◌∷◌, ◌++◌, Bool, true, false, if◌then◌else◌, any, map, ◌≡◌, ◌⊎◌, inl, inr,
  refl, ap, arith, Bool-cases,
}
use rusty_provider.Prelude.Results.{ok, err}
use rusty_provider.Platform.{Platform}
use rusty_provider.Core.Types.{ChatMessage, ChatRequest}
use rusty_provider.Core.Errors.{guardrail_blocked}
use rusty_provider.Requests.Guardrails.{
  Regexes, Guardrail, block, redact, content_matches, redact_content, guard_message, guard_messages,
  guard_all, apply_guardrails,
}

module _ {X : Regexes} where
  -- A message with its text redacted by one guardrail, and by all of a list in their order.
  abbrev pub redact_message : Guardrail X → ChatMessage → ChatMessage
  redact_message g m = elim m.content [
    | none ↦ m
    | some content ↦ elim g.action [
      | block ↦ m
      | redact ↦ record m { content = some (redact_content X g.regex g.replacement content) }
    ]
  ]

  abbrev pub redacted : List (Guardrail X) → List ChatMessage → List ChatMessage
  redacted [] ms = ms
  redacted (g ∷ gs) ms = redacted gs (map (redact_message g) ms)

  -- Whether a guardrail blocks some message.
  abbrev pub blocks_message : Guardrail X → ChatMessage → Bool
  blocks_message g m = elim m.content [
    | none ↦ false
    | some content ↦ elim g.action [ block ↦ content_matches X g.regex content | redact ↦ false ]
  ]

  abbrev pub blocks : Guardrail X → List ChatMessage → Bool
  blocks g ms = any (blocks_message g) ms

  guard_message-eq :
      (g : Guardrail X) (m : ChatMessage)
      → guard_message g m ≡ (if blocks_message g m then err g.name else ok (redact_message g m))
  unfolding guard_message
  guard_message-eq g m = ground arith

  guard_messages-eq :
      (g : Guardrail X) (ms : List ChatMessage)
      → guard_messages g ms ≡ (if blocks g ms then err g.name else ok (map (redact_message g) ms))
  unfolding guard_messages
  guard_messages-eq g [] = refl
  guard_messages-eq g (m ∷ ms) = elim (Bool-cases (blocks_message g m)) [
    | inl hit ↦ ground (arith, guard_message-eq g m, hit)
    | inr miss ↦ elim (Bool-cases (blocks g ms)) [
      | inl later ↦ ground (arith, guard_message-eq g m, guard_messages-eq g ms, miss, later)
      | inr never ↦ ground (arith, guard_message-eq g m, guard_messages-eq g ms, miss, never)
    ]
  ]

  -- No guardrail blocks the messages as those before it have redacted them.
  abbrev pub IsClear : List (Guardrail X) → List ChatMessage → Type 0
  IsClear gs ms =
      (before after : List (Guardrail X)) (g : Guardrail X)
      → gs ≡ before ++ g ∷ after
      → blocks g (redacted before ms) ≡ false

  -- The first guardrail that blocks the messages as those before it have redacted them.
  abbrev pub BlockedBy : Guardrail X → List (Guardrail X) → List ChatMessage → Type 0
  BlockedBy g gs ms =
      (before after : List (Guardrail X)) × (gs ≡ before ++ g ∷ after)
      × IsClear before ms
      × (blocks g (redacted before ms) ≡ true)

  IsClear-nil : (ms : List ChatMessage) → IsClear [] ms
  IsClear-nil ms [] after h same = absurd (ground arith)
  IsClear-nil ms (b ∷ before) after h same = absurd (ground arith)

  IsClear-cons :
      (g : Guardrail X) (gs : List (Guardrail X)) (ms : List ChatMessage)
      → blocks g ms ≡ false
      → IsClear gs (map (redact_message g) ms)
      → IsClear (g ∷ gs) ms
  IsClear-cons g gs ms here rest [] after h same = ground (arith, here)
  IsClear-cons g gs ms here rest (b ∷ before) after h same = ground (arith, rest before after h)

  guard_all-cases :
      (gs : List (Guardrail X)) (ms : List ChatMessage)
      → (IsClear gs ms × (guard_all gs ms ≡ ok (redacted gs ms)))
        ⊎ ((g : Guardrail X) × BlockedBy g gs ms × (guard_all gs ms ≡ err g.name))
  unfolding guard_all
  guard_all-cases [] ms = inl (IsClear-nil ms, refl)
  guard_all-cases (g ∷ gs) ms = elim (Bool-cases (blocks g ms)) [
    | inl hit ↦
        inr (g, ([], gs, refl, IsClear-nil ms, hit), ground (arith, guard_messages-eq g ms, hit))
    | inr miss ↦ elim (guard_all-cases gs (map (redact_message g) ms)) [
      | inl (clear, passes) ↦
          inl
            (IsClear-cons g gs ms miss clear, ground (arith, guard_messages-eq g ms, miss, passes))
      | inr (h, (before, after, split, clear, hit), stops) ↦ inr (
        h,
        (g ∷ before, after, ap (◌∷◌ g) split, IsClear-cons g before ms miss clear, hit),
        ground (arith, guard_messages-eq g ms, miss, stops),
      )
    ]
  ]

  -- Either no guardrail blocks the messages, as those before it have redacted them, and the request
  -- goes on with its messages redacted by all guardrails in their order; or the request fails with
  -- the name of the first guardrail that does.
  pub apply_guardrails-cases :
      {P : Platform} (gs : List (Guardrail X)) (req : ChatRequest P)
      → (IsClear gs req.messages
          × (apply_guardrails gs req ≡ ok (record req { messages = redacted gs req.messages })))
        ⊎ ((g : Guardrail X) × BlockedBy g gs req.messages
            × (apply_guardrails gs req ≡ err (guardrail_blocked g.name)))
  unfolding apply_guardrails
  apply_guardrails-cases gs req = elim (guard_all-cases gs req.messages) [
    | inl (clear, passes) ↦ inl (clear, ground (arith, passes))
    | inr (g, by, stops) ↦ inr (g, by, ground (arith, stops))
  ]
