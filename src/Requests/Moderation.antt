-- ===== src/Requests/Moderation.antt =====
-- `crates/router/src/moderation.rs`, and `Router::apply_moderation`. The call of the moderation endpoint
-- is a parameter.
pub mod Laws
use Prim.Native.String as Str
use Prim.Native.Nat.{Ordering}
use rusty_provider.Prelude.{
  String, Option, none, some, List, [], ◌∷◌, ◌++◌, Map, Bool, true, false, if◌then◌else◌, is_empty,
  map, retain, is_some, ◌≡◌, ◌↔◌, refl, arith, Bool-cases, Option-cases, inl, inr,
}
use rusty_provider.Prelude.Results.{Result, ok, err, Result-cases}
use rusty_provider.Prelude.Texts.{join_lines, is_blank}
use rusty_provider.Platform.{Platform}
use rusty_provider.Core.Types.{
  ChatMessage, ChatRequest, MessageContent, text, parts, ContentPart, text_part, image_url,
  input_audio, file,
}
use rusty_provider.Core.Errors.{RouterError, moderation_flagged}
use rusty_provider.Chain.Sort.{sort_by}

pub record ModerationResult : Type 0 where
  pub flagged : Bool
  pub categories : Map String Bool

-- `ModerationError`.
pub data ModerationError : Type 0 where
  flagged_as : List String → ModerationError
  request_failed : String → ModerationError

-- The POST of a text to the endpoint: the results of its body, or a message.
abbrev pub Moderator : Type 0
Moderator = String → Result (List ModerationResult) String

unfoldable pub part_segments : List ContentPart → List String
part_segments [] = []
part_segments (text_part words ∷ ps) = words ∷ part_segments ps
part_segments (image_url u ∷ ps) = part_segments ps
part_segments (input_audio a ∷ ps) = part_segments ps
part_segments (file f ∷ ps) = part_segments ps

unfoldable pub text_segments : List ChatMessage → List String
unfolding part_segments
text_segments [] = []
text_segments (m ∷ ms) = elim m.content [
  | none ↦ text_segments ms
  | some content ↦ elim content [
    | text words ↦ words ∷ text_segments ms
    | parts ps ↦ part_segments ps ++ text_segments ms
  ]
]

abbrev pub text_le : String → String → Bool
text_le a b = elim (Str.compare a b) [ Ordering.gt ↦ false | _ ↦ true ]

-- The names of the categories that are true, sorted.
unfoldable pub flagged_names : ModerationResult → List String
unfolding sort_by
flagged_names r =
    sort_by text_le (map (λ c. c.0) (retain (λ (c : String × Bool). c.1) r.categories))

-- The names of the first flagged result, if there is one.
unfoldable pub flagged_categories : List ModerationResult → List String
unfolding flagged_names
flagged_categories [] = []
flagged_categories (r ∷ rs) = if r.flagged then flagged_names r else flagged_categories rs

module _ {P : Platform} where
  unfoldable pub collect_text : ChatRequest P → String
  unfolding text_segments
  collect_text req = join_lines (text_segments req.messages)

  -- `ModerationClient::check`: none for `Ok(())`.
  unfoldable pub check_moderation : Moderator → ChatRequest P → Option ModerationError
  unfolding collect_text flagged_categories
  check_moderation moderator req =
      if is_blank (collect_text req) then none else elim (moderator (collect_text req)) [
        | err msg ↦ some (request_failed msg)
        | ok results ↦
            if is_empty (flagged_categories results)
            then none
            else some (flagged_as (flagged_categories results))
      ]

  -- The categories that are counted, and the error, if the request is blocked.
  unfoldable pub apply_moderation :
      Option Moderator → ChatRequest P → List String × Option (RouterError P)
  unfolding check_moderation
  apply_moderation none req = ([], none)
  apply_moderation (some moderator) req = elim (check_moderation moderator req) [
    | none ↦ ([], none)
    | some error ↦ elim error [
      | flagged_as categories ↦ (categories, some (moderation_flagged categories))
      | request_failed msg ↦ ([], none)
    ]
  ]
