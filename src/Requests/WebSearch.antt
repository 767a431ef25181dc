-- ===== src/Requests/WebSearch.antt =====
-- `crates/router/src/web_search.rs`, and `Router::apply_web_search`. The search backend is a parameter.
pub mod Laws
use Prim.Native.Char.{Char, code}
use Prim.Native.String as Str
use rusty_provider.Prelude.{
  ℕ, ◌+◌, String, Option, none, some, List, [], ◌∷◌, Bool, true, false, if◌then◌else◌, is_empty,
  unwrap_or, leb, eqb, ◌&&◌, ◌||◌,
}
use rusty_provider.Prelude.Texts.{decimal, is_blank}
use rusty_provider.Prelude.Results.{Result, ok, err}
use rusty_provider.Platform.{Platform}
use rusty_provider.Core.Types.{
  Role, system, user, assistant, tool, ChatMessage, ChatRequest, MessageContent, text, parts,
  ContentPart, text_part, image_url, input_audio, file, as_plain_text,
}

pub record SearchResult : Type 0 where
  pub title : String
  pub url : String
  pub snippet : String

-- `WebSearchClient::search`: the results, or a message.
abbrev pub Search : Type 0
Search = String → Result (List SearchResult) String

abbrev pub is_user : ChatMessage → Bool
is_user m = elim m.role [ system ↦ false | user ↦ true | assistant ↦ false | tool ↦ false ]

-- `iter().rev().find(..)`.
unfoldable pub last_user : List ChatMessage → Option ChatMessage
last_user [] = none
last_user (m ∷ ms) = elim (last_user ms) [
  | some later ↦ some later
  | none ↦ if is_user m then some m else none
]

unfoldable pub query_of : ChatMessage → Option String
unfolding is_blank
query_of m = elim m.content [
  | none ↦ none
  | some content ↦ if is_blank (as_plain_text content) then none else some (as_plain_text content)
]

unfoldable pub result_lines : ℕ → List SearchResult → String
result_lines i [] = ""
result_lines i (r ∷ rs) = Str.◌++◌ (decimal (i + 1)) (
    Str.◌++◌ ". " (
      Str.◌++◌ r.title (
        Str.◌++◌ " — " (
          Str.◌++◌ r.snippet
            (Str.◌++◌ " (" (Str.◌++◌ r.url (Str.◌++◌ ")\n" (result_lines (i + 1) rs))))))))

unfoldable pub format_results : List SearchResult → String
unfolding result_lines
format_results results = Str.◌++◌ "[Web search results]\n" (Str.◌++◌ (result_lines 0 results) "\n")

-- The first text part with the prefix, if there is a text part.
unfoldable pub prepend_to_text_part : String → List ContentPart → Option (List ContentPart)
prepend_to_text_part prefix [] = none
prepend_to_text_part prefix (p ∷ ps) =
    let later : Option (List ContentPart) = elim (prepend_to_text_part prefix ps) [
      | none ↦ none
      | some ps' ↦ some (p ∷ ps')
    ] in
    elim p [
      | text_part words ↦ some (text_part (Str.◌++◌ prefix words) ∷ ps)
      | image_url u ↦ later
      | input_audio a ↦ later
      | file f ↦ later
    ]

unfoldable pub prepend_to_content : String → MessageContent → MessageContent
unfolding prepend_to_text_part
prepend_to_content prefix (text words) = text (Str.◌++◌ prefix words)
prepend_to_content prefix (parts ps) =
    parts (unwrap_or (prepend_to_text_part prefix ps) (text_part prefix ∷ ps))

unfoldable pub prepend_to_message : String → ChatMessage → ChatMessage
unfolding prepend_to_content
prepend_to_message prefix m = elim m.content [
  | none ↦ m
  | some content ↦ record m { content = some (prepend_to_content prefix content) }
]

-- The messages with the last of the user's changed, if there is one.
unfoldable pub prepend_to_last : String → List ChatMessage → Option (List ChatMessage)
unfolding prepend_to_message
prepend_to_last prefix [] = none
prepend_to_last prefix (m ∷ ms) = elim (prepend_to_last prefix ms) [
  | some ms' ↦ some (m ∷ ms')
  | none ↦ if is_user m then some (prepend_to_message prefix m ∷ ms) else none
]

module _ {P : Platform} where
  unfoldable pub last_user_query : ChatRequest P → Option String
  unfolding last_user query_of
  last_user_query req = elim (last_user req.messages) [ none ↦ none | some m ↦ query_of m ]

  unfoldable pub prepend_to_last_user_message : ChatRequest P → String → ChatRequest P
  unfolding prepend_to_last
  prepend_to_last_user_message req prefix = record req {
    messages = unwrap_or (prepend_to_last prefix req.messages) req.messages;
  }

  abbrev pub wants_search : ChatRequest P → Bool
  wants_search req = unwrap_or req.web_search false

  -- The request, and the label of the metric that is counted, if one is.
  unfoldable pub apply_web_search : Option Search → ChatRequest P → ChatRequest P × Option String
  unfolding last_user_query prepend_to_last_user_message
  apply_web_search none req = (req, none)
  apply_web_search (some search) req =
      if wants_search req
      then (elim (last_user_query req) [
        | none ↦ (req, none)
        | some query ↦ elim (search query) [
          | err msg ↦ (req, some "error")
          | ok results ↦
              if is_empty results
              then (req, some "no_results")
              else (prepend_to_last_user_message req (format_results results), some "results")
        ]
      ])
      else (req, none)
