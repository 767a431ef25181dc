-- ===== src/Requests/WebSearch/Laws.antt =====
-- What a web search changes of a request.
use Prim.Native.String as Str
use rusty_provider.Prelude.{
  String, Option, none, some, List, [], ◌∷◌, ◌++◌, true, false, is_empty, any, unwrap_or, ◌≡◌, ◌⊎◌,
  inl, inr, refl, sym, ◌∙◌, ap, subst, arith, Bool-cases, Option-cases,
}
use package.text.Mathlib.TextLemmas.{append_assoc as texts_assoc}
use rusty_provider.Prelude.Results.{ok, Result-cases}
use rusty_provider.Platform.{Platform}
use rusty_provider.Core.Types.{
  ChatMessage, ChatRequest, MessageContent, text, parts, ContentPart, text_part, image_url,
  input_audio, file, as_plain_text, join_texts,
}
use rusty_provider.Requests.WebSearch.{
  SearchResult, Search, is_user, last_user, query_of, format_results, prepend_to_text_part,
  prepend_to_content, prepend_to_message, prepend_to_last, last_user_query,
  prepend_to_last_user_message, wants_search, apply_web_search,
}

join_texts-prepend :
    (prefix : String) (ps : List ContentPart)
    → join_texts (unwrap_or (prepend_to_text_part prefix ps) (text_part prefix ∷ ps))
      ≡ Str.◌++◌ prefix (join_texts ps)
unfolding join_texts prepend_to_text_part
join_texts-prepend prefix [] = refl
join_texts-prepend prefix (text_part words ∷ ps) = texts_assoc prefix words (join_texts ps)
join_texts-prepend prefix (image_url u ∷ ps) = ground (arith, join_texts-prepend prefix ps)
join_texts-prepend prefix (input_audio a ∷ ps) = ground (arith, join_texts-prepend prefix ps)
join_texts-prepend prefix (file f ∷ ps) = ground (arith, join_texts-prepend prefix ps)

as_plain_text-prepend :
    (prefix : String) (content : MessageContent)
    → as_plain_text (prepend_to_content prefix content) ≡ Str.◌++◌ prefix (as_plain_text content)
unfolding as_plain_text prepend_to_content
as_plain_text-prepend prefix (text words) = refl
as_plain_text-prepend prefix (parts ps) = join_texts-prepend prefix ps

-- The messages with the last of the user's at hand.
abbrev pub IsLastUser :
    ChatMessage → List ChatMessage → List ChatMessage → List ChatMessage → Type 0
IsLastUser m ms before after =
    (ms ≡ before ++ m ∷ after) × (is_user m ≡ true) × (any is_user after ≡ false)

prepend_to_last-none :
    (prefix : String) (ms : List ChatMessage)
    → last_user ms ≡ none
    → (prepend_to_last prefix ms ≡ none) × (any is_user ms ≡ false)
unfolding last_user prepend_to_last
prepend_to_last-none prefix [] h = (refl, refl)
prepend_to_last-none prefix (m ∷ ms) h = elim (Option-cases (last_user ms)) [
  | inl nothing ↦ ground (arith, prepend_to_last-none prefix ms nothing)
  | inr (later, found) ↦ absurd (ground arith)
]

prepend_to_last-some :
    (prefix : String) (ms : List ChatMessage) (m : ChatMessage)
    → last_user ms ≡ some m
    → (before after : List ChatMessage) × IsLastUser m ms before after
      × (prepend_to_last prefix ms ≡ some (before ++ prepend_to_message prefix m ∷ after))
unfolding last_user prepend_to_last
prepend_to_last-some prefix [] m h = absurd (ground arith)
prepend_to_last-some prefix (n ∷ ms) m h = elim (Option-cases (last_user ms)) [
  | inl nothing ↦
      let (untouched, quiet) = prepend_to_last-none prefix ms nothing in
      elim (Bool-cases (is_user n)) [
        | inl here ↦
            let same : n ≡ m = ground arith in
            ([], ms, (ap (λ x. x ∷ ms) same, ground arith, quiet), ground arith)
        | inr other ↦ absurd (ground arith)
      ]
  | inr (later, found) ↦
      let (before, after, (split, users, quiet), becomes) =
        prepend_to_last-some prefix ms m (ground arith) in
      (n ∷ before, after, (ap (◌∷◌ n) split, users, quiet), ground arith)
]

query_of-some :
    (m : ChatMessage) (q : String)
    → query_of m ≡ some q
    → (content : MessageContent) × (m.content ≡ some content) × (as_plain_text content ≡ q)
unfolding query_of
query_of-some m q h = elim (Option-cases m.content) [
  | inl empty ↦ absurd (ground arith)
  | inr (content, has) ↦ (content, has, ground arith)
]

prepend_to_message-text :
    (prefix : String) (m : ChatMessage) (q : String)
    → query_of m ≡ some q
    → (content : MessageContent) × (prepend_to_message prefix m
        ≡ record m { content = some content })
      × (as_plain_text content ≡ Str.◌++◌ prefix q)
unfolding prepend_to_message
prepend_to_message-text prefix m q h =
    let (content, has, words) = query_of-some m q h in
    (
      prepend_to_content prefix content,
      ground (arith, has),
      as_plain_text-prepend prefix content ∙ ap (Str.◌++◌ prefix) words,
    )

module _ {P : Platform} where
  -- A request as a search's results make it: in front of the last of the user's messages, whose plain
  -- text is the query, stand the results, and nothing else differs.
  abbrev pub IsAugmented : ChatRequest P → String → List SearchResult → ChatRequest P → Type 0
  IsAugmented req query results req' =
      (m : ChatMessage) × (before after : List ChatMessage) × (content : MessageContent)
      × IsLastUser m req.messages before after
      × (query_of m ≡ some query)
      × (req' ≡ record req { messages = before ++ record m { content = some content } ∷ after })
      × (as_plain_text content ≡ Str.◌++◌ (format_results results) query)

  prepend-IsAugmented :
      (req : ChatRequest P) (query : String) (results : List SearchResult)
      → last_user_query req ≡ some query
      → IsAugmented req query results (prepend_to_last_user_message req (format_results results))
  unfolding last_user_query prepend_to_last_user_message
  prepend-IsAugmented req query results h = elim (Option-cases (last_user req.messages)) [
    | inl nothing ↦ absurd (ground arith)
    | inr (m, found) ↦
        let prefix = format_results results in
        let (before, after, last, becomes) = prepend_to_last-some prefix req.messages m found in
        let asks : query_of m ≡ some query = ground arith in
        let (content, put, words) = prepend_to_message-text prefix m query asks in
        (
          m,
          before,
          after,
          content,
          last,
          asks,
          ap (λ o. record req { messages = unwrap_or o req.messages })
              (becomes ∙ ap (λ m'. some (before ++ m' ∷ after)) put),
          words,
        )
  ]

  -- The web search changes a request only when it asks for one, one is configured, its last message by
  -- the user has text, and the search for that text succeeds with results. Then exactly that message
  -- changes, and its text is the results followed by the text that was searched for.
  pub apply_web_search-cases :
      (search : Option Search) (req : ChatRequest P)
      → ((apply_web_search search req).0 ≡ req)
        ⊎ ((run : Search) × (query : String) × (results : List SearchResult) × (search ≡ some run)
            × (wants_search req ≡ true)
            × (run query ≡ ok results)
            × (is_empty results ≡ false)
            × IsAugmented req query results (apply_web_search search req).0)
  unfolding apply_web_search
  apply_web_search-cases none req = inl refl
  apply_web_search-cases (some run) req = elim (Bool-cases (wants_search req)) [
    | inr unwanted ↦ inl (ground (arith, unwanted))
    | inl wanted ↦ elim (Option-cases (last_user_query req)) [
      | inl nothing ↦ inl (ground (arith, wanted, nothing))
      | inr (query, asks) ↦ elim (Result-cases (run query)) [
        | inr (msg, fails) ↦ inl (ground (arith, wanted, asks, fails))
        | inl (results, finds) ↦ elim (Bool-cases (is_empty results)) [
          | inl none_found ↦ inl (ground (arith, wanted, asks, finds, none_found))
          | inr some_found ↦
              let changed : (apply_web_search (some run) req).0
                  ≡ prepend_to_last_user_message req (format_results results) =
                ground (arith, wanted, asks, finds, some_found) in
              inr (
                run,
                query,
                results,
                refl,
                wanted,
                finds,
                some_found,
                subst (IsAugmented req query results) (sym changed)
                    (prepend-IsAugmented req query results asks),
              )
        ]
      ]
    ]
  ]
