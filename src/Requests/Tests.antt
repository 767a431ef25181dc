-- ===== src/Requests/Tests.antt =====
-- Examples for what happens to a request before its dispatch.
use rusty_provider.Prelude.{
  String, none, some, List, [], ◌∷◌, Map, true, false, is_empty, ◌==◌, string_eq, ◌≡◌, ◌⊎◌, ◌↔◌,
  refl,
}
use rusty_provider.Prelude.Results.{ok, err, ◌>>=◌}
use rusty_provider.Prelude.Texts.{is_blank, join_lines}
use rusty_provider.Core.Types.{ChatRequest}
use rusty_provider.Core.Errors.{guardrail_blocked, moderation_flagged}
use rusty_provider.Samples.{nat_platform, request}
use rusty_provider.Requests.Presets.{PresetConfig, apply_preset}
use rusty_provider.Requests.Presets.Laws.{apply_preset-again}
use rusty_provider.Requests.Guardrails.{Regexes, Guardrail, block, redact, apply_guardrails}
use rusty_provider.Requests.Guardrails.Laws.{IsClear, BlockedBy, redacted, apply_guardrails-cases}
use rusty_provider.Requests.WebSearch.{SearchResult, Search, wants_search, apply_web_search}
use rusty_provider.Requests.WebSearch.Laws.{IsAugmented, apply_web_search-cases}
use rusty_provider.Requests.Moderation.{
  ModerationResult, Moderator, collect_text, flagged_names, apply_moderation,
}
use rusty_provider.Requests.Moderation.Laws.{FirstFlagged, apply_moderation-blocked_iff}

abbrev short : PresetConfig nat_platform
short = record {
  name = "short";
  model = some "fast";
  system_prompt = some "Be brief.";
  provider = none;
  temperature = some 0;
  top_p = none;
  max_tokens = some 50;
  stop = none;
  top_k = none;
  min_p = none;
  top_a = none;
  frequency_penalty = none;
  presence_penalty = none;
  repetition_penalty = none;
  logit_bias = none;
  seed = none;
}

abbrev presets : Map String (PresetConfig nat_platform)
presets = ("short", short) ∷ []

abbrev preset_request : ChatRequest nat_platform
preset_request = record (request none) { preset = some "short" }

apply_preset-again_example :
    (apply_preset presets preset_request >>= apply_preset presets)
    ≡ apply_preset presets preset_request
apply_preset-again_example = apply_preset-again presets preset_request

-- Patterns that match one text as a whole.
abbrev whole_texts : Regexes
whole_texts = record {
  Regex = String;
  Error = String;
  compile = λ pattern. ok pattern;
  is_match = λ pattern words. pattern == words;
  replace_all = λ pattern words replacement. replacement;
}

abbrev guards : List (Guardrail whole_texts)
guards =
    record { name = "polite"; action = redact; replacement = "[redacted]"; regex = "hello" }
    ∷ record { name = "strict"; action = block; replacement = ""; regex = "hello" }
    ∷ []

apply_guardrails-cases_example :
    (IsClear guards (request none).messages
      × (apply_guardrails guards (request none)
          ≡ ok (record (request none) { messages = redacted guards (request none).messages })))
    ⊎ ((g : Guardrail whole_texts) × BlockedBy g guards (request none).messages
        × (apply_guardrails guards (request none) ≡ err (guardrail_blocked g.name)))
apply_guardrails-cases_example = apply_guardrails-cases guards (request none)

abbrev search : Search
search query = ok (record { title = query; url = "http://x"; snippet = "s" } ∷ [])

abbrev searching : ChatRequest nat_platform
searching = record (request none) { web_search = some true }

apply_web_search-cases_example :
    ((apply_web_search (some search) searching).0 ≡ searching)
    ⊎ ((run : Search) × (query : String) × (results : List SearchResult) × (some search ≡ some run)
        × (wants_search searching ≡ true)
        × (run query ≡ ok results)
        × (is_empty results ≡ false)
        × IsAugmented searching query results (apply_web_search (some search) searching).0)
apply_web_search-cases_example = apply_web_search-cases (some search) searching

-- A moderator that flags the text, for one category of two.
abbrev moderator : Moderator
moderator words =
    ok (record { flagged = true; categories = ("hate", false) ∷ ("spam", true) ∷ [] } ∷ [])

abbrev spam : List String
spam = "spam" ∷ []

apply_moderation-blocked_iff_example :
    ((apply_moderation (some moderator) (request none)).1 ≡ some (moderation_flagged spam)) ↔ (
      (results : List ModerationResult) × (r : ModerationResult) × (is_blank
          (collect_text (request none))
        ≡ false)
      × (moderator (collect_text (request none)) ≡ ok results)
      × FirstFlagged r results
      × (spam ≡ flagged_names r)
      × (is_empty spam ≡ false))
apply_moderation-blocked_iff_example = apply_moderation-blocked_iff moderator (request none) spam

-- A flagged result without a category that is true lets the request through.
abbrev vague : Moderator
vague words = ok (record { flagged = true; categories = ("hate", false) ∷ [] } ∷ [])

vague-passes : (apply_moderation (some vague) (request none)).1 ≡ none
unfolding apply_moderation is_blank join_lines
vague-passes = refl
