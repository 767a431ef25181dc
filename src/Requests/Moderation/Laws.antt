-- ===== src/Requests/Moderation/Laws.antt =====
-- When the moderation check blocks a request.
use rusty_provider.Prelude.{
  String, some, List, [], ◌∷◌, ◌++◌, true, false, is_empty, all, not, ◌≡◌, ◌↔◌, refl, sym, ap, ◌∙◌,
  arith, Bool-cases, inl, inr,
}
use rusty_provider.Prelude.Results.{ok, Result-cases}
use rusty_provider.Prelude.Texts.{is_blank}
use rusty_provider.Platform.{Platform}
use rusty_provider.Core.Types.{ChatRequest}
use rusty_provider.Core.Errors.{moderation_flagged}
use rusty_provider.Requests.Moderation.{
  ModerationResult, Moderator, flagged_names, flagged_categories, collect_text, check_moderation,
  apply_moderation,
}

-- The first flagged result of a list.
abbrev pub FirstFlagged : ModerationResult → List ModerationResult → Type 0
FirstFlagged r rs =
    (before after : List ModerationResult) × (rs ≡ before ++ r ∷ after)
    × (all (λ q. not q.flagged) before ≡ true)
    × (r.flagged ≡ true)

flagged_categories-first :
    (rs : List ModerationResult)
    → is_empty (flagged_categories rs) ≡ false
    → (r : ModerationResult) × FirstFlagged r rs × (flagged_categories rs ≡ flagged_names r)
unfolding flagged_categories
flagged_categories-first [] h = absurd (ground arith)
flagged_categories-first (r ∷ rs) h = elim (Bool-cases r.flagged) [
  | inl hit ↦ (r, ([], rs, refl, refl, hit), ground arith)
  | inr miss ↦
      let (q, (before, after, split, clear, hit), same) =
        flagged_categories-first rs (ground arith) in
      (q, (r ∷ before, after, ap (◌∷◌ r) split, ground arith, hit), ground arith)
]

flagged_categories-of_first :
    (before after : List ModerationResult) (r : ModerationResult)
    → all (λ q. not q.flagged) before ≡ true
    → r.flagged ≡ true
    → flagged_categories (before ++ r ∷ after) ≡ flagged_names r
unfolding flagged_categories
flagged_categories-of_first [] after r clear hit = ground arith
flagged_categories-of_first (b ∷ before) after r clear hit =
    ground (arith, flagged_categories-of_first before after r)

module _ {P : Platform} where
  -- The check blocks a request with some categories exactly when its text is not blank, the endpoint
  -- answers, and these are the categories that are true in the first flagged result, with at least one
  -- of them.
  pub apply_moderation-blocked_iff :
      (moderator : Moderator) (req : ChatRequest P) (categories : List String)
      → ((apply_moderation (some moderator) req).1 ≡ some (moderation_flagged categories)) ↔ (
          (results : List ModerationResult) × (r : ModerationResult) × (is_blank (collect_text req)
            ≡ false)
          × (moderator (collect_text req) ≡ ok results)
          × FirstFlagged r results
          × (categories ≡ flagged_names r)
          × (is_empty categories ≡ false))
  unfolding apply_moderation check_moderation
  apply_moderation-blocked_iff moderator req categories = (blocked, blocks)
    where
      blocked :
          (apply_moderation (some moderator) req).1 ≡ some (moderation_flagged categories)
          → (results : List ModerationResult) × (r : ModerationResult) × (is_blank
                (collect_text req)
              ≡ false)
            × (moderator (collect_text req) ≡ ok results)
            × FirstFlagged r results
            × (categories ≡ flagged_names r)
            × (is_empty categories ≡ false)
      blocked h = elim (Bool-cases (is_blank (collect_text req))) [
        | inl blank ↦ absurd (ground (arith, h, blank))
        | inr words ↦ elim (Result-cases (moderator (collect_text req))) [
          | inr (msg, fails) ↦ absurd (ground (arith, h, words, fails))
          | inl (results, answers) ↦ elim (Bool-cases (is_empty (flagged_categories results))) [
            | inl clear ↦ absurd (ground (arith, h, words, answers, clear))
            | inr hit ↦
                let (r, first, same) = flagged_categories-first results hit in
                (
                  results,
                  r,
                  words,
                  answers,
                  first,
                  ground (arith, h, words, answers, hit, same),
                  ground (arith, h, words, answers, hit),
                )
          ]
        ]
      ]

      blocks :
          (results : List ModerationResult) × (r : ModerationResult) × (is_blank (collect_text req)
              ≡ false)
            × (moderator (collect_text req) ≡ ok results)
            × FirstFlagged r results
            × (categories ≡ flagged_names r)
            × (is_empty categories ≡ false)
          → (apply_moderation (some moderator) req).1 ≡ some (moderation_flagged categories)
      blocks (results, r, words, answers, (before, after, split, clear, hit), same, many) =
          let named : flagged_categories results ≡ categories =
            ap flagged_categories split
            ∙ flagged_categories-of_first before after r clear hit
            ∙ sym same in
          ground (arith, words, answers, named, many)
