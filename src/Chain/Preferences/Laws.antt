-- ===== src/Chain/Preferences/Laws.antt =====
-- What `apply_preferences` lets through, and in which order.
use mathlib.Core.List.Perm
use mathlib.Core.List.{Perm}
use rusty_provider.Prelude.{
  ℕ, String, Option, none, some, List, [], ◌∷◌, Bool, true, false, string_eq, if◌then◌else◌,
  is_empty, is_empty_iff, not, retain, contains, ◌&&◌, ◌≡◌, ◌≢◌, ◌⊎◌, subst, refl, sym, ap, ◌∙◌,
  arith, Bool-cases, if_both, inl, inr,
}
use rusty_provider.Prelude.Int.{ℤ}
use rusty_provider.Prelude.Results.{ok, err}
use rusty_provider.Platform.{Platform}
use rusty_provider.Core.Errors.{no_eligible_provider}
use rusty_provider.Core.Types.{ProviderPreferences}
use rusty_provider.Chain.Settings.{Candidate, RouterSettings, RouterStats}
use rusty_provider.Chain.Sort.{sort_by, sort_by-Perm, key_le}
use rusty_provider.Chain.Shuffle.{shuffle_chain-Perm}
use rusty_provider.Chain.Preferences.{
  is_true, is_word, within_price, keep_only, drop_ignored, keep_listed, keep_priced, apply_filters,
  rank, deprioritize_unhealthy, is_unhealthy, ascending, descending, apply_preferences,
}

module _ {ℓ} {A : Type ℓ} where
  retain_five :
      (p q r t u : A → Bool) (xs : List A)
      → retain u (retain t (retain r (retain q (retain p xs))))
        ≡ retain (λ x. p x && (q x && (r x && (t x && u x)))) xs
  retain_five p q r t u [] = refl
  retain_five p q r t u (x ∷ xs) = ground (arith, retain_five p q r t u xs)

  retain-true : (xs : List A) → retain (λ x. true) xs ≡ xs
  retain-true [] = refl
  retain-true (x ∷ xs) = ap (◌∷◌ x) (retain-true xs)

abbrev pub on_only : Option (List String) → Candidate → Bool
on_only o c = elim o [ none ↦ true | some names ↦ contains names c.0 ]

abbrev pub off_ignore : Option (List String) → Candidate → Bool
off_ignore o c = elim o [ none ↦ true | some names ↦ not (contains names c.0) ]

abbrev pub on_list : Option Bool → List String → Candidate → Bool
on_list flag names c = if is_true flag then contains names c.0 else true

keep_only-eq :
    (o : Option (List String)) (chain : List Candidate)
    → keep_only o chain ≡ retain (on_only o) chain
unfolding keep_only
keep_only-eq none chain = sym (retain-true chain)
keep_only-eq (some names) chain = refl

drop_ignored-eq :
    (o : Option (List String)) (chain : List Candidate)
    → drop_ignored o chain ≡ retain (off_ignore o) chain
unfolding drop_ignored
drop_ignored-eq none chain = sym (retain-true chain)
drop_ignored-eq (some names) chain = refl

keep_listed-eq :
    (flag : Option Bool) (names : List String) (chain : List Candidate)
    → keep_listed flag names chain ≡ retain (on_list flag names) chain
unfolding keep_listed
keep_listed-eq none names chain = sym (retain-true chain)
keep_listed-eq (some true) names chain = refl
keep_listed-eq (some false) names chain = sym (retain-true chain)

module _ {P : Platform} where
  abbrev pub under_price : RouterSettings P → Option P.F64 → Candidate → Bool
  under_price s o c = elim o [ none ↦ true | some cap ↦ within_price s cap c ]

  -- Whether the preferences admit a candidate: on `only`, not on `ignore`, with the required data
  -- policies, and at a known price that is within `max_price`.
  abbrev pub is_eligible : RouterSettings P → ProviderPreferences P → Candidate → Bool
  is_eligible s prefs c =
      on_only prefs.only c
      && (off_ignore prefs.ignore c
          && (on_list prefs.zdr s.zdr_providers c
              && (on_list prefs.data_collection s.no_training_providers c
                  && under_price s prefs.max_price c)))

  keep_priced-eq :
      (s : RouterSettings P) (o : Option P.F64) (chain : List Candidate)
      → keep_priced s o chain ≡ retain (under_price s o) chain
  unfolding keep_priced
  keep_priced-eq s none chain = sym (retain-true chain)
  keep_priced-eq s (some cap) chain = refl

  -- The five filters keep the eligible candidates, in their order.
  pub apply_filters-eq-retain :
      (s : RouterSettings P) (prefs : ProviderPreferences P) (chain : List Candidate)
      → apply_filters s prefs chain ≡ retain (is_eligible s prefs) chain
  unfolding apply_filters
  apply_filters-eq-retain s prefs chain =
      let only = on_only prefs.only in
      let ignore = off_ignore prefs.ignore in
      let zdr = on_list prefs.zdr s.zdr_providers in
      let training = on_list prefs.data_collection s.no_training_providers in
      let price = under_price s prefs.max_price in
      let step1 = keep_only-eq prefs.only chain in
      let step2 = drop_ignored-eq prefs.ignore _ ∙ ap (retain ignore) step1 in
      let step3 = keep_listed-eq prefs.zdr s.zdr_providers _ ∙ ap (retain zdr) step2 in
      let step4 =
        keep_listed-eq prefs.data_collection s.no_training_providers _
        ∙ ap (retain training) step3 in
      (keep_priced-eq s prefs.max_price _ ∙ ap (retain price) step4)
      ∙ retain_five only ignore zdr training price chain

  rank-Perm :
      (s : RouterSettings P) (st : RouterStats P) (now : ℤ) (now_nanos : ℕ) (sort : Option String)
      (chain : List Candidate)
      → Perm (rank s st now now_nanos sort chain).1 chain
  unfolding rank ascending descending
  rank-Perm s st now now_nanos sort chain =
      let Q : (RouterStats P × List Candidate) → Type 0 = λ p. Perm p.1 chain in
      let by : (le : Candidate → Candidate → Bool) → Perm (sort_by le chain) chain =
        λ le. sort_by-Perm le chain in
      if_both Q (is_word sort "price") (by _) (
        if_both Q (is_word sort "latency") (by _) (
          if_both Q (is_word sort "throughput") (by _) (
            if_both Q (is_word sort "uptime") (by _) (
              if_both Q (is_word sort "quality") (by _) (
                if_both Q (is_word sort "random") (shuffle_chain-Perm now_nanos chain)
                  (if_both Q (is_word sort "free_tier_remaining") (by _) (Perm.refl chain)))))))

  deprioritize_unhealthy-Perm :
      (st : RouterStats P) (chain : List Candidate) → Perm (deprioritize_unhealthy st chain) chain
  unfolding deprioritize_unhealthy
  deprioritize_unhealthy-Perm st chain = sort_by-Perm (key_le (is_unhealthy st)) chain

  -- The preferences fail exactly when no candidate is eligible, and else give the eligible
  -- candidates, each as often as in the chain, in some order.
  pub apply_preferences-Perm :
      (s : RouterSettings P) (st : RouterStats P) (now : ℤ) (now_nanos : ℕ) (model : String)
      (chain : List Candidate) (prefs : ProviderPreferences P)
      → ((retain (is_eligible s prefs) chain ≡ [])
          × (apply_preferences s st now now_nanos model chain (some prefs)
              ≡ (st, err (no_eligible_provider model))))
        ⊎ ((retain (is_eligible s prefs) chain ≢ [])
            × (r : List Candidate) × ((apply_preferences s st now now_nanos model chain
                  (some prefs)).1
                ≡ ok r)
            × Perm r (retain (is_eligible s prefs) chain))
  unfolding apply_preferences
  apply_preferences-Perm s st now now_nanos model chain prefs =
      let filtered = apply_filters s prefs chain in
      let eligible = retain (is_eligible s prefs) chain in
      let same : filtered ≡ eligible = apply_filters-eq-retain s prefs chain in
      let ranked = rank s st now now_nanos prefs.sort filtered in
      let kept : Perm ranked.1 eligible =
        subst (λ l. Perm ranked.1 l) same (rank-Perm s st now now_nanos prefs.sort filtered) in
      elim (Bool-cases (is_empty filtered)) [
        | inl empty ↦ inl (ground (arith, is_empty_iff filtered), ground arith)
        | inr full ↦
            let some_left : eligible ≢ [] = ground (arith, is_empty_iff filtered) in
            elim (Bool-cases (is_word prefs.sort "uptime")) [
              | inl uptime ↦ inr (some_left, ranked.1, ground arith, kept)
              | inr other ↦
                  let moved = deprioritize_unhealthy-Perm ranked.0 ranked.1 in
                  inr (
                    some_left,
                    deprioritize_unhealthy ranked.0 ranked.1,
                    ground arith,
                    Perm.trans moved kept,
                  )
            ]
      ]
