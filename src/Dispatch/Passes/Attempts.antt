-- ===== src/Dispatch/Passes/Attempts.antt =====
-- The metrics that a fallback loop records: one attempt for each candidate that it tries.
use rusty_provider.Prelude.{
  ℕ, ◌+◌, String, Option, some, List, [], ◌∷◌, ◌++◌, length, map, append_assoc, append-nil, ◌≡◌,
  refl, sym, ap, ◌∙◌, subst, arith, inl, inr, string_eq,
}
use rusty_provider.Prelude.Results.{Result, ok, err}
use rusty_provider.Platform.{Platform}
use rusty_provider.Core.Errors.{RouterError, ProviderError}
use rusty_provider.Chain.Settings.{Candidate, RouterSettings}
use rusty_provider.Dispatch.{Outside, RouterState, Attempt, log_attempt, check_outbound_rate_limit}
use rusty_provider.Dispatch.Passes.{Pass, skipped, served, refused, fall_back, guarded, failed}
use rusty_provider.Dispatch.Passes.Laws.{Pass-cases}

module _ {P : Platform} where
  abbrev pub pass_state : {T A : Type 0} → Pass P T A → T
  pass_state (skipped st e) = st
  pass_state (served st resp) = st
  pass_state (refused st e) = st

  -- The candidates of the recorded attempts, in their order.
  abbrev pub tried : {S : Type 0} → RouterState P S → List Candidate
  tried st = map (λ (a : Attempt P). a.candidate) st.attempts

  -- A result comes with the number of candidates tried.
  abbrev pub HasCount : {A : Type 0} → Result (A × ℕ) (RouterError P) → ℕ → Type 0
  HasCount (ok (a, n)) k = n ≡ k
  HasCount (err e) k = Unit

module _ {P : Platform} (O : Outside P) (s : RouterSettings P) where
  pub tried-log_attempt :
      (c : Candidate) (outcome : String) (st : RouterState P O.State)
      → tried (log_attempt O s c outcome st) ≡ tried st ++ c ∷ []
  unfolding log_attempt
  tried-log_attempt c outcome st = map-append st.attempts
    where
      map-append :
          (xs : List (Attempt P))
          → map
              (λ (a : Attempt P). a.candidate)
              (xs ++ record { candidate = c; outcome = outcome } ∷ [])
            ≡ map (λ (a : Attempt P). a.candidate) xs ++ c ∷ []
      map-append [] = refl
      map-append (x ∷ xs) = ap (◌∷◌ x.candidate) (map-append xs)

  pub attempts-check_outbound :
      (name : String) (st : RouterState P O.State)
      → (check_outbound_rate_limit O s name st).0.attempts ≡ st.attempts
  unfolding check_outbound_rate_limit
  attempts-check_outbound name st = ground arith

  pub tried-failed :
      (A : Type 0) (c : Candidate) (e : ProviderError) (st : RouterState P O.State)
      → tried (pass_state (failed O s {A = A} c e st)) ≡ tried st ++ c ∷ []
  unfolding failed
  tried-failed A c e st = grind (arith, tried-log_attempt)

  -- A pass records one attempt, if its call does.
  pub tried-guarded :
      {A : Type 0} (call : Candidate → RouterState P O.State → Pass P (RouterState P O.State) A)
      → ((c : Candidate) (st : RouterState P O.State)
          → tried (pass_state (call c st)) ≡ tried st ++ c ∷ [])
      → (c : Candidate) (st : RouterState P O.State)
      → tried (pass_state (guarded O s call c st)) ≡ tried st ++ c ∷ []
  unfolding guarded
  tried-guarded call one c st = grind (arith, tried-log_attempt, attempts-check_outbound, one)

module _ {P : Platform} {S A : Type 0}
    (pass : Candidate → RouterState P S → Pass P (RouterState P S) A)
    (counted : (c : Candidate) (st : RouterState P S)
      → tried (pass_state (pass c st)) ≡ tried st ++ c ∷ []) where
  pub fall_back-tried :
      (target_model : String) (chain : List Candidate) (attempts : ℕ) (le : Option (RouterError P))
      (st : RouterState P S)
      → (now after : List Candidate) × (chain ≡ now ++ after)
        × (tried (fall_back pass target_model chain attempts le st).0 ≡ tried st ++ now)
        × HasCount (fall_back pass target_model chain attempts le st).1 (attempts + length now)
  unfolding fall_back
  fall_back-tried target_model [] attempts le st = ([], [], refl, sym (append-nil (tried st)), tt)
  fall_back-tried target_model (c ∷ cs) attempts le st = elim (Pass-cases (pass c st)) [
    | inl (st1, e, skip) ↦
        let (now, after, split, log, count) =
          fall_back-tried target_model cs (attempts + 1) (some e) st1 in
        let one : tried st1 ≡ tried st ++ c ∷ [] = ground (arith, counted c st) in
        let same : fall_back pass target_model (c ∷ cs) attempts le st
            ≡ fall_back pass target_model cs (attempts + 1) (some e) st1 =
          ground arith in
        let both : tried st1 ++ now ≡ tried st ++ c ∷ now =
          ap (λ l. l ++ now) one ∙ append_assoc (tried st) (c ∷ []) now in
        let sum : attempts + 1 + length now ≡ attempts + length (c ∷ now) = omega arith in
        (
          c ∷ now,
          after,
          ap (◌∷◌ c) split,
          ap (λ r. tried r.0) same ∙ (log ∙ both),
          subst (HasCount _) sum
              (subst (λ r. HasCount r.1 (attempts + 1 + length now)) (sym same) count),
        )
    | inr (inl (st1, resp, serve)) ↦ (c ∷ [], cs, refl, ground (arith, counted c st), ground arith)
    | inr (inr (st1, e, refuse)) ↦ (c ∷ [], cs, refl, ground (arith, counted c st), ground arith)
  ]
