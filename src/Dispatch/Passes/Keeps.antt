-- ===== src/Dispatch/Passes/Keeps.antt =====
-- What no pass of a fallback loop changes, the loop does not change.
use rusty_provider.Prelude.{
  ℕ, ◌+◌, String, Option, some, List, [], ◌∷◌, ◌≡◌, refl, arith, inl, inr, string_eq,
}
use rusty_provider.Platform.{Platform}
use rusty_provider.Core.Errors.{RouterError, ProviderError}
use rusty_provider.Caches.Response.{ResponseCache}
use rusty_provider.Caches.Semantic.{SemanticCache}
use rusty_provider.Chain.Settings.{Candidate, RouterSettings}
use rusty_provider.Dispatch.{Outside, RouterState, log_attempt, check_outbound_rate_limit}
use rusty_provider.Dispatch.Passes.{Pass, fall_back, guarded, failed}
use rusty_provider.Dispatch.Passes.Laws.{Pass-cases}
use rusty_provider.Dispatch.Passes.Attempts.{pass_state}

module _ {P : Platform} {T A B : Type 0} (pass : Candidate → T → Pass P T A) (part : T → B)
    (kept : (c : Candidate) (st : T) → part (pass_state (pass c st)) ≡ part st) where
  pub fall_back-keeps :
      (target_model : String) (chain : List Candidate) (attempts : ℕ) (le : Option (RouterError P))
      (st : T)
      → part (fall_back pass target_model chain attempts le st).0 ≡ part st
  unfolding fall_back
  fall_back-keeps target_model [] attempts le st = refl
  fall_back-keeps target_model (c ∷ cs) attempts le st = elim (Pass-cases (pass c st)) [
    | inl (st1, e, skip) ↦
        ground (arith, kept c st, fall_back-keeps target_model cs (attempts + 1) (some e) st1)
    | inr (inl (st1, resp, serve)) ↦ ground (arith, kept c st)
    | inr (inr (st1, e, refuse)) ↦ ground (arith, kept c st)
  ]

-- The two response caches of a state.
abbrev pub caches :
    {P : Platform} {S : Type 0}
    → RouterState P S
    → Option (ResponseCache P) × Option (SemanticCache P)
caches st = (st.cache, st.semantic_cache)

module _ {P : Platform} (O : Outside P) (s : RouterSettings P) where
  pub caches-log_attempt :
      (c : Candidate) (outcome : String) (st : RouterState P O.State)
      → caches (log_attempt O s c outcome st) ≡ caches st
  unfolding log_attempt
  caches-log_attempt c outcome st = refl

  pub caches-check_outbound :
      (name : String) (st : RouterState P O.State)
      → caches (check_outbound_rate_limit O s name st).0 ≡ caches st
  unfolding check_outbound_rate_limit
  caches-check_outbound name st = ground arith

  pub caches-failed :
      (A : Type 0) (c : Candidate) (e : ProviderError) (st : RouterState P O.State)
      → caches (pass_state (failed O s {A = A} c e st)) ≡ caches st
  unfolding failed log_attempt
  caches-failed A c e st = ground arith

  pub caches-guarded :
      {A : Type 0} (call : Candidate → RouterState P O.State → Pass P (RouterState P O.State) A)
      → ((c : Candidate) (st : RouterState P O.State) → caches (pass_state (call c st)) ≡ caches st)
      → (c : Candidate) (st : RouterState P O.State)
      → caches (pass_state (guarded O s call c st)) ≡ caches st
  unfolding guarded check_outbound_rate_limit log_attempt
  caches-guarded call one c st = ground (arith, one c (check_outbound_rate_limit O s c.0 st).0)
