-- ===== src/Dispatch/Loop/Attempts.antt =====
-- The metrics that the loop of `dispatch_uncached` records: one attempt for each candidate that it tries.
use rusty_provider.Prelude.{ℕ, ◌+◌, String, Option, List, [], ◌∷◌, ◌++◌, length, ◌≡◌, arith}
use rusty_provider.Platform.{Platform}
use rusty_provider.Core.Types.{ChatRequest, ChatResponse, Usage}
use rusty_provider.Core.Errors.{RouterError}
use rusty_provider.Chain.Settings.{Candidate, RouterSettings}
use rusty_provider.Dispatch.{Outside, RouterState, account_usage, record_usage, record_throughput}
use rusty_provider.Dispatch.Passes.{record_uptime}
use rusty_provider.Dispatch.Passes.Attempts.{
  pass_state, tried, HasCount, tried-log_attempt, tried-failed, tried-guarded, fall_back-tried,
}
use rusty_provider.Dispatch.Loop.{on_success, on_error, attempt_call, try_candidate, try_chain}

module _ {P : Platform} (O : Outside P) (s : RouterSettings P) (req : ChatRequest P) where
  attempts-account_usage :
      (c : Candidate) (resp : ChatResponse P) (usage : Usage) (elapsed_secs : P.F64)
      (st : RouterState P O.State)
      → (account_usage O s c resp usage elapsed_secs st).0.attempts ≡ st.attempts
  unfolding account_usage record_usage record_throughput
  attempts-account_usage c resp usage elapsed_secs st = ground arith

  tried-attempt_call :
      (c : Candidate) (st : RouterState P O.State)
      → tried (pass_state (attempt_call O s req c st)) ≡ tried st ++ c ∷ []
  unfolding attempt_call on_success on_error record_uptime
  tried-attempt_call c st = grind (arith, tried-log_attempt, tried-failed, attempts-account_usage)

  tried-try_candidate :
      (c : Candidate) (st : RouterState P O.State)
      → tried (pass_state (try_candidate O s req c st)) ≡ tried st ++ c ∷ []
  unfolding try_candidate
  tried-try_candidate = tried-guarded O s (attempt_call O s req) tried-attempt_call

  -- Whatever comes of it, the loop records one attempt for each candidate of a prefix of the chain, in
  -- chain order and behind the attempts recorded before, and a response comes with the length of
  -- that prefix.
  pub try_chain-tried :
      (target_model : String) (chain : List Candidate) (attempts : ℕ) (le : Option (RouterError P))
      (st : RouterState P O.State)
      → (now after : List Candidate) × (chain ≡ now ++ after)
        × (tried (try_chain O s req target_model chain attempts le st).0 ≡ tried st ++ now)
        × HasCount (try_chain O s req target_model chain attempts le st).1 (attempts + length now)
  unfolding try_chain
  try_chain-tried = fall_back-tried (try_candidate O s req) tried-try_candidate
