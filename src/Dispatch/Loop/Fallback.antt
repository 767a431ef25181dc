-- ===== src/Dispatch/Loop/Fallback.antt =====
-- The fallback loop of `dispatch_uncached`: which candidate answers, how many are tried, and when the
-- loop stops.
use rusty_provider.Prelude.{ℕ, ◌+◌, String, none, List, length, ◌≡◌, ◌↔◌}
use rusty_provider.Prelude.Results.{ok}
use rusty_provider.Platform.{Platform}
use rusty_provider.Core.Types.{ChatRequest, ChatResponse}
use rusty_provider.Chain.Settings.{Candidate, RouterSettings}
use rusty_provider.Dispatch.{Outside, RouterState}
use rusty_provider.Dispatch.Passes.{served}
use rusty_provider.Dispatch.Passes.Laws.{Reaches, fall_back-eq-ok_iff}
use rusty_provider.Dispatch.Loop.{try_candidate, try_chain}

module _ {P : Platform} (O : Outside P) (s : RouterSettings P) (req : ChatRequest P) where
  -- The loop gives a response exactly when some candidate answers with it and all candidates before
  -- it are skipped; the count is the number of candidates tried, that one included.
  pub try_chain-eq-ok_iff :
      (target_model : String) (chain : List Candidate) (n : ℕ) (st st' : RouterState P O.State)
      (resp : ChatResponse P)
      → (try_chain O s req target_model chain 0 none st ≡ (st', ok (resp, n))) ↔ (
          (before : List Candidate) × (c : Candidate) × (n ≡ length before + 1)
          × Reaches (try_candidate O s req) chain (none, st) before c (served st' resp))
  unfolding try_chain
  try_chain-eq-ok_iff = fall_back-eq-ok_iff (try_candidate O s req)
