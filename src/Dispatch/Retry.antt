-- ===== src/Dispatch/Retry.antt =====
-- How often `retry_same_provider` calls a provider, and with what pauses.
use rusty_provider.Prelude.{
  ℕ, zero, suc, ◌≤◌, List, [], ◌∷◌, ◌++◌, append_assoc, Bool, true, false, if◌then◌else◌, all,
  length, ◌≡◌, ◌⊎◌, inl, inr, refl, ◌∙◌, arith,
}
use rusty_provider.Prelude.Results.{Result, ok, err}
use rusty_provider.Core.Errors.{ProviderError, is_transient}
use rusty_provider.Dispatch.{retry_same_provider, retry_loop, same_provider_retries}

-- What can be seen of a run: the calls, with what they returned, and the pauses.
pub data Event (A : Type 0) : Type 0 where
  called : Result A ProviderError → Event A
  paused : Event A

-- Calls that failed, each with a pause after it, and then one more call.
abbrev pub events : {A : Type 0} → List ProviderError → Result A ProviderError → List (Event A)
events [] last = called last ∷ []
events (e ∷ es) last = called (err e) ∷ paused ∷ events es last

-- A result that is not worth a retry.
abbrev pub IsFinal : {A : Type 0} → Result A ProviderError → Type 0
IsFinal (ok a) = Unit
IsFinal (err e) = is_transient e ≡ false

module _ {S A : Type 0} where
  -- A pause and a call that keep a record beside the state.
  abbrev pub recorded_sleep : (S → S) → S × List (Event A) → S × List (Event A)
  recorded_sleep sleep (st, seen) = (sleep st, seen ++ paused ∷ [])

  abbrev pub recorded_attempt :
      (S → S × Result A ProviderError)
      → S × List (Event A)
      → (S × List (Event A)) × Result A ProviderError
  recorded_attempt attempt (st, seen) =
      let (st', r) = attempt st in ((st', seen ++ called r ∷ []), r)

  -- A run with so many retries and its recorded twin end in one state with one result. After what was
  -- recorded before, there are calls that failed with transient errors, each with a pause after it, no
  -- more than the retries, and a last call, whose result is the run's. It is final, or all retries
  -- are used.
  abbrev pub IsRetried :
      ℕ
      → List (Event A)
      → S × Result A ProviderError
      → (S × List (Event A)) × Result A ProviderError
      → Type 0
  IsRetried retries before plain ((st, after), r) =
      (plain ≡ (st, r))
      × (failures : List ProviderError) × (after ≡ before ++ events failures r)
      × (all is_transient failures ≡ true)
      × (length failures ≤ retries)
      × ((length failures ≡ retries) ⊎ IsFinal r)

  IsRetried-again :
      (retries : ℕ) (before : List (Event A)) (e : ProviderError)
      (plain : S × Result A ProviderError) (twin : (S × List (Event A)) × Result A ProviderError)
      → is_transient e ≡ true
      → IsRetried retries ((before ++ called (err e) ∷ []) ++ paused ∷ []) plain twin
      → IsRetried (suc retries) before plain twin
  IsRetried-again retries before e plain twin again (same, failures, seen, transient, few, stop) = (
    same,
    e ∷ failures,
    seen
        ∙ append_assoc (before ++ called (err e) ∷ []) (paused ∷ []) _
        ∙ append_assoc before (called (err e) ∷ []) _,
    ground (arith, again, transient),
    omega arith,
    elim stop [ inl used ↦ inl (omega arith) | inr final ↦ inr final ],
  )

module _ {S A : Type 0} (sleep : S → S) (attempt : S → S × Result A ProviderError) where
  retry_loop-IsRetried :
      (retries : ℕ) (before : List (Event A)) (st : S) (r : Result A ProviderError)
      → IsRetried retries before (retry_loop sleep attempt retries (st, r)) (
          retry_loop
            (recorded_sleep sleep)
            (recorded_attempt attempt)
            retries
            ((st, before ++ called r ∷ []), r))
  unfolding retry_loop
  retry_loop-IsRetried zero before st r = (refl, [], refl, refl, omega arith, inl refl)
  retry_loop-IsRetried (suc retries) before st (ok a) = (refl, [], refl, refl, omega arith, inr tt)
  retry_loop-IsRetried (suc retries) before st (err e) = branch (is_transient e) refl (
      retry_loop-IsRetried retries ((before ++ called (err e) ∷ []) ++ paused ∷ [])
        (attempt (sleep st)).0 (attempt (sleep st)).1)
    where
      branch :
          (b : Bool)
          → is_transient e ≡ b
          → let before' = (before ++ called (err e) ∷ []) ++ paused ∷ [] in
            let plain = retry_loop sleep attempt retries (attempt (sleep st)) in
            let twin =
              retry_loop
                (recorded_sleep sleep)
                (recorded_attempt attempt)
                retries
                (recorded_attempt attempt (sleep st, before')) in
            IsRetried retries before' plain twin
            → IsRetried
                (suc retries)
                before
                (if b then plain else (st, err e))
                (if b then twin else ((st, before ++ called (err e) ∷ []), err e))
      branch true again later = IsRetried-again retries before e _ _ again later
      branch false final later = (refl, [], refl, refl, omega arith, inr final)

  -- A provider is called until it answers, fails with an error that is not transient, or has been
  -- called once more than the number of retries. There is a pause between two calls, all calls but
  -- the last fail with transient errors, and the result is that of the last.
  pub retry_same_provider-IsRetried :
      (st : S)
      → IsRetried same_provider_retries []
          (retry_same_provider sleep attempt st)
          (retry_same_provider (recorded_sleep sleep) (recorded_attempt attempt) (st, []))
  unfolding retry_same_provider
  retry_same_provider-IsRetried st =
      retry_loop-IsRetried same_provider_retries [] (attempt st).0 (attempt st).1
