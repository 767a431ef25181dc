-- ===== src/Webhook/Laws.antt =====
-- How often a webhook is sent, and with what pauses.
use rusty_provider.Prelude.{
  ℕ, zero, suc, ◌*◌, ◌≤◌, String, List, [], ◌∷◌, ◌++◌, true, false, all, length, min, ◌≡◌, ◌⊎◌, inl,
  inr, refl, sym, ap, subst, arith, Bool-cases,
}
use rusty_provider.Prelude.Results.{Result}
use rusty_provider.Webhook.{RetryPolicy, next_backoff, worth_retrying, Delivery, deliver, send}

-- A number doubled several times.
abbrev pub doubled : ℕ → ℕ → ℕ
doubled x zero = x
doubled x (suc i) = doubled x i * 2

-- The pause before a retry: the initial one, or that doubled for each retry before, up to the limit.
abbrev pub pause_before : RetryPolicy → ℕ → ℕ
pause_before policy zero = policy.initial_backoff
pause_before policy (suc i) = min (doubled policy.initial_backoff (suc i)) policy.max_backoff

-- The pauses before some retries, from one on.
abbrev pub schedule : RetryPolicy → (first count : ℕ) → List ℕ
schedule policy first zero = []
schedule policy first (suc count) = pause_before policy first ∷ schedule policy (suc first) count

next_backoff-pause_before :
    (policy : RetryPolicy) (i : ℕ)
    → next_backoff (pause_before policy i) policy.max_backoff ≡ pause_before policy (suc i)
unfolding next_backoff
next_backoff-pause_before policy zero = refl
next_backoff-pause_before policy (suc i) = ground arith

-- A delivery with some retries left, of which the first is the retry `i`: failures that are worth a
-- retry, then the last outcome, which is not worth one unless no retry is left.
abbrev pub IsDelivery : RetryPolicy → (retries i : ℕ) → Delivery → Type 0
IsDelivery policy retries i d =
    (failures : List (Result ℕ String)) × (last : Result ℕ String) × (d.outcomes
      ≡ failures ++ last ∷ [])
    × (all worth_retrying failures ≡ true)
    × ((length failures ≡ retries) ⊎ (worth_retrying last ≡ false))
    × (length failures ≤ retries)
    × (d.pauses ≡ schedule policy i (length failures))

IsDelivery-retried :
    (policy : RetryPolicy) (retries i : ℕ) (outcome : Result ℕ String) (d : Delivery)
    → worth_retrying outcome ≡ true
    → IsDelivery policy retries (suc i) d
    → IsDelivery policy
        (suc retries)
        i
        (record { outcomes = outcome ∷ d.outcomes; pauses = pause_before policy i ∷ d.pauses })
IsDelivery-retried policy retries i outcome d again
      (failures, last, ends, fail, stop, few, paused) =
    (
      outcome ∷ failures,
      last,
      ap (◌∷◌ outcome) ends,
      ground (arith, again, fail),
      elim stop [ inl none_left ↦ inl (omega arith) | inr final ↦ inr final ],
      omega arith,
      ap (◌∷◌ (pause_before policy i)) paused,
    )

module _ {W : Type 0} (post : W → W × Result ℕ String) (sleep : ℕ → W → W)
    (policy : RetryPolicy) where
  deliver-again :
      (retries backoff : ℕ) (w : W)
      → worth_retrying (post w).1 ≡ true
      → let later =
          (deliver post sleep policy retries
            (next_backoff backoff policy.max_backoff)
            (sleep backoff (post w).0)).1 in
        (deliver post sleep policy (suc retries) backoff w).1
        ≡ record { outcomes = (post w).1 ∷ later.outcomes; pauses = backoff ∷ later.pauses }
  unfolding deliver
  deliver-again retries backoff w again = ground (arith, again)

  deliver-final :
      (retries backoff : ℕ) (w : W)
      → worth_retrying (post w).1 ≡ false
      → (deliver post sleep policy (suc retries) backoff w).1
        ≡ record { outcomes = (post w).1 ∷ []; pauses = [] }
  unfolding deliver
  deliver-final retries backoff w done = ground (arith, done)

  deliver-IsDelivery :
      (retries i : ℕ) (w : W)
      → IsDelivery policy retries i (deliver post sleep policy retries (pause_before policy i) w).1
  unfolding deliver
  deliver-IsDelivery zero i w = ([], (post w).1, refl, refl, inl refl, omega arith, refl)
  deliver-IsDelivery (suc retries) i w = elim (Bool-cases (worth_retrying (post w).1)) [
    | inr done ↦
        subst (IsDelivery policy (suc retries) i)
          (sym (deliver-final retries (pause_before policy i) w done))
          ([], (post w).1, refl, refl, inr done, omega arith, refl)
    | inl again ↦
        let w' = sleep (pause_before policy i) (post w).0 in
        let later =
          subst (λ b. IsDelivery policy retries (suc i) (deliver post sleep policy retries b w').1)
            (sym (next_backoff-pause_before policy i)) (deliver-IsDelivery retries (suc i) w') in
        subst (IsDelivery policy (suc retries) i)
          (sym (deliver-again retries (pause_before policy i) w again))
          (IsDelivery-retried policy retries i (post w).1 _ again later)
  ]

  -- A delivery ends after at most one POST more than the policy's retries. All outcomes before the
  -- last are worth a retry, the last is not unless all retries are used up, and the pauses are the
  -- initial one and its doubles up to the limit, one before each retry.
  pub send-IsDelivery :
      (w : W) → IsDelivery policy policy.max_retries 0 (send post sleep policy w).1
  unfolding send
  send-IsDelivery w = deliver-IsDelivery policy.max_retries 0 w
