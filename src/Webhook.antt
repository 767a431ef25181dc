-- ===== src/Webhook.antt =====
-- The delivery of webhooks in `crates/router/src/webhook.rs`: the retry policy and the loop that
-- `WebhookNotifier::send` spawns. Times are nanoseconds; the POST and the pause are parameters.
pub mod Laws
mod Tests
use rusty_provider.Prelude.{
  ℕ, zero, suc, ◌*◌, String, Option, List, [], ◌∷◌, Bool, true, false, if◌then◌else◌, leb, ltb,
  ◌&&◌, min,
}
use rusty_provider.Prelude.Results.{Result, ok, err}
use rusty_provider.Caches.Response.{from_secs}

pub record WebhookConfig : Type 0 where
  pub url : String
  pub auth_header_env : Option String
  pub timeout_secs : ℕ
  pub signing_secret_env : Option String
  pub retry_backoff_secs : ℕ
  pub retry_backoff_max_secs : ℕ
  pub max_retries : ℕ

pub record RetryPolicy : Type 0 where
  pub initial_backoff : ℕ
  pub max_backoff : ℕ
  pub max_retries : ℕ

-- `RetryPolicy::from`.
unfoldable pub retry_policy : WebhookConfig → RetryPolicy
retry_policy config = record {
  initial_backoff = from_secs config.retry_backoff_secs;
  max_backoff = from_secs config.retry_backoff_max_secs;
  max_retries = config.max_retries;
}

unfoldable pub next_backoff : ℕ → ℕ → ℕ
next_backoff current max = min (current * 2) max

-- `is_success` and `is_server_error` of a status.
abbrev pub is_success : ℕ → Bool
is_success status = leb 200 status && ltb status 300

abbrev pub is_server_error : ℕ → Bool
is_server_error status = leb 500 status && ltb status 600

-- Whether the outcome of a POST, its status or a network error, is worth another.
unfoldable pub worth_retrying : Result ℕ String → Bool
worth_retrying (ok status) = if is_success status then false else is_server_error status
worth_retrying (err e) = true

-- What a delivery does: the outcomes of its POSTs and the pauses between them, in their order.
pub record Delivery : Type 0 where
  pub outcomes : List (Result ℕ String)
  pub pauses : List ℕ

module _ {W : Type 0} (post : W → W × Result ℕ String) (sleep : ℕ → W → W)
    (policy : RetryPolicy) where
  -- The loop, with the number of retries that are left.
  unfoldable pub deliver : ℕ → (backoff : ℕ) → W → W × Delivery
  unfolding worth_retrying next_backoff
  deliver zero backoff w =
      let (w', outcome) = post w in (w', record { outcomes = outcome ∷ []; pauses = [] })
  deliver (suc retries) backoff w =
      let (w', outcome) = post w in
      let (w'', later) =
        deliver retries (next_backoff backoff policy.max_backoff) (sleep backoff w') in
      if worth_retrying outcome
      then (w'', record { outcomes = outcome ∷ later.outcomes; pauses = backoff ∷ later.pauses })
      else (w', record { outcomes = outcome ∷ []; pauses = [] })

  unfoldable pub send : W → W × Delivery
  unfolding deliver
  send w = deliver policy.max_retries policy.initial_backoff w
