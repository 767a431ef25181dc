-- ===== src/Webhook/Tests.antt =====
-- An example for webhook deliveries: a receiver that is down for its first two requests.
use rusty_provider.Prelude.{ℕ, ◌+◌, String, ltb, if◌then◌else◌, [], ◌∷◌, ◌≡◌, refl}
use rusty_provider.Prelude.Results.{Result, ok}
use rusty_provider.Webhook.{RetryPolicy, deliver, send, worth_retrying, next_backoff}
use rusty_provider.Webhook.Laws.{IsDelivery, send-IsDelivery}

abbrev policy : RetryPolicy
policy = record { initial_backoff = 3; max_backoff = 5; max_retries = 4 }

-- The state counts the requests.
abbrev post : ℕ → ℕ × Result ℕ String
post n = (n + 1, if ltb n 2 then ok 503 else ok 200)

delivers :
    (send post (λ pause n. n) policy 0).1
    ≡ record { outcomes = ok 503 ∷ ok 503 ∷ ok 200 ∷ []; pauses = 3 ∷ 5 ∷ [] }
unfolding send deliver worth_retrying next_backoff
delivers = refl

send-IsDelivery_example : IsDelivery policy 4 0 (send post (λ pause n. n) policy 0).1
send-IsDelivery_example = send-IsDelivery post (λ pause n. n) policy 0
