-- ===== src/Core/RateLimit.antt =====
-- `crates/core/src/rate_limit.rs`: token buckets, one for each identity. Instants are nanoseconds on
-- the monotonic clock, given to each call; the lock around the map makes a call atomic.
pub mod Bounds
use rusty_provider.Prelude.{
  ℕ, ◌-◌, ◌/◌, ◌%◌, String, Option, none, some, Map, lookup, insert, unwrap_or, if◌then◌else◌,
  string_eq,
}
use rusty_provider.Prelude.Results.{Result, ok, err}
use rusty_provider.Platform.{Platform}

module _ (P : Platform) where
  pub record TokenBucket : Type 0 where
    pub capacity : P.F64
    pub tokens : P.F64
    pub last_refill : ℕ

  pub record RateLimitStatus : Type 0 where
    pub limit : ℕ
    pub remaining : ℕ
    pub reset_secs : P.F64
    pub retry_after_secs : P.F64

  -- `Duration::as_secs_f64` of a number of nanoseconds.
  unfoldable pub as_secs_f64 : ℕ → P.F64
  as_secs_f64 ns =
      P.add (P.of_nat (ns / 1_000_000_000))
        (P.div (P.of_nat (ns % 1_000_000_000)) (P.of_nat 1_000_000_000))

module _ {P : Platform} where
  unfoldable pub new_bucket : P.F64 → ℕ → TokenBucket P
  new_bucket capacity now = record { capacity = capacity; tokens = capacity; last_refill = now }

  unfoldable pub refill : TokenBucket P → ℕ → TokenBucket P
  refill b now =
      let elapsed_secs = as_secs_f64 P (now - b.last_refill) in
      record b {
        last_refill = now;
        tokens =
            P.fmin (P.add b.tokens (P.mul elapsed_secs (P.div b.capacity (P.of_nat 60))))
              b.capacity;
      }

  unfoldable pub reset_secs : TokenBucket P → P.F64
  reset_secs b =
      if P.le b.capacity (P.of_nat 0)
      then P.of_nat 0
      else P.div (P.sub b.capacity b.tokens) (P.div b.capacity (P.of_nat 60))

  unfoldable pub try_acquire :
      TokenBucket P → ℕ → TokenBucket P × Result (RateLimitStatus P) (RateLimitStatus P)
  unfolding reset_secs
  try_acquire b now =
      let b = refill b now in
      let limit = P.to_u32 (P.fmax b.capacity (P.of_nat 0)) in
      if P.le (P.of_nat 1) b.tokens
      then (let taken = record b { tokens = P.sub b.tokens (P.of_nat 1) } in
          (
            taken,
            ok (record {
              limit = limit;
              remaining = P.to_u32 taken.tokens;
              reset_secs = reset_secs taken;
              retry_after_secs = P.of_nat 0;
            }),
          ))
      else if P.le b.capacity (P.of_nat 0)
      then (
        b,
        err (record {
          limit = limit;
          remaining = 0;
          reset_secs = P.of_nat 60;
          retry_after_secs = P.of_nat 60;
        }),
      )
      else (
        b,
        err (record {
          limit = limit;
          remaining = 0;
          reset_secs = reset_secs b;
          retry_after_secs = P.div (P.sub (P.of_nat 1) b.tokens) (P.div b.capacity (P.of_nat 60));
        }),
      )

  -- The bucket of a key, created full at its first use.
  unfoldable pub bucket_of : Map String (TokenBucket P) → String → ℕ → ℕ → TokenBucket P
  unfolding new_bucket
  bucket_of buckets key requests_per_minute now =
      unwrap_or (lookup key buckets) (new_bucket (P.of_nat requests_per_minute) now)

  unfoldable pub check :
      Map String (TokenBucket P)
      → String
      → ℕ
      → ℕ
      → Map String (TokenBucket P) × Result (RateLimitStatus P) (RateLimitStatus P)
  check buckets key requests_per_minute now =
      let (bucket, result) = try_acquire (bucket_of buckets key requests_per_minute now) now in
      (insert key bucket buckets, result)
