-- ===== src/Caches/Response.antt =====
-- `crates/router/src/cache.rs`, the exact-match cache. Instants are nanoseconds on the monotonic
-- clock, given to each operation; `elapsed` stops at 0 as `Instant::elapsed` does.
pub mod Laws
pub mod Runs
use rusty_provider.Prelude.{
  ℕ, ◌-◌, ◌*◌, String, List, [], Option, none, some, if◌then◌else◌, ltb, max, lookup, remove,
  nat_eq,
}
use rusty_provider.Platform.{Platform}
use rusty_provider.Core.Types.{ChatResponse}
use rusty_provider.Caches.Fifo.{Fifo, new, put}

pub data CacheMode : Type 0 where
  exact semantic : CacheMode

pub record CacheConfig (P : Platform) : Type 0 where
  pub ttl_secs : ℕ
  pub max_entries : ℕ
  pub mode : CacheMode
  pub similarity_threshold : P.F64
  pub embedding_model : Option String

-- `Duration::from_secs`, in nanoseconds.
abbrev pub from_secs : ℕ → ℕ
from_secs s = s * 1_000_000_000

-- `order` and `entries` are the fields of `queue`.
pub record ResponseCache (P : Platform) : Type 0 where
  pub ttl : ℕ
  pub max_entries : ℕ
  pub queue : Fifo ℕ (ℕ × ChatResponse P)

module _ {P : Platform} where
  unfoldable pub response_cache : CacheConfig P → ResponseCache P
  response_cache config = record {
    ttl = from_secs config.ttl_secs;
    max_entries = max config.max_entries 1;
    queue = new;
  }

  -- The updated cache, and the response on a hit.
  unfoldable pub response_get : ℕ → ℕ → ResponseCache P → ResponseCache P × Option (ChatResponse P)
  response_get now key c = elim (lookup key c.queue.entries) [
    | none ↦ (c, none)
    | some (inserted_at, resp) ↦
        if ltb c.ttl (now - inserted_at)
        then (
          record c {
            queue = record { order = c.queue.order; entries = remove key c.queue.entries };
          },
          none,
        )
        else (c, some resp)
  ]

  unfoldable pub response_insert : ℕ → ℕ → ChatResponse P → ResponseCache P → ResponseCache P
  unfolding put
  response_insert now key resp c = record c { queue = put c.max_entries key (now, resp) c.queue }
