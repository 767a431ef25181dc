-- ===== src/Caches/Response/Runs.antt =====
-- Sequences of operations on the response cache, and what an expired key leaves behind in the queue.
use rusty_provider.Prelude.{
  ℕ, ◌+◌, ◌-◌, ◌≤◌, ◌<◌, List, [], ◌∷◌, none, some, lookup, remove, length, nat_eq, ◌≡◌, ◌≢◌, refl,
  arith, lookup-remove, max,
}
use rusty_provider.Platform.{Platform}
use rusty_provider.Core.Types.{ChatResponse}
use rusty_provider.Caches.Fifo.{get}
use rusty_provider.Caches.Fifo.Laws.{get-put_stale}
use rusty_provider.Caches.Response.{
  CacheConfig, ResponseCache, response_cache, response_get, response_insert,
}
use rusty_provider.Caches.Response.Laws.{
  IsBounded, response_get-IsBounded, response_insert-IsBounded, entries-le-max_entries,
}

-- An operation with the instant at which it is made.
pub data CacheCall (P : Platform) : Type 0 where
  lookup_at : (now key : ℕ) → CacheCall P
  insert_at : (now key : ℕ) → ChatResponse P → CacheCall P

module _ {P : Platform} where
  unfoldable pub step : ResponseCache P → CacheCall P → ResponseCache P
  step c (lookup_at now key) = (response_get now key c).0
  step c (insert_at now key r) = response_insert now key r c

  unfoldable pub run : ResponseCache P → List (CacheCall P) → ResponseCache P
  run c [] = c
  run c (call ∷ calls) = run (step c call) calls

  step-IsBounded :
      (call : CacheCall P) {c : ResponseCache P} → IsBounded c → IsBounded (step c call)
  unfolding step
  step-IsBounded (lookup_at now key) h = response_get-IsBounded now key h
  step-IsBounded (insert_at now key r) h = response_insert-IsBounded now key r h

  step-max_entries :
      (call : CacheCall P) (c : ResponseCache P) → (step c call).max_entries ≡ c.max_entries
  unfolding step response_get response_insert
  step-max_entries (lookup_at now key) c = ground arith
  step-max_entries (insert_at now key r) c = refl

  run-IsBounded :
      (calls : List (CacheCall P)) {c : ResponseCache P}
      → IsBounded c
      → IsBounded (run c calls) × ((run c calls).max_entries ≡ c.max_entries)
  unfolding run
  run-IsBounded [] h = (h, refl)
  run-IsBounded (call ∷ calls) {c} h =
      let (kept, same) = run-IsBounded calls (step-IsBounded call h) in
      (kept, omega (arith, same, step-max_entries call c))

  response_cache-IsBounded : (config : CacheConfig P) → IsBounded (response_cache config)
  unfolding response_cache lookup
  response_cache-IsBounded config = record {
    positive = omega arith;
    within = omega arith;
    distinct = tt;
    queued = λ k h. cc h;
  }

  -- Whatever is looked up and inserted, and whenever, a cache never stores more responses than
  -- its configured number of entries, or 1 if that is 0.
  pub entries-run-le :
      (config : CacheConfig P) (calls : List (CacheCall P))
      → length (run (response_cache config) calls).queue.entries ≤ max config.max_entries 1
  unfolding response_cache
  entries-run-le config calls =
      let (bounded, same) = run-IsBounded calls (response_cache-IsBounded config) in
      omega (arith, entries-le-max_entries bounded, same)

  response_get_expired :
      (now k at : ℕ) (old : ChatResponse P) (c : ResponseCache P)
      → lookup k c.queue.entries ≡ some (at, old)
      → c.ttl < now - at
      → (response_get now k c).0
        ≡ record c { queue = record { order = c.queue.order; entries = remove k c.queue.entries } }
  unfolding response_get
  response_get_expired now k at old c stored late = ground arith

  response_get_absent :
      (now k : ℕ) (c : ResponseCache P)
      → lookup k c.queue.entries ≡ none
      → (response_get now k c).1 ≡ none
  unfolding response_get
  response_get_absent now k c absent = ground arith

  -- Let an expired key be the first in the queue of a cache, let the queue be one short of the cache's
  -- capacity, and let another key not be stored. If the expired key is looked up, cached again, and
  -- then the other key is cached, all at one instant, the new response of the first key is gone.
  pub get_reinserted_lost :
      (now k j : ℕ) (old r r' : ChatResponse P) (at : ℕ) (rest : List ℕ) (c : ResponseCache P)
      → c.queue.order ≡ k ∷ rest
      → length c.queue.order + 1 ≡ c.max_entries
      → lookup k c.queue.entries ≡ some (at, old)
      → c.ttl < now - at
      → lookup j c.queue.entries ≡ none
      → j ≢ k
      → (response_get now k
          (run c (lookup_at now k ∷ insert_at now k r ∷ insert_at now j r' ∷ []))).1
        ≡ none
  unfolding run step response_insert get
  get_reinserted_lost now k j old r r' at rest c queue full stored late fresh ne =
      rw (response_get_expired now k at old c stored late) (
        response_get_absent now k _ (
          get-put_stale c.max_entries k j (now, r) (now, r') rest
            (record { order = c.queue.order; entries = remove k c.queue.entries }) queue full
            (ground (arith, lookup-remove k k c.queue.entries))
            (ground (arith, lookup-remove k j c.queue.entries)) ne))
