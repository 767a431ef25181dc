-- ===== src/Caches/Response/Laws.antt =====
-- What a lookup returns, and the bound on the number of responses kept.
use rusty_provider.Prelude.{
  ℕ, ◌-◌, ◌≤◌, ◌<◌, some, ltb, lookup, contains, contains_key, length, nat_eq, true, ◌≡◌, ◌↔◌,
  arith, lookup-remove, Option-cases, inl, inr, Bool-cases, sym, ◌∙◌,
}
use rusty_provider.Platform.{Platform}
use rusty_provider.Core.Types.{ChatResponse}
use rusty_provider.Caches.Keys.{
  keys, contains-keys, IsDistinct-remove, length-le_of_subset, IsDistinct, length-keys,
}
use rusty_provider.Caches.Fifo.Laws.{length-order-put, IsDistinct-keys-put, queued-put}
use rusty_provider.Caches.Response.{ResponseCache, response_get, response_insert}

module _ {P : Platform} (now key : ℕ) (c : ResponseCache P) where
  -- A lookup returns a response exactly when it is stored under the key and is no older than the
  -- time to live.
  pub response_get-eq-some_iff :
      (r : ChatResponse P)
      → ((response_get now key c).1 ≡ some r)
        ↔ ((at : ℕ) × (lookup key c.queue.entries ≡ some (at, r)) × (now - at ≤ c.ttl))
  unfolding response_get
  response_get-eq-some_iff r = (hit, found)
    where
      hit :
          (response_get now key c).1 ≡ some r
          → (at : ℕ) × (lookup key c.queue.entries ≡ some (at, r)) × (now - at ≤ c.ttl)
      hit h = elim (Option-cases (lookup key c.queue.entries)) [
        | inl absent ↦ absurd (ground arith)
        | inr (entry, stored) ↦ (entry.0, ground arith, ground arith)
      ]

      found :
          (at : ℕ) × (lookup key c.queue.entries ≡ some (at, r)) × (now - at ≤ c.ttl)
          → (response_get now key c).1 ≡ some r
      found (at, stored, fresh) = ground arith

-- The bound of the cache: the queue stays within it, and holds every key of the map.
pub record IsBounded {P : Platform} (c : ResponseCache P) : Type 0 where
  pub positive : 0 < c.max_entries
  pub within : length c.queue.order ≤ c.max_entries
  pub distinct : IsDistinct (keys c.queue.entries)
  pub queued : (k : ℕ) → contains_key k c.queue.entries ≡ true → contains c.queue.order k ≡ true

module _ {P : Platform} {c : ResponseCache P} where
  pub response_get-IsBounded : (now key : ℕ) → IsBounded c → IsBounded (response_get now key c).0
  unfolding response_get
  response_get-IsBounded now key h = elim (Option-cases (lookup key c.queue.entries)) [
    | inl absent ↦ rw (absent, response_get) h
    | inr ((at, r), stored) ↦ elim (Bool-cases (ltb c.ttl (now - at))) [
      | inl late ↦
          rw (stored, response_get, late)
            (record {
              positive = h.positive;
              within = h.within;
              distinct = IsDistinct-remove key c.queue.entries h.distinct;
              queued = λ k. ground (arith, lookup-remove key k c.queue.entries, h.queued k);
            })
      | inr fresh ↦ rw (stored, response_get, fresh) h
    ]
  ]

  pub response_insert-IsBounded :
      (now key : ℕ) (r : ChatResponse P) → IsBounded c → IsBounded (response_insert now key r c)
  unfolding response_insert
  response_insert-IsBounded now key r h = record {
    positive = h.positive;
    within = length-order-put c.max_entries key (now, r) c.queue h.positive h.within;
    distinct = IsDistinct-keys-put c.max_entries key (now, r) c.queue h.distinct;
    queued = λ k. queued-put c.max_entries key k (now, r) c.queue h.positive h.queued;
  }

  -- A bounded cache stores at most `max_entries` responses.
  pub entries-le-max_entries : IsBounded c → length c.queue.entries ≤ c.max_entries
  entries-le-max_entries h = omega (
    arith,
    length-keys c.queue.entries,
    h.within,
    length-le_of_subset (keys c.queue.entries) c.queue.order h.distinct
        (λ k stored. h.queued k (sym (contains-keys k c.queue.entries) ∙ stored)),
  )
