-- ===== src/Caches/Tests.antt =====
-- Examples for the caches.
use rusty_provider.Prelude.{
  ℕ, ◌-◌, ◌≤◌, max, none, some, [], ◌∷◌, if◌then◌else◌, eqb, length, lookup, nat_eq, ◌≡◌, refl, ◌↔◌,
  ◌⊎◌, retain, All, arith,
}
use rusty_provider.Samples.{nat_platform, nat_laws, answer}
use rusty_provider.Caches.Fifo.{Fifo, put, get}
use rusty_provider.Caches.Fifo.Laws.{victim, order_after, IsExact, order-put, get-put, put-IsExact}
use rusty_provider.Caches.Response.{exact, CacheConfig, ResponseCache, response_cache, response_get}
use rusty_provider.Caches.Response.Laws.{response_get-eq-some_iff}
use rusty_provider.Caches.Response.Runs.{
  lookup_at, insert_at, run, entries-run-le, get_reinserted_lost,
}
use rusty_provider.Caches.Semantic.{SemanticEntry, SemanticCache, semantic_get, is_fresh}
use rusty_provider.Caches.Semantic.Laws.{Among, matches, NoCloser, semantic_get-matches}

-- Keys 1 and 2 in a cache that holds two.
abbrev full : Fifo ℕ ℕ
full = record { order = 1 ∷ 2 ∷ []; entries = (1, 10) ∷ (2, 20) ∷ [] }

order-put_example : (put 2 3 30 full).order ≡ order_after 2 3 full
order-put_example = order-put 2 3 30 full

get-put_example : get 1 (put 2 3 30 full) ≡ (
    if eqb 3 1 then some 30 else elim (victim 2 3 full) [
      | none ↦ get 1 full
      | some o ↦ if eqb o 1 then none else get 1 full
    ])
get-put_example = get-put 2 3 1 30 full (omega arith)

full-IsExact : IsExact 2 full
unfolding lookup
full-IsExact = record {
  bounded = omega arith;
  distinct = (refl, (refl, tt));
  listed = λ k. ground arith;
}

put-IsExact_example : IsExact 2 (put 2 3 30 full)
put-IsExact_example = put-IsExact 2 3 30 (omega arith) full-IsExact

-- One entry of the instant 5, in a cache with room for two and a time to live of 10.
abbrev cache : ResponseCache nat_platform
cache = record {
  ttl = 10;
  max_entries = 2;
  queue = record { order = 1 ∷ []; entries = (1, (5, answer "m")) ∷ [] };
}

response_get-eq-some_iff_example :
    ((response_get 12 1 cache).1 ≡ some (answer "m"))
    ↔ ((at : ℕ) × (lookup 1 cache.queue.entries ≡ some (at, answer "m")) × (12 - at ≤ 10))
response_get-eq-some_iff_example = response_get-eq-some_iff 12 1 cache (answer "m")

abbrev config : CacheConfig nat_platform
config = record {
  ttl_secs = 60;
  max_entries = 1;
  mode = exact;
  similarity_threshold = 0;
  embedding_model = none;
}

entries-run-le_example :
    length
      (run (response_cache config) (
        insert_at 0 1 (answer "a") ∷ insert_at 1 2 (answer "b") ∷ lookup_at 2 1 ∷ [])).queue.entries
    ≤ max 1 1
entries-run-le_example =
    entries-run-le config
      (insert_at 0 1 (answer "a") ∷ insert_at 1 2 (answer "b") ∷ lookup_at 2 1 ∷ [])

key_1 : lookup 1 cache.queue.entries ≡ some (5, answer "m")
unfolding lookup
key_1 = refl

key_2 : lookup 2 cache.queue.entries ≡ none
unfolding lookup
key_2 = refl

get_reinserted_lost_example :
    (response_get 20 1 (
      run cache
        (lookup_at 20 1 ∷ insert_at 20 1 (answer "fresh") ∷ insert_at 20 2 (answer "b") ∷ []))).1
    ≡ none
get_reinserted_lost_example =
    get_reinserted_lost 20 1 2 (answer "m") (answer "fresh") (answer "b") 5 [] cache refl refl key_1
      (omega arith) key_2 (omega arith)

-- Two entries of one scope in a semantic cache, and an old one.
abbrev entry : ℕ → ℕ → SemanticEntry nat_platform
entry value at = record {
  scope_key = 1;
  embedding = value ∷ [];
  response = answer "m";
  inserted_at = at;
}

abbrev similar : SemanticCache nat_platform
similar = record {
  ttl = 10;
  max_entries = 3;
  threshold = 0;
  entries = entry 2 1 ∷ entry 1 15 ∷ entry 3 16 ∷ [];
}

semantic_get-matches_example :
    ((semantic_get 20 1 (1 ∷ []) similar).0.entries ≡ retain (is_fresh 20 10) similar.entries)
    × (((matches 20 1 (1 ∷ []) similar ≡ []) × ((semantic_get 20 1 (1 ∷ []) similar).1 ≡ none))
        ⊎ ((e : SemanticEntry nat_platform) × Among e (matches 20 1 (1 ∷ []) similar)
            × ((semantic_get 20 1 (1 ∷ []) similar).1 ≡ some e.response)
            × All (NoCloser (1 ∷ []) e) (matches 20 1 (1 ∷ []) similar)))
semantic_get-matches_example = semantic_get-matches nat_laws 20 1 (1 ∷ []) similar
