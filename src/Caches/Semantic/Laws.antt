-- ===== src/Caches/Semantic/Laws.antt =====
-- What a lookup in the semantic cache finds, and how large the cache grows.
use rusty_provider.Prelude.{
  ℕ, ◌+◌, ◌≤◌, ◌<◌, List, [], ◌∷◌, ◌++◌, none, some, Bool, true, length, length-append, retain,
  length-retain-le, All, ◌&&◌, ◌⊎◌, inl, inr, ◌≡◌, refl, sym, subst, arith, Bool-cases,
}
use rusty_provider.Platform.{Platform, PlatformLaws}
use rusty_provider.Core.Types.{ChatResponse}
use rusty_provider.Caches.Response.{CacheConfig}
use rusty_provider.Caches.Semantic.{
  SemanticEntry, SemanticCache, semantic_cache, cosine_similarity, is_fresh, clears_bar, max_by,
  semantic_get, semantic_insert, pop_over, best_response,
}

module _ {A : Type 0} where
  -- `x` is an element of the list.
  abbrev pub Among : A → List A → Type 0
  Among x [] = ⊥
  Among x (y ∷ ys) = (x ≡ y) ⊎ Among x ys

  retain-retain_and :
      (p q : A → Bool) (xs : List A) → retain q (retain p xs) ≡ retain (λ x. p x && q x) xs
  retain-retain_and p q [] = refl
  retain-retain_and p q (x ∷ xs) = ground (arith, retain-retain_and p q xs)

module _ {P : Platform} where
  -- The entries that a lookup may return: not expired, of the request's scope, and with a similarity
  -- at or over the threshold.
  abbrev pub matches : ℕ → ℕ → List P.F32 → SemanticCache P → List (SemanticEntry P)
  matches now scope query c =
      retain (λ e. is_fresh now c.ttl e && clears_bar c scope query e) c.entries

  abbrev pub NoCloser : List P.F32 → SemanticEntry P → SemanticEntry P → Type 0
  NoCloser query best e =
      P.total_le (cosine_similarity P e.embedding query) (cosine_similarity P best.embedding query)
      ≡ true

  module _ (L : PlatformLaws P) (query : List P.F32) where
    sim : SemanticEntry P → P.F64
    sim e = cosine_similarity P e.embedding query

    abbrev IsGreatest : SemanticEntry P → List (SemanticEntry P) → SemanticEntry P → Type 0
    IsGreatest best es m =
        ((m ≡ best) ⊎ Among m es) × NoCloser query m best × All (NoCloser query m) es

    max_by-IsGreatest :
        (best : SemanticEntry P) (es : List (SemanticEntry P))
        → IsGreatest best es (max_by query best es)
    unfolding max_by sim
    max_by-IsGreatest best [] =
        (inl refl, ground (arith, L.total_le_total (sim best) (sim best)), tt)
    max_by-IsGreatest best (e ∷ es) = elim (Bool-cases (P.total_le (sim best) (sim e))) [
      | inl closer ↦
          let same : max_by query best (e ∷ es) ≡ max_by query e es = ground arith in
          let (found, over_e, over_es) = max_by-IsGreatest e es in
          let m = max_by query e es in
          subst (IsGreatest best (e ∷ es)) (sym same) (
            elim found [ inl here ↦ inr (inl here) | inr there ↦ inr (inr there) ],
            L.total_le_trans (sim best) (sim e) (sim m) closer over_e,
            (over_e, over_es),
          )
      | inr further ↦
          let same : max_by query best (e ∷ es) ≡ max_by query best es = ground arith in
          let (found, over_best, over_es) = max_by-IsGreatest best es in
          let m = max_by query best es in
          let back : P.total_le (sim e) (sim best) ≡ true =
            ground (arith, L.total_le_total (sim best) (sim e)) in
          subst (IsGreatest best (e ∷ es)) (sym same) (
            elim found [ inl here ↦ inl here | inr there ↦ inr (inr there) ],
            over_best,
            (L.total_le_trans (sim e) (sim best) (sim m) back over_best, over_es),
          )
    ]

  -- A lookup returns nothing exactly when no entry matches, and else the response of a matching
  -- entry to which no matching entry is closer; the expired entries leave the cache.
  pub semantic_get-matches :
      (L : PlatformLaws P) (now scope : ℕ) (query : List P.F32) (c : SemanticCache P)
      → ((semantic_get now scope query c).0.entries ≡ retain (is_fresh now c.ttl) c.entries)
        × (((matches now scope query c ≡ []) × ((semantic_get now scope query c).1 ≡ none))
            ⊎ ((e : SemanticEntry P) × Among e (matches now scope query c)
                × ((semantic_get now scope query c).1 ≡ some e.response)
                × All (NoCloser query e) (matches now scope query c)))
  unfolding semantic_get best_response
  semantic_get-matches L now scope query c =
      let same = retain-retain_and (is_fresh now c.ttl) (clears_bar c scope query) c.entries in
      (refl, pick (retain (clears_bar c scope query) (retain (is_fresh now c.ttl) c.entries)) same)
    where
      pick :
          (found : List (SemanticEntry P))
          → found ≡ matches now scope query c
          → ((matches now scope query c ≡ []) × (best_response query found ≡ none))
            ⊎ ((e : SemanticEntry P) × Among e (matches now scope query c)
                × (best_response query found ≡ some e.response)
                × All (NoCloser query e) (matches now scope query c))
      pick [] same = inl (sym same, refl)
      pick (e ∷ es) same =
          let (found, over_e, over_es) = max_by-IsGreatest L query e es in
          inr (max_by query e es, rw (← same) found, refl, rw (← same) (over_e, over_es))

module _ {P : Platform} where
  -- A cache keeps its limits, and never stores more entries than its limit.
  pub record IsLimited (c : SemanticCache P) : Type 0 where
    pub positive : 0 < c.max_entries
    pub within : length c.entries ≤ c.max_entries

  pub semantic_cache-IsLimited : (config : CacheConfig P) → IsLimited (semantic_cache config)
  unfolding semantic_cache
  semantic_cache-IsLimited config = record { positive = omega arith; within = omega arith }

  length-pop_over :
      (limit : ℕ) (es : List (SemanticEntry P))
      → length es ≤ limit + 1
      → length (pop_over limit es) ≤ limit
  unfolding pop_over
  length-pop_over limit [] h = omega arith
  length-pop_over limit (e ∷ es) h = ground arith

  pub semantic_insert-IsLimited :
      {c : SemanticCache P} (now scope : ℕ) (embedding : List P.F32) (r : ChatResponse P)
      → IsLimited c
      → IsLimited (semantic_insert now scope embedding r c)
  unfolding semantic_insert
  semantic_insert-IsLimited {c} now scope embedding r h =
      let e : SemanticEntry P = record {
        scope_key = scope;
        embedding = embedding;
        response = r;
        inserted_at = now;
      } in
      record {
        positive = h.positive;
        within =
            length-pop_over c.max_entries (c.entries ++ e ∷ [])
              (omega (arith, h.within, length-append c.entries (e ∷ [])));
      }

  pub semantic_get-IsLimited :
      {c : SemanticCache P} (now scope : ℕ) (query : List P.F32)
      → IsLimited c
      → IsLimited (semantic_get now scope query c).0
  unfolding semantic_get
  semantic_get-IsLimited {c} now scope query h = record {
    positive = h.positive;
    within = omega (arith, h.within, length-retain-le (is_fresh now c.ttl) c.entries);
  }
