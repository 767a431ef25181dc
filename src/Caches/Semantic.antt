-- ===== src/Caches/Semantic.antt =====
-- `crates/router/src/cache.rs`, the semantic cache: entries found by the similarity of embeddings.
-- The key of a request's other fields is a hash, given as a number.
pub mod Laws
use rusty_provider.Prelude.{
  ℕ, ◌-◌, String, List, [], ◌∷◌, ◌++◌, Option, none, some, if◌then◌else◌, ltb, leb, eqb, max,
  length, is_empty, not, ◌||◌, ◌&&◌, retain, Bool,
}
use rusty_provider.Platform.{Platform}
use rusty_provider.Core.Types.{ChatResponse}
use rusty_provider.Caches.Response.{CacheConfig, from_secs}

module _ (P : Platform) where
  pub record SemanticEntry : Type 0 where
    pub scope_key : ℕ
    pub embedding : List P.F32
    pub response : ChatResponse P
    pub inserted_at : ℕ

  -- The sum of an iterator of f32, from the left.
  unfoldable pub sum32 : P.F32 → List P.F32 → P.F32
  sum32 acc [] = acc
  sum32 acc (x ∷ xs) = sum32 (P.add32 acc x) xs

  -- The products of two vectors' elements, as long as both last.
  unfoldable pub products : List P.F32 → List P.F32 → List P.F32
  products [] ys = []
  products (x ∷ xs) [] = []
  products (x ∷ xs) (y ∷ ys) = P.mul32 x y ∷ products xs ys

  unfoldable pub norm : List P.F32 → P.F32
  unfolding sum32 products
  norm a = P.sqrt32 (sum32 P.zero32 (products a a))

  unfoldable pub cosine_similarity : List P.F32 → List P.F32 → P.F64
  unfolding norm
  cosine_similarity a b =
      if not (eqb (length a) (length b)) || is_empty a
      then P.of_nat 0
      else if P.is_zero32 (norm a) || P.is_zero32 (norm b)
      then P.of_nat 0
      else P.widen (P.div32 (sum32 P.zero32 (products a b)) (P.mul32 (norm a) (norm b)))

  pub record SemanticCache : Type 0 where
    pub ttl : ℕ
    pub max_entries : ℕ
    pub threshold : P.F64
    pub entries : List SemanticEntry

module _ {P : Platform} where
  unfoldable pub semantic_cache : CacheConfig P → SemanticCache P
  semantic_cache config = record {
    ttl = from_secs config.ttl_secs;
    max_entries = max config.max_entries 1;
    threshold = config.similarity_threshold;
    entries = [];
  }

  -- `e.inserted_at.elapsed() <= ttl`.
  unfoldable pub is_fresh : ℕ → ℕ → SemanticEntry P → Bool
  is_fresh now ttl e = leb (now - e.inserted_at) ttl

  -- The candidates of a lookup: in scope, and similar enough.
  unfoldable pub clears_bar : SemanticCache P → ℕ → List P.F32 → SemanticEntry P → Bool
  clears_bar c scope query e =
      eqb e.scope_key scope && P.le c.threshold (cosine_similarity P e.embedding query)

  -- `max_by`: the greatest, and the last of several.
  unfoldable pub max_by : List P.F32 → SemanticEntry P → List (SemanticEntry P) → SemanticEntry P
  max_by query best [] = best
  max_by query best (e ∷ es) =
      max_by query
        (if P.total_le (cosine_similarity P best.embedding query)
            (cosine_similarity P e.embedding query)
          then e
          else best)
        es

  -- `max_by` and the response of its result, over an iterator that may be empty.
  unfoldable pub best_response : List P.F32 → List (SemanticEntry P) → Option (ChatResponse P)
  unfolding max_by
  best_response query [] = none
  best_response query (e ∷ es) = some (max_by query e es).response

  unfoldable pub semantic_get :
      ℕ → ℕ → List P.F32 → SemanticCache P → SemanticCache P × Option (ChatResponse P)
  semantic_get now scope query c =
      let fresh = retain (is_fresh now c.ttl) c.entries in
      (record c { entries = fresh }, best_response query (retain (clears_bar c scope query) fresh))

  -- `pop_front` of an entry list that has grown past its limit.
  unfoldable pub pop_over : ℕ → List (SemanticEntry P) → List (SemanticEntry P)
  pop_over limit [] = []
  pop_over limit (e ∷ es) = if ltb limit (length (e ∷ es)) then es else e ∷ es

  unfoldable pub semantic_insert :
      ℕ → ℕ → List P.F32 → ChatResponse P → SemanticCache P → SemanticCache P
  unfolding pop_over
  semantic_insert now scope embedding response c = record c {
    entries = pop_over c.max_entries (
        c.entries
        ++ record {
          scope_key = scope;
          embedding = embedding;
          response = response;
          inserted_at = now;
        }
          ∷ []);
  }
