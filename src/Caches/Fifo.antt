-- ===== src/Caches/Fifo.antt =====
-- The insertion of `GenerationCache`, `ReasoningReplayCache` and `ResponseCache`, which is the same
-- code three times: a queue of keys in the order of insertion beside a map from keys to values. A
-- new key is pushed at the back; if the queue is then over capacity its front key is evicted.
pub mod Laws
use rusty_provider.Prelude.{
  ℕ, List, [], ◌∷◌, ◌++◌, Eq, Map, lookup, insert, remove, contains_key, length, ltb, Option, none,
  some, if◌then◌else◌, String, string_eq,
}
use rusty_provider.Prelude.Int.{ℤ}
use rusty_provider.Platform.{Platform}

pub record Fifo {ℓ} (K V : Type ℓ) : Type ℓ where
  pub order : List K
  pub entries : Map K V

module _ {ℓ} {K V : Type ℓ} where
  abbrev pub new : Fifo K V
  new = record { order = []; entries = [] }

  module _ ⦃e : Eq K⦄ where
    -- `order.pop_front()`, and the removal of the key from the map.
    pub evict_oldest : Fifo K V → Fifo K V
    evict_oldest c = elim c.order [
      | [] ↦ c
      | oldest ∷ rest ↦ record { order = rest; entries = remove oldest c.entries }
    ]

    pub push_key : ℕ → K → Fifo K V → Fifo K V
    unfolding evict_oldest
    push_key capacity key c =
        let pushed = record c { order = c.order ++ key ∷ [] } in
        if ltb capacity (length pushed.order) then evict_oldest pushed else pushed

    unfoldable pub put : ℕ → K → V → Fifo K V → Fifo K V
    unfolding push_key
    put capacity key value c =
        let c' = if contains_key key c.entries then c else push_key capacity key c in
        record c' { entries = insert key value c'.entries }

    unfoldable pub get : K → Fifo K V → Option V
    get key c = lookup key c.entries

pub record GenerationRecord (P : Platform) : Type 0 where
  pub id : String
  pub model : String
  pub created : ℤ
  pub prompt_tokens : ℕ
  pub completion_tokens : ℕ
  pub total_tokens : ℕ
  pub cost_usd : Option P.F64

abbrev pub generation_cache_capacity : ℕ
generation_cache_capacity = 1000

abbrev pub GenerationCache : Platform → Type 0
GenerationCache P = Fifo String (GenerationRecord P)

module _ {P : Platform} where
  unfoldable pub generation_insert : GenerationRecord P → GenerationCache P → GenerationCache P
  unfolding put
  generation_insert r c = put generation_cache_capacity r.id r c

  unfoldable pub generation_get : String → GenerationCache P → Option (GenerationRecord P)
  unfolding get
  generation_get id c = get id c

abbrev pub reasoning_replay_cache_capacity : ℕ
reasoning_replay_cache_capacity = 1000

abbrev pub ReasoningReplayCache : Type 0
ReasoningReplayCache = Fifo String String

unfoldable pub reasoning_insert : String → String → ReasoningReplayCache → ReasoningReplayCache
unfolding put
reasoning_insert tool_call_id reasoning c =
    put reasoning_replay_cache_capacity tool_call_id reasoning c

unfoldable pub reasoning_get : String → ReasoningReplayCache → Option String
unfolding get
reasoning_get tool_call_id c = get tool_call_id c
