-- ===== src/Chain/Settings.antt =====
-- The part of `Router` that is fixed after startup, as far as chains and dispatch use it, and the
-- observed averages that rank candidates.
use Prim.Native.String as Str
use rusty_provider.Prelude.{
  ℕ, String, Option, none, some, List, Map, Bool, unwrap_or, lookup, insert, string_eq,
}
use rusty_provider.Platform.{Platform}
use rusty_provider.Budget.FreeTiers.{FreeTierSetting, TokenState}

-- A (provider, model) pair of a resolved chain.
abbrev pub Candidate : Type 0
Candidate = String × String

-- `format!("{provider}/{model}")`.
abbrev pub key_of : Candidate → String
key_of c = Str.◌++◌ c.0 (Str.◌++◌ "/" c.1)

pub data ProviderKind : Type 0 where
  openai anthropic gemini : ProviderKind

pub record FusionConfig : Type 0 where
  pub judge : String
  pub timeout : ℕ

module _ (P : Platform) where
  pub record PricingEntry : Type 0 where
    pub model : String
    pub prompt_per_million : P.F64
    pub completion_per_million : P.F64
    pub cache_read_per_million : Option P.F64
    pub cache_write_per_million : Option P.F64
    pub context_length : Option ℕ
    pub quality_score : Option P.F64

  pub record PriceRates : Type 0 where
    pub prompt_ppm : P.F64
    pub completion_ppm : P.F64
    pub cache_read_ppm : P.F64
    pub cache_write_ppm : P.F64
    pub context_length : Option ℕ
    pub quality_score : Option P.F64

  pub record AutoRoutingConfig : Type 0 where
    pub simple_model : String
    pub medium_model : String
    pub complex_model : String
    pub simple_max_score : ℕ
    pub medium_max_score : ℕ

  pub record RouterSettings : Type 0 where
    -- The names of `providers`: the configured ones that resolved at startup.
    pub providers : List String
    pub provider_kinds : Map String ProviderKind
    pub routes : Map String (List String)
    pub fusion_routes : Map String FusionConfig
    pub pricing : Map String (PriceRates)
    pub zdr_providers : List String
    pub no_training_providers : List String
    pub provider_rpm : Map String ℕ
    pub auto_routing : Option AutoRoutingConfig
    pub free_tier_settings : Map String FreeTierSetting
    pub persistent : Bool
    pub embedding_model : Option String

  -- The averages that `sort` reads, keyed by "provider/model".
  pub record RouterStats : Type 0 where
    pub latency : Map String P.F64
    pub throughput : Map String P.F64
    pub uptime : Map String P.F64
    pub free_tier_usage : Map String TokenState

module _ {P : Platform} where
  -- `PriceRates::from`.
  unfoldable pub price_rates : PricingEntry P → PriceRates P
  price_rates p = record {
    prompt_ppm = p.prompt_per_million;
    completion_ppm = p.completion_per_million;
    cache_read_ppm = unwrap_or p.cache_read_per_million p.prompt_per_million;
    cache_write_ppm = unwrap_or p.cache_write_per_million p.prompt_per_million;
    context_length = p.context_length;
    quality_score = p.quality_score;
  }

module _ (P : Platform) where
  -- `EWMA_ALPHA`, 0.3.
  abbrev pub ewma_alpha : P.F64
  ewma_alpha = P.div (P.of_nat 3) (P.of_nat 10)

  unfoldable pub ewma_record : Map String P.F64 → String → P.F64 → Map String P.F64
  ewma_record m key sample =
      insert key
        (elim (lookup key m) [
          | none ↦ sample
          | some avg ↦ P.add (P.mul ewma_alpha sample) (P.mul (P.sub (P.of_nat 1) ewma_alpha) avg)
        ])
        m

  unfoldable pub ewma_lookup : Map String P.F64 → Candidate → P.F64 → P.F64
  ewma_lookup m c missing = unwrap_or (lookup (key_of c) m) missing
