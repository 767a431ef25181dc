-- ===== src/Chain/Resolve.antt =====
-- `resolve_chain` and `resolve_target_model`: from a request's model to "provider/model" pairs.
pub mod Laws
use Prim.Native.Char.{Char, code}
use Prim.Native.String as Str
use rusty_provider.Prelude.{
  ℕ, String, Option, none, some, List, [], ◌∷◌, Map, Bool, true, false, unwrap_or, lookup,
  string_eq, eqb, if◌then◌else◌, is_empty, ◌==◌, is_some, not, ◌&&◌, contains_key,
}
use rusty_provider.Prelude.Results.{Result, ok, err, ◌>>=◌}
use rusty_provider.Platform.{Platform}
use rusty_provider.Core.Errors.{RouterError, invalid_model}
use rusty_provider.Core.Types.{ChatRequest}
use rusty_provider.Chain.Settings.{Candidate, RouterSettings}

-- `split_once('/')`: before and after the first slash.
unfoldable pub split_once : String → Option (String × String)
split_once Str.[] = none
split_once (Str.◌∷◌ c s) =
    if eqb (code c) b'/'
    then some ("", s)
    else elim (split_once s) [ none ↦ none | some pm ↦ some (Str.◌∷◌ c pm.0, pm.1) ]

module _ {P : Platform} where
  -- The first entry without a slash is the error.
  unfoldable pub parse_entries : List String → Result (List Candidate) (RouterError P)
  parse_entries [] = ok []
  parse_entries (entry ∷ entries) =
      let rest = parse_entries entries in
      elim (split_once entry) [
        | none ↦ err (invalid_model entry)
        | some c ↦ do chain ← rest; ok (c ∷ chain)
      ]

  -- The entries before they are split: the ad-hoc list, the alias's chain, or the model itself.
  unfoldable pub chain_entries : RouterSettings P → String → Option (List String) → List String
  chain_entries s model none = unwrap_or (lookup model s.routes) (model ∷ [])
  chain_entries s model (some models) =
      if is_empty models then unwrap_or (lookup model s.routes) (model ∷ []) else model ∷ models

  unfoldable pub resolve_chain :
      RouterSettings P → String → Option (List String) → Result (List Candidate) (RouterError P)
  resolve_chain s model fallbacks = parse_entries (chain_entries s model fallbacks)

  -- `dispatch_strategy`: "direct", "fallback" or "fusion".
  unfoldable pub dispatch_strategy : RouterSettings P → String → ChatRequest P → String
  dispatch_strategy s target_model req =
      if not (is_empty (unwrap_or req.models []))
      then "fallback"
      else if not (is_some req.tools) && contains_key target_model s.fusion_routes
      then "fusion"
      else if contains_key target_model s.routes
      then "fallback"
      else "direct"
