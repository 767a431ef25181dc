-- ===== src/Chain/Resolve/Laws.antt =====
-- Splitting a model string, and which chains resolve.
use Prim.Native.Char.{Char, code}
use Prim.Native.String as Str
use text.Mathlib.TextLemmas.{nil-append, cons-append}
use text.Mathlib.TextEquality.{Char-path}
use rusty_provider.Prelude.{
  String, Option, some, List, [], ◌∷◌, string_eq, eqb, ◌≡◌, ◌≢◌, ◌↔◌, refl, sym, ap, arith,
  Option-cases, inl, inr, All, map, ◌∙◌, Bool-cases,
}
use rusty_provider.Prelude.Results.{ok, Result-cases}
use rusty_provider.Platform.{Platform}
use rusty_provider.Chain.Settings.{Candidate, key_of, RouterSettings}
use rusty_provider.Chain.Resolve.{split_once, parse_entries, chain_entries, resolve_chain}

abbrev pub NoSlash : String → Type 0
NoSlash Str.[] = Unit
NoSlash (Str.◌∷◌ c s) = (code c ≢ b'/') × NoSlash s

key_of-nil : (m : String) → key_of ("", m) ≡ Str.◌∷◌ "/" m
key_of-nil m =
    nil-append (Str.◌++◌ "/" m) ∙ (cons-append "/" "" m ∙ ap (Str.◌∷◌ "/") (nil-append m))

key_of-cons : (c : Char) (p m : String) → key_of (Str.◌∷◌ c p, m) ≡ Str.◌∷◌ c (key_of (p, m))
key_of-cons c p m = cons-append c p (Str.◌++◌ "/" m)

split_once_sound :
    (s : String) (c : Candidate) → split_once s ≡ some c → (s ≡ key_of c) × NoSlash c.0
unfolding split_once
split_once_sound Str.[] c h = absurd (ground arith)
split_once_sound (Str.◌∷◌ ch s) c h = elim (Bool-cases (eqb (code ch) b'/')) [
  | inl slash ↦
      let same : c ≡ ("", s) = ground arith in
      let char : ch ≡ "/" = Char-path ch "/" (ground arith) in
      rw (same, char) (sym (key_of-nil s), tt)
  | inr other ↦ elim (Option-cases (split_once s)) [
    | inl absent ↦ absurd (ground arith)
    | inr (pm, found) ↦
        let same : c ≡ (Str.◌∷◌ ch pm.0, pm.1) = ground arith in
        let (whole, clean) = split_once_sound s pm found in
        rw same (ap (Str.◌∷◌ ch) whole ∙ sym (key_of-cons ch pm.0 pm.1), (ground arith, clean))
  ]
]

split_once_complete : (p m : String) → NoSlash p → split_once (key_of (p, m)) ≡ some (p, m)
unfolding split_once
split_once_complete Str.[] m h = rw key_of-nil
split_once_complete (Str.◌∷◌ ch s) m (ne, h) =
    rw (key_of-cons ch s m) (ground (arith, split_once_complete s m h))

-- A model string splits into a provider and a model exactly when it is "provider/model" with no
-- slash in the provider: the split is at the first slash, and the rest keeps its slashes.
split_once_iff : (s p m : String) → (split_once s ≡ some (p, m)) ↔ ((s ≡ key_of (p, m)) × NoSlash p)
split_once_iff s p m =
    (split_once_sound s (p, m), λ (whole, clean). rw whole (split_once_complete p m clean))

module _ {P : Platform} where
  parse_entries_sound :
      (entries : List String) (chain : List Candidate)
      → parse_entries {P = P} entries ≡ ok chain
      → (map key_of chain ≡ entries) × All (λ c. NoSlash c.0) chain
  unfolding parse_entries
  parse_entries_sound [] [] h = (refl, tt)
  parse_entries_sound [] (c ∷ cs) h = absurd (ground arith)
  parse_entries_sound (entry ∷ entries) chain h = elim (Option-cases (split_once entry)) [
    | inl missing ↦ absurd (ground arith)
    | inr (c, found) ↦ elim (Result-cases (parse_entries {P = P} entries)) [
      | inl (rest, parsed) ↦
          let (whole, clean) = split_once_sound entry c found in
          let (keys, plain) = parse_entries_sound entries rest parsed in
          let same : chain ≡ c ∷ rest = ground arith in
          rw same (ground (arith, whole, keys), (clean, plain))
      | inr (e, failed) ↦ absurd (ground arith)
    ]
  ]

  parse_entries_complete :
      (chain : List Candidate)
      → All (λ c. NoSlash c.0) chain
      → parse_entries {P = P} (map key_of chain) ≡ ok chain
  unfolding parse_entries
  parse_entries_complete [] h = refl
  parse_entries_complete (c ∷ cs) (clean, h) =
      ground (arith, split_once_complete c.0 c.1 clean, parse_entries_complete cs h)

  -- A chain is what a model resolves to exactly when its candidates, written as "provider/model", are
  -- the entries in their order and no provider in it has a slash. The entries are the client's ad-hoc
  -- list behind its model, or else the alias's configured chain, or else the model alone.
  pub resolve_chain-eq-ok_iff :
      (s : RouterSettings P) (model : String) (fallbacks : Option (List String))
      (chain : List Candidate)
      → (resolve_chain s model fallbacks ≡ ok chain)
        ↔ ((map key_of chain ≡ chain_entries s model fallbacks) × All (λ c. NoSlash c.0) chain)
  unfolding resolve_chain
  resolve_chain-eq-ok_iff s model fallbacks chain = (
    parse_entries_sound (chain_entries s model fallbacks) chain,
    λ (same, clean). rw (← same) (parse_entries_complete chain clean),
  )
