-- ===== src/Dispatch/Fusion/Books.antt =====
-- The books that `dispatch_fusion` keeps over the responses of a panel, and its totals.
use rusty_provider.Prelude.{
  ℕ, ◌+◌, ◌%◌, ◌^◌, String, Option, none, some, List, [], ◌∷◌, ◌++◌, Bool, true, false, ◌||◌,
  is_some, if◌then◌else◌, append_assoc, append-nil, ◌≡◌, refl, sym, ap, ◌∙◌, subst, arith,
  Option-cases, inl, inr, string_eq,
}
use rusty_provider.Platform.{Platform}
use rusty_provider.Core.Types.{Usage}
use rusty_provider.AutoRouting.{u32}
use rusty_provider.Chain.Settings.{key_of, RouterSettings}
use rusty_provider.Dispatch.{Outside, RouterState, usage_cost, record_usage, log_attempt}
use rusty_provider.Dispatch.Judge.{Reply, Totals, add_totals, sum_usage}
use rusty_provider.Dispatch.Fusion.{record_contribution, record_reply, record_replies}

-- A line of the books: the candidate's key, the usage, and the cost.
abbrev pub Entry : Platform → Type 0
Entry P = String × Usage × Option P.F64

-- A count of an optional usage, 0 for none.
abbrev pub tokens : (Usage → ℕ) → Option Usage → ℕ
tokens field none = 0
tokens field (some u) = field u

module _ (P : Platform) where
  -- The sum of a count over the books.
  abbrev pub total : (Usage → ℕ) → List (Entry P) → ℕ
  total field [] = 0
  total field ((key, usage, cost) ∷ es) = field usage + total field es

  -- The sum of the known costs, from the first on.
  abbrev pub cost_from : P.F64 → List (Entry P) → P.F64
  cost_from sum [] = sum
  cost_from sum ((key, usage, none) ∷ es) = cost_from sum es
  cost_from sum ((key, usage, some x) ∷ es) = cost_from (P.add sum x) es

  abbrev pub has_cost : List (Entry P) → Bool
  has_cost [] = false
  has_cost ((key, usage, cost) ∷ es) = is_some cost || has_cost es

  -- The sum of the known costs, if there are any.
  abbrev pub total_cost : List (Entry P) → Option P.F64
  total_cost es = if has_cost es then some (cost_from (P.of_nat 0) es) else none

module _ {P : Platform} where
  -- The books for responses in their order, one line for each that carries a usage.
  abbrev pub billed : RouterSettings P → List (Reply P) → List (Entry P)
  billed s [] = []
  billed s ((c, resp) ∷ replies) = elim resp.usage [
    | none ↦ billed s replies
    | some usage ↦ (key_of c, usage, usage_cost s c usage) ∷ billed s replies
  ]

  abbrev pub totals_from : Totals P → List (Entry P) → Totals P
  totals_from t [] = t
  totals_from t ((key, usage, cost) ∷ es) = totals_from (add_totals usage cost t) es

  pub totals_from-tokens :
      (field : Usage → ℕ)
      → ((a b : Usage) → field (sum_usage a b) ≡ u32 (field a + field b))
      → (t : Totals P) (es : List (Entry P))
      → tokens field (totals_from t es).summed_usage % 2 ^ 32
        ≡ (tokens field t.summed_usage + total P field es) % 2 ^ 32
  unfolding add_totals
  totals_from-tokens field adds t [] = omega arith
  totals_from-tokens field adds t ((key, usage, cost) ∷ es) =
      let rest = totals_from-tokens field adds (add_totals usage cost t) es in
      elim (Option-cases t.summed_usage) [
        | inl nothing ↦ ground (arith, rest)
        | inr (u, is) ↦ ground (arith, rest, adds u usage)
      ]

  pub totals_from-cost :
      (t : Totals P) (es : List (Entry P))
      → ((totals_from t es).summed_cost ≡ cost_from P t.summed_cost es)
        × ((totals_from t es).any_cost ≡ (t.any_cost || has_cost P es))
  unfolding add_totals
  totals_from-cost t [] = ground arith
  totals_from-cost t ((key, usage, cost) ∷ es) =
      ground (arith, totals_from-cost (add_totals usage cost t) es)

  pub totals_from-append :
      (t : Totals P) (es fs : List (Entry P))
      → totals_from t (es ++ fs) ≡ totals_from (totals_from t es) fs
  totals_from-append t [] fs = refl
  totals_from-append t ((key, usage, cost) ∷ es) fs =
      totals_from-append (add_totals usage cost t) es fs

  pub billed-append :
      (s : RouterSettings P) (rs qs : List (Reply P))
      → billed s (rs ++ qs) ≡ billed s rs ++ billed s qs
  billed-append s [] qs = refl
  billed-append s ((c, resp) ∷ rs) qs = ground (arith, billed-append s rs qs)

module _ {P : Platform} (O : Outside P) (s : RouterSettings P) where
  -- What `record_reply` and `record_replies` do to the books and to the totals.
  abbrev pub Books : (p q : RouterState P O.State × Totals P) → List (Entry P) → Type 0
  Books p q es =
      (s.persistent ≡ true → q.0.persisted ≡ p.0.persisted ++ es) × (q.1 ≡ totals_from p.1 es)

  pub record_reply-Books :
      (p : RouterState P O.State × Totals P) (r : Reply P)
      → Books p (record_reply O s p r) (billed s (r ∷ []))
  unfolding record_reply record_contribution record_usage log_attempt
  record_reply-Books p r = elim (Option-cases r.1.usage) [
    | inl nothing ↦ (λ on. ground (arith, append-nil p.0.persisted), ground arith)
    | inr (u, is) ↦ (λ on. ground arith, ground arith)
  ]

  pub record_replies-Books :
      (p : RouterState P O.State × Totals P) (rs : List (Reply P))
      → Books p (record_replies O s p rs) (billed s rs)
  unfolding record_replies
  record_replies-Books p [] = (λ on. sym (append-nil p.0.persisted), refl)
  record_replies-Books p (r ∷ rs) =
      let (book, sum) = record_reply-Books p r in
      let (books, sums) = record_replies-Books (record_reply O s p r) rs in
      let split : billed s (r ∷ rs) ≡ billed s (r ∷ []) ++ billed s rs =
        billed-append s (r ∷ []) rs in
      (
        λ on.
            subst (λ es. (record_replies O s p (r ∷ rs)).0.persisted ≡ p.0.persisted ++ es)
              (sym split)
              (books on
                ∙ ap (λ l. l ++ billed s rs) (book on)
                ∙ append_assoc p.0.persisted (billed s (r ∷ [])) (billed s rs)),
        sums
            ∙ ap (λ t. totals_from t (billed s rs)) sum
            ∙ sym (totals_from-append p.1 (billed s (r ∷ [])) (billed s rs))
            ∙ ap (totals_from p.1) (sym split),
      )
