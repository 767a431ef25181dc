-- ===== src/Dispatch/Passes/Laws.antt =====
-- Which candidate answers in a fallback loop, how many are tried, and when the loop stops.
use rusty_provider.Prelude.{
  ℕ, ◌+◌, String, Option, none, some, List, [], ◌∷◌, ◌++◌, unwrap_or, length, ◌≡◌, refl, ap, arith,
  ◌⊎◌, inl, inr, ◌↔◌,
}
use rusty_provider.Prelude.Results.{ok, err}
use rusty_provider.Platform.{Platform}
use rusty_provider.Core.Errors.{RouterError, invalid_model}
use rusty_provider.Chain.Settings.{Candidate}
use rusty_provider.Dispatch.Passes.{Pass, skipped, served, refused, fall_back}

module _ {P : Platform} where
  pub Pass-cases :
      {T A : Type 0} (p : Pass P T A)
      → ((st : T) × (e : RouterError P) × (p ≡ skipped st e))
        ⊎ (((st : T) × (resp : A) × (p ≡ served st resp))
            ⊎ ((st : T) × (e : RouterError P) × (p ≡ refused st e)))
  Pass-cases (skipped st e) = inl (st, e, refl)
  Pass-cases (served st resp) = inr (inl (st, resp, refl))
  Pass-cases (refused st e) = inr (inr (st, e, refl))

module _ {P : Platform} {T A : Type 0} (step : Candidate → T → Pass P T A) where
  -- The last error and the state behind candidates that are all skipped, if they are.
  unfoldable pub skip_all :
      List Candidate → (Option (RouterError P) × T) → Option (Option (RouterError P) × T)
  skip_all [] p = some p
  skip_all (c ∷ cs) (last_err, st) = elim (step c st) [
    | skipped st' e ↦ skip_all cs (some e, st')
    | served st' resp ↦ none
    | refused st' e ↦ none
  ]

  -- The candidates before `c` are skipped, and the pass for `c` is as given.
  abbrev pub Reaches :
      List Candidate
      → (Option (RouterError P) × T)
      → List Candidate
      → Candidate
      → Pass P T A
      → Type 0
  Reaches chain p before c pass =
      (after : List Candidate) × (here : (Option (RouterError P) × T)) × (chain
        ≡ before ++ c ∷ after)
      × (skip_all before p ≡ some here)
      × (step c here.1 ≡ pass)

  fall_back-served :
      (target_model : String) (chain : List Candidate) (attempts n : ℕ)
      (le : Option (RouterError P)) (st st' : T) (resp : A)
      → fall_back step target_model chain attempts le st ≡ (st', ok (resp, n))
      → (before : List Candidate) × (c : Candidate) × (n ≡ attempts + length before + 1)
        × Reaches chain (le, st) before c (served st' resp)
  unfolding fall_back skip_all
  fall_back-served target_model [] attempts n le st st' resp h = absurd (ground arith)
  fall_back-served target_model (c ∷ cs) attempts n le st st' resp h =
      elim (Pass-cases (step c st)) [
        | inl (st1, e, skip) ↦
            let tail : fall_back step target_model cs (attempts + 1) (some e) st1
                ≡ (st', ok (resp, n)) =
              ground arith in
            let (before, d, count, (after, here, split, skips, pass)) =
              fall_back-served target_model cs (attempts + 1) n (some e) st1 st' resp tail in
            (c ∷ before, d, omega arith, (after, here, ap (◌∷◌ c) split, ground arith, pass))
        | inr (inl (st1, resp1, serve)) ↦
            ([], c, ground arith, (cs, (le, st), refl, refl, ground arith))
        | inr (inr (st1, e, refuse)) ↦ absurd (ground arith)
      ]

  fall_back-reached :
      (target_model : String) (before after : List Candidate) (c : Candidate) (attempts : ℕ)
      (le : Option (RouterError P)) (st st' : T) (here : (Option (RouterError P) × T)) (resp : A)
      → skip_all before (le, st) ≡ some here
      → step c here.1 ≡ served st' resp
      → fall_back step target_model (before ++ c ∷ after) attempts le st
        ≡ (st', ok (resp, attempts + length before + 1))
  unfolding fall_back skip_all
  fall_back-reached target_model [] after c attempts le st st' here resp skips pass = ground arith
  fall_back-reached target_model (b ∷ bs) after c attempts le st st' here resp skips pass =
      elim (Pass-cases (step b st)) [
        | inl (st1, e, skip) ↦ ground (
          arith,
          fall_back-reached target_model bs after c (attempts + 1) (some e) st1 st' here resp,
        )
        | inr (inl (st1, resp1, serve)) ↦ absurd (ground arith)
        | inr (inr (st1, e, refuse)) ↦ absurd (ground arith)
      ]

  pub fall_back-eq-ok_iff :
      (target_model : String) (chain : List Candidate) (n : ℕ) (st st' : T) (resp : A)
      → (fall_back step target_model chain 0 none st ≡ (st', ok (resp, n))) ↔ (
          (before : List Candidate) × (c : Candidate) × (n ≡ length before + 1)
          × Reaches chain (none, st) before c (served st' resp))
  fall_back-eq-ok_iff target_model chain n st st' resp = (
    λ h.
        let (before, c, count, way) = fall_back-served target_model chain 0 n none st st' resp h in
        (before, c, omega arith, way),
    λ (before, c, count, (after, here, split, skips, pass)).
        let counted : n ≡ 0 + length before + 1 = omega arith in
        rw (split, counted)
          (fall_back-reached target_model before after c 0 none st st' here resp skips pass),
  )

  pub fall_back-err :
      (target_model : String) (chain : List Candidate) (attempts : ℕ) (le : Option (RouterError P))
      (st st' : T) (e : RouterError P)
      → fall_back step target_model chain attempts le st ≡ (st', err e)
      → ((last_err : Option (RouterError P)) × (skip_all chain (le, st) ≡ some (last_err, st'))
          × (e ≡ unwrap_or last_err (invalid_model target_model)))
        ⊎ ((before : List Candidate) × (c : Candidate) × Reaches chain
              (le, st)
              before
              c
              (refused st' e))
  unfolding fall_back skip_all
  fall_back-err target_model [] attempts le st st' e h = inl (le, ground arith, ground arith)
  fall_back-err target_model (c ∷ cs) attempts le st st' e h = elim (Pass-cases (step c st)) [
    | inl (st1, e1, skip) ↦
        let tail : fall_back step target_model cs (attempts + 1) (some e1) st1 ≡ (st', err e) =
          ground arith in
        elim (fall_back-err target_model cs (attempts + 1) (some e1) st1 st' e tail) [
          | inl (last_err, skips, same) ↦ inl (last_err, ground arith, same)
          | inr (before, d, (after, here, split, skips, pass)) ↦
              inr (c ∷ before, d, (after, here, ap (◌∷◌ c) split, ground arith, pass))
        ]
    | inr (inl (st1, resp, serve)) ↦ absurd (ground arith)
    | inr (inr (st1, e1, refuse)) ↦ inr ([], c, (cs, (le, st), refl, refl, ground arith))
  ]
