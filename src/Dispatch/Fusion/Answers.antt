-- ===== src/Dispatch/Fusion/Answers.antt =====
-- What an answer of `dispatch_fusion` carries, what is persisted for it, and what a tool call leaves out.
use rusty_provider.Prelude.{
  ℕ, ◌+◌, ◌%◌, ◌^◌, none, some, List, [], ◌∷◌, ◌++◌, true, if◌then◌else◌, append_assoc, ◌≡◌, refl,
  sym, ap, ◌∙◌, subst, arith, Option-cases, Bool-cases, inl, inr, contains, string_eq,
}
use rusty_provider.Prelude.Results.{Result, ok, Result-cases}
use rusty_provider.Platform.{Platform}
use rusty_provider.Core.Types.{ChatRequest, ChatResponse, Usage}
use rusty_provider.Core.Errors.{ProviderError}
use rusty_provider.AutoRouting.{byok_key_for, u32}
use rusty_provider.Chain.Settings.{Candidate, RouterSettings, FusionConfig}
use rusty_provider.Chain.Resolve.{split_once}
use rusty_provider.Dispatch.{
  Outside, RouterState, log_attempt, retry_same_provider, check_outbound_rate_limit,
}
use rusty_provider.Dispatch.Judge.{
  Reply, Totals, no_totals, sum_usage, find_tool_call, build_judge_request,
}
use rusty_provider.Dispatch.Fusion.{
  record_reply, record_replies, join_panel, start_panel, panel_replies, finish_fusion, ask_judge,
  synthesize, settle, dispatch_fusion,
}
use rusty_provider.Dispatch.Fusion.Books.{
  Entry, billed, total, total_cost, tokens, totals_from, totals_from-tokens, totals_from-cost,
  totals_from-append, billed-append, record_reply-Books, record_replies-Books,
}

module _ {P : Platform} (O : Outside P) (s : RouterSettings P) (req : ChatRequest P)
    (fusion : FusionConfig) where
  join_panel-keeps :
      (c : Candidate) (st : RouterState P O.State)
      → ((join_panel O s c st).0.persisted ≡ st.persisted)
        × ((join_panel O s c st).0.usage ≡ st.usage)
  unfolding join_panel check_outbound_rate_limit log_attempt
  join_panel-keeps c st = ground arith

  start_panel-keeps :
      (panel : List Candidate) (st : RouterState P O.State)
      → ((start_panel O s req fusion panel st).0.persisted ≡ st.persisted)
        × ((start_panel O s req fusion panel st).0.usage ≡ st.usage)
  unfolding start_panel
  start_panel-keeps [] st = (refl, refl)
  start_panel-keeps (c ∷ cs) st =
      let (books, counts) = join_panel-keeps c st in
      let (books', counts') = start_panel-keeps cs (join_panel O s c st).0 in
      (books' ∙ books, counts' ∙ counts)

  panel_replies-keeps :
      (panel : List Candidate) (st : RouterState P O.State)
      → ((panel_replies O s req fusion panel st).0.persisted ≡ st.persisted)
        × ((panel_replies O s req fusion panel st).0.usage ≡ st.usage)
  unfolding panel_replies
  panel_replies-keeps panel st = start_panel-keeps panel st

  -- The judge's answer to the panel's replies.
  abbrev pub Rules : Candidate → List (Reply P) → ChatResponse P → Type 0
  Rules judge replies verdict =
      (w : O.State) × ((retry_same_provider O.sleep
          (λ w.
            O.chat w judge.0 (build_judge_request req fusion.judge replies) judge.1
              (byok_key_for req judge.0))
          w).1
        ≡ ok verdict)

  -- An answer and a state that carry what `p` has counted.
  abbrev Carries :
      RouterState P O.State → ChatResponse P → RouterState P O.State × Totals P → Type 0
  Carries st resp p =
      (st.persisted ≡ p.0.persisted)
      × (resp.usage ≡ p.1.summed_usage)
      × (resp.cost_usd ≡ (if p.1.any_cost then some p.1.summed_cost else none))

  ask_judge-Carries :
      (judge : Candidate) (replies : List (Reply P)) (p : RouterState P O.State × Totals P)
      (st : RouterState P O.State) (resp : ChatResponse P)
      → ask_judge O s req fusion judge replies p ≡ (st, ok resp)
      → (verdict : ChatResponse P) × (before : RouterState P O.State) × (before.persisted
          ≡ p.0.persisted)
        × Rules judge replies verdict
        × (resp.choices ≡ verdict.choices)
        × Carries st resp (record_reply O s (before, p.1) (judge, verdict))
  unfolding ask_judge finish_fusion
  ask_judge-Carries judge replies (st0, t) st resp h =
      let call : O.State × Result (ChatResponse P) ProviderError =
        retry_same_provider O.sleep
          (λ w.
            O.chat w judge.0 (build_judge_request req fusion.judge replies) judge.1
              (byok_key_for req judge.0))
          st0.outside in
      elim (Result-cases call.1) [
        | inl (verdict, answers) ↦ (
          verdict,
          record st0 { outside = call.0 },
          refl,
          (st0.outside, answers),
          ground arith,
          (ground arith, ground arith, ground arith),
        )
        | inr (e, fails) ↦ absurd (ground arith)
      ]

  synthesize-judge :
      (replies : List (Reply P)) (st st' : RouterState P O.State) (resp : ChatResponse P)
      → synthesize O s req fusion replies st ≡ (st', ok resp)
      → (judge : Candidate) × (split_once fusion.judge ≡ some judge)
        × (ask_judge O s req fusion judge replies (record_replies O s (st, no_totals) replies)
            ≡ (st', ok resp))
  unfolding synthesize
  synthesize-judge replies st st' resp h = elim (Option-cases (split_once fusion.judge)) [
    | inl malformed ↦ absurd (ground arith)
    | inr (judge, splits) ↦ elim (Bool-cases (contains s.providers judge.0)) [
      | inl configured ↦ (judge, splits, ground arith)
      | inr unconfigured ↦ absurd (ground arith)
    ]
  ]

  -- The books over the replies and the judge's answer.
  Carries-all :
      (judge : Candidate) (verdict resp : ChatResponse P) (replies : List (Reply P))
      (st0 before st : RouterState P O.State)
      → before.persisted ≡ (record_replies O s (st0, no_totals) replies).0.persisted
      → Carries st resp (
          record_reply O s
            (before, (record_replies O s (st0, no_totals) replies).1)
            (judge, verdict))
      → (s.persistent ≡ true
          → st.persisted ≡ st0.persisted ++ billed s (replies ++ (judge, verdict) ∷ []))
        × (resp.usage
            ≡ (totals_from {P = P} no_totals
                (billed s (replies ++ (judge, verdict) ∷ []))).summed_usage)
        × (resp.cost_usd ≡ total_cost P (billed s (replies ++ (judge, verdict) ∷ [])))
  Carries-all judge verdict resp replies st0 before st same (book, usage, cost) =
      let all = billed s (replies ++ (judge, verdict) ∷ []) in
      let split : all ≡ billed s replies ++ billed s ((judge, verdict) ∷ []) =
        billed-append s replies ((judge, verdict) ∷ []) in
      let (books, sums) = record_replies-Books O s (st0, no_totals) replies in
      let (one, sum) =
        record_reply-Books O s (before, (record_replies O s (st0, no_totals) replies).1)
          (judge, verdict) in
      let totals : (record_reply O s (before, (record_replies O s (st0, no_totals) replies).1)
            (judge, verdict)).1
          ≡ totals_from no_totals all =
        sum
        ∙ ap (λ t. totals_from t (billed s ((judge, verdict) ∷ []))) sums
        ∙ sym (totals_from-append no_totals (billed s replies) (billed s ((judge, verdict) ∷ [])))
        ∙ ap (totals_from no_totals) (sym split) in
      let costs = totals_from-cost {P = P} no_totals all in
      (
        λ on.
            book
            ∙ one on
            ∙ ap (λ l. l ++ billed s ((judge, verdict) ∷ [])) (same ∙ books on)
            ∙ append_assoc st0.persisted (billed s replies) (billed s ((judge, verdict) ∷ []))
            ∙ ap (λ l. st0.persisted ++ l) (sym split),
        usage ∙ ap (λ (t : Totals P). t.summed_usage) totals,
        cost
            ∙ ap (λ (t : Totals P). if t.any_cost then some t.summed_cost else none) totals
            ∙ ground (arith, costs),
      )

  -- A count of the answer's usage is that of the books, in 32 bits.
  abbrev pub IsTotal : (Usage → ℕ) → ChatResponse P → List (Entry P) → Type 0
  IsTotal field resp es = tokens field resp.usage % 2 ^ 32 ≡ total P field es % 2 ^ 32

  IsTotal-totals :
      (field : Usage → ℕ)
      → ((a b : Usage) → field (sum_usage a b) ≡ u32 (field a + field b))
      → (resp : ChatResponse P) (es : List (Entry P))
      → resp.usage ≡ (totals_from {P = P} no_totals es).summed_usage
      → IsTotal field resp es
  IsTotal-totals field adds resp es same =
      let sums : tokens field (totals_from {P = P} no_totals es).summed_usage % 2 ^ 32
          ≡ total P field es % 2 ^ 32 =
        omega (arith, totals_from-tokens {P = P} field adds no_totals es) in
      ap (λ u. tokens field u % 2 ^ 32) same ∙ sums

  -- What an answer to replies carries, with a state whose lines were `lines`.
  abbrev pub Accounts :
      List (Reply P)
      → (lines : List (Entry P)) → RouterState P O.State
      → ChatResponse P
      → Candidate
      → ChatResponse P
      → List (Entry P)
      → Type 0
  Accounts replies lines st' resp judge verdict es =
      (split_once fusion.judge ≡ some judge)
      × Rules judge replies verdict
      × (resp.choices ≡ verdict.choices)
      × (es ≡ billed s (replies ++ (judge, verdict) ∷ []))
      × IsTotal (λ u. u.prompt_tokens) resp es
      × IsTotal (λ u. u.completion_tokens) resp es
      × IsTotal (λ u. u.total_tokens) resp es
      × (resp.cost_usd ≡ total_cost P es)
      × (s.persistent ≡ true → st'.persisted ≡ lines ++ es)

  synthesize-Accounts :
      (replies : List (Reply P)) (st st' : RouterState P O.State) (resp : ChatResponse P)
      → synthesize O s req fusion replies st ≡ (st', ok resp)
      → (judge : Candidate) × (verdict : ChatResponse P) × (es : List (Entry P)) × Accounts replies
          st.persisted st' resp judge verdict es
  unfolding sum_usage
  synthesize-Accounts replies st st' resp answered =
      let (judge, splits, asked) = synthesize-judge replies st st' resp answered in
      let (verdict, before, same, rules, text, carries) =
        ask_judge-Carries judge replies (record_replies O s (st, no_totals) replies) st' resp
          asked in
      let (books, usage, cost) =
        Carries-all judge verdict resp replies st before st' same carries in
      let es = billed s (replies ++ (judge, verdict) ∷ []) in
      (
        judge,
        verdict,
        es,
        (
          splits,
          rules,
          text,
          refl,
          IsTotal-totals (λ u. u.prompt_tokens) (λ a b. refl) resp es usage,
          IsTotal-totals (λ u. u.completion_tokens) (λ a b. refl) resp es usage,
          IsTotal-totals (λ u. u.total_tokens) (λ a b. refl) resp es usage,
          cost,
          books,
        ),
      )

  settle-synthesizes :
      (replies : List (Reply P)) (st st' : RouterState P O.State) (resp : ChatResponse P)
      → find_tool_call replies ≡ none
      → settle O s req fusion replies st ≡ (st', ok resp)
      → synthesize O s req fusion replies st ≡ (st', ok resp)
  unfolding settle
  settle-synthesizes [] st st' resp no_tools h = absurd (ground arith)
  settle-synthesizes (r ∷ replies) st st' resp no_tools h = ground (arith, no_tools)

  settle-tool_call :
      (replies : List (Reply P)) (st : RouterState P O.State) (c : Candidate)
      (resp : ChatResponse P)
      → find_tool_call replies ≡ some (c, resp)
      → settle O s req fusion replies st ≡ (log_attempt O s c "success" st, ok resp)
  unfolding settle find_tool_call
  settle-tool_call [] st c resp h = absurd (ground arith)
  settle-tool_call (r ∷ replies) st c resp h = ground arith

  -- When fusion answers and no candidate of the panel calls tools, the answer is the judge's text, and
  -- it carries the sums over all responses, the panel's and the judge's: of the tokens in 32 bits,
  -- and of the known costs. With persistence on, one line is written for each response with a
  -- usage, in the order of the panel, the judge's last.
  pub dispatch_fusion-answer :
      (panel : List Candidate) (st st' : RouterState P O.State) (resp : ChatResponse P)
      → find_tool_call (panel_replies O s req fusion panel st).1 ≡ none
      → dispatch_fusion O s req fusion panel st ≡ (st', ok resp)
      → (judge : Candidate) × (verdict : ChatResponse P) × (es : List (Entry P)) × Accounts
          (panel_replies O s req fusion panel st).1
          st.persisted
          st'
          resp
          judge
          verdict
          es
  unfolding dispatch_fusion
  dispatch_fusion-answer panel st st' resp no_tools h =
      let accounts =
        synthesize-Accounts (panel_replies O s req fusion panel st).1
          (panel_replies O s req fusion panel st).0 st' resp
          (settle-synthesizes (panel_replies O s req fusion panel st).1
            (panel_replies O s req fusion panel st).0 st' resp no_tools h) in
      subst
        (λ (lines : List (Entry P)).
          (judge : Candidate) × (verdict : ChatResponse P) × (es : List (Entry P)) × Accounts
            (panel_replies O s req fusion panel st).1 lines st' resp judge verdict es)
        (panel_replies-keeps panel st).0 accounts

  -- When a candidate of the panel calls tools, fusion answers with its response as it stands, with the
  -- usage counts and the persisted lines as they were before the panel was called.
  pub dispatch_fusion-tool_call :
      (panel : List Candidate) (st : RouterState P O.State) (c : Candidate) (resp : ChatResponse P)
      → find_tool_call (panel_replies O s req fusion panel st).1 ≡ some (c, resp)
      → ((dispatch_fusion O s req fusion panel st).1 ≡ ok resp)
        × ((dispatch_fusion O s req fusion panel st).0.usage ≡ st.usage)
        × ((dispatch_fusion O s req fusion panel st).0.persisted ≡ st.persisted)
  unfolding dispatch_fusion log_attempt
  dispatch_fusion-tool_call panel st c resp h =
      let (st', replies) = panel_replies O s req fusion panel st in
      let settled = settle-tool_call replies st' c resp h in
      let (books, counts) = panel_replies-keeps panel st in
      (
        ap (λ r. r.1) settled,
        ap (λ r. r.0.usage) settled ∙ counts,
        ap (λ r. r.0.persisted) settled ∙ books,
      )
