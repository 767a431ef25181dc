-- ===== src/Transforms/MiddleOut.antt =====
-- What `apply_middle_out` keeps of a conversation.
use rusty_provider.Prelude.{
  ℕ, ◌-◌, ◌≤◌, ◌<◌, List, [], ◌∷◌, ◌++◌, length, ltb, ◌⊎◌, inl, inr, ◌≡◌, refl, ap, ◌∙◌, arith,
  Bool-cases,
}
use rusty_provider.Core.Types.{ChatMessage}
use rusty_provider.Transforms.{estimate_tokens, total_tokens, drop_second, apply_middle_out}

-- The messages behind the first are `dropped` and then `kept`, within the budget or down to one, and
-- no shorter prefix would do.
abbrev pub IsMiddleOut :
    ChatMessage → ℕ → List ChatMessage → List ChatMessage → List ChatMessage → Type 0
IsMiddleOut first budget rest dropped kept =
    (rest ≡ dropped ++ kept)
    × ((total_tokens (first ∷ kept) ≤ budget) ⊎ (length kept ≤ 1))
    × ((dropped ≡ [])
        ⊎ ((ms : List ChatMessage) × (m : ChatMessage) × (dropped ≡ ms ++ m ∷ [])
            × (budget < total_tokens (first ∷ m ∷ kept))
            × (1 ≤ length kept)))

drop_second-IsMiddleOut :
    (first : ChatMessage) (budget total : ℕ) (rest : List ChatMessage)
    → total ≡ total_tokens (first ∷ rest)
    → (dropped : List ChatMessage) × IsMiddleOut first budget rest dropped
        (drop_second budget total rest)
unfolding drop_second total_tokens
drop_second-IsMiddleOut first budget total [] h = ([], (refl, inr (omega arith), inl refl))
drop_second-IsMiddleOut first budget total (m ∷ []) h = ([], (refl, inr (omega arith), inl refl))
drop_second-IsMiddleOut first budget total (m ∷ n ∷ ms) h = elim (Bool-cases (ltb budget total)) [
  | inr fits ↦
      let same : drop_second budget total (m ∷ n ∷ ms) ≡ m ∷ n ∷ ms = ground arith in
      rw same ([], (refl, inl (ground arith), inl refl))
  | inl over ↦
      let left = total - estimate_tokens m in
      let (dropped, (split, small, last)) =
        drop_second-IsMiddleOut first budget left (n ∷ ms) (ground arith) in
      let same : drop_second budget total (m ∷ n ∷ ms) ≡ drop_second budget left (n ∷ ms) =
        ground arith in
      let last' : (before : List ChatMessage) × (x : ChatMessage) × (m ∷ dropped ≡ before ++ x ∷ [])
          × (budget < total_tokens (first ∷ x ∷ drop_second budget left (n ∷ ms)))
          × (1 ≤ length (drop_second budget left (n ∷ ms))) =
        elim last [
          | inl nothing ↦
              let kept : n ∷ ms ≡ drop_second budget left (n ∷ ms) =
                split ∙ ap (λ l. l ++ drop_second budget left (n ∷ ms)) nothing in
              ([], m, ap (◌∷◌ m) nothing, ground arith, ground arith)
          | inr (before, x, at_end, too_much, some_left) ↦
              (m ∷ before, x, ap (◌∷◌ m) at_end, too_much, some_left)
        ] in
      rw same (m ∷ dropped, (ap (◌∷◌ m) split, small, inr last'))
]

-- Middle-out keeps the first message and a nonempty rest's last one: of the messages behind the
-- first it drops the oldest, until the estimate is within the budget or only one is left, and no
-- more than that takes.
pub apply_middle_out-IsMiddleOut :
    (m : ChatMessage) (ms : List ChatMessage) (budget : ℕ)
    → (dropped kept : List ChatMessage) × (apply_middle_out (m ∷ ms) budget ≡ m ∷ kept)
      × IsMiddleOut m budget ms dropped kept
unfolding apply_middle_out
apply_middle_out-IsMiddleOut m ms budget =
    let (dropped, ok) = drop_second-IsMiddleOut m budget (total_tokens (m ∷ ms)) ms refl in
    (dropped, drop_second budget (total_tokens (m ∷ ms)) ms, refl, ok)
