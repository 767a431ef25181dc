-- ===== src/Transforms/Tests.antt =====
-- An example for middle-out: five messages and room for three of one token.
use rusty_provider.Prelude.{List, [], ◌∷◌, ◌≡◌}
use rusty_provider.Core.Types.{ChatMessage}
use rusty_provider.Samples.{hello}
use rusty_provider.Transforms.{apply_middle_out}
use rusty_provider.Transforms.MiddleOut.{apply_middle_out-IsMiddleOut, IsMiddleOut}

apply_middle_out-IsMiddleOut_example :
    (dropped kept : List ChatMessage) × (apply_middle_out
        (hello ∷ hello ∷ hello ∷ hello ∷ hello ∷ [])
        3
      ≡ hello ∷ kept)
    × IsMiddleOut hello 3 (hello ∷ hello ∷ hello ∷ hello ∷ []) dropped kept
apply_middle_out-IsMiddleOut_example =
    apply_middle_out-IsMiddleOut hello (hello ∷ hello ∷ hello ∷ hello ∷ []) 3
