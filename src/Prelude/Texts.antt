-- ===== src/Prelude/Texts.antt =====
-- Texts as Rust builds them: a number as `format!` prints it, and lines joined.
use Prim.Native.String as Str
use Prim.Native.Nat.{ℕ, zero, suc, ◌+◌, ◌/◌, ◌%◌, ◌<◌}
use Prim.Native.String.{String}
use mathlib.Core.Path.{◌≡◌}
use mathlib.Core.List.{List, [], ◌∷◌}
use mathlib.Core.Bool.{Bool, true, ◌&&◌, ◌||◌}
use Prim.Native.Char.{code}
use native.Mathlib.Omega.{arith}
use rusty_provider.Prelude.Tests.{if◌then◌else◌, ltb, leb, eqb}

abbrev digit : ℕ → String
digit d = Str.slice "0123456789" d (d + 1)

-- The digits, with a bound on their number.
unfoldable decimal_digits : ℕ → ℕ → String
decimal_digits zero n = ""
decimal_digits (suc fuel) n =
    let before = decimal_digits fuel (n / 10) in
    if ltb n 10 then digit n else Str.◌++◌ before (digit (n % 10))

unfoldable pub decimal : ℕ → String
unfolding decimal_digits
decimal n = decimal_digits (suc n) n

-- More than n digits are never needed for n.
decimal_digits-enough : (fuel n : ℕ) → n < fuel → decimal_digits fuel n ≡ decimal n
unfolding decimal decimal_digits
decimal_digits-enough fuel n h = same fuel (suc n) n h (omega arith)
  where
    same : (f g n : ℕ) → n < f → n < g → decimal_digits f n ≡ decimal_digits g n
    same zero g n p q = absurd (omega arith)
    same (suc f) zero n p q = absurd (omega arith)
    same (suc f) (suc g) n p q = ground (arith, same f g (n / 10))

-- `join("\n")`.
unfoldable pub join_lines : List String → String
join_lines [] = ""
join_lines (line ∷ []) = line
join_lines (line ∷ next ∷ lines) = Str.◌++◌ line (Str.◌++◌ "\n" (join_lines (next ∷ lines)))

-- `char::is_whitespace`, by code point.
unfoldable pub is_whitespace : ℕ → Bool
is_whitespace n =
    (leb 9 n && leb n 13)
    || eqb n 32
    || eqb n 133
    || eqb n 160
    || eqb n 5760
    || (leb 8192 n && leb n 8202)
    || eqb n 8232
    || eqb n 8233
    || eqb n 8239
    || eqb n 8287
    || eqb n 12288

-- `s.trim().is_empty()`.
unfoldable pub is_blank : String → Bool
unfolding is_whitespace
is_blank Str.[] = true
is_blank (Str.◌∷◌ c s) = is_whitespace (code c) && is_blank s
