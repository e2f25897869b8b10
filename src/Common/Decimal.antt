-- ===== src/Common/Decimal.antt =====
-- `{}` of an unsigned integer: its decimal digits, the most significant first.
use Prim.Native.Nat.{ℕ, zero, suc, ◌+◌, ◌-◌, ◌*◌, ◌/◌, ◌%◌, ◌<◌}
use mathlib.Core.Path.{◌≡◌, refl, ap, ◌∙◌}
use mathlib.Core.Logic.{inl, inr}
use mathlib.Core.Bool.{Bool, true, ◌&&◌}
use mathlib.Core.Option.{Option, none, some}
use mathlib.Core.List.{[], ◌∷◌}
use native.Mathlib.Omega.{arith}
use scratchpad.Common.Tests.{if◌then◌else◌, ltb, leb, ◌==◌, Bool-cases}
use scratchpad.Common.Slices.{Bytes, codes}

-- The digits of `n` in front of `rest`; a number has fewer digits than the fuel `n + 1`.
decimal_onto : ℕ → ℕ → Bytes → Bytes
decimal_onto zero n rest = rest
decimal_onto (suc f) n rest =
    let more = decimal_onto f (n / 10) ((n % 10 + b'0') ∷ rest) in
    if ltb n 10 then (n + b'0') ∷ rest else more

unfoldable pub decimal : ℕ → Bytes
unfolding decimal_onto
decimal n = decimal_onto (n + 1) n []

decimal_test : decimal 8192 ≡ codes "8192"
unfolding decimal
decimal_test = refl

-- The number that a run of digits denotes, read after `acc`.
abbrev pub value_onto : ℕ → Bytes → ℕ
value_onto acc [] = acc
value_onto acc (c ∷ cs) = value_onto (acc * 10 + (c - b'0')) cs

abbrev pub is_digit : ℕ → Bool
is_digit c = leb b'0' c && leb c b'9'

abbrev pub AllDigits : Bytes → Type 0
AllDigits [] = Unit {0}
AllDigits (c ∷ cs) = (is_digit c ≡ true) × AllDigits cs

-- Enough fuel: the digits written denote `n`, before any digits that follow.
decimal_onto-value :
    (f n : ℕ) (rest : Bytes) → n < f → value_onto 0 (decimal_onto f n rest) ≡ value_onto n rest
unfolding decimal_onto
decimal_onto-value zero n rest h = elim h [ ]
decimal_onto-value (suc f) n rest h = elim (Bool-cases (ltb n 10)) [
  | inl e ↦ rw e (ap (λ m. value_onto m rest) (omega arith))
  | inr e ↦ rw e (
      decimal_onto-value f (n / 10) ((n % 10 + b'0') ∷ rest) (ground arith)
      ∙ ap (λ m. value_onto m rest) (omega arith))
]

pub decimal-value : (n : ℕ) → value_onto 0 (decimal n) ≡ n
unfolding decimal
decimal-value n = decimal_onto-value (n + 1) n [] (omega arith)

decimal_onto-AllDigits :
    (f n : ℕ) (rest : Bytes) → AllDigits rest → AllDigits (decimal_onto f n rest)
unfolding decimal_onto
decimal_onto-AllDigits zero n rest h = h
decimal_onto-AllDigits (suc f) n rest h = elim (Bool-cases (ltb n 10)) [
  | inl e ↦ rw e (ground arith, h)
  | inr e ↦ rw e (decimal_onto-AllDigits f (n / 10) ((n % 10 + b'0') ∷ rest) (ground arith, h))
]

pub decimal-AllDigits : (n : ℕ) → AllDigits (decimal n)
unfolding decimal
decimal-AllDigits n = decimal_onto-AllDigits (n + 1) n [] tt

abbrev pub all_digits : Bytes → Bool
all_digits [] = true
all_digits (c ∷ cs) = is_digit c && all_digits cs

abbrev digits_below : ℕ → Bytes → Option ℕ
digits_below limit [] = none
digits_below limit (c ∷ cs) =
    if all_digits (c ∷ cs) && ltb (value_onto 0 (c ∷ cs)) limit
    then some (value_onto 0 (c ∷ cs))
    else none

-- `str::parse` of an unsigned number below `limit`: one `+` may stand in front.
unfoldable pub parse_unsigned : ℕ → Bytes → Option ℕ
parse_unsigned limit [] = none
parse_unsigned limit (c ∷ cs) =
    if c == b'+' then digits_below limit cs else digits_below limit (c ∷ cs)
