-- ===== src/Common/Slices.antt =====
-- Byte strings as lists of numbers, with the operations of Rust's slices that the programs call.
use Prim.Native.Char.{code}
use Prim.Native.String.{String}
use Prim.Native.Nat.{ℕ}
use mathlib.Core.Path.{◌≡◌, refl, ap}
use mathlib.Core.Logic.{◌↔◌, ◌⊎◌, inl, inr}
use mathlib.Core.Bool.{Bool, true, false, ◌&&◌, ◌||◌}
use mathlib.Core.List.{List, [], ◌∷◌, ◌++◌}
use mathlib.Core.Option.{Option, none, some}
use native.Mathlib.Omega.{arith}
use scratchpad.Common.Tests.{if◌then◌else◌, ◌==◌, Bool-cases}

abbrev pub Bytes : Type 0
Bytes = List ℕ

-- The code points of a literal: its bytes, since every literal here is ASCII.
abbrev pub codes : String → Bytes
codes String.[] = []
codes (String.◌∷◌ c s) = code c ∷ codes s

-- `==` on slices
unfoldable pub bytes_eq : Bytes → Bytes → Bool
bytes_eq [] [] = true
bytes_eq [] (b ∷ right) = false
bytes_eq (a ∷ left) [] = false
bytes_eq (a ∷ left) (b ∷ right) = if a == b then bytes_eq left right else false

pub bytes_eq_iff : (left right : Bytes) → (bytes_eq left right ≡ true) ↔ (left ≡ right)
unfolding bytes_eq
bytes_eq_iff [] [] = (λ _. refl, λ _. refl)
bytes_eq_iff [] (b ∷ right) = (λ t. cc, λ t. cc)
bytes_eq_iff (a ∷ left) [] = (λ t. cc, λ t. cc)
bytes_eq_iff (a ∷ left) (b ∷ right) = ground (arith, bytes_eq_iff left right)

-- `contains(&b)`
unfoldable pub contains : ℕ → Bytes → Bool
contains b [] = false
contains b (x ∷ xs) = x == b || contains b xs

pub contains-append :
    (b : ℕ) (xs ys : Bytes) → contains b (xs ++ ys) ≡ (contains b xs || contains b ys)
unfolding contains
contains-append b [] ys = refl
contains-append b (x ∷ xs) ys = ground (arith, contains-append b xs ys)

-- `strip_prefix(p)`
unfoldable pub strip_prefix : Bytes → Bytes → Option Bytes
strip_prefix [] xs = some xs
strip_prefix (p ∷ ps) [] = none
strip_prefix (p ∷ ps) (x ∷ xs) = if x == p then strip_prefix ps xs else none

-- `starts_with(p)`
unfoldable pub starts_with : Bytes → Bytes → Bool
starts_with [] xs = true
starts_with (p ∷ ps) [] = false
starts_with (p ∷ ps) (x ∷ xs) = x == p && starts_with ps xs

-- `strip_suffix(&[c])` for one byte, with `unwrap_or(line)`
unfoldable pub strip_last : ℕ → Bytes → Bytes
strip_last c [] = []
strip_last c (x ∷ []) = if x == c then [] else x ∷ []
strip_last c (x ∷ y ∷ xs) = x ∷ strip_last c (y ∷ xs)

pub strip_last-concat : (c : ℕ) (xs : Bytes) → strip_last c (xs ++ c ∷ []) ≡ xs
unfolding strip_last
strip_last-concat c [] = ground arith
strip_last-concat c (x ∷ []) = ground arith
strip_last-concat c (x ∷ y ∷ xs) = ap (◌∷◌ x) (strip_last-concat c (y ∷ xs))

pub strip_last-other :
    (c d : ℕ) (xs : Bytes) → (d == c) ≡ false → strip_last c (xs ++ d ∷ []) ≡ xs ++ d ∷ []
unfolding strip_last
strip_last-other c d [] h = ground arith
strip_last-other c d (x ∷ []) h = ground arith
strip_last-other c d (x ∷ y ∷ xs) h = ap (◌∷◌ x) (strip_last-other c d (y ∷ xs) h)

-- What is stripped is nothing, or one `c` at the end.
pub strip_last-cases :
    (c : ℕ) (xs : Bytes) → (xs ≡ strip_last c xs) ⊎ (xs ≡ strip_last c xs ++ c ∷ [])
unfolding strip_last
strip_last-cases c [] = inl refl
strip_last-cases c (x ∷ []) = elim (Bool-cases (x == c)) [
  | inl e ↦ inr (ground arith)
  | inr e ↦ inl (ground arith)
]
strip_last-cases c (x ∷ y ∷ xs) = elim (strip_last-cases c (y ∷ xs)) [
  | inl e ↦ inl (ap (◌∷◌ x) e)
  | inr e ↦ inr (ap (◌∷◌ x) e)
]

pub contains-strip_last :
    (b c : ℕ) (xs : Bytes) → contains b xs ≡ false → contains b (strip_last c xs) ≡ false
unfolding strip_last contains
contains-strip_last b c [] h = refl
contains-strip_last b c (x ∷ []) h = ground arith
contains-strip_last b c (x ∷ y ∷ xs) h = ground (arith, contains-strip_last b c (y ∷ xs))

-- `String::pop`, without what it returns
unfoldable pub pop : Bytes → Bytes
pop [] = []
pop (c ∷ []) = []
pop (c ∷ d ∷ t) = c ∷ pop (d ∷ t)
