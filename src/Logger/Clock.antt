-- ===== src/Logger/Clock.antt =====
-- lib.rs: `resolve_clock`, and that a time in seconds, written out, is read back.
use scratchpad.Common.{
  ℕ, zero, suc, ◌+◌, ◌^◌, ◌<◌, ◌≡◌, refl, sym, ap, ◌∙◌, Bool, true, false, not, ◌||◌, Option, none,
  some, [], ◌∷◌, Bytes, ◌==◌, ltb, arith, if◌then◌else◌, if-cases, lt→ltb,
}
use scratchpad.Common.Decimal.{
  decimal, all_digits, AllDigits, value_onto, decimal-value, decimal-AllDigits,
}
use scratchpad.Common.Io.{Result, ok, err}

-- A signed number, under the library's names
pub data ℤ : Type 0 where
  pos : ℕ → ℤ
  negsuc : ℕ → ℤ

-- The value that the environment holds.
pub record ClockError : Type 0 where
  pub value : Bytes

-- `text.parse::<i64>()` of digits with or without a minus sign, and no other text
abbrev pub from_digits : Bool → ℕ → Option ℤ
from_digits false n = if ltb n (2 ^ 63) then some (pos n) else none
from_digits true zero = some (pos 0)
from_digits true (suc n) = if ltb n (2 ^ 63) then some (negsuc n) else none

abbrev pub accepted : Bytes → Option ℤ → Result ClockError ℤ
accepted text none = err (record { value = text })
accepted text (some t) = ok t

abbrev pub is_empty : Bytes → Bool
is_empty [] = true
is_empty (c ∷ t) = false

abbrev pub checked : Bytes → Bool → Bytes → Result ClockError ℤ
checked text negative digits =
    if is_empty digits || not (all_digits digits)
    then err (record { value = text })
    else accepted text (from_digits negative (value_onto 0 digits))

-- The sign is stripped when it is there.
abbrev pub clock_of : Bytes → Result ClockError ℤ
clock_of [] = checked [] false []
clock_of (c ∷ text) =
    if c == b'-' then checked (c ∷ text) true text else checked (c ∷ text) false (c ∷ text)

-- The text is what `to_string_lossy` gives of the variable.
unfoldable pub resolve_clock : Option Bytes → ℤ → Result ClockError ℤ
resolve_clock none real_now = ok real_now
resolve_clock (some text) real_now = clock_of text

-- A time as it is written, and whether 64 bits hold it.
abbrev pub written_out : ℤ → Bytes
written_out (pos n) = decimal n
written_out (negsuc n) = b'-' ∷ decimal (n + 1)

abbrev pub Fits : ℤ → Type 0
Fits (pos n) = n < 2 ^ 63
Fits (negsuc n) = n < 2 ^ 63

all_digits-AllDigits : (t : Bytes) → AllDigits t → all_digits t ≡ true
all_digits-AllDigits [] h = refl
all_digits-AllDigits (c ∷ t) h = ground (arith, h.0, all_digits-AllDigits t h.1)

decimal-nonempty : (n : ℕ) → is_empty (decimal n) ≡ false
decimal-nonempty n = go (decimal n) refl
  where
    go : (t : Bytes) → decimal n ≡ t → is_empty t ≡ false
    go (c ∷ t) e = refl
    go [] e =
        let none_left : n ≡ 0 = sym (decimal-value n) ∙ ap (value_onto 0) e in
        absurd (
          let q : decimal 0 ≡ [] = ap decimal (sym none_left) ∙ e in
          let zero_digit : decimal 0 ≡ b'0' ∷ [] = unfold decimal in refl in cc)

-- What is checked of the digits of a number passes.
checked-decimal :
    (text : Bytes) (negative : Bool) (n : ℕ)
    → checked text negative (decimal n) ≡ accepted text (from_digits negative n)
checked-decimal text negative n =
    if-cases (λ (r : Result ClockError ℤ). r ≡ accepted text (from_digits negative n))
      (is_empty (decimal n) || not (all_digits (decimal n))) _ _
      (λ bad. absurd (
        let full = decimal-nonempty n in
        let digits = all_digits-AllDigits (decimal n) (decimal-AllDigits n) in ground arith))
      (λ _. ap (λ k. accepted text (from_digits negative k)) (decimal-value n))

unsigned : (t : Bytes) → AllDigits t → clock_of t ≡ checked t false t
unsigned [] h = refl
unsigned (c ∷ t) h =
    if-cases (λ (r : Result ClockError ℤ). r ≡ checked (c ∷ t) false (c ∷ t)) (c == b'-') _ _
      (λ minus. absurd (let digit = h.0 in ground arith)) (λ _. refl)

-- A time that 64 bits hold, written as the variable's value, is the time of the run, whatever the clock says.
pub resolve_clock-written_out :
    (t now : ℤ) → Fits t → resolve_clock (some (written_out t)) now ≡ ok t
unfolding resolve_clock
resolve_clock-written_out (pos n) now h =
    unsigned (decimal n) (decimal-AllDigits n)
    ∙ checked-decimal (decimal n) false n
    ∙ ap (λ (o : Bool). accepted (decimal n) (if o then some (pos n) else none))
        (lt→ltb n (2 ^ 63) h)
resolve_clock-written_out (negsuc n) now h =
    let text = b'-' ∷ decimal (n + 1) in
    let next : n + 1 ≡ suc n = omega arith in
    checked-decimal text true (n + 1)
    ∙ ap (λ k. accepted text (from_digits true k)) next
    ∙ ap (λ (o : Bool). accepted text (if o then some (negsuc n) else none)) (lt→ltb n (2 ^ 63) h)
