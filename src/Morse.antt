-- ===== src/Morse.antt =====
-- morse_trainer/src/morse.rs: the table of the code, and the lookups in both directions. A character
-- is its code point.
pub mod RoundTrip
pub mod Lessons
pub mod App
mod Tests
use scratchpad.Common.{
  ℕ, ◌+◌, Bool, true, false, ◌&&◌, Option, none, some, List, [], ◌∷◌, Bytes, ◌==◌, ltb, leb,
  if◌then◌else◌, length, take,
}

pub data InputEvent : Type 0 where
  dot dash invalid : InputEvent

pub data Symbol : Type 0 where
  char : ℕ → Symbol
  backspace : Symbol

abbrev pub max_seq_len : ℕ
max_seq_len = 5

abbrev pub Sequence : Type 0
Sequence = List InputEvent

abbrev pub Table : Type 0
Table = List (Symbol × Sequence)

abbrev pub table : Table
table =
    (char b'e', dot ∷ [])
    ∷ (char b't', dash ∷ [])
    ∷ (char b'i', dot ∷ dot ∷ [])
    ∷ (char b'a', dot ∷ dash ∷ [])
    ∷ (char b'n', dash ∷ dot ∷ [])
    ∷ (char b'm', dash ∷ dash ∷ [])
    ∷ (char b's', dot ∷ dot ∷ dot ∷ [])
    ∷ (char b'u', dot ∷ dot ∷ dash ∷ [])
    ∷ (char b'r', dot ∷ dash ∷ dot ∷ [])
    ∷ (char b'w', dot ∷ dash ∷ dash ∷ [])
    ∷ (char b'd', dash ∷ dot ∷ dot ∷ [])
    ∷ (char b'k', dash ∷ dot ∷ dash ∷ [])
    ∷ (char b'g', dash ∷ dash ∷ dot ∷ [])
    ∷ (char b'o', dash ∷ dash ∷ dash ∷ [])
    ∷ (char b'h', dot ∷ dot ∷ dot ∷ dot ∷ [])
    ∷ (char b'v', dot ∷ dot ∷ dot ∷ dash ∷ [])
    ∷ (char b'f', dot ∷ dot ∷ dash ∷ dot ∷ [])
    ∷ (char b' ', dot ∷ dot ∷ dash ∷ dash ∷ [])
    ∷ (char b'l', dot ∷ dash ∷ dot ∷ dot ∷ [])
    ∷ (char b'p', dot ∷ dash ∷ dash ∷ dot ∷ [])
    ∷ (char b'j', dot ∷ dash ∷ dash ∷ dash ∷ [])
    ∷ (char b'b', dash ∷ dot ∷ dot ∷ dot ∷ [])
    ∷ (char b'x', dash ∷ dot ∷ dot ∷ dash ∷ [])
    ∷ (char b'c', dash ∷ dot ∷ dash ∷ dot ∷ [])
    ∷ (char b'y', dash ∷ dot ∷ dash ∷ dash ∷ [])
    ∷ (char b'z', dash ∷ dash ∷ dot ∷ dot ∷ [])
    ∷ (char b'q', dash ∷ dash ∷ dot ∷ dash ∷ [])
    ∷ (backspace, dash ∷ dash ∷ dash ∷ dash ∷ [])
    ∷ (char b'0', dash ∷ dash ∷ dash ∷ dash ∷ dash ∷ [])
    ∷ (char b'1', dot ∷ dash ∷ dash ∷ dash ∷ dash ∷ [])
    ∷ (char b'2', dot ∷ dot ∷ dash ∷ dash ∷ dash ∷ [])
    ∷ (char b'3', dot ∷ dot ∷ dot ∷ dash ∷ dash ∷ [])
    ∷ (char b'4', dot ∷ dot ∷ dot ∷ dot ∷ dash ∷ [])
    ∷ (char b'5', dot ∷ dot ∷ dot ∷ dot ∷ dot ∷ [])
    ∷ (char b'6', dash ∷ dot ∷ dot ∷ dot ∷ dot ∷ [])
    ∷ (char b'7', dash ∷ dash ∷ dot ∷ dot ∷ dot ∷ [])
    ∷ (char b'8', dash ∷ dash ∷ dash ∷ dot ∷ dot ∷ [])
    ∷ (char b'9', dash ∷ dash ∷ dash ∷ dash ∷ dot ∷ [])
    ∷ []

abbrev pub event_eq : InputEvent → InputEvent → Bool
event_eq dot dot = true
event_eq dash dash = true
event_eq invalid invalid = true
event_eq _ _ = false

unfoldable pub seq_eq : Sequence → Sequence → Bool
seq_eq [] [] = true
seq_eq (a ∷ s) (b ∷ t) = event_eq a b && seq_eq s t
seq_eq _ _ = false

abbrev pub symbol_eq : Symbol → Symbol → Bool
symbol_eq (char a) (char b) = a == b
symbol_eq backspace backspace = true
symbol_eq _ _ = false

-- The two calls of `find` over the table.
unfoldable pub find_sequence : Table → Sequence → Option Symbol
find_sequence [] seq = none
find_sequence ((symbol, candidate) ∷ rest) seq =
    let found = find_sequence rest seq in if seq_eq candidate seq then some symbol else found

unfoldable pub find_symbol : Table → Symbol → Option Sequence
find_symbol [] symbol = none
find_symbol ((candidate, seq) ∷ rest) symbol =
    let found = find_symbol rest symbol in if symbol_eq candidate symbol then some seq else found

abbrev pub truncated : Sequence → Sequence
truncated seq = if ltb max_seq_len (length seq) then take max_seq_len seq else seq

abbrev pub look_up : Sequence → Option Symbol
look_up [] = none
look_up (e ∷ seq) = find_sequence table (e ∷ seq)

unfoldable pub decode : Sequence → Option Symbol
unfolding find_sequence
decode seq = look_up (truncated seq)

unfoldable pub encode_symbol : Symbol → Option Sequence
unfolding find_symbol
encode_symbol symbol = find_symbol table symbol

abbrev pub to_ascii_lowercase : ℕ → ℕ
to_ascii_lowercase c = if leb b'A' c && leb c b'Z' then c + 32 else c

unfoldable pub encode : ℕ → Option Sequence
unfolding encode_symbol
encode c = encode_symbol (char (to_ascii_lowercase c))

abbrev pub mark_of : InputEvent → ℕ
mark_of dot = b'.'
mark_of dash = b'-'
mark_of invalid = b'?'

unfoldable pub render_sequence : Sequence → Bytes
render_sequence [] = []
render_sequence (e ∷ seq) = mark_of e ∷ render_sequence seq
