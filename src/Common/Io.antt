-- ===== src/Common/Io.antt =====
-- Rust's byte streams as the programs use them. An input is the list of what each one-byte `read`
-- answers, and past its end every `read` answers `Ok(0)`. An output records what was written and
-- how each later `write_all` or `flush` will answer; past that list they succeed.
pub mod Writes
use Prim.Native.Nat.{ℕ}
use mathlib.Core.List.{List, [], ◌∷◌, ◌++◌}
use scratchpad.Common.Lists.{take}
use scratchpad.Common.Slices.{Bytes}

-- `io::Error`, by the kinds that the programs tell apart.
pub data IoError : Type 0 where
  interrupted would_block timed_out not_found permission_denied invalid_input : IoError
  other_kind : ℕ → IoError

-- What one `read` into a one-byte buffer answers.
pub data ReadEvent : Type 0 where
  byte : ℕ → ReadEvent
  fault : IoError → ReadEvent

abbrev pub Input : Type 0
Input = List ReadEvent

abbrev pub bytes_input : Bytes → Input
bytes_input [] = []
bytes_input (b ∷ bs) = byte b ∷ bytes_input bs

-- The bytes that an input delivers.
abbrev pub payload : Input → Bytes
payload [] = []
payload (byte b ∷ input) = b ∷ payload input
payload (fault _ ∷ input) = payload input

-- `Result<A, E>`
pub data Result {ℓ κ} (E : Type κ) (A : Type ℓ) : Type (ℓ ⊔ κ) where
  ok : A → Result E A
  err : E → Result E A

-- `fails n e`: the first `n` bytes go out, and then the error.
pub data WriteAnswer : Type 0 where
  accepts : WriteAnswer
  fails : ℕ → IoError → WriteAnswer

pub record Output : Type 0 where
  pub written : Bytes
  pub answers : List WriteAnswer

abbrev pub Write : Type 0 → Type 0
Write E = Output → Result E (Unit {0}) × Output

answer_write : Bytes → Bytes → List WriteAnswer → Result IoError (Unit {0}) × Output
answer_write bs old [] = (ok tt, record { written = old ++ bs; answers = [] })
answer_write bs old (accepts ∷ later) = (ok tt, record { written = old ++ bs; answers = later })
answer_write bs old (fails n e ∷ later) =
    (err e, record { written = old ++ take n bs; answers = later })

-- `write_all`, and `write!` of the formatted bytes
unfoldable pub write_all : Bytes → Write IoError
unfolding answer_write
write_all bs out = answer_write bs out.written out.answers

unfoldable pub flush : Write IoError
unfolding write_all
flush = write_all []

continue : Result IoError (Unit {0}) × Output → Write IoError → Result IoError (Unit {0}) × Output
continue (ok _, out) next = next out
continue (err e, out) next = (err e, out)

-- `a?; b`
infixr 5 ◌>>◌
unfoldable pub ◌>>◌ : Write IoError → Write IoError → Write IoError
unfolding continue
◌>>◌ a b out = continue (a out) b
