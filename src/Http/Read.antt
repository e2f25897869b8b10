-- ===== src/Http/Read.antt =====
-- http.rs: `read_request`. The loop recurs on the input; past its end `read` answers `Ok(0)`.
pub mod Framing
use scratchpad.Common.{
  ℕ, ◌+◌, ◌-◌, Bool, true, false, ◌&&◌, ◌||◌, List, [], ◌∷◌, ◌++◌, Bytes, ◌==◌, leb, if◌then◌else◌,
  length, drop, bytes_eq,
}
use scratchpad.Common.Io.{
  IoError, interrupted, would_block, timed_out, ReadEvent, byte, fault, Input, Result, ok, err,
}
use scratchpad.Http.{ConnectionError, closed, timeout, read, ReadOutcome, complete, too_large}

-- `ends_with(p)`
unfoldable pub ends_with : Bytes → Bytes → Bool
ends_with p xs = leb (length p) (length xs) && bytes_eq (drop (length xs - length p) xs) p

-- The blank line that ends the header block.
unfoldable pub terminated : Bytes → Bool
terminated out = ends_with (b'\n' ∷ b'\n' ∷ []) out || ends_with (b'\n' ∷ b'\r' ∷ b'\n' ∷ []) out

pub data FaultKind : Type 0 where
  retry give_up : FaultKind
  broken : FaultKind

-- The arms of the `match` on an error's kind.
abbrev pub fault_kind : IoError → FaultKind
fault_kind interrupted = FaultKind.retry
fault_kind would_block = FaultKind.give_up
fault_kind timed_out = FaultKind.give_up
fault_kind _ = FaultKind.broken

-- The outcome, the block read so far, and the input that is left.
pub record ReadResult : Type 0 where
  pub outcome : Result ConnectionError ReadOutcome
  pub block : Bytes
  pub unread : Input

abbrev pub stop : Result ConnectionError ReadOutcome → Bytes → Input → ReadResult
stop outcome block unread = record { outcome = outcome; block = block; unread = unread }

unfoldable pub read_loop : ℕ → Bytes → Input → ReadResult
read_loop cap out [] = stop (err closed) out []
read_loop cap out (byte b ∷ input) =
    let rest = read_loop cap (out ++ b ∷ []) input in
    if length out == cap
    then stop (ok too_large) out input
    else if terminated (out ++ b ∷ [])
    then stop (ok complete) (out ++ b ∷ []) input
    else rest
read_loop cap out (fault e ∷ input) =
    let rest = read_loop cap out input in
    elim (fault_kind e) [
      | FaultKind.retry ↦ rest
      | FaultKind.give_up ↦ stop (err timeout) out input
      | FaultKind.broken ↦ stop (err (read e)) out input
    ]

unfoldable pub read_request : ℕ → Input → ReadResult
unfolding read_loop
read_request cap input = read_loop cap [] input
