-- ===== src/Logger.antt =====
-- simple_logger/rust/src/lib.rs: entries of a log, its clock, and lines logged as they come. What opens a
-- file is an argument; the output is the file behind its buffer.
pub mod Entries
pub mod Clock
mod Tests
use scratchpad.Common.{
  ℕ, zero, suc, ◌+◌, ◌-◌, ◌^◌, Bool, true, false, not, ◌&&◌, Option, none, some, List, [], ◌∷◌,
  ◌++◌, Bytes, codes, ◌==◌, ltb, leb, if◌then◌else◌, length, bytes_eq, strip_last, strip_prefix,
}
use mathlib.Core.Option
use scratchpad.Common.Decimal.{all_digits, value_onto}
use scratchpad.Common.Io.{
  Input, byte, fault, interrupted, IoError, Result, ok, err, Output, Write, write_all, flush, ◌>>◌,
}

pub data Level : Type 0 where
  debug info warning error : Level

unfoldable pub label : Level → Bytes
label debug = codes "DEBUG"
label info = codes "INFO"
label warning = codes "WARNING"
label error = codes "ERROR"

-- `Display`
unfoldable pub level_name : Level → Bytes
level_name debug = codes "debug"
level_name info = codes "info"
level_name warning = codes "warning"
level_name error = codes "error"

pub record Format : Type 0 where
  pub level : Level
  pub show_timestamp : Bool
  pub show_level : Bool

abbrev pub default_format : Format
default_format = record { level = info; show_timestamp = true; show_level = true }

-- The path of `open_failed` and of `write_failed` is the one that the call was given.
pub data LogError : Type 0 where
  open_failed : Bytes → IoError → LogError
  write_failed : Bytes → IoError → LogError
  read_failed : IoError → LogError

pub data LineError : Type 0 where
  reading : IoError → LineError
  writing : IoError → LineError

-- A field in brackets and the space behind it
abbrev pub bracketed : Bytes → Bytes
bracketed field = b'[' ∷ (field ++ codes "] ")

unfoldable pub format_entry : Format → Bytes → Bytes → Bytes
unfolding label
format_entry fmt timestamp message =
    (if fmt.show_timestamp then bracketed timestamp else [])
    ++ ((if fmt.show_level then bracketed (label fmt.level) else []) ++ (message ++ b'\n' ∷ []))

module _ (fmt : Format) (timestamp : Bytes) where
  unfoldable pub write_entry : Bytes → Write IoError
  unfolding format_entry write_all
  write_entry message = write_all (format_entry fmt timestamp message)

  unfoldable pub write_messages : List Bytes → Write IoError
  unfolding write_entry ◌>>◌
  write_messages [] out = (ok tt, out)
  write_messages (message ∷ messages) out = (write_entry message >> write_messages messages) out

-- `read_until(b'\n', &mut line)`: the line, its new line with it, and what is left. It reads again after
-- an interrupt.
unfoldable pub read_until : Input → Bytes → Result IoError Bytes × Input
read_until [] line = (ok line, [])
read_until (byte b ∷ input) line =
    let rest = read_until input (line ++ b ∷ []) in
    if b == b'\n' then (ok (line ++ b ∷ []), input) else rest
read_until (fault interrupted ∷ input) line = read_until input line
read_until (fault e ∷ input) line = (err e, input)

-- The two `pop`s
abbrev pub stripped : Bytes → Bytes
stripped line = strip_last b'\r' (strip_last b'\n' line)

-- `write_entry(..).map_err(LineError::Write)?`, and the rest
abbrev pub then_lines :
    Result IoError (Unit {0}) × Output → Write LineError → Result LineError (Unit {0}) × Output
then_lines (ok _, out) rest = rest out
then_lines (err e, out) rest = (err (writing e), out)

module _ (fmt : Format) (timestamp : Bytes) where
  -- A line that was read: none is the end, and another is logged before the rest.
  abbrev pub logged : Bytes → Write LineError → Write LineError
  logged [] rest out = (ok tt, out)
  logged (b ∷ line) rest out = then_lines (write_entry fmt timestamp (stripped (b ∷ line)) out) rest

  abbrev pub after_read : (Input → Write LineError) → Result IoError Bytes × Input → Write LineError
  after_read rest (err e, input) out = (err (reading e), out)
  after_read rest (ok line, input) out = logged line (rest input) out

  -- The loop; every round but the last takes a byte, so the fuel is the length of the input and one.
  unfoldable pub write_lines_loop : ℕ → Input → Write LineError
  unfolding read_until write_entry
  write_lines_loop zero input out = (ok tt, out)
  write_lines_loop (suc f) input out = after_read (write_lines_loop f) (read_until input []) out

  unfoldable pub write_lines : Input → Write LineError
  unfolding write_lines_loop
  write_lines input = write_lines_loop (length input + 1) input

-- `map_err(write_failed)`, and then the flush of the buffer
abbrev pub named : Bytes → Result IoError (Unit {0}) × Output → Result LogError (Unit {0}) × Output
named path (ok _, out) = (ok tt, out)
named path (err e, out) = (err (write_failed path e), out)

abbrev pub line_named :
    Bytes → Result LineError (Unit {0}) × Output → Result LogError (Unit {0}) × Output
line_named path (ok _, out) = named path (flush out)
line_named path (err (reading e), out) = (err (read_failed e), out)
line_named path (err (writing e), out) = (err (write_failed path e), out)

module _ (path : Bytes) (fmt : Format) (timestamp : Bytes) where
  -- `opened` is what opening the file for appending gives.
  unfoldable pub append_messages :
      Result IoError Output → List Bytes → Result LogError (Unit {0}) × Option Output
  unfolding write_messages flush ◌>>◌
  append_messages (err e) messages = (err (open_failed path e), none)
  append_messages (ok out) messages =
      let (r, out') = named path ((write_messages fmt timestamp messages >> flush) out) in
      (r, some out')

  unfoldable pub append_lines :
      Result IoError Output → Input → Result LogError (Unit {0}) × Option Output
  unfolding write_lines flush
  append_lines (err e) input = (err (open_failed path e), none)
  append_lines (ok out) input =
      let (r, out') = line_named path (write_lines fmt timestamp input out) in (r, some out')
