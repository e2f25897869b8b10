-- ===== src/Logger/Tests.antt =====
-- simple_logger: a run on two lines, and the theorems applied to it.
use scratchpad.Common.{◌≡◌, arith, some, [], ◌∷◌, codes, strip_last}
use scratchpad.Common.Decimal.{decimal}
use scratchpad.Common.Io.{Input, byte, fault, interrupted, ok}
use scratchpad.Common.Io.Writes.{calm}
use scratchpad.Logger.{default_format, write_lines, format_entry, label}
use scratchpad.Logger.Entries.{write_lines-logs}
use scratchpad.Logger.Clock.{negsuc, pos, resolve_clock, resolve_clock-written_out}

-- a line with a carriage return, and one without a new line
abbrev two_lines : Input
two_lines = byte b'a' ∷ byte b'\r' ∷ fault interrupted ∷ byte b'\n' ∷ byte b'b' ∷ []

write_lines-logs_example :
    write_lines default_format (codes "T") two_lines (calm [])
    ≡ (ok tt, calm (codes "[T] [INFO] a\n[T] [INFO] b\n"))
unfolding format_entry label strip_last
write_lines-logs_example = write_lines-logs default_format (codes "T") two_lines [] tt

resolve_clock-written_out_example : resolve_clock (some (codes "-12")) (pos 7) ≡ ok (negsuc 11)
unfolding decimal
resolve_clock-written_out_example = resolve_clock-written_out (negsuc 11) (pos 7) (omega arith)
