-- ===== src/Shell/Loop.antt =====
-- lib.rs: `read_line`, `decode_status`, `report_status` and `run`. The argument vectors handed to the
-- runner are kept in order. A command that reads the shell's own input is left out.
pub mod Total
pub mod Line
use mathlib.Core.Option
use scratchpad.Common.{
  ℕ, zero, suc, Bool, true, false, Option, none, some, List, [], ◌∷◌, ◌++◌, Bytes, codes, ◌==◌,
  if◌then◌else◌, length, strip_last, contains,
}
use scratchpad.Common.Decimal.{decimal}
use scratchpad.Common.Io.{
  IoError, interrupted, not_found, permission_denied, Input, byte, fault, Result, ok, err, Output,
  Write, write_all, flush, ◌>>◌,
}
use scratchpad.Shell.{
  prompt, prog_name, banner, ShellError, read, write, ExitStatus, Status, exited, signaled,
  unrunnable, Runner,
}
use scratchpad.Shell.Words.{split, is_exit_command, is_blank}

abbrev pub status_of_error : IoError → Status
status_of_error not_found = Status.not_found
status_of_error permission_denied = Status.not_executable
status_of_error e = unrunnable e

abbrev pub status_of_exit : Option ℕ → Option ℕ → Status
status_of_exit (some signal) code = signaled signal
status_of_exit none code = exited (Option.get_or code 0)

unfoldable pub decode_status : Result IoError ExitStatus → Status
decode_status (err e) = status_of_error e
decode_status (ok s) = status_of_exit s.signal s.code

-- The four writes of `name`.
abbrev name_line : Bytes → Bytes → Write IoError
name_line program suffix =
    write_all prog_name >> write_all (codes ": ") >> write_all program >> write_all suffix

-- `Ok(())`
abbrev pub silent : Write IoError
silent out = (ok tt, out)

module _ (io_text : IoError → Bytes) where
  unfoldable pub report_status : Status → Bytes → Write IoError
  report_status (exited zero) program = silent
  report_status (exited (suc code)) program =
      write_all
        (prog_name ++ (codes ": command exited with status " ++ (decimal (suc code) ++ codes "\n")))
  report_status (signaled signal) program =
      write_all
        (prog_name ++ (codes ": command terminated by signal " ++ (decimal signal ++ codes "\n")))
  report_status Status.not_found program = name_line program (codes ": command not found\n")
  report_status Status.not_executable program = name_line program (codes ": permission denied\n")
  report_status (unrunnable cause) program =
      write_all (prog_name ++ (codes ": failed to run command: " ++ (io_text cause ++ codes "\n")))

-- The loop over the lines of the banner.
write_lines : List Bytes → Write IoError
write_lines [] = silent
write_lines (line ∷ lines) = write_all line >> write_all (codes "\n") >> write_lines lines

unfoldable pub write_banner : Write IoError
unfolding write_lines
write_banner = write_lines banner

unfoldable pub put_prompt : Write IoError
put_prompt = write_all prompt >> flush

-- The line read so far, and the input that is left.
pub record LineRead : Type 0 where
  pub result : Result IoError ℕ
  pub line : Bytes
  pub unread : Input

unfoldable pub read_line : ℕ → Bytes → Input → LineRead
read_line count line [] = record { result = ok count; line = line; unread = [] }
read_line count line (byte b ∷ input) =
    let rest = read_line (suc count) (line ++ b ∷ []) input in
    if b == b'\n'
    then record { result = ok (suc count); line = line ++ b ∷ []; unread = input }
    else rest
read_line count line (fault interrupted ∷ input) = read_line count line input
read_line count line (fault e ∷ input) = record { result = err e; line = line; unread = input }

-- The streams and the argument vectors run so far.
pub record Shell : Type 0 where
  pub input : Input
  pub out : Output
  pub err_out : Output
  pub ran : List (List Bytes)

-- What one round of the loop comes to. `panicked` is `argv[0]` of no words.
pub data Round : Type 0 where
  again : Shell → Round
  done : Result ShellError (Unit {0}) → Shell → Round
  panicked : Round

abbrev wrote : Result IoError (Unit {0}) × Output → Shell → Round
wrote (ok _, e) s = again (record s { err_out = e })
wrote (err x, e) s = done (err (write x)) (record s { err_out = e })

-- `run(&argv)` and the report on it
run_words : (IoError → Bytes) → Runner → List Bytes → Shell → Round
run_words io_text runner [] s = panicked
run_words io_text runner (program ∷ args) s =
    wrote (report_status io_text (decode_status (runner s.ran (program ∷ args))) program s.err_out)
      (record s { ran = s.ran ++ (program ∷ args) ∷ [] })

unfoldable pub run_line : (IoError → Bytes) → Runner → Bytes → Shell → Round
unfolding run_words
run_line io_text runner line s =
    if is_blank line
    then again s
    else if is_exit_command line
    then done (ok tt) s
    else if contains 0 line
    then wrote (write_all (prog_name ++ codes ": command contains a NUL byte\n") s.err_out) s
    else run_words io_text runner (split line) s

-- The end of the input: a new line, and its result.
abbrev end_input : Result IoError (Unit {0}) × Output → Shell → Round
end_input (ok _, o) s = done (ok tt) (record s { out = o })
end_input (err x, o) s = done (err (write x)) (record s { out = o })

-- One '\n' off the end, then one '\r'.
unfoldable pub chomp : Bytes → Bytes
chomp line = strip_last b'\r' (strip_last b'\n' line)

took_line : (IoError → Bytes) → Runner → LineRead → Shell → Round
unfolding run_line chomp
took_line io_text runner r s = elim r.result [
  | err e ↦ done (err (read e)) (record s { input = r.unread })
  | ok n ↦ elim n [
    | zero ↦ end_input ((write_all (codes "\n") >> flush) s.out) (record s { input = r.unread })
    | suc _ ↦ run_line io_text runner (chomp r.line) (record s { input = r.unread })
  ]
]

prompted : (IoError → Bytes) → Runner → Result IoError (Unit {0}) × Output → Shell → Round
unfolding took_line read_line
prompted io_text runner (err x, o) s = done (err (write x)) (record s { out = o })
prompted io_text runner (ok _, o) s =
    took_line io_text runner (read_line 0 [] s.input) (record s { out = o })

-- The body of the loop.
unfoldable pub round : (IoError → Bytes) → Runner → Shell → Round
unfolding prompted
round io_text runner s = prompted io_text runner (put_prompt s.out) s

-- `none` is a panic, or the fuel that ran out.
unfoldable pub run_loop :
    (IoError → Bytes) → Runner → ℕ → Shell → Option (Result ShellError (Unit {0}) × Shell)
unfolding round
run_loop io_text runner zero s = none
run_loop io_text runner (suc fuel) s = elim (round io_text runner s) [
  | again s' ↦ run_loop io_text runner fuel s'
  | done r s' ↦ some (r, s')
  | panicked ↦ none
]

started :
    (IoError → Bytes)
    → Runner
    → Result IoError (Unit {0}) × Output
    → Shell
    → Option (Result ShellError (Unit {0}) × Shell)
unfolding run_loop
started io_text runner (err x, o) s = some (err (write x), record s { out = o })
started io_text runner (ok _, o) s =
    run_loop io_text runner (suc (length s.input)) (record s { out = o })

-- `run`: each round but the last takes a byte of the input.
unfoldable pub run :
    (IoError → Bytes)
    → Runner
    → Bool
    → Input
    → Output
    → Output
    → Option (Result ShellError (Unit {0}) × Shell)
unfolding started write_banner
run io_text runner show_banner input out err_out =
    let s : Shell = record { input = input; out = out; err_out = err_out; ran = [] } in
    started io_text runner ((if show_banner then write_banner else silent) out) s
