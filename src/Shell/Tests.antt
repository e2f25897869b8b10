-- ===== src/Shell/Tests.antt =====
-- mini_shell: runs of the shell, and the theorems at concrete inputs.
use scratchpad.Common.{
  ◌≡◌, refl, true, false, none, some, List, [], ◌∷◌, Bytes, codes, bytes_eq, strip_last, contains,
  if◌then◌else◌,
}
use scratchpad.Common.Decimal.{decimal}
use scratchpad.Common.Io.{
  IoError, not_found, byte, fault, interrupted, Input, bytes_input, Result, ok, err, write_all,
  flush, ◌>>◌,
}
use scratchpad.Common.Io.Writes.{calm}
use scratchpad.Shell.{Runner, ExitStatus}
use scratchpad.Shell.Words.{trim, split, segments, is_blank, is_exit_command}
use scratchpad.Shell.Words.Laws.{AllWords, joined, without_spaces, split_sound, split_separated}
use scratchpad.Shell.Loop.{
  run, run_loop, round, run_line, read_line, put_prompt, chomp, decode_status, report_status,
}
use scratchpad.Shell.Loop.Total.{Returns, run-Returns}

abbrev text : IoError → Bytes
text e = codes "i/o error"

-- Only `true` and `false` are there.
abbrev answer : List Bytes → Result IoError ExitStatus
answer [] = err not_found
answer (p ∷ _) =
    if bytes_eq p (codes "true")
    then ok (record { signal = none; code = some 0 })
    else if bytes_eq p (codes "false")
    then ok (record { signal = none; code = some 1 })
    else err not_found

abbrev runner : Runner
runner ran argv = answer argv

abbrev session : Input
session = bytes_input (codes "false x\r\n \n ex\nexit\nrest")

trims :
    (trim (codes " a b\t\n") ≡ codes "a b")
    × (split (codes "  a  b ") ≡ codes "a" ∷ codes "b" ∷ [])
    × (is_blank (codes " \t") ≡ true)
    × (is_exit_command (codes " exit ") ≡ true)
    × (is_exit_command (codes "exitx") ≡ false)
unfolding trim split segments is_blank is_exit_command bytes_eq
trims = (refl, refl, refl, refl, refl)

runs :
    run text runner false session (calm []) (calm [])
    ≡ some (
      ok tt,
      record {
        input = bytes_input (codes "rest");
        out = calm (codes "$ $ $ $ ");
        err_out =
            calm (
              codes
                "mini_shell: command exited with status 1\nmini_shell: ex: command not found\n");
        ran = (codes "false" ∷ codes "x" ∷ []) ∷ (codes "ex" ∷ []) ∷ [];
      },
    )
unfolding run run_loop round run_line read_line put_prompt write_all flush chomp strip_last
    decode_status report_status split segments trim is_blank is_exit_command bytes_eq contains
    decimal ◌>>◌
runs = refl

split_sound_example :
    AllWords (split (codes " a  bc "))
    × (joined (split (codes " a  bc ")) ≡ without_spaces (codes " a  bc "))
split_sound_example = split_sound (codes " a  bc ")

split_separated_example :
    (split (codes " b ") ≡ split (codes "b "))
    × (split (codes "a b ") ≡ codes "a" ∷ split (codes "b "))
split_separated_example = split_separated (codes "a") (codes "b ") b' ' (refl, refl) refl

run-Returns_example : Returns text runner (run text runner true session (calm []) (calm []))
run-Returns_example = run-Returns text runner true session (calm []) (calm [])

abbrev two_lines : Input
two_lines = byte b'a' ∷ fault interrupted ∷ byte b'\n' ∷ byte b'b' ∷ []
