-- ===== src/Shell.antt =====
-- mini_shell/rust/src/lib.rs: the constants and types of the shell. The children model its functions.
pub mod Words
pub mod Loop
mod Tests
use scratchpad.Common.{ℕ, Option, List, [], ◌∷◌, Bytes, codes}
use scratchpad.Common.Io.{IoError, Result}

abbrev pub prompt : Bytes
prompt = codes "$ "

abbrev pub prog_name : Bytes
prog_name = codes "mini_shell"

abbrev pub banner : List Bytes
banner =
    codes " __  __  _        _   ____   _            _  _ "
    ∷ codes "|  \\/  |(_) _ __  (_) / ___| | |__    ___ | || |"
    ∷ codes "| |\\/| || || '_ \\ | | \\___ \\ | '_ \\  / _ \\| || |"
    ∷ codes "| |  | || || | | || |  ___) || | | ||  __/| || |"
    ∷ codes "|_|  |_||_||_| |_||_| |____/ |_| |_| \\___||_||_|"
    ∷ []
    ∷ codes "commands run directly, one program per line; type 'exit' to quit"
    ∷ []
    ∷ []

abbrev pub exit_word : Bytes
exit_word = codes "exit"

pub data ShellError : Type 0 where
  read : IoError → ShellError
  write : IoError → ShellError

-- `ExitStatus`, by what its `signal` and `code` answer: on Unix a code is at most 255.
pub record ExitStatus : Type 0 where
  pub signal : Option ℕ
  pub code : Option ℕ

pub data Status : Type 0 where
  exited : ℕ → Status
  signaled : ℕ → Status
  not_found not_executable : Status
  unrunnable : IoError → Status

-- `Runner::run` of a runner that keeps a state: what it answers may depend on the calls before.
abbrev pub Runner : Type 0
Runner = List (List Bytes) → List Bytes → Result IoError ExitStatus
