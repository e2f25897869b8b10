-- ===== src/Crossword/Solve.antt =====
-- crossword/core/src/app.rs: the solve screen. A puzzle stands beside its game; what Unicode decides of a
-- character, and the texts of other libraries, are a parameter.
pub mod Commands
pub mod Normal
pub mod Insert
pub mod Sound
use scratchpad.Common.{
  ℕ, zero, suc, ◌+◌, ◌/◌, ◌%◌, Bool, true, false, not, ◌||◌, Option, none, some, List, [], ◌∷◌,
  ◌++◌, codes, ltb, if◌then◌else◌,
}
use scratchpad.Common.Decimal.{decimal}
use scratchpad.Crossword.Puzzle.Letters.{Text, TextOps}
use scratchpad.Crossword.Puzzle.{Puzzle}
use scratchpad.Crossword.Game.{Game, ◌>>=◌}
use scratchpad.Crossword.Game.Undo.{checkpoint, drop_unchanged_checkpoint}
use scratchpad.Crossword.Sources.{PuzzleRef}

pub data Mode : Type 0 where
  normal insert command rebus : Mode

pub data Pending : Type 0 where
  pending_g pending_replace pending_delete pending_change : Pending

pub data Tone : Type 0 where
  info success error : Tone

pub record Message : Type 0 where
  pub text : Text
  pub tone : Tone

abbrev pub say : Tone → Text → Option Message
say tone text = some (record { text = text; tone = tone })

-- `char::is_alphanumeric`, `char::to_uppercase`, `char::is_whitespace`, `{:?}` of a text, and the steps
-- of the clock in a second.
pub record Env : Type 0 where
  pub ops : TextOps
  pub is_alphanumeric : ℕ → Bool
  pub upper_char : ℕ → Text
  pub is_whitespace : ℕ → Bool
  pub debug_text : Text → Text
  pub units : ℕ

pub record Solve : Type 0 where
  pub built : Puzzle
  pub game : Game
  pub puzzle : PuzzleRef
  pub mode : Mode
  pub input : Text
  pub pending : Option Pending
  pub count : Option ℕ

unfoldable pub new_solve : Puzzle → Game → PuzzleRef → Solve
new_solve built game puzzle = record {
  built = built;
  game = game;
  puzzle = puzzle;
  mode = normal;
  input = [];
  pending = none;
  count = none;
}

abbrev pending_sign : Pending → ℕ
pending_sign pending_g = b'g'
pending_sign pending_replace = b'r'
pending_sign pending_delete = b'd'
pending_sign pending_change = b'c'

abbrev count_text : Option ℕ → Text
count_text none = []
count_text (some n) = decimal n

abbrev pending_text : Option Pending → Text
pending_text none = []
pending_text (some q) = pending_sign q ∷ []

unfoldable pub showcmd : Solve → Text
showcmd s = count_text s.count ++ pending_text s.pending

abbrev pub is_typing : Mode → Bool
is_typing command = true
is_typing rebus = true
is_typing _ = false

unfoldable pub reset_input : Solve → Solve
reset_input s = record s {
  mode = if is_typing s.mode then normal else s.mode;
  input = if is_typing s.mode then [] else s.input;
  pending = none;
  count = none;
}

pub record Outcome : Type 0 where
  pub message : Option Message
  pub changed : Bool
  pub save : Bool
  pub leave : Bool
  pub quit : Bool
  pub help : Bool

-- `Outcome::default()`
abbrev pub quiet : Outcome
quiet = record {
  message = none;
  changed = false;
  save = false;
  leave = false;
  quit = false;
  help = false;
}

abbrev pub says : Option Message → Outcome
says m = record quiet { message = m }

abbrev pub changes : Bool → Outcome
changes b = record quiet { changed = b }

unfoldable pub solved_hint : Option Message
solved_hint = say success (codes "This puzzle is solved. :reset starts over.")

unfoldable pub locked_hint : Option Message
locked_hint = say info (codes "That square was checked or revealed, so it is locked.")

unfoldable pub enter_insert : Bool → Solve → Solve × Option Message
unfolding solved_hint
enter_insert mark s =
    if s.game.solved
    then (s, solved_hint)
    else (record s { game = if mark then checkpoint s.game else s.game; mode = insert }, none)

-- `{n:02}`
abbrev two_digits : ℕ → Text
two_digits n = if ltb n 10 then b'0' ∷ decimal n else decimal n

unfoldable pub format_duration : ℕ → Text
format_duration secs =
    let h = secs / 3600 in
    let m = secs / 60 % 60 in
    let s = secs % 60 in
    if ltb 0 h
    then decimal h ++ (codes ":" ++ (two_digits m ++ (codes ":" ++ two_digits s)))
    else decimal m ++ (codes ":" ++ two_digits s)

-- `edit`
unfoldable pub edit : Game → (Game → Option Game) → Option (Game × Bool)
edit g change = if g.solved then some (g, false) else do
  g' ← change (checkpoint g)
  let (g'', dropped) = drop_unchanged_checkpoint g'
  some (g'', not dropped)

-- `for _ in 0..count { motion(g) }`
unfoldable pub repeat : ℕ → (Game → Option Game) → Game → Option Game
repeat zero motion g = some g
repeat (suc n) motion g = do g' ← motion g; repeat n motion g'

-- `for _ in 0..count { any |= act(g) }`
unfoldable pub any_of : ℕ → (Game → Game × Bool) → Game → Bool → Game × Bool
any_of zero act g any = (g, any)
any_of (suc n) act g any = let (g', did) = act g in any_of n act g' (any || did)
