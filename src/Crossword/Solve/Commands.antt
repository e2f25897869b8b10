-- ===== src/Crossword/Solve/Commands.antt =====
-- app.rs: `command_key`, `parse_scope`, `parse_clue_ref` and `run_command`.
use scratchpad.Common.{
  ℕ, zero, suc, ◌+◌, ◌^◌, Bool, true, Option, none, some, List, [], ◌∷◌, ◌++◌, codes, ◌==◌, ltb,
  if◌then◌else◌, position, take, drop, any, map, bytes_eq, pop,
}
use mathlib.Core.Option
use scratchpad.Common.Decimal.{decimal, parse_unsigned}
use scratchpad.Crossword.Puzzle.Letters.{Text, ascii_lower}
use scratchpad.Crossword.Puzzle.{Direction, across, down, other}
use scratchpad.Crossword.Game.{Game, Scope, one_cell, whole_entry, whole_puzzle, CheckReport, ◌>>=◌}
use scratchpad.Crossword.Game.Motion.{goto_clue, last?}
use scratchpad.Crossword.Game.Edit.{check, reveal, clear, reset}
use scratchpad.Crossword.Keys.{KeyCode, Key, is_chorded}
use scratchpad.Crossword.Solve.{
  Env, Solve, Outcome, Message, Mode, normal, insert, command, rebus, info, success, error, say,
  says, quiet, changes, solved_hint, edit,
}
use scratchpad.Crossword.Solve.Normal.{edited, normal_key}
use scratchpad.Crossword.Solve.Insert.{leaves_by, insert_key, rebus_key}

abbrev pub is_one_of : List Text → Text → Bool
is_one_of words text = any (λ w. bytes_eq w text) words

scope_named : Text → Option Scope
scope_named arg =
    if is_one_of (codes "word" ∷ codes "w" ∷ codes "entry" ∷ codes "e" ∷ []) arg
    then some whole_entry
    else if is_one_of
        (codes "cell" ∷ codes "c" ∷ codes "square" ∷ codes "s" ∷ codes "letter" ∷ codes "l" ∷ [])
        arg
    then some one_cell
    else if is_one_of
        (codes "puzzle" ∷ codes "p" ∷ codes "all" ∷ codes "a" ∷ codes "grid" ∷ codes "g" ∷ []) arg
    then some whole_puzzle
    else none

unfoldable pub parse_scope : Option Text → Option Scope
unfolding scope_named
parse_scope arg = scope_named (Option.get_or arg (codes "word"))

-- `digits.parse::<u32>()`
abbrev clue_number : Text → Option ℕ
clue_number digits = parse_unsigned (2 ^ 32) digits

-- The direction that the last letter names.
abbrev direction_of : Option ℕ → Option Direction
direction_of none = none
direction_of (some c) = if c == b'a' then some across else if c == b'd' then some down else none

abbrev clue_of : Text → Option Direction → Option (ℕ × Option Direction)
clue_of lower none = Option.map (λ n. (n, none)) (clue_number lower)
clue_of lower (some d) = Option.map (λ n. (n, some d)) (clue_number (pop lower))

unfoldable pub parse_clue_ref : Text → Option (ℕ × Option Direction)
parse_clue_ref text = let lower = map ascii_lower text in clue_of lower (direction_of (last? lower))

-- The arms of the `match` on a command's name.
pub data CommandName : Type 0 where
  empty_name leave_name quit_name write_name check_name reveal_name clear_name reset_name help_name
        other_name :
      CommandName

unfoldable pub command_name : Text → CommandName
command_name name =
    if bytes_eq name []
    then empty_name
    else if is_one_of
        (codes "q"
          ∷ codes "q!"
          ∷ codes "quit"
          ∷ codes "wq"
          ∷ codes "wq!"
          ∷ codes "x"
          ∷ codes "x!"
          ∷ [])
        name
    then leave_name
    else if is_one_of
        (codes "qa" ∷ codes "qa!" ∷ codes "qall" ∷ codes "quitall" ∷ codes "wqa" ∷ codes "xa" ∷ [])
        name
    then quit_name
    else if is_one_of (codes "w" ∷ codes "write" ∷ []) name
    then write_name
    else if bytes_eq name (codes "check")
    then check_name
    else if bytes_eq name (codes "reveal")
    then reveal_name
    else if bytes_eq name (codes "clear")
    then clear_name
    else if bytes_eq name (codes "reset")
    then reset_name
    else if is_one_of (codes "help" ∷ codes "h" ∷ []) name
    then help_name
    else other_name

unfoldable pub check_message : CheckReport → Option Message
check_message r =
    if r.checked == 0
    then say info (codes "There are no letters to check there.")
    else if r.wrong_count == 0
    then say success (codes "All " ++ (decimal r.checked ++ codes " checked letters are right."))
    else say error (
        decimal r.wrong_count
        ++ (codes " of " ++ (decimal r.checked ++ codes " checked letters are wrong.")))

unfoldable pub reveal_message : ℕ → Option Message
reveal_message zero = say info (codes "Nothing to reveal there.")
reveal_message (suc zero) = say info (codes "Revealed 1 square.")
reveal_message n = say info (codes "Revealed " ++ (decimal n ++ codes " squares."))

module _ (env : Env) (now : ℕ) where
  -- The three commands that take a scope.
  unfoldable pub scoped : CommandName → Scope → Solve → Option (Solve × Outcome)
  scoped check_name scope s = do
    (g, r) ← check s.built scope s.game
    some (
      record s { game = g },
      record quiet { changed = ltb 0 r.checked; message = check_message r },
    )
  scoped reveal_name scope s = do
    (g, n) ← reveal s.built scope now s.game
    some (record s { game = g }, record quiet { changed = true; message = reveal_message n })
  scoped _ scope s = edited s (edit s.game (clear s.built scope)) (λ g changed. changes changed)

  abbrev pub unknown_scope : Option Text → Solve → Option (Solve × Outcome)
  unknown_scope arg s = some (
    s,
    says (
        say error (
          codes "Unknown scope "
          ++ (env.debug_text (Option.get_or arg []) ++ codes ". Use cell, word or puzzle."))),
  )

  unfoldable pub scoped_command : CommandName → Option Text → Solve → Option (Solve × Outcome)
  unfolding scoped
  scoped_command name arg s =
      if s.game.solved
      then some (s, says solved_hint)
      else elim (parse_scope arg) [ some scope ↦ scoped name scope s | none ↦ unknown_scope arg s ]

  -- `goto_clue` of the direction, or of the current one and then the other
  abbrev pub find_clue : Option Direction → ℕ → Solve → Option (Game × Bool)
  find_clue (some d) number s = goto_clue s.built d number s.game
  find_clue none number s = do
    (g, found) ← goto_clue s.built s.game.direction number s.game
    if found then some (g, true) else goto_clue s.built (other g.direction) number g

  unfoldable pub other_command :
      Text → Text → Option (ℕ × Option Direction) → Solve → Option (Solve × Outcome)
  other_command name line none s =
      some (s, says (say error (codes "Not an editor command: " ++ line)))
  other_command name line (some (number, direction)) s = do
    (g, found) ← find_clue direction number s
    some (
      record s { game = g },
      if found then quiet else says (say error (codes "There is no clue " ++ (name ++ codes "."))),
    )

  unfoldable pub run_named :
      CommandName → Text → Option Text → Text → Solve → Option (Solve × Outcome)
  unfolding scoped_command other_command
  run_named empty_name name arg line s = some (s, quiet)
  run_named leave_name name arg line s = some (s, record quiet { leave = true })
  run_named quit_name name arg line s = some (s, record quiet { quit = true })
  run_named write_name name arg line s =
      some (s, record quiet { save = true; message = say info (codes "Progress saved.") })
  run_named reset_name name arg line s = some (
    record s { game = reset s.built now s.game },
    record quiet {
      changed = true;
      message = say info (codes "The puzzle and the timer are reset.");
    },
  )
  run_named help_name name arg line s = some (s, record quiet { help = true })
  run_named other_name name arg line s = other_command name line (parse_clue_ref name) s
  run_named check_name name arg line s = scoped_command check_name arg s
  run_named reveal_name name arg line s = scoped_command reveal_name arg s
  run_named clear_name name arg line s = scoped_command clear_name arg s

  -- `split_once(char::is_whitespace)`, the argument trimmed
  abbrev pub name_and_arg : Text → Text × Option Text
  name_and_arg line = elim (position env.is_whitespace line) [
    | none ↦ (line, none)
    | some i ↦ (take i line, some (env.ops.trim (drop (i + 1) line)))
  ]

  unfoldable pub run_command : Text → Solve → Option (Solve × Outcome)
  unfolding run_named
  run_command text s =
      let line = env.ops.trim text in
      let (name, arg) = name_and_arg line in run_named (command_name name) name arg line s

  unfoldable pub command_code : Key → KeyCode → Solve → Option (Solve × Outcome)
  unfolding run_command
  command_code key KeyCode.enter s = run_command s.input (record s { mode = normal; input = [] })
  command_code key KeyCode.backspace s = some (
    record s { input = pop s.input; mode = if bytes_eq s.input [] then normal else s.mode },
    quiet,
  )
  command_code key (KeyCode.char c) s =
      some (if is_chorded key then s else record s { input = s.input ++ c ∷ [] }, quiet)
  command_code key _ s = some (s, quiet)

  unfoldable pub command_key : Key → Solve → Option (Solve × Outcome)
  unfolding command_code
  command_key key s =
      if leaves_by key
      then some (record s { mode = normal }, quiet)
      else command_code key key.code s

  -- the `match` on the mode
  unfoldable pub mode_key : Mode → Key → Solve → Option (Solve × Outcome)
  unfolding command_key
  mode_key normal key s = normal_key env now key s
  mode_key insert key s = insert_key env now key s
  mode_key command key s = command_key key s
  mode_key rebus key s = rebus_key env now key s
