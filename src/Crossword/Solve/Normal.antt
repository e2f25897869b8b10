-- ===== src/Crossword/Solve/Normal.antt =====
-- app.rs: `normal_key`. The arms of its `match` are the constructors of `Arm`, found in the order of the
-- source. `none` is a failed `expect` of the game.
use scratchpad.Common.{
  ℕ, ◌+◌, ◌-◌, ◌*◌, min, Bool, true, false, not, ◌&&◌, ◌||◌, Option, none, some, List, [], ◌∷◌,
  codes, ◌==◌, leb, if◌then◌else◌,
}
use mathlib.Core.Option
use scratchpad.Crossword.Puzzle.Letters.{Text, is_empty}
use scratchpad.Crossword.Puzzle.{present}
use scratchpad.Crossword.Game.{Game, letter_at, ◌>>=◌}
use scratchpad.Crossword.Game.Motion.{
  Heading, step, step_in_entry, toggle_direction, next_entry_start, prev_entry_start,
  entry_end_motion, goto_entry_start, goto_entry_end, goto_first, goto_last, next_open_entry,
}
use scratchpad.Crossword.Game.Edit.{
  editable, replace_cell, clear_cell, clear_to_entry_end, clear_entry,
}
use scratchpad.Crossword.Game.Undo.{checkpoint, step_back, step_forward}
use scratchpad.Crossword.Keys.{KeyCode, Key, is_ctrl, is_chorded, esc_prefixed}
use scratchpad.Crossword.Solve.{
  Env, Solve, Outcome, Message, rebus, command, Pending, pending_g, pending_replace, pending_delete,
  pending_change, info, say, says, quiet, changes, solved_hint, locked_hint, enter_insert, edit,
  repeat, any_of,
}

pub data Arm : Type 0 where
  quit_hint redo_arm ignored : Arm
  go : Heading → Arm
  next_start prev_start entry_end to_entry_start to_entry_end to_last toggle : Arm
  wait : Pending → Arm
  open_entry : Bool → Arm
  insert_here append insert_start append_end : Arm
  delete_cell delete_rest substitute substitute_entry change_rest : Arm
  undo_arm start_rebus start_command ask_help ask_leave : Arm

abbrev char_arms : List (ℕ × Arm)
char_arms =
    (b'h', go Heading.left)
    ∷ (b'l', go Heading.right)
    ∷ (b'j', go Heading.below)
    ∷ (b'k', go Heading.up)
    ∷ (b'w', next_start)
    ∷ (b'b', prev_start)
    ∷ (b'e', entry_end)
    ∷ (b'0', to_entry_start)
    ∷ (b'^', to_entry_start)
    ∷ (b'$', to_entry_end)
    ∷ (b'g', wait pending_g)
    ∷ (b'G', to_last)
    ∷ (b' ', toggle)
    ∷ (b'i', insert_here)
    ∷ (b'a', append)
    ∷ (b'I', insert_start)
    ∷ (b'A', append_end)
    ∷ (b'x', delete_cell)
    ∷ (b'D', delete_rest)
    ∷ (b's', substitute)
    ∷ (b'S', substitute_entry)
    ∷ (b'C', change_rest)
    ∷ (b'r', wait pending_replace)
    ∷ (b'd', wait pending_delete)
    ∷ (b'c', wait pending_change)
    ∷ (b'u', undo_arm)
    ∷ (b'R', start_rebus)
    ∷ (b':', start_command)
    ∷ (b'?', ask_help)
    ∷ (b'q', ask_leave)
    ∷ []

unfoldable pub arm_in : List (ℕ × Arm) → ℕ → Arm
arm_in [] c = ignored
arm_in ((k, arm) ∷ arms) c = if k == c then arm else arm_in arms c

unfoldable pub code_arm : KeyCode → Arm
unfolding arm_in
code_arm (KeyCode.char c) = arm_in char_arms c
code_arm KeyCode.left = go Heading.left
code_arm KeyCode.right = go Heading.right
code_arm KeyCode.down = go Heading.below
code_arm KeyCode.up = go Heading.up
code_arm KeyCode.home = to_entry_start
code_arm KeyCode.end = to_entry_end
code_arm KeyCode.tab = open_entry true
code_arm KeyCode.back_tab = open_entry false
code_arm KeyCode.enter = toggle
code_arm KeyCode.delete = delete_cell
code_arm _ = ignored

abbrev pub is_char : KeyCode → ℕ → Bool
is_char (KeyCode.char c) d = c == d
is_char _ d = false

unfoldable pub arm_of : Key → Arm
unfolding code_arm
arm_of key =
    if is_char key.code b'c' && is_ctrl key
    then quit_hint
    else if is_char key.code b'r' && is_ctrl key
    then redo_arm
    else if is_chorded key
    then ignored
    else code_arm key.code

-- The game that an operation leaves, and what is reported of it.
abbrev pub played : Solve → Option Game → Outcome → Option (Solve × Outcome)
played s o out = o >>= λ g. some (record s { game = g }, out)

abbrev pub edited :
    Solve → Option (Game × Bool) → (Game → Bool → Outcome) → Option (Solve × Outcome)
edited s o out = o >>= λ r. some (record s { game = r.0 }, out r.0 r.1)

abbrev pub entered : Solve × Option Message → Bool → Option (Solve × Outcome)
entered (s, m) changed = some (s, record quiet { message = m; changed = changed })

-- `g.checkpoint(); op; enter_insert(false)`
abbrev pub change_by : Solve → (Game → Option Game) → Option (Solve × Outcome)
change_by s op =
    op (checkpoint s.game) >>= λ g. entered (enter_insert false (record s { game = g })) true

abbrev pub insert_after : Solve → Option Game → Option (Solve × Outcome)
insert_after s o = o >>= λ g. entered (enter_insert true (record s { game = g })) false

abbrev pub any_change : Text → Solve → Game × Bool → Option (Solve × Outcome)
any_change at_end s (g, true) = some (record s { game = g }, changes true)
any_change at_end s (g, false) = some (record s { game = g }, says (say info at_end))

module _ (env : Env) (now : ℕ) where
  unfoldable pub run_arm : ℕ → Solve → Arm → Option (Solve × Outcome)
  unfolding enter_insert
  run_arm count s quit_hint =
      some (s, says (say info (codes "Type :q and press Enter to leave the puzzle.")))
  run_arm count s redo_arm =
      any_change (codes "Already at the newest change.") s
        (any_of count (step_forward s.built now) s.game false)
  run_arm count s ignored = some (s, quiet)
  run_arm count s (go h) = played s (repeat count (λ g. some (step s.built h g).0) s.game) quiet
  run_arm count s next_start = played s (repeat count (next_entry_start s.built) s.game) quiet
  run_arm count s prev_start = played s (repeat count (prev_entry_start s.built) s.game) quiet
  run_arm count s entry_end = played s (repeat count (entry_end_motion s.built) s.game) quiet
  run_arm count s to_entry_start = played s (goto_entry_start s.built s.game) quiet
  run_arm count s to_entry_end = played s (goto_entry_end s.built s.game) quiet
  run_arm count s to_last = played s (some (goto_last s.built s.game)) quiet
  run_arm count s toggle = played s (some (toggle_direction s.built s.game)) quiet
  run_arm count s (wait q) = some (record s { pending = some q }, quiet)
  run_arm count s (open_entry forward) =
      played s (repeat count (next_open_entry s.built forward) s.game) quiet
  run_arm count s insert_here = insert_after s (some s.game)
  run_arm count s append = insert_after s (step_in_entry s.built true s.game >>= λ r. some r.0)
  run_arm count s insert_start = insert_after s (goto_entry_start s.built s.game)
  run_arm count s append_end = insert_after s (goto_entry_end s.built s.game)
  run_arm count s delete_cell =
      edited s (edit s.game (λ g. some (clear_cell s.built g))) λ g changed. record quiet {
        message =
            if not changed && not (is_empty (letter_at g.fill g.cursor)) then locked_hint else none;
        changed = changed;
      }
  run_arm count s delete_rest =
      edited s (edit s.game (clear_to_entry_end s.built)) (λ g changed. changes changed)
  run_arm count s substitute = change_by s (λ g. some (clear_cell s.built g))
  run_arm count s substitute_entry = change_by s (clear_entry s.built)
  run_arm count s change_rest = change_by s (clear_to_entry_end s.built)
  run_arm count s undo_arm =
      any_change (codes "Already at the oldest change.") s (any_of count step_back s.game false)
  run_arm count s start_rebus = some (
      if editable s.built s.game s.game.cursor
      then (record s { mode = rebus; input = [] }, quiet)
      else (s, says (if s.game.solved then solved_hint else locked_hint)))
  run_arm count s start_command = some (record s { mode = command; input = [] }, quiet)
  run_arm count s ask_help = some (s, record quiet { help = true })
  run_arm count s ask_leave = some (s, record quiet { leave = true })

  abbrev pub rest_key : ℕ → Bool
  rest_key c = c == b'w' || c == b'e' || c == b'$'

  -- The second key of an operator, a character; `s` waits no more.
  unfoldable pub second_char : Pending → Bool → ℕ → Solve → Option (Solve × Outcome)
  second_char pending_g chord c s =
      if c == b'g' then played s (some (goto_first s.built s.game)) quiet else some (s, quiet)
  second_char pending_replace chord c s =
      if not chord && env.is_alphanumeric c
      then edited s (edit s.game (λ g. some (replace_cell s.built env.ops (c ∷ []) now g)))
          (λ g changed. record quiet {
            message =
                if not changed && not (editable s.built g g.cursor) then locked_hint else none;
            changed = changed;
          })
      else some (s, quiet)
  second_char pending_delete chord c s =
      if c == b'd'
      then edited s (edit s.game (clear_entry s.built)) (λ g changed. changes changed)
      else if rest_key c
      then edited s (edit s.game (clear_to_entry_end s.built)) (λ g changed. changes changed)
      else some (s, quiet)
  second_char pending_change chord c s =
      if c == b'c'
      then change_by s (clear_entry s.built)
      else if rest_key c
      then change_by s (clear_to_entry_end s.built)
      else some (s, quiet)

  unfoldable pub second_key : Pending → Key → KeyCode → Solve → Option (Solve × Outcome)
  unfolding second_char
  second_key q key (KeyCode.char c) s = second_char q (is_chorded key) c s
  second_key q key _ s = some (s, quiet)

  -- A digit of a count. A lone `0` is a motion.
  abbrev pub digit_of : Key → KeyCode → Option ℕ → Option ℕ
  digit_of key (KeyCode.char d) count =
      if leb b'0' d && leb d b'9' && not (is_chorded key) && (not (d == b'0') || present count)
      then some (d - b'0')
      else none
  digit_of key _ count = none

  abbrev pub counted : Option ℕ → ℕ → ℕ
  counted count digit = min (Option.get_or count 0 * 10 + digit) 999

  unfoldable pub first_key : Key → Solve → Option (Solve × Outcome)
  unfolding run_arm arm_of
  first_key key s = elim (digit_of key key.code s.count) [
    | some digit ↦ some (record s { count = some (counted s.count digit) }, quiet)
    | none ↦ run_arm (Option.get_or s.count 1) (record s { count = none }) (arm_of key)
  ]

  unfoldable pub plain_normal_key : Key → Solve → Option (Solve × Outcome)
  unfolding first_key second_key
  plain_normal_key key s = elim s.pending [
    | some q ↦ second_key q key key.code (record s { pending = none; count = none })
    | none ↦ first_key key s
  ]

  unfoldable pub normal_key : Key → Solve → Option (Solve × Outcome)
  unfolding plain_normal_key
  normal_key key s = elim (esc_prefixed key) [
    | some plain ↦ plain_normal_key plain (record s { pending = none; count = none })
    | none ↦ plain_normal_key key s
  ]
