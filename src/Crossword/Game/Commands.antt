-- ===== src/Crossword/Game/Commands.antt =====
-- game.rs: the operations of a game that change it, as one step each.
use scratchpad.Common.{ℕ, Bool, Option, none, some, List, [], ◌∷◌}
use scratchpad.Crossword.Puzzle.Letters.{Text, TextOps}
use scratchpad.Crossword.Puzzle.{Puzzle, Direction}
use scratchpad.Crossword.Game.{Game, Scope, pause, resume, ◌>>=◌}
use scratchpad.Crossword.Game.Motion.{
  Heading, step, step_in_entry, toggle_direction, next_entry_start, prev_entry_start,
  entry_end_motion, goto_entry_start, goto_entry_end, goto_first, goto_last, next_open_entry, click,
  goto_entry, goto_clue,
}
use scratchpad.Crossword.Game.Edit.{
  type_letters, backspace, clear_and_advance, clear_cell, replace_cell, clear_to_entry_end,
  clear_entry, clear, check, reveal,
}
use scratchpad.Crossword.Game.Undo.{checkpoint, drop_unchanged_checkpoint, step_back, step_forward}

-- The calls that only move the cursor.
pub data Motion : Type 0 where
  stepping : Heading → Motion
  stepping_in_entry : Bool → Motion
  toggling : Motion
  to_next_start : Motion
  to_prev_start : Motion
  to_end : Motion
  to_entry_start : Motion
  to_entry_end : Motion
  to_first : Motion
  to_last : Motion
  to_open_entry : Bool → Motion
  clicking : ℕ → Motion
  to_entry : ℕ → Motion
  to_clue : Direction → ℕ → Motion

-- The other calls that change a game, but for `reset`.
pub data Command : Type 0 where
  moving : Motion → Command
  typing : Text → ℕ → Command
  erasing : Command
  clearing_onward : Command
  clearing_cell : Command
  replacing : Text → ℕ → Command
  clearing_to_end : Command
  clearing_entry : Command
  clearing : Scope → Command
  checking : Scope → Command
  revealing : Scope → ℕ → Command
  checkpointing : Command
  dropping_checkpoint : Command
  undoing : Command
  redoing : ℕ → Command
  pausing : ℕ → Command
  resuming : ℕ → Command

-- The game that a call leaves; what else it returns is dropped.
abbrev pub left_by {ℓ} : {A : Type ℓ} → Option (Game × A) → Option Game
left_by none = none
left_by (some (g, _)) = some g

unfoldable pub move : Puzzle → Motion → Game → Option Game
move p (stepping h) g = some (step p h g).0
move p (stepping_in_entry forward) g = left_by (step_in_entry p forward g)
move p toggling g = some (toggle_direction p g)
move p to_next_start g = next_entry_start p g
move p to_prev_start g = prev_entry_start p g
move p to_end g = entry_end_motion p g
move p to_entry_start g = goto_entry_start p g
move p to_entry_end g = goto_entry_end p g
move p to_first g = some (goto_first p g)
move p to_last g = some (goto_last p g)
move p (to_open_entry forward) g = next_open_entry p forward g
move p (clicking c) g = some (click p c g).0
move p (to_entry e) g = goto_entry p e g
move p (to_clue d n) g = left_by (goto_clue p d n g)

unfoldable pub run : Puzzle → TextOps → Command → Game → Option Game
unfolding move
run p ops (moving m) g = move p m g
run p ops (typing l now) g = type_letters p ops l now g
run p ops erasing g = backspace p g
run p ops clearing_onward g = clear_and_advance p g
run p ops clearing_cell g = some (clear_cell p g)
run p ops (replacing l now) g = some (replace_cell p ops l now g)
run p ops clearing_to_end g = clear_to_entry_end p g
run p ops clearing_entry g = clear_entry p g
run p ops (clearing scope) g = clear p scope g
run p ops (checking scope) g = left_by (check p scope g)
run p ops (revealing scope now) g = left_by (reveal p scope now g)
run p ops checkpointing g = some (checkpoint g)
run p ops dropping_checkpoint g = some (drop_unchanged_checkpoint g).0
run p ops undoing g = some (step_back g).0
run p ops (redoing now) g = some (step_forward p now g).0
run p ops (pausing now) g = some (pause now g)
run p ops (resuming now) g = some (resume now g)

-- A sequence of calls; one that fails ends it.
unfoldable pub play : Puzzle → TextOps → List Command → Game → Option Game
unfolding run
play p ops [] g = some g
play p ops (c ∷ cs) g = do g' ← run p ops c g; play p ops cs g'
