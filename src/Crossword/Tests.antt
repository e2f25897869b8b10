-- ===== src/Crossword/Tests.antt =====
-- crossword/core: a small puzzle, runs of its game, and the theorems applied to them.
use scratchpad.Common.{
  ℕ, ◌-◌, ◌≡◌, refl, true, false, ◌&&◌, none, some, List, [], ◌∷◌, arith, codes, bytes_eq, leb,
  ◌==◌, if◌then◌else◌, get_or, replicate,
}
use scratchpad.Common.Io.{ok}
use scratchpad.Crossword.Puzzle.Letters.{Text, TextOps, answer_matches, same_letters}
use scratchpad.Crossword.Puzzle.{
  Puzzle, PuzzleData, Grid, across, down, numbering, run_starts, open_at, open_cells, accepts,
  alternates_at, len, other, is_open,
}
use scratchpad.Crossword.Puzzle.Build.{
  new_puzzle, derive, runs_from, normalize_grid, add_runs, own, circle, across_cells, down_cells,
}
use scratchpad.Crossword.Puzzle.Numbers.{numbering-at}
use scratchpad.Crossword.Puzzle.Reads.{checked_run_starts, checked_run_starts-eq}
use scratchpad.Crossword.Game.{
  Game, Snapshot, Mark, first_empty, unmarked, revealed, one_cell, whole_puzzle, current_entry,
  new_game, position_in_entry, entry_cells, entry_is_full, check_solved, is_correct, scope_cells,
  normalize_direction, set_cursor, letter_at, mark_at, is_locked,
}
use scratchpad.Crossword.Game.Motion.{goto_first, seek_blank, enter_entry, wrap_entry}
use scratchpad.Crossword.Game.Edit.{
  put, editable, advance, jump_to_next_blank, type_letters, reveal, clear, clear_cells,
  reveal_cells, reveal_cell,
}
use scratchpad.Crossword.Game.Undo.{
  Progress, with_progress, step_back, step_forward, snapshot, resume_game, checkpoint, undo_to,
  restore, restore_squares, restore_square,
}
use scratchpad.Crossword.Game.Commands.{
  Command, play, run, typing, revealing, checkpointing, undoing, clearing,
}
use scratchpad.Crossword.Game.Sound.History.{IsSound}
use scratchpad.Crossword.Game.Sound.Moves.{IsPlayable}
use scratchpad.Crossword.Game.Sound.Play.{play-locked}
use scratchpad.Crossword.Game.Sound.Built.{new_puzzle-IsPlayable, play-built-IsSound}
use scratchpad.Crossword.Game.Sound.Return.{SameView, step_forward-step_back}
use scratchpad.Crossword.Game.Sound.Stuck.{EntryUnder, current_entry-EntryUnder}

-- Letters of ASCII, with spaces around them.
abbrev skip_spaces : Text → Text
skip_spaces [] = []
skip_spaces (c ∷ t) = if c == 32 then skip_spaces t else c ∷ t

abbrev upper : Text → Text
upper [] = []
upper (c ∷ t) = (if leb 97 c && leb c 122 then c - 32 else c) ∷ upper t

abbrev pub ascii : TextOps
ascii = record { trim = skip_spaces; to_uppercase = upper }

abbrev open_squares : Text → Grid
open_squares [] = []
open_squares (c ∷ t) = (if c == b'#' then none else some (c ∷ [])) ∷ open_squares t

abbrev data_of : ℕ → ℕ → Text → PuzzleData
data_of w h t = record {
  meta = record { title = []; author = []; editor = []; copyright = []; date = none };
  width = w;
  height = h;
  grid = open_squares t;
  circled = [];
  alternates = [];
  clues = [];
}

-- A T
-- R E
abbrev pub small : PuzzleData
small = data_of 2 2 (codes "ATRE")

abbrev pub small_puzzle : Puzzle
small_puzzle = record {
  raw = small;
  numbers = some 1 ∷ some 2 ∷ some 3 ∷ none ∷ [];
  entries =
      record { direction = across; number = 1; cells = 0 ∷ 1 ∷ []; clue = [] }
      ∷ record { direction = across; number = 3; cells = 2 ∷ 3 ∷ []; clue = [] }
      ∷ record { direction = down; number = 1; cells = 0 ∷ 2 ∷ []; clue = [] }
      ∷ record { direction = down; number = 2; cells = 1 ∷ 3 ∷ []; clue = [] }
      ∷ [];
  across_of = some 0 ∷ some 0 ∷ some 1 ∷ some 1 ∷ [];
  down_of = some 2 ∷ some 3 ∷ some 2 ∷ some 3 ∷ [];
  circled = replicate 4 false;
}

abbrev built : PuzzleData → Puzzle
built d =
    let r = runs_from d.width d.height d.grid (numbering d.width d.height d.grid) 0 in
    derive ascii d r.0 r.1

abbrev pub nothing_saved : Progress
nothing_saved = record {
  fill = [];
  marks = [];
  cursor = 0;
  direction = across;
  elapsed_secs = 0;
  solved = false;
}

abbrev pub blank : Puzzle → Game
blank p = record {
  fill = replicate (len p) [];
  marks = replicate (len p) unmarked;
  cursor = 0;
  direction = across;
  solved = false;
  elapsed = 0;
  running_since = none;
  undo = [];
  redo = [];
}

abbrev calls : List Command
calls =
    checkpointing
    ∷ typing (codes "a") 3
    ∷ checkpointing
    ∷ typing (codes "x") 4
    ∷ revealing one_cell 5
    ∷ []

abbrev step_at : List Text → List Mark → ℕ → Snapshot
step_at f m c = record { fill = f; marks = m; cursor = c; direction = across }

abbrev no_marks : List Mark
no_marks = replicate 4 unmarked

abbrev one_revealed : List Mark
one_revealed = unmarked ∷ unmarked ∷ revealed ∷ unmarked ∷ []

abbrev pub filled_by : Text → Text → Text → List Text
filled_by a b c = a ∷ b ∷ c ∷ [] ∷ []

abbrev first_step : Snapshot
first_step = step_at (filled_by [] [] []) no_marks 0

abbrev second_step : Snapshot
second_step = step_at (filled_by (codes "A") [] []) no_marks 1

-- After the calls: the reveal has locked the square under the cursor.
abbrev pub game_after : Game
game_after = record (blank small_puzzle) {
  fill = filled_by (codes "A") (codes "X") (codes "R");
  marks = one_revealed;
  cursor = 2;
  undo = second_step ∷ first_step ∷ [];
}

pub small-builds : new_puzzle ascii small ≡ ok small_puzzle
unfolding new_puzzle normalize_grid runs_from numbering run_starts open_at derive add_runs own
    circle across_cells down_cells
small-builds = refl

small-starts : with_progress small_puzzle ascii 1000 nothing_saved ≡ some (blank small_puzzle)
unfolding with_progress resume_game new_game
small-starts = refl

played : play small_puzzle ascii calls (blank small_puzzle) ≡ some game_after
unfolding play run checkpoint snapshot type_letters position_in_entry current_entry entry_cells
    entry_is_full put editable advance jump_to_next_blank seek_blank wrap_entry first_empty
    enter_entry check_solved is_correct open_cells open_at accepts alternates_at answer_matches
    same_letters reveal scope_cells reveal_cells reveal_cell bytes_eq
played = refl

play-built-IsSound_example : IsSound small_puzzle game_after
play-built-IsSound_example =
    play-built-IsSound ascii 1000 small nothing_saved calls small-builds small-starts played

pub game_after-IsSound : IsSound small_puzzle game_after
game_after-IsSound =
    play-built-IsSound ascii 1000 small nothing_saved calls small-builds small-starts played

pub small_puzzle-IsPlayable : IsPlayable small_puzzle
small_puzzle-IsPlayable = new_puzzle-IsPlayable ascii small small-builds

new_puzzle-IsPlayable_example : IsPlayable small_puzzle
new_puzzle-IsPlayable_example = new_puzzle-IsPlayable ascii small small-builds

abbrev later_calls : List Command
later_calls = undoing ∷ clearing whole_puzzle ∷ []

-- The undo and the clearing leave the revealed square, and the clearing empties the rest.
abbrev game_later : Game
game_later = record game_after {
  fill = filled_by [] [] (codes "R");
  cursor = 1;
  undo = first_step ∷ [];
  redo = step_at (filled_by (codes "A") (codes "X") (codes "R")) one_revealed 2 ∷ [];
}

played_later : play small_puzzle ascii later_calls game_after ≡ some game_later
unfolding play run step_back undo_to restore restore_squares restore_square snapshot clear
    clear_cells put editable scope_cells open_cells open_at bytes_eq
played_later = refl

play-locked_example :
    (letter_at game_later.fill 2 ≡ letter_at game_after.fill 2)
    × (is_locked (mark_at game_later.marks 2) ≡ true)
play-locked_example =
    play-locked small_puzzle ascii small_puzzle-IsPlayable later_calls 2 game_after-IsSound refl
      played_later

step_forward-step_back_example :
    SameView (step_forward small_puzzle 6 (step_back game_after).0).0 game_after
step_forward-step_back_example =
    step_forward-step_back small_puzzle 6 game_after second_step (first_step ∷ [])
      game_after-IsSound refl refl

numbering-at_example : get_or (numbering 2 2 small.grid) 2 none ≡ some 3
unfolding run_starts open_at
numbering-at_example = numbering-at 2 2 small.grid 2 (omega arith)

checked_run_starts-eq_example :
    checked_run_starts 2 2 small.grid 2 ≡ some (run_starts 2 2 small.grid 2)
checked_run_starts-eq_example = checked_run_starts-eq 2 2 small.grid 2 refl (omega arith)

-- One row with a square between a block and the edge: no entry runs through it.
abbrev alone : PuzzleData
alone = data_of 4 1 (codes "A#BC")

alone-builds : new_puzzle ascii alone ≡ ok (built alone)
unfolding new_puzzle normalize_grid runs_from numbering run_starts open_at derive add_runs own
    circle across_cells down_cells
alone-builds = refl

-- The first square of the puzzle is there, and no entry runs through it.
alone-stuck : current_entry (built alone) (goto_first (built alone) (blank (built alone))) ≡ none
unfolding goto_first set_cursor normalize_direction open_cells new_puzzle normalize_grid runs_from
    numbering run_starts open_at derive add_runs own circle across_cells down_cells current_entry
    other
alone-stuck = refl

alone-open : is_open (built alone) 2 ≡ true
unfolding new_puzzle normalize_grid runs_from numbering run_starts open_at derive add_runs own
    circle across_cells down_cells
alone-open = refl

current_entry-EntryUnder_example :
    EntryUnder
      (built alone)
      2
      (current_entry (built alone) (record (blank (built alone)) { cursor = 2 }))
current_entry-EntryUnder_example =
    current_entry-EntryUnder ascii alone (record (blank (built alone)) { cursor = 2 }) alone-builds
      alone-open
