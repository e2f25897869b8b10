-- ===== src/Crossword/Game/Undo.antt =====
-- game.rs: the history, saved progress and its restoration.
use scratchpad.Common.{
  ℕ, ◌+◌, ◌-◌, ◌*◌, ◌/◌, Bool, true, false, not, ◌&&◌, ◌||◌, Option, List, [], ◌∷◌, ◌==◌,
  if◌then◌else◌, length, take, any, bytes_eq,
}
use mathlib.Core.Option
use scratchpad.Crossword.Puzzle.Letters.{Text, TextOps, normalized, is_empty}
use scratchpad.Crossword.Puzzle.{Direction, Puzzle, is_open, len, accepts}
use scratchpad.Crossword.Game.{
  Game, Snapshot, Mark, unmarked, wrong, correct, revealed, is_locked, is_wrong, undo_limit,
  new_game, check_solved, normalize_direction, is_correct, elapsed_at,
}

unfoldable pub snapshot : Game → Snapshot
snapshot g = record { fill = g.fill; marks = g.marks; cursor = g.cursor; direction = g.direction }

-- What `restore` leaves in one square: the snapshot's letters and mark, the square's own.
unfoldable pub restore_square : Text → Mark → Text → Mark → Text × Mark
restore_square letters saved here mark =
    if is_locked mark
    then (here, mark)
    else if is_wrong mark && bytes_eq letters here
    then (letters, mark)
    else (letters, saved)

-- The loop over the squares; a square that the snapshot does not have stays.
unfoldable pub restore_squares :
    List Text → List Mark → List Text → List Mark → List Text × List Mark
unfolding restore_square
restore_squares (letters ∷ ls) (saved ∷ ss) (here ∷ fill) (mark ∷ marks) =
    let (f, m) = restore_square letters saved here mark in
    let (fs, ms) = restore_squares ls ss fill marks in (f ∷ fs, m ∷ ms)
restore_squares _ _ fill marks = (fill, marks)

unfoldable pub restore : Snapshot → Game → Game
unfolding restore_squares
restore s g =
    let (f, m) = restore_squares s.fill s.marks g.fill g.marks in
    record g { fill = f; marks = m; cursor = s.cursor; direction = s.direction }

-- `pop_front` at the limit drops the oldest step, which is the last here.
unfoldable pub checkpoint : Game → Game
unfolding snapshot
checkpoint g = if g.solved then g else record g {
  undo =
      snapshot g ∷ (if length g.undo == undo_limit then take (undo_limit - 1) g.undo else g.undo);
  redo = [];
}

abbrev pub texts_eq : List Text → List Text → Bool
texts_eq [] [] = true
texts_eq (s ∷ ss) (t ∷ ts) = bytes_eq s t && texts_eq ss ts
texts_eq _ _ = false

abbrev pub mark_eq : Mark → Mark → Bool
mark_eq unmarked unmarked = true
mark_eq wrong wrong = true
mark_eq correct correct = true
mark_eq revealed revealed = true
mark_eq _ _ = false

abbrev pub marks_eq : List Mark → List Mark → Bool
marks_eq [] [] = true
marks_eq (m ∷ ms) (n ∷ ns) = mark_eq m n && marks_eq ms ns
marks_eq _ _ = false

unfoldable pub drop_if : Game → List Snapshot → Game × Bool
drop_if g [] = (g, false)
drop_if g (s ∷ steps) =
    if texts_eq s.fill g.fill && marks_eq s.marks g.marks
    then (record g { undo = steps }, true)
    else (g, false)

unfoldable pub drop_unchanged_checkpoint : Game → Game × Bool
unfolding drop_if
drop_unchanged_checkpoint g = drop_if g g.undo

unfoldable pub undo_to : Game → List Snapshot → Game × Bool
undo_to g [] = (g, false)
undo_to g (s ∷ steps) = (restore s (record g { undo = steps; redo = snapshot g ∷ g.redo }), true)

-- `self.undo()`
unfoldable pub step_back : Game → Game × Bool
unfolding undo_to restore snapshot
step_back g = if g.solved then (g, false) else undo_to g g.undo

unfoldable pub redo_to : Puzzle → ℕ → Game → List Snapshot → Game × Bool
redo_to p now g [] = (g, false)
redo_to p now g (s ∷ steps) =
    (check_solved p now (restore s (record g { redo = steps; undo = snapshot g ∷ g.undo })), true)

-- `self.redo(now)`
unfoldable pub step_forward : Puzzle → ℕ → Game → Game × Bool
unfolding redo_to restore snapshot check_solved
step_forward p now g = if g.solved then (g, false) else redo_to p now g g.redo

-- `units` is how many of the clock's smallest steps a second has.
pub record Progress : Type 0 where
  pub fill : List Text
  pub marks : List Mark
  pub cursor : ℕ
  pub direction : Direction
  pub elapsed_secs : ℕ
  pub solved : Bool

pub data Status : Type 0 where
  fresh started finished : Status

-- `Progress::status`; `fresh` is `New` and `finished` is `Solved`.
unfoldable pub status : Progress → Status
status s =
    if s.solved then finished else if any (λ f. not (is_empty f)) s.fill then started else fresh

unfoldable pub progress : ℕ → ℕ → Game → Progress
unfolding elapsed_at
progress units now g = record {
  fill = g.fill;
  marks = g.marks;
  cursor = g.cursor;
  direction = g.direction;
  elapsed_secs = elapsed_at now g / units;
  solved = g.solved;
}

-- The `match` on a saved mark: `right` is of the letters as they are now.
unfoldable pub resumed_mark : Bool → Text → Mark → Mark
resumed_mark right letters correct = if right then correct else unmarked
resumed_mark right letters revealed = if right then revealed else unmarked
resumed_mark right letters wrong = if right || is_empty letters then unmarked else wrong
resumed_mark right letters unmarked = unmarked

-- The loop of `with_progress`: an open square takes the saved letters and mark, a block stays blank.
unfoldable pub resume_squares : Puzzle → TextOps → ℕ → List Text → List Mark → List Text × List Mark
unfolding resumed_mark
resume_squares p ops c (letters ∷ ls) (mark ∷ ms) =
    let rest = resume_squares p ops (c + 1) ls ms in
    let l = normalized ops letters in
    if is_open p c
    then (l ∷ rest.0, resumed_mark (accepts p c l) l mark ∷ rest.1)
    else ([] ∷ rest.0, unmarked ∷ rest.1)
resume_squares p ops c _ _ = ([], [])

-- What is resumed over the blank game `g`.
unfoldable pub resume_game : Puzzle → TextOps → ℕ → Progress → Game → Game
unfolding resume_squares normalize_direction
resume_game p ops units s g =
    if not (length s.fill == len p) || not (length s.marks == len p)
    then g
    else let (f, m) = resume_squares p ops 0 s.fill s.marks in
      let g₁ = record g { fill = f; marks = m } in
      let moved =
        normalize_direction p (record g₁ { cursor = s.cursor; direction = s.direction }) in
      let g₂ = if is_open p s.cursor then moved else g₁ in
      record g₂ { elapsed = s.elapsed_secs * units; solved = s.solved && is_correct p g₂ }

unfoldable pub with_progress : Puzzle → TextOps → ℕ → Progress → Option Game
unfolding resume_game new_game
with_progress p ops units s = Option.map (resume_game p ops units s) (new_game p)
