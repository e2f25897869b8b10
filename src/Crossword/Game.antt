-- ===== src/Crossword/Game.antt =====
-- crossword/core/src/game.rs: the state of one puzzle being solved, and its reads. The children model
-- the operations. The puzzle is fixed, so it is an argument; `fill` and `marks` have a value for each
-- square. An `expect` that fails is `none`.
pub mod Motion
pub mod Edit
pub mod Undo
pub mod Commands
pub mod Sound
use scratchpad.Common.{
  ℕ, ◌+◌, ◌-◌, Bool, true, false, not, ◌&&◌, ◌||◌, Option, none, some, List, [], ◌∷◌, ◌==◌,
  if◌then◌else◌, length, get_or, get_elem?, position, replicate, all, any,
}
use scratchpad.Crossword.Puzzle.Letters.{Text, is_empty}
use scratchpad.Crossword.Puzzle.{
  Direction, across, down, other, Entry, Puzzle, len, entry_at, accepts, open_cells, present,
  is_open,
}

abbrev pub undo_limit : ℕ
undo_limit = 500

pub data Mark : Type 0 where
  unmarked wrong correct revealed : Mark

abbrev pub is_locked : Mark → Bool
is_locked correct = true
is_locked revealed = true
is_locked _ = false

abbrev pub is_wrong : Mark → Bool
is_wrong wrong = true
is_wrong _ = false

pub data Scope : Type 0 where
  one_cell whole_entry whole_puzzle : Scope

pub record CheckReport : Type 0 where
  pub checked : ℕ
  pub wrong_count : ℕ

pub record Snapshot : Type 0 where
  pub fill : List Text
  pub marks : List Mark
  pub cursor : ℕ
  pub direction : Direction

-- `undo` and `redo` hold the latest step first. Times are counts of a clock's smallest step.
pub record Game : Type 0 where
  pub fill : List Text
  pub marks : List Mark
  pub cursor : ℕ
  pub direction : Direction
  pub solved : Bool
  pub elapsed : ℕ
  pub running_since : Option ℕ
  pub undo : List Snapshot
  pub redo : List Snapshot

abbrev pub letter_at : List Text → ℕ → Text
letter_at fill cell = get_or fill cell []

abbrev pub mark_at : List Mark → ℕ → Mark
mark_at marks cell = get_or marks cell unmarked

-- `first` is the first square of the first entry, and its direction.
unfoldable pub new_game : Puzzle → Option Game
new_game p = elim p.entries [
  | [] ↦ none
  | first ∷ _ ↦ elim first.cells [
    | [] ↦ none
    | cell ∷ _ ↦ some (record {
      fill = replicate (len p) [];
      marks = replicate (len p) unmarked;
      cursor = cell;
      direction = first.direction;
      solved = false;
      elapsed = 0;
      running_since = none;
      undo = [];
      redo = [];
    })
  ]
]

-- Timer. `saturating_duration_since` is the subtraction that stops at 0.
unfoldable pub resume : ℕ → Game → Game
resume now g =
    if not (present g.running_since) && not g.solved
    then record g { running_since = some now }
    else g

abbrev banked : ℕ → ℕ → Option ℕ → ℕ
banked elapsed now none = elapsed
banked elapsed now (some since) = elapsed + (now - since)

unfoldable pub elapsed_at : ℕ → Game → ℕ
elapsed_at now g = banked g.elapsed now g.running_since

unfoldable pub pause : ℕ → Game → Game
pause now g = record g { elapsed = banked g.elapsed now g.running_since; running_since = none }

module _ (p : Puzzle) (g : Game) where
  abbrev pub cell_correct : ℕ → Bool
  cell_correct cell = accepts p cell (letter_at g.fill cell)

  abbrev pub filled : ℕ → Bool
  filled cell = not (is_empty (letter_at g.fill cell))

  unfoldable pub is_full : Bool
  is_full = all filled (open_cells p)

  unfoldable pub is_correct : Bool
  is_correct = all cell_correct (open_cells p)

  abbrev or_else {ℓ} : {A : Type ℓ} → Option A → Option A → Option A
  or_else (some a) b = some a
  or_else none b = b

  -- `none` is the `expect` that fails: no entry runs through the cursor.
  unfoldable pub current_entry : Option ℕ
  current_entry =
      or_else (entry_at p g.cursor g.direction) (entry_at p g.cursor (other g.direction))

  unfoldable pub crossing_entry : Option ℕ
  crossing_entry = entry_at p g.cursor (other g.direction)

-- `puzzle.entry(e).cells`; an index out of range has none.
abbrev cells_of : Option Entry → List ℕ
cells_of none = []
cells_of (some e) = e.cells

unfoldable pub entry_cells : Puzzle → ℕ → List ℕ
entry_cells p e = cells_of (get_elem? p.entries e)

-- `find`
abbrev pub find : (ℕ → Bool) → List ℕ → Option ℕ
find t [] = none
find t (x ∷ xs) = if t x then some x else find t xs

unfoldable pub entry_is_full : Puzzle → Game → ℕ → Bool
entry_is_full p g e = all (filled p g) (entry_cells p e)

unfoldable pub first_empty : Puzzle → Game → ℕ → Option ℕ
first_empty p g e = find (λ c. is_empty (letter_at g.fill c)) (entry_cells p e)

infixl 5 ◌>>=◌
abbrev pub ◌>>=◌ {ℓ κ} : {A : Type ℓ} {B : Type κ} → Option A → (A → Option B) → Option B
some a >>= f = f a
none >>= f = none

unfoldable pub position_in_entry : Puzzle → Game → Option (ℕ × ℕ)
position_in_entry p g = do
  e ← current_entry p g
  pos ← position (λ c. c == g.cursor) (entry_cells p e)
  some (e, pos)

unfoldable pub normalize_direction : Puzzle → Game → Game
normalize_direction p g =
    if present (entry_at p g.cursor g.direction)
    then g
    else record g { direction = other g.direction }

unfoldable pub set_cursor : Puzzle → ℕ → Game → Game
unfolding normalize_direction
set_cursor p cell g = normalize_direction p (record g { cursor = cell })

-- `check_solved`
unfoldable pub check_solved : Puzzle → ℕ → Game → Game
unfolding pause
check_solved p now g =
    if not g.solved && is_correct p g then pause now (record g { solved = true }) else g

unfoldable pub scope_cells : Puzzle → Game → Scope → Option (List ℕ)
scope_cells p g one_cell = some (g.cursor ∷ [])
scope_cells p g whole_entry = do e ← current_entry p g; some (entry_cells p e)
scope_cells p g whole_puzzle = some (open_cells p)
