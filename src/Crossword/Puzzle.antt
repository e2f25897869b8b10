-- ===== src/Crossword/Puzzle.antt =====
-- crossword/core/src/puzzle.rs: the raw puzzle, its validation, the clue numbering and the entries.
-- A text is the list of its characters. The square of an index out of range is not open.
pub mod Letters
pub mod Build
pub mod Numbers
pub mod Reads
use scratchpad.Common.{
  ℕ, zero, suc, ◌+◌, ◌-◌, ◌*◌, ◌/◌, ◌%◌, Bool, true, false, not, ◌&&◌, ◌||◌, Option, none, some,
  List, [], ◌∷◌, ◌++◌, Bytes, codes, ◌==◌, ltb, if◌then◌else◌, length, get_elem?, get_or, any,
}
use scratchpad.Crossword.Puzzle.Letters.{Text, answer_matches}

abbrev pub max_side : ℕ
max_side = 64

pub data Direction : Type 0 where
  across down : Direction

unfoldable pub other : Direction → Direction
other across = down
other down = across

pub record Meta : Type 0 where
  pub title : Text
  pub author : Text
  pub editor : Text
  pub copyright : Text
  pub date : Option Text

pub record ClueData : Type 0 where
  pub direction : Direction
  pub number : ℕ
  pub text : Text

abbrev pub Grid : Type 0
Grid = List (Option Text)

-- `alternates` lists the entries of the `BTreeMap` in the order of their keys.
pub record PuzzleData : Type 0 where
  pub meta : Meta
  pub width : ℕ
  pub height : ℕ
  pub grid : Grid
  pub circled : List ℕ
  pub alternates : List (ℕ × List Text)
  pub clues : List ClueData

pub record Entry : Type 0 where
  pub direction : Direction
  pub number : ℕ
  pub cells : List ℕ
  pub clue : Text

pub record Puzzle : Type 0 where
  pub raw : PuzzleData
  pub numbers : List (Option ℕ)
  pub entries : List Entry
  pub across_of : List (Option ℕ)
  pub down_of : List (Option ℕ)
  pub circled : List Bool

abbrev pub present {ℓ} : {A : Type ℓ} → Option A → Bool
present none = false
present (some _) = true

-- `grid.get(i)`, flattened
abbrev pub square : Grid → ℕ → Option Text
square grid i = get_or grid i none

unfoldable pub open_at : Grid → ℕ → Bool
open_at grid i = present (square grid i)

abbrev pub starts_across : ℕ → Grid → ℕ → Bool
starts_across width grid cell =
    (cell % width == 0 || not (open_at grid (cell - 1)))
    && ltb (cell % width + 1) width
    && open_at grid (cell + 1)

abbrev pub starts_down : ℕ → ℕ → Grid → ℕ → Bool
starts_down width height grid cell =
    (cell / width == 0 || not (open_at grid (cell - width)))
    && ltb (cell / width + 1) height
    && open_at grid (cell + width)

unfoldable pub run_starts : ℕ → ℕ → Grid → ℕ → Bool × Bool
run_starts width height grid cell =
    if not (open_at grid cell)
    then (false, false)
    else (starts_across width grid cell, starts_down width height grid cell)

abbrev pub starts : ℕ → ℕ → Grid → ℕ → Bool
starts width height grid cell = let (a, d) = run_starts width height grid cell in a || d

-- The loop over the cells, with the next number to give; `left` cells remain.
unfoldable pub numbering_from : ℕ → ℕ → Grid → ℕ → ℕ → ℕ → List (Option ℕ)
numbering_from width height grid zero cell next = []
numbering_from width height grid (suc left) cell next =
    let s = starts width height grid cell in
    (if s then some next else none)
    ∷ numbering_from width height grid left (cell + 1) (if s then next + 1 else next)

unfoldable pub numbering : ℕ → ℕ → Grid → List (Option ℕ)
unfolding numbering_from
numbering width height grid = numbering_from width height grid (length grid) 0 1

module _ (p : Puzzle) where
  abbrev pub len : ℕ
  len = length p.raw.grid

  abbrev pub is_open : ℕ → Bool
  is_open cell = open_at p.raw.grid cell

  abbrev pub solution : ℕ → Option Text
  solution cell = square p.raw.grid cell

  abbrev pub number : ℕ → Option ℕ
  number cell = get_or p.numbers cell none

  abbrev pub is_circled : ℕ → Bool
  is_circled cell = get_or p.circled cell false

  abbrev pub entry_at : ℕ → Direction → Option ℕ
  entry_at cell across = get_or p.across_of cell none
  entry_at cell down = get_or p.down_of cell none

-- `alternates.get(&cell)`
unfoldable pub alternates_at : ℕ → List (ℕ × List Text) → Option (List Text)
alternates_at cell [] = none
alternates_at cell ((k, v) ∷ m) = if k == cell then some v else alternates_at cell m

abbrev accepts_by : Option Text → Text → Bool
accepts_by none guess = false
accepts_by (some s) guess = answer_matches s guess

abbrev accepts_any : Option (List Text) → Text → Bool
accepts_any none guess = false
accepts_any (some others) guess = any (λ a. answer_matches a guess) others

unfoldable pub accepts : Puzzle → ℕ → Text → Bool
accepts p cell guess =
    accepts_by (solution p cell) guess || accepts_any (alternates_at cell p.raw.alternates) guess

-- `(0..len).filter(is_open)`, from `cell` with `left` cells to go
abbrev pub open_from : Grid → ℕ → ℕ → List ℕ
open_from grid zero cell = []
open_from grid (suc left) cell =
    let rest = open_from grid left (cell + 1) in if open_at grid cell then cell ∷ rest else rest

unfoldable pub open_cells : Puzzle → List ℕ
open_cells p = open_from p.raw.grid (len p) 0
