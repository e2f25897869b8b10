-- ===== src/Crossword/Puzzle/Build.antt =====
-- puzzle.rs: `Puzzle::new`.
use scratchpad.Common.{
  ℕ, zero, suc, ◌+◌, ◌-◌, ◌*◌, ◌/◌, Bool, true, false, not, ◌&&◌, ◌||◌, Option, none, some, List,
  [], ◌∷◌, ◌++◌, Bytes, codes, ◌==◌, ltb, if◌then◌else◌, length, set, replicate, any, bytes_eq,
}
use mathlib.Core.Option
use scratchpad.Common.Decimal.{decimal}
use scratchpad.Common.Io.{Result, ok, err}
use scratchpad.Crossword.Puzzle.Letters.{Text, TextOps, normalized, is_empty}
use scratchpad.Crossword.Puzzle.{
  max_side, Direction, across, down, ClueData, Grid, PuzzleData, Entry, Puzzle, square, open_at,
  run_starts, numbering,
}

-- `PuzzleError` is its message.
abbrev pub PuzzleError : Type 0
PuzzleError = Bytes

infixl 5 ◌>>=◌ ◌>>◌
abbrev pub ◌>>=◌ :
    {A B : Type 0} → Result PuzzleError A → (A → Result PuzzleError B) → Result PuzzleError B
ok a >>= f = f a
err e >>= f = err e

abbrev pub ◌>>◌ :
    {B : Type 0} → Result PuzzleError (Unit {0}) → Result PuzzleError B → Result PuzzleError B
m >> k = m >>= λ _. k

abbrev pub guard : Bool → PuzzleError → Result PuzzleError (Unit {0})
guard true e = ok tt
guard false e = err e

abbrev pub is_direction : Direction → Direction → Bool
is_direction across across = true
is_direction down down = true
is_direction _ _ = false

-- `retain`, for one entry
abbrev retain : ℕ → List Text → List (ℕ × List Text) → List (ℕ × List Text)
retain cell [] m = m
retain cell (a ∷ answers) m = (cell, a ∷ answers) ∷ m

module _ (ops : TextOps) where
  -- the first loop
  unfoldable pub normalize_grid : Grid → Result PuzzleError Grid
  normalize_grid [] = ok []
  normalize_grid (none ∷ grid) = do rest ← normalize_grid grid; ok (none ∷ rest)
  normalize_grid (some answer ∷ grid) = do
    guard (not (is_empty (normalized ops answer))) (codes "an open square has no answer")
    rest ← normalize_grid grid
    ok (some (normalized ops answer) ∷ rest)

  -- the inner loop over one square's other answers
  unfoldable pub keep_others : Text → List Text → List Text → List Text
  keep_others answer kept [] = kept
  keep_others answer kept (a ∷ answers) =
      let other = normalized ops a in
      let fresh =
        not (is_empty other) && not (bytes_eq other answer) && not (any (bytes_eq other) kept) in
      keep_others answer (if fresh then kept ++ other ∷ [] else kept) answers

  -- the loop over `alternates`, with the `retain` behind it
  unfoldable pub normalize_others :
      Grid → List (ℕ × List Text) → Result PuzzleError (List (ℕ × List Text))
  normalize_others grid [] = ok []
  normalize_others grid ((cell, answers) ∷ m) = elim (square grid cell) [
    | none ↦ err (codes "square " ++ (decimal cell ++ codes " has other answers but is not open"))
    | some answer ↦ do
      rest ← normalize_others grid m
      ok (retain cell (keep_others answer [] answers) rest)
  ]

  -- `texts.get(&(direction, number))`: of several clues with one key the last is in the map
  unfoldable pub clue_text : Direction → ℕ → List ClueData → Option Text
  clue_text d n [] = none
  clue_text d n (c ∷ clues) = elim (clue_text d n clues) [
    | some t ↦ some t
    | none ↦ if is_direction c.direction d && c.number == n then some (ops.trim c.text) else none
  ]

-- `take_while`
abbrev pub take_while {ℓ} : {A : Type ℓ} → (A → Bool) → List A → List A
take_while p [] = []
take_while p (x ∷ xs) = let rest = take_while p xs in if p x then x ∷ rest else []

-- `start, start + stride, …`, `count` numbers
abbrev pub every : ℕ → ℕ → ℕ → List ℕ
every zero start stride = []
every (suc count) start stride = start ∷ every count (start + stride) stride

-- `i..row_end` and `(i..len).step_by(width)`, cut at the first block
unfoldable pub across_cells : ℕ → Grid → ℕ → List ℕ
across_cells width grid i = take_while (open_at grid) (every ((i / width + 1) * width - i) i 1)

unfoldable pub down_cells : ℕ → Grid → ℕ → List ℕ
down_cells width grid i =
    take_while (open_at grid) (every ((length grid - i + width - 1) / width) i width)

abbrev pub Run : Type 0
Run = ℕ × List ℕ

-- The loop over the numbered cells: the runs in each direction, from `cell` on.
unfoldable pub runs_from : ℕ → ℕ → Grid → List (Option ℕ) → ℕ → List Run × List Run
runs_from width height grid [] cell = ([], [])
runs_from width height grid (none ∷ numbers) cell = runs_from width height grid numbers (cell + 1)
runs_from width height grid (some n ∷ numbers) cell =
    let (acrosses, downs) = runs_from width height grid numbers (cell + 1) in
    let (a, d) = run_starts width height grid cell in
    (
      if a then (n, across_cells width grid cell) ∷ acrosses else acrosses,
      if d then (n, down_cells width grid cell) ∷ downs else downs,
    )

-- `for &cell in &cells { owner[cell] = Some(index) }`
unfoldable pub own : List (Option ℕ) → List ℕ → ℕ → List (Option ℕ)
own owner [] index = owner
own owner (cell ∷ cells) index = own (set owner cell (some index)) cells index

-- The loop over the runs of one direction; `index` is `entries.len()`.
unfoldable pub add_runs :
    (ℕ → Text) → Direction → List Run → ℕ → List (Option ℕ) → List Entry × List (Option ℕ)
add_runs clue d [] index owner = ([], owner)
add_runs clue d ((n, cells) ∷ runs) index owner =
    let (entries, owner') = add_runs clue d runs (index + 1) (own owner cells index) in
    (record { direction = d; number = n; cells = cells; clue = clue n } ∷ entries, owner')

unfoldable pub circle : List Bool → List ℕ → List Bool
circle flags [] = flags
circle flags (i ∷ is) = circle (set flags i true) is

-- What the checks leave: the entries and the lookups of the normalized data.
unfoldable pub derive : TextOps → PuzzleData → List Run → List Run → Puzzle
unfolding clue_text
derive ops data' acrosses downs =
    let none_each = replicate (length data'.grid) none in
    let clue = λ (d : Direction) (n : ℕ). Option.get_or (clue_text ops d n data'.clues) [] in
    let (a, across_of) = add_runs (clue across) across acrosses 0 none_each in
    let (b, down_of) = add_runs (clue down) down downs (length a) none_each in
    record {
      raw = data';
      numbers = numbering data'.width data'.height data'.grid;
      entries = a ++ b;
      across_of = across_of;
      down_of = down_of;
      circled = circle (replicate (length data'.grid) false) data'.circled;
    }

abbrev pub out_of_range : ℕ → ℕ → Bool
out_of_range width height = width == 0 || height == 0 || ltb max_side width || ltb max_side height

-- `data.circled.iter().find(|&&i| i >= len)`
abbrev pub circled_ok : ℕ → List ℕ → Result PuzzleError (Unit {0})
circled_ok len [] = ok tt
circled_ok len (i ∷ is) =
    guard (ltb i len) (codes "circled square " ++ (decimal i ++ codes " is off the grid"))
    >> circled_ok len is

abbrev pub no_runs : List Run × List Run → Bool
no_runs ([], []) = true
no_runs _ = false

-- `Puzzle::new`
unfoldable pub new_puzzle : TextOps → PuzzleData → Result PuzzleError Puzzle
unfolding normalize_others keep_others
new_puzzle ops d = do
  guard (not (out_of_range d.width d.height)) (
      codes "grid size "
      ++ (decimal d.width ++ (codes "x" ++ (decimal d.height ++ codes " is out of range"))))
  guard (length d.grid == d.width * d.height) (
      codes "grid has "
      ++ (decimal (length d.grid) ++ (codes " squares, expected " ++ decimal (d.width * d.height))))
  grid ← normalize_grid ops d.grid
  circled_ok (length grid) d.circled
  others ← normalize_others ops grid d.alternates
  let runs = runs_from d.width d.height grid (numbering d.width d.height grid) 0
  guard (not (no_runs runs)) (codes "the grid has no entries")
  ok (derive ops (record d { grid = grid; alternates = others }) runs.0 runs.1)
