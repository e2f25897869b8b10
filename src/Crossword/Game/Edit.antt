-- ===== src/Crossword/Game/Edit.antt =====
-- game.rs: editing, checking, revealing and clearing.
use scratchpad.Common.{
  ℕ, zero, suc, ◌+◌, Bool, true, false, not, ◌&&◌, ◌||◌, Option, none, some, List, [], ◌∷◌,
  if◌then◌else◌, length, get_elem?, set, take, drop, bytes_eq, replicate,
}
use mathlib.Core.Option
use scratchpad.Crossword.Puzzle.Letters.{Text, TextOps, normalized, is_empty}
use scratchpad.Crossword.Puzzle.{Puzzle, is_open, len, solution}
use scratchpad.Crossword.Game.{
  Game, Mark, unmarked, wrong, correct, revealed, is_locked, is_wrong, Scope, CheckReport,
  letter_at, mark_at, cell_correct, filled, entry_cells, entry_is_full, position_in_entry,
  check_solved, scope_cells, find, or_else, ◌>>=◌,
}
use scratchpad.Crossword.Game.Motion.{enter_entry, seek_blank, goto_entry_start, goto_first}

unfoldable pub editable : Puzzle → Game → ℕ → Bool
editable p g c = not g.solved && is_open p c && not (is_locked (mark_at g.marks c))

-- `self.set`
unfoldable pub put : Puzzle → ℕ → Text → Game → Game × Bool
unfolding editable
put p c letters g =
    if not (editable p g c) || bytes_eq (letter_at g.fill c) letters then (g, false) else (
      record g {
        fill = set g.fill c letters;
        marks = if is_wrong (mark_at g.marks c) then set g.marks c unmarked else g.marks;
      },
      true,
    )

-- `for &cell in cells { self.set(cell, "") }`
unfoldable pub clear_cells : Puzzle → List ℕ → Game → Game
clear_cells p [] g = g
clear_cells p (c ∷ cells) g = clear_cells p cells (put p c [] g).0

-- The last branch of `type_letters`: one square on.
abbrev pub step_on : List ℕ → ℕ → Game → Game
step_on cells pos g = elim (get_elem? cells (pos + 1)) [
  | some c ↦ record g { cursor = c }
  | none ↦ g
]

unfoldable pub jump_to_next_blank : Puzzle → ℕ → Game → Option (Game × Bool)
unfolding enter_entry
jump_to_next_blank p e g = elim (seek_blank p g true (length p.entries) e) [
  | some (next, c) ↦ do g' ← enter_entry p next c g; some (g', true)
  | none ↦ some (g, false)
]

-- Where the cursor goes once the letters stand: `was_full` is of the entry before.
unfoldable pub advance : Puzzle → ℕ → ℕ → Bool → Game → Option Game
unfolding jump_to_next_blank
advance p e pos was_full g =
    let cells = entry_cells p e in
    let blank = λ (c : ℕ). not (filled p g c) in
    elim (or_else p g (find blank (drop (pos + 1) cells)) (find blank (take pos cells))) [
      | some next ↦ some (record g { cursor = next })
      | none ↦ if was_full then some (step_on cells pos g) else do
        (g', jumped) ← jump_to_next_blank p e g
        some (if jumped then g' else step_on cells pos g')
    ]

unfoldable pub type_letters : Puzzle → TextOps → Text → ℕ → Game → Option Game
unfolding put advance check_solved
type_letters p ops letters now g =
    if g.solved || is_empty (normalized ops letters) then some g else do
      (e, pos) ← position_in_entry p g
      let was_full = entry_is_full p g e
      g' ← advance p e pos was_full (put p g.cursor (normalized ops letters) g).0
      some (check_solved p now g')

unfoldable pub backspace : Puzzle → Game → Option Game
unfolding put
backspace p g =
    if g.solved
    then some g
    else if filled p g g.cursor && editable p g g.cursor
    then some (put p g.cursor [] g).0
    else do
      (e, pos) ← position_in_entry p g
      some (elim pos [
        | zero ↦ g
        | suc k ↦ elim (get_elem? (entry_cells p e) k) [
          | some c ↦ (put p c [] (record g { cursor = c })).0
          | none ↦ g
        ]
      ])

unfoldable pub clear_and_advance : Puzzle → Game → Option Game
unfolding put
clear_and_advance p g = if g.solved then some g else do
  let g' = (put p g.cursor [] g).0
  (e, pos) ← position_in_entry p g'
  some (step_on (entry_cells p e) pos g')

unfoldable pub clear_cell : Puzzle → Game → Game
unfolding put
clear_cell p g = (put p g.cursor [] g).0

unfoldable pub replace_cell : Puzzle → TextOps → Text → ℕ → Game → Game
unfolding put check_solved
replace_cell p ops letters now g =
    if is_empty (normalized ops letters)
    then g
    else check_solved p now (put p g.cursor (normalized ops letters) g).0

unfoldable pub clear_to_entry_end : Puzzle → Game → Option Game
unfolding clear_cells
clear_to_entry_end p g = do
  (e, pos) ← position_in_entry p g
  some (clear_cells p (drop pos (entry_cells p e)) g)

unfoldable pub clear_entry : Puzzle → Game → Option Game
unfolding clear_to_entry_end goto_entry_start
clear_entry p g = do g' ← goto_entry_start p g; clear_to_entry_end p g'

unfoldable pub clear : Puzzle → Scope → Game → Option Game
unfolding clear_cells scope_cells
clear p scope g = do cells ← scope_cells p g scope; some (clear_cells p cells g)

abbrev pub is_revealed : Mark → Bool
is_revealed revealed = true
is_revealed _ = false

-- The loop body of `check`.
unfoldable pub check_cell : Puzzle → ℕ → Game × CheckReport → Game × CheckReport
check_cell p c (g, r) =
    if not (filled p g c) || is_revealed (mark_at g.marks c)
    then (g, r)
    else if cell_correct p g c
    then (record g { marks = set g.marks c correct }, record r { checked = r.checked + 1 })
    else (
      record g { marks = set g.marks c wrong },
      record { checked = r.checked + 1; wrong_count = r.wrong_count + 1 },
    )

unfoldable pub check_cells : Puzzle → List ℕ → Game × CheckReport → Game × CheckReport
check_cells p [] s = s
check_cells p (c ∷ cells) s = check_cells p cells (check_cell p c s)

unfoldable pub check : Puzzle → Scope → Game → Option (Game × CheckReport)
unfolding check_cells check_cell scope_cells
check p scope g =
    let report : CheckReport = record { checked = 0; wrong_count = 0 } in
    if g.solved
    then some (g, report)
    else do cells ← scope_cells p g scope; some (check_cells p cells (g, report))

-- The loop body of `reveal`; a block has no answer, and `unwrap_or_default` writes nothing there.
unfoldable pub reveal_cell : Puzzle → ℕ → Game × ℕ → Game × ℕ
reveal_cell p c (g, n) =
    if is_locked (mark_at g.marks c)
    then (g, n)
    else if cell_correct p g c
    then (record g { marks = set g.marks c correct }, n)
    else (
      record g {
        fill = set g.fill c (Option.get_or (solution p c) []);
        marks = set g.marks c revealed;
      },
      n + 1,
    )

unfoldable pub reveal_cells : Puzzle → List ℕ → Game × ℕ → Game × ℕ
reveal_cells p [] s = s
reveal_cells p (c ∷ cells) s = reveal_cells p cells (reveal_cell p c s)

unfoldable pub reveal : Puzzle → Scope → ℕ → Game → Option (Game × ℕ)
unfolding reveal_cells reveal_cell scope_cells check_solved
reveal p scope now g = if g.solved then some (g, 0) else do
  cells ← scope_cells p g scope
  let (g', n) = reveal_cells p cells (g, 0)
  some (check_solved p now g', n)

unfoldable pub reset : Puzzle → ℕ → Game → Game
unfolding goto_first
reset p now g = goto_first p (record g {
  fill = replicate (len p) [];
  marks = replicate (len p) unmarked;
  solved = false;
  elapsed = 0;
  running_since = some now;
  undo = [];
  redo = [];
})
