-- ===== src/Crossword/Game/Motion.antt =====
-- game.rs: motion. The operations here write the cursor and the direction.
use scratchpad.Common.{
  ℕ, zero, suc, ◌+◌, ◌-◌, ◌%◌, ◌/◌, Bool, true, false, not, ◌&&◌, Option, none, some, List, [], ◌∷◌,
  ◌==◌, ltb, if◌then◌else◌, length, get_elem?, position,
}
use scratchpad.Crossword.Puzzle.{Direction, other, Entry, Puzzle, is_open, open_cells, present}
use scratchpad.Crossword.Puzzle.Build.{is_direction}
use scratchpad.Crossword.Game.{
  Game, current_entry, crossing_entry, entry_cells, first_empty, position_in_entry, set_cursor,
  ◌>>=◌,
}

-- `cells.last()`
abbrev pub last? : List ℕ → Option ℕ
last? [] = none
last? (x ∷ []) = some x
last? (x ∷ y ∷ xs) = last? (y ∷ xs)

-- The direction of `puzzle.entry(e)`.
abbrev pub entry_direction : Puzzle → ℕ → Option Direction
entry_direction p e = elim (get_elem? p.entries e) [ none ↦ none | some x ↦ some x.direction ]

unfoldable pub enter_entry : Puzzle → ℕ → ℕ → Game → Option Game
enter_entry p e c g = do d ← entry_direction p e; some (record g { cursor = c; direction = d })

-- `pos.checked_sub(1).and_then(|p| cells.get(p))`
abbrev pub one_back : List ℕ → ℕ → Option ℕ
one_back cells zero = none
one_back cells (suc k) = get_elem? cells k

unfoldable pub step_in_entry : Puzzle → Bool → Game → Option (Game × Bool)
step_in_entry p forward g = do
  (e, pos) ← position_in_entry p g
  let cells = entry_cells p e
  let target = if forward then get_elem? cells (pos + 1) else one_back cells pos
  some (elim target [ some c ↦ (record g { cursor = c }, true) | none ↦ (g, false) ])

unfoldable pub toggle_direction : Puzzle → Game → Game
toggle_direction p g =
    if present (crossing_entry p g) then record g { direction = other g.direction } else g

unfoldable pub wrap_entry : Puzzle → ℕ → Bool → ℕ
wrap_entry p e forward =
    let n = length p.entries in if forward then (e + 1) % n else (e + n - 1) % n

unfoldable pub enter_start : Puzzle → ℕ → Game → Option Game
unfolding enter_entry
enter_start p e g = do c ← get_elem? (entry_cells p e) 0; enter_entry p e c g

unfoldable pub enter_end : Puzzle → ℕ → Game → Option Game
unfolding enter_entry
enter_end p e g = do c ← last? (entry_cells p e); enter_entry p e c g

unfoldable pub next_entry_start : Puzzle → Game → Option Game
unfolding enter_start
next_entry_start p g = do e ← current_entry p g; enter_start p (wrap_entry p e true) g

unfoldable pub prev_entry_start : Puzzle → Game → Option Game
unfolding enter_start
prev_entry_start p g = do
  (e, pos) ← position_in_entry p g
  enter_start p (if ltb 0 pos then e else wrap_entry p e false) g

unfoldable pub entry_end_motion : Puzzle → Game → Option Game
unfolding enter_end
entry_end_motion p g = do
  (e, pos) ← position_in_entry p g
  enter_end p (if ltb pos (length (entry_cells p e) - 1) then e else wrap_entry p e true) g

unfoldable pub goto_entry_start : Puzzle → Game → Option Game
goto_entry_start p g = do
  e ← current_entry p g
  c ← get_elem? (entry_cells p e) 0
  some (record g { cursor = c })

unfoldable pub goto_entry_end : Puzzle → Game → Option Game
goto_entry_end p g = do
  e ← current_entry p g
  c ← last? (entry_cells p e)
  some (record g { cursor = c })

abbrev pub move_to : Puzzle → Option ℕ → Game → Game
move_to p none g = g
move_to p (some c) g = set_cursor p c g

unfoldable pub goto_first : Puzzle → Game → Game
unfolding set_cursor
goto_first p g = move_to p (get_elem? (open_cells p) 0) g

unfoldable pub goto_last : Puzzle → Game → Game
unfolding set_cursor
goto_last p g = move_to p (last? (open_cells p)) g

-- The loop of `next_open_entry` and of `jump_to_next_blank`: the next entry with a blank, and the blank.
unfoldable pub seek_blank : Puzzle → Game → Bool → ℕ → ℕ → Option (ℕ × ℕ)
seek_blank p g forward zero e = none
seek_blank p g forward (suc rounds) e =
    let next = wrap_entry p e forward in
    elim (first_empty p g next) [
      | some c ↦ some (next, c)
      | none ↦ seek_blank p g forward rounds next
    ]

unfoldable pub next_open_entry : Puzzle → Bool → Game → Option Game
unfolding enter_entry enter_start
next_open_entry p forward g = do
  start ← current_entry p g
  elim (seek_blank p g forward (length p.entries) start) [
    | some (e, c) ↦ enter_entry p e c g
    | none ↦ enter_start p (wrap_entry p start forward) g
  ]

unfoldable pub click : Puzzle → ℕ → Game → Game × Bool
unfolding toggle_direction set_cursor
click p c g =
    if not (is_open p c)
    then (g, false)
    else if c == g.cursor
    then (toggle_direction p g, true)
    else (set_cursor p c g, true)

-- Past the last entry nothing moves.
unfoldable pub goto_entry : Puzzle → ℕ → Game → Option Game
unfolding enter_start
goto_entry p e g = if ltb e (length p.entries) then enter_start p e g else some g

unfoldable pub goto_clue : Puzzle → Direction → ℕ → Game → Option (Game × Bool)
unfolding enter_start
goto_clue p d n g =
    elim (position (λ (e : Entry). is_direction e.direction d && e.number == n) p.entries) [
      | some e ↦ do g' ← enter_start p e g; some (g', true)
      | none ↦ some (g, false)
    ]

-- The four calls of `step`: one of its two arguments is 1 or -1, the other 0.
pub data Heading : Type 0 where
  up below left right : Heading

-- How many squares lie between the cursor and the edge, and the next square.
abbrev pub room : Puzzle → ℕ → Heading → ℕ
room p c up = c / p.raw.width
room p c below = p.raw.height - (c / p.raw.width + 1)
room p c left = c % p.raw.width
room p c right = p.raw.width - (c % p.raw.width + 1)

abbrev pub beside : Puzzle → ℕ → Heading → ℕ
beside p c up = c - p.raw.width
beside p c below = c + p.raw.width
beside p c left = c - 1
beside p c right = c + 1

-- The loop of `step`, with `n` squares before the edge.
unfoldable pub seek_open : Puzzle → Heading → ℕ → ℕ → Option ℕ
seek_open p h zero c = none
seek_open p h (suc n) c =
    let rest = seek_open p h n (beside p c h) in
    if is_open p (beside p c h) then some (beside p c h) else rest

unfoldable pub step : Puzzle → Heading → Game → Game × Bool
unfolding seek_open set_cursor
step p h g = elim (seek_open p h (room p g.cursor h) g.cursor) [
  | some c ↦ (set_cursor p c g, true)
  | none ↦ (g, false)
]
