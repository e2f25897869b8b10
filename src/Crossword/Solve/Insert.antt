-- ===== src/Crossword/Solve/Insert.antt =====
-- app.rs: `insert_key`, `leave_insert` and `rebus_key`.
use scratchpad.Common.{
  ℕ, Bool, true, false, not, ◌&&◌, ◌||◌, Option, none, some, [], ◌∷◌, ◌++◌, ◌==◌, ltb,
  if◌then◌else◌, length, pop,
}
use scratchpad.Crossword.Game.{◌>>=◌}
use scratchpad.Crossword.Game.Motion.{Heading, step, toggle_direction, next_open_entry}
use scratchpad.Crossword.Game.Edit.{
  type_letters, backspace, clear_and_advance, clear_cell, replace_cell,
}
use scratchpad.Crossword.Game.Undo.{drop_unchanged_checkpoint}
use scratchpad.Crossword.Keys.{KeyCode, Key, is_ctrl, is_chorded, esc_prefixed}
use scratchpad.Crossword.Solve.{Env, Solve, Outcome, normal, quiet, changes, edit}
use scratchpad.Crossword.Solve.Normal.{is_char, played, edited, normal_key}

abbrev pub saving : Outcome
saving = record quiet { save = true }

unfoldable pub leave_insert : Solve → Solve
leave_insert s = record s { mode = normal; game = (drop_unchanged_checkpoint s.game).0 }

abbrev pub is_esc : KeyCode → Bool
is_esc KeyCode.esc = true
is_esc _ = false

-- `Esc`, `Ctrl-c` and `Ctrl-[`
abbrev pub leaves_by : Key → Bool
leaves_by key = is_esc key.code || is_ctrl key && (is_char key.code b'c' || is_char key.code b'[')

module _ (env : Env) (now : ℕ) where
  abbrev insert_char : ℕ → Solve → Option (Solve × Outcome)
  insert_char c s =
      if c == b' '
      then played s (clear_and_advance s.built s.game) (changes true)
      else if env.is_alphanumeric c
      then played s (type_letters s.built env.ops (c ∷ []) now s.game) (changes true)
      else some (s, quiet)

  unfoldable pub insert_code : KeyCode → Solve → Option (Solve × Outcome)
  insert_code (KeyCode.char c) s = insert_char c s
  insert_code KeyCode.backspace s = played s (backspace s.built s.game) (changes true)
  insert_code KeyCode.delete s = played s (some (clear_cell s.built s.game)) (changes true)
  insert_code KeyCode.left s = played s (some (step s.built Heading.left s.game).0) quiet
  insert_code KeyCode.right s = played s (some (step s.built Heading.right s.game).0) quiet
  insert_code KeyCode.up s = played s (some (step s.built Heading.up s.game).0) quiet
  insert_code KeyCode.down s = played s (some (step s.built Heading.below s.game).0) quiet
  insert_code KeyCode.tab s = played s (next_open_entry s.built true s.game) quiet
  insert_code KeyCode.back_tab s = played s (next_open_entry s.built false s.game) quiet
  insert_code KeyCode.enter s = played s (some (toggle_direction s.built s.game)) quiet
  insert_code _ s = some (s, quiet)

  unfoldable pub plain_insert_key : Key → Solve → Option (Solve × Outcome)
  unfolding leave_insert insert_code
  plain_insert_key key s =
      if leaves_by key
      then some (leave_insert s, saving)
      else if is_chorded key
      then some (s, quiet)
      else insert_code key.code s

  -- An `Esc` and a key at once: what the key reports, with `save` set.
  unfoldable pub insert_key : Key → Solve → Option (Solve × Outcome)
  unfolding plain_insert_key leave_insert
  insert_key key s = elim (esc_prefixed key) [
    | some plain ↦ do
      (s', next) ← normal_key env now plain (leave_insert s)
      some (s', record next { save = true })
    | none ↦ plain_insert_key key s
  ]

  unfoldable pub rebus_code : Key → KeyCode → Solve → Option (Solve × Outcome)
  rebus_code key KeyCode.enter s =
      edited (record s { mode = normal; input = [] })
        (edit s.game (λ g. some (replace_cell s.built env.ops s.input now g)))
        (λ g changed. changes changed)
  rebus_code key KeyCode.backspace s = some (record s { input = pop s.input }, quiet)
  rebus_code key (KeyCode.char c) s = some (
    if not (is_chorded key) && env.is_alphanumeric c && ltb (length s.input) 12
        then record s { input = s.input ++ env.upper_char c }
        else s,
    quiet,
  )
  rebus_code key _ s = some (s, quiet)

  unfoldable pub rebus_key : Key → Solve → Option (Solve × Outcome)
  unfolding rebus_code
  rebus_key key s =
      if leaves_by key then some (record s { mode = normal }, quiet) else rebus_code key key.code s
