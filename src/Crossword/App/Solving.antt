-- ===== src/Crossword/App/Solving.antt =====
-- app.rs: opening a puzzle that arrives, the keys of the solve screen, and leaving it.
use scratchpad.Common.{
  ℕ, ◌/◌, Bool, true, false, not, ◌&&◌, Option, none, some, List, [], ◌∷◌, ◌++◌, codes,
  if◌then◌else◌, map,
}
use scratchpad.Common.Io.{Result, ok, err}
use scratchpad.Crossword.Puzzle.Letters.{Text}
use scratchpad.Crossword.Puzzle.{Puzzle, PuzzleData, present}
use scratchpad.Crossword.Puzzle.Build.{new_puzzle}
use scratchpad.Crossword.Game.{Game, new_game, resume, pause, elapsed_at, is_full, ◌>>=◌}
use scratchpad.Crossword.Game.Motion.{click, goto_entry}
use scratchpad.Crossword.Game.Undo.{Progress, Status, fresh, status, progress, with_progress}
use scratchpad.Crossword.Keys.{Key}
use scratchpad.Crossword.Sources.{
  SourceId, PuzzleRef, SourceError, describe, Response, listed, fetched, source_eq, ref_eq,
}
use scratchpad.Crossword.Store.{Store, Disk, load_progress, status_of}
use scratchpad.Crossword.Solve.{
  Env, Solve, new_solve, reset_input, Mode, normal, Message, info, success, error, say, Outcome,
  solved_hint, format_duration,
}
use scratchpad.Crossword.Solve.Commands.{mode_key}
use scratchpad.Crossword.App.{
  App, Browse, Tab, Listing, ready, failed_with, browse_screen, home_screen, solve_screen,
  open_help, save, quit,
}
use scratchpad.Crossword.App.Listings.{forward, move_selection, mark_tabs}

-- A click on a square and on a clue
unfoldable pub click_cell : ℕ → App → App
click_cell cell a = elim a.solve [
  | none ↦ a
  | some s ↦
      let s' = reset_input s in
      record a { solve = some (record s' { game = (click s'.built cell s'.game).0 }) }
]

unfoldable pub click_clue : ℕ → App → Option App
click_clue entry a = elim a.solve [
  | none ↦ some a
  | some s ↦
      let s' = reset_input s in
      goto_entry s'.built entry s'.game >>= λ g.
      some (record a { solve = some (record s' { game = g }) })
]

-- `iter_mut().find(|t| t.source == source)`
unfoldable pub on_source : SourceId → (Tab → Tab) → List Tab → List Tab
on_source source change [] = []
on_source source change (tab ∷ tabs) =
    if source_eq tab.source source then change tab ∷ tabs else tab ∷ on_source source change tabs

-- What the message says of the puzzle that opens.
abbrev pub greeting : Bool → Bool → Option Message
greeting true resumed = solved_hint
greeting false true = say info (codes "Welcome back. Your letters and time are restored.")
greeting false false = say info (codes "Press i to start typing, or ? for help.")

module _ (env : Env) (disk : Disk) where
  unfoldable pub set_focus : Bool → ℕ → App → App
  set_focus focused now a = elim a.solve [
    | none ↦ a
    | some s ↦
        if focused
        then record a { solve = some (record s { game = resume now s.game }) }
        else save env disk now (record a { solve = some (record s { game = pause now s.game }) })
  ]

  abbrev stored_status : App → Option Store → PuzzleRef → Status
  stored_status a none puzzle = fresh
  stored_status a (some store) puzzle = status_of disk store a.attempts puzzle

  abbrev pub listing_of : App → Result SourceError (List PuzzleRef) → Listing
  listing_of a (ok refs) =
      ready
        (map (λ puzzle. record { puzzle = puzzle; status = stored_status a a.store puzzle }) refs)
  listing_of a (err e) = failed_with (describe e)

  unfoldable pub on_listed : SourceId → Result SourceError (List PuzzleRef) → App → App
  unfolding on_source move_selection
  on_listed source result a = elim a.browse [
    | none ↦ a
    | some b ↦ record a {
      browse = some (record b {
        tabs =
            on_source source
              (λ tab. move_selection (forward 0) (record tab { listing = listing_of a result }))
              b.tabs;
      });
    }
  ]

  abbrev pub saved_for : App → Option Store → PuzzleRef → Option Progress
  saved_for a none puzzle = none
  saved_for a (some store) puzzle = load_progress disk store a.attempts puzzle

  abbrev pub opened : Puzzle → Option Progress → Option Game
  opened built none = new_game built
  opened built (some saved) = with_progress built env.ops env.units saved

  unfoldable pub start_solving : PuzzleRef → Puzzle → ℕ → App → Option App
  unfolding new_solve
  start_solving puzzle built now a =
      let saved = saved_for a a.store puzzle in
      opened built saved >>= λ g.
      let g' = resume now g in
      some (record a {
        message = greeting g'.solved (present saved);
        solve = some (new_solve built g' puzzle);
        screen = solve_screen;
      })

  abbrev pub built_from : Result SourceError PuzzleData → Result Text Puzzle
  built_from (err e) = err (describe e)
  built_from (ok raw) = new_puzzle env.ops raw

  abbrev pub arrived : PuzzleRef → ℕ → App → Result Text Puzzle → Option App
  arrived puzzle now a (ok built) = start_solving puzzle built now a
  arrived puzzle now a (err e) = some (record a { message = say error e })

  abbrev pub wanted : Option PuzzleRef → PuzzleRef → Bool
  wanted none puzzle = false
  wanted (some p) puzzle = ref_eq p puzzle

  unfoldable pub on_fetched : PuzzleRef → Result SourceError PuzzleData → ℕ → App → Option App
  unfolding start_solving
  on_fetched puzzle result now a =
      if wanted a.loading puzzle
      then arrived puzzle now (record a { loading = none }) (built_from result)
      else some a

  unfoldable pub on_response : Response → ℕ → App → Option App
  unfolding on_listed on_fetched
  on_response (listed source result) now a = some (on_listed source result a)
  on_response (fetched puzzle result) now a = on_fetched puzzle result now a

  abbrev pub marked : PuzzleRef → Status → Option Browse → Option Browse
  marked puzzle reached none = none
  marked puzzle reached (some b) = some (record b { tabs = mark_tabs puzzle reached b.tabs })

  abbrev pub put_away : ℕ → App → Option Solve → App
  put_away now a none = a
  put_away now a (some s) = record a {
    solve = none;
    browse = marked s.puzzle (status (progress env.units now s.game)) a.browse;
  }

  unfoldable pub leave_puzzle : ℕ → App → App
  leave_puzzle now a =
      let a₁ = save env disk now a in
      let a₂ = put_away now a₁ a₁.solve in
      record a₂ { screen = if present a₂.browse then browse_screen else home_screen }

  solved_message : ℕ → Game → Option Message
  solved_message now g = say success (
      codes "Solved in "
      ++ (format_duration (elapsed_at now g / env.units)
          ++ codes "! :reset starts over, q goes back to the list."))

  -- After the key: a puzzle that is solved now, or full now and not solved.
  unfoldable pub noted : ℕ → Game → Solve × Outcome → Solve × Outcome
  unfolding solved_message
  noted now before (s, out) =
      if not before.solved && s.game.solved
      then (
        record s { mode = normal; pending = none; count = none },
        record out { save = true; message = solved_message now s.game },
      )
      else if out.changed
          && not (is_full s.built before)
          && is_full s.built s.game
          && not s.game.solved
      then (
        s,
        record out {
          message =
              say error
                (codes "Every square is filled, but something is wrong. Try :check puzzle.");
        },
      )
      else (s, out)

  abbrev pub is_normal : Mode → Bool
  is_normal normal = true
  is_normal _ = false

  -- The last three tests of `solve_key`: quit, leave or save.
  unfoldable pub finish : ℕ → Bool → Bool → Bool → App → App
  unfolding leave_puzzle
  finish now quits leaves saves a =
      if quits
      then quit env disk now a
      else if leaves
      then leave_puzzle now a
      else if saves
      then save env disk now a
      else a

  -- Letters that changed in normal mode are saved, and in another mode noted.
  abbrev pub shown : App → Solve × Outcome → App
  shown a (s, out) =
      let a₁ = record a {
        solve = some s;
        unsaved = if out.changed && not (is_normal s.mode) then true else a.unsaved;
        message = out.message;
      } in
      if out.help then open_help a₁ else a₁

  -- What the outcome asks of the application.
  unfoldable pub acted : ℕ → App → Solve × Outcome → App
  unfolding finish
  acted now a r =
      finish now r.1.quit r.1.leave (if r.1.changed && is_normal r.0.mode then true else r.1.save)
        (shown a r)

  unfoldable pub solve_key : Key → ℕ → App → Option App
  unfolding noted acted
  solve_key key now a = elim a.solve [
    | none ↦ some (record a { screen = browse_screen })
    | some s ↦ mode_key env now s.mode key s >>= λ r. some (acted now a (noted now s.game r))
  ]
