-- ===== src/Crossword/App/Sound.antt =====
-- Every call of a frontend keeps the application valid: its keys, its clicks, and what the fetch thread sends.
pub mod Events
pub mod Sessions
use scratchpad.Common.{
  ℕ, zero, suc, ◌+◌, ◌-◌, ◌%◌, ◌^◌, ◌≤◌, ◌<◌, min, ◌≡◌, refl, sym, ap, subst, Bool, true, false,
  not, ◌&&◌, ◌||◌, Option, none, some, List, [], ◌∷◌, ◌++◌, ◌==◌, ltb, leb, arith, if◌then◌else◌,
  if-cases, Bool-cases, Option-cases, ◌⊎◌, inl, inr, length, get_elem?, map,
}
use mathlib.Core.Option
use scratchpad.Common.Io.{Result, ok, err}
use scratchpad.Crossword.Puzzle.{Puzzle, PuzzleData, present}
use scratchpad.Crossword.Puzzle.Letters.{Text}
use scratchpad.Crossword.Puzzle.Build.{new_puzzle}
use scratchpad.Crossword.Game.{Game, ◌>>=◌, pause, resume, is_full, new_game}
use scratchpad.Crossword.Game.Motion.{click, goto_entry}
use scratchpad.Crossword.Game.Undo.{Progress, status, progress, with_progress}
use scratchpad.Crossword.Game.Sound.Moves.{
  IsPlayable, Ensures, Ensures-bind, Ensures-if, click-Moved, goto_entry-Moved,
}
use scratchpad.Crossword.Game.Sound.History.{IsSound}
use scratchpad.Crossword.Game.Sound.Kept.{Kept-Moved}
use scratchpad.Crossword.Game.Sound.Steps.{pause-Kept, resume-Kept}
use scratchpad.Crossword.Game.Sound.Start.{with_progress-IsSound, new_game-IsFresh}
use scratchpad.Crossword.Game.Sound.Built.{new_puzzle-IsPlayable}
use scratchpad.Crossword.Keys.{Key}
use scratchpad.Crossword.Sources.{SourceId, PuzzleRef, SourceError, Response, listed, fetched}
use scratchpad.Crossword.Store.{Store, Attempt, Disk, save_progress}
use scratchpad.Crossword.Solve.{Env, Solve, Outcome, Message, new_solve, reset_input, Mode, normal}
use scratchpad.Crossword.Solve.Commands.{mode_key}
use scratchpad.Crossword.Solve.Sound.Commands.{mode_key-IsSound}
use scratchpad.Crossword.App.{
  App, Browse, Tab, Listing, save, save_to, written, tick, due, quit, open_help, home_screen,
  browse_screen, solve_screen,
}
use scratchpad.Crossword.App.Listings.{Delta, forward, move_selection, mark_tabs}
use scratchpad.Crossword.App.Solving.{
  click_cell, click_clue, set_focus, on_listed, listing_of, saved_for, opened, start_solving,
  greeting, built_from, arrived, wanted, on_fetched, on_response, marked, put_away, leave_puzzle,
  noted, is_normal, acted, solve_key, on_source,
}
use scratchpad.Crossword.App.Valid.{
  BrowseOk, PlayOk, IsValid, with_lists, with_play, with_scroll, move_selection-TabOk,
}
use scratchpad.Crossword.App.Valid.Lists.{
  length-mark_tabs, mark_tabs-AllTabs, length-on_source, on_source-AllTabs,
}

module _ (env : Env) (disk : Disk) where
  written-IsValid :
      (a : App) (r : List Attempt × Option Text) → IsValid a → IsValid (written env disk a r)
  written-IsValid a (log, none) v = v
  written-IsValid a (log, some e) v = v

  pub save-IsValid : (now : ℕ) (a : App) → IsValid a → IsValid (save env disk now a)
  unfolding save
  save-IsValid now a v = go a.store a.solve
    where
      go :
          (st : Option Store) (s : Option Solve)
          → IsValid (save_to env disk now (record a { unsaved = false; last_save = some now }) st s)
      go none s = v
      go (some st) none = v
      go (some st) (some s) =
          written-IsValid (record a { unsaved = false; last_save = some now })
            (save_progress disk st a.attempts s.puzzle (progress env.units now s.game)) v

  pub tick-IsValid : (now : ℕ) (a : App) → IsValid a → IsValid (tick env disk now a)
  unfolding tick
  tick-IsValid now a v =
      if-cases IsValid (a.unsaved && due env disk now a.last_save) _ _ (λ _. save-IsValid now a v)
        (λ _. v)

  pub quit-IsValid : (now : ℕ) (a : App) → IsValid a → IsValid (quit env disk now a)
  unfolding quit
  quit-IsValid now a v = save-IsValid now a v

module _ (a : App) (v : IsValid a) where
  pub click_cell-IsValid : (cell : ℕ) → IsValid (click_cell cell a)
  unfolding click_cell reset_input
  click_cell-IsValid cell = go a.solve v.play
    where
      go :
          (o : Option Solve)
          → PlayOk o
          → IsValid (elim o as (λ _. App) [
            | none ↦ a
            | some s ↦
                let s' = reset_input s in
                record a { solve = some (record s' { game = (click s'.built cell s'.game).0 }) }
          ])
      go none h = v
      go (some s) (p, k) =
          with_play v (p, (Kept-Moved k (click-Moved s.built p s.game k.here cell)).sound)

  pub click_clue-IsValid : (entry : ℕ) → Ensures IsValid (click_clue entry a)
  unfolding click_clue reset_input
  click_clue-IsValid entry = go a.solve v.play
    where
      go :
          (o : Option Solve)
          → PlayOk o
          → Ensures IsValid (elim o as (λ _. Option App) [
            | none ↦ some a
            | some s ↦
                let s' = reset_input s in
                goto_entry s'.built entry s'.game >>= λ g.
                some (record a { solve = some (record s' { game = g }) })
          ])
      go none h = v
      go (some s) (p, k) = Ensures-bind IsValid (goto_entry s.built entry s.game) _ (λ g e.
          with_play v
            (p, (Kept-Moved k (rw e at (goto_entry-Moved s.built p s.game k.here entry))).sound))

module _ (env : Env) (disk : Disk) (a : App) (v : IsValid a) where
  pub set_focus-IsValid : (focused : Bool) (now : ℕ) → IsValid (set_focus env disk focused now a)
  unfolding set_focus
  set_focus-IsValid focused now = go a.solve v.play
    where
      go :
          (o : Option Solve)
          → PlayOk o
          → IsValid (elim o as (λ _. App) [
            | none ↦ a
            | some s ↦
                if focused
                then record a { solve = some (record s { game = resume now s.game }) }
                else save env disk now
                    (record a { solve = some (record s { game = pause now s.game }) })
          ])
      go none h = v
      go (some s) (p, k) =
          if-cases IsValid focused _ _
            (λ _. with_play v (p, (resume-Kept s.built s.game k now).sound))
            (λ _.
              save-IsValid env disk now
                (record a { solve = some (record s { game = pause now s.game }) })
                (with_play v (p, (pause-Kept s.built s.game k now).sound)))
