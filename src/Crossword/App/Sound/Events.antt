-- ===== src/Crossword/App/Sound/Events.antt =====
-- A puzzle that arrives, the keys of the solve screen, and every call of a frontend keep it valid.
use scratchpad.Common.{
  ℕ, ◌<◌, ◌≡◌, refl, sym, subst, Bool, not, ◌&&◌, Option, none, some, List, arith, if-cases,
}
use scratchpad.Common.Io.{Result, ok, err}
use scratchpad.Crossword.Puzzle.{Puzzle, PuzzleData}
use scratchpad.Crossword.Puzzle.Letters.{Text}
use scratchpad.Crossword.Puzzle.Build.{new_puzzle}
use scratchpad.Crossword.Game.{Game, ◌>>=◌, is_full, new_game}
use scratchpad.Crossword.Game.Undo.{Progress, status, progress}
use scratchpad.Crossword.Game.Sound.Moves.{IsPlayable, Ensures, Ensures-bind, Ensures-if}
use scratchpad.Crossword.Game.Sound.History.{IsSound}
use scratchpad.Crossword.Game.Sound.Steps.{resume-Kept}
use scratchpad.Crossword.Game.Sound.Start.{with_progress-IsSound, new_game-IsFresh, IsFresh}
use scratchpad.Crossword.Game.Sound.Built.{new_puzzle-IsPlayable}
use scratchpad.Crossword.Keys.{Key}
use scratchpad.Crossword.Sources.{SourceId, PuzzleRef, SourceError, Response, listed, fetched}
use scratchpad.Crossword.Store.{Disk}
use scratchpad.Crossword.Solve.{Env, Solve, Outcome, new_solve}
use scratchpad.Crossword.Solve.Commands.{mode_key}
use scratchpad.Crossword.Solve.Sound.Commands.{mode_key-IsSound}
use scratchpad.Crossword.App.{App, Browse, Tab, save, open_help, browse_screen}
use scratchpad.Crossword.App.Listings.{forward, move_selection}
use scratchpad.Crossword.App.Solving.{
  on_listed, listing_of, saved_for, opened, start_solving, built_from, arrived, wanted, on_fetched,
  on_response, marked, put_away, leave_puzzle, noted, finish, shown, acted, solve_key, on_source,
}
use scratchpad.Crossword.App.Sound.{save-IsValid, quit-IsValid}
use scratchpad.Crossword.App.Valid.{
  BrowseOk, PlayOk, IsValid, with_lists, with_play, with_scroll, move_selection-TabOk,
}
use scratchpad.Crossword.App.Valid.Lists.{
  length-mark_tabs, mark_tabs-AllTabs, length-on_source, on_source-AllTabs,
}

module _ (env : Env) (disk : Disk) (a : App) (v : IsValid a) where
  on_listed-IsValid :
      (source : SourceId) (r : Result SourceError (List PuzzleRef))
      → IsValid (on_listed env disk source r a)
  unfolding on_listed
  on_listed-IsValid source r = go a.browse v.lists
    where
      fill : Tab → Tab
      fill tab = move_selection (forward 0) (record tab { listing = listing_of env disk a r })

      go :
          (o : Option Browse)
          → BrowseOk o
          → IsValid (elim o as (λ _. App) [
            | none ↦ a
            | some b ↦ record a { browse = some (record b { tabs = on_source source fill b.tabs }) }
          ])
      go none h = v
      go (some b) (inside, tabs) =
          let filled = λ (t : Tab).
            move_selection-TabOk (forward 0) (record t { listing = listing_of env disk a r }) in
          with_lists v (
            subst (λ n. b.active < n) (sym (length-on_source source fill filled b.tabs)) inside,
            on_source-AllTabs source fill filled b.tabs tabs,
          )

  opened-IsSound :
      (p : Puzzle) (saved : Option Progress)
      → IsPlayable p
      → Ensures (IsSound p) (opened env disk p saved)
  opened-IsSound p (some saved) h = with_progress-IsSound p env.ops env.units saved h
  opened-IsSound p none h = fresh (new_game p) (new_game-IsFresh p h)
    where
      fresh : (o : Option Game) → Ensures (IsFresh p) o → Ensures (IsSound p) o
      fresh none q = tt
      fresh (some g) q = q.0

  start_solving-IsValid :
      (puzzle : PuzzleRef) (p : Puzzle) (now : ℕ)
      → IsPlayable p
      → Ensures IsValid (start_solving env disk puzzle p now a)
  unfolding start_solving new_solve
  start_solving-IsValid puzzle p now h =
      let saved = saved_for env disk a a.store puzzle in
      Ensures-bind IsValid (opened env disk p saved) _
        (λ g e. with_play v (h, (resume-Kept p g (rw e at (opened-IsSound p saved h)) now).sound))

module _ (env : Env) (disk : Disk) (a : App) (v : IsValid a) where
  on_fetched-IsValid :
      (puzzle : PuzzleRef) (r : Result SourceError PuzzleData) (now : ℕ)
      → Ensures IsValid (on_fetched env disk puzzle r now a)
  unfolding on_fetched
  on_fetched-IsValid puzzle r now =
      Ensures-if IsValid (wanted env disk a.loading puzzle) _ _ (λ _. arrives r) (λ _. v)
    where
      built :
          (o : Result Text Puzzle)
          → ((p : Puzzle) → o ≡ ok p → IsPlayable p)
          → Ensures IsValid (arrived env disk puzzle now (record a { loading = none }) o)
      built (err e) h = v
      built (ok p) h =
          start_solving-IsValid env disk (record a { loading = none }) v puzzle p now (h p refl)

      arrives :
          (r : Result SourceError PuzzleData)
          → Ensures IsValid
              (arrived env disk puzzle now (record a { loading = none }) (built_from env disk r))
      arrives (err e) = v
      arrives (ok raw) = built (new_puzzle env.ops raw) (λ p e. new_puzzle-IsPlayable env.ops raw e)

  pub on_response-IsValid :
      (r : Response) (now : ℕ) → Ensures IsValid (on_response env disk r now a)
  unfolding on_response
  on_response-IsValid (listed source r) now = on_listed-IsValid env disk a v source r
  on_response-IsValid (fetched puzzle r) now = on_fetched-IsValid puzzle r now

module _ (env : Env) (disk : Disk) where
  put_away-IsValid :
      (now : ℕ) (a : App) (o : Option Solve) → IsValid a → IsValid (put_away env disk now a o)
  put_away-IsValid now a none v = v
  put_away-IsValid now a (some s) v = with_play (with_lists v (kept a.browse v.lists)) tt
    where
      kept :
          (o : Option Browse)
          → BrowseOk o
          → BrowseOk (marked env disk s.puzzle (status (progress env.units now s.game)) o)
      kept none h = tt
      kept (some b) (inside, tabs) =
          let reached = status (progress env.units now s.game) in
          (
            subst (λ n. b.active < n) (sym (length-mark_tabs s.puzzle reached b.tabs)) inside,
            mark_tabs-AllTabs s.puzzle reached b.tabs tabs,
          )

  pub leave_puzzle-IsValid : (now : ℕ) (a : App) → IsValid a → IsValid (leave_puzzle env disk now a)
  unfolding leave_puzzle
  leave_puzzle-IsValid now a v =
      let a₁ = save env disk now a in
      put_away-IsValid now a₁ a₁.solve (save-IsValid env disk now a v)

  noted-PlayOk :
      (now : ℕ) (before : Game) (r : Solve × Outcome)
      → PlayOk (some r.0)
      → PlayOk (some (noted env disk now before r).0)
  unfolding noted
  noted-PlayOk now before (s, out) h =
      if-cases (λ (r : Solve × Outcome). PlayOk (some r.0)) (not before.solved && s.game.solved) _ _
        (λ _. h)
        (λ _.
          if-cases (λ (r : Solve × Outcome). PlayOk (some r.0))
            (out.changed
              && not (is_full s.built before)
              && is_full s.built s.game
              && not s.game.solved)
            _ _ (λ _. h) (λ _. h))

  finish-IsValid :
      (now : ℕ) (quits leaves saves : Bool) (a : App)
      → IsValid a
      → IsValid (finish env disk now quits leaves saves a)
  unfolding finish
  finish-IsValid now quits leaves saves a v =
      if-cases IsValid quits _ _ (λ _. quit-IsValid env disk now a v)
        (λ _.
          if-cases IsValid leaves _ _ (λ _. leave_puzzle-IsValid now a v)
            (λ _. if-cases IsValid saves _ _ (λ _. save-IsValid env disk now a v) (λ _. v)))

  acted-IsValid :
      (now : ℕ) (a : App) (r : Solve × Outcome)
      → IsValid a
      → PlayOk (some r.0)
      → IsValid (acted env disk now a r)
  unfolding acted open_help
  acted-IsValid now a (s, out) v h =
      let v₁ = with_play v h in
      finish-IsValid now out.quit out.leave _ (shown env disk a (s, out))
        (if-cases IsValid out.help _ _ (λ _. with_scroll v₁ (omega arith)) (λ _. v₁))

  pub solve_key-IsValid :
      (key : Key) (now : ℕ) (a : App) → IsValid a → Ensures IsValid (solve_key env disk key now a)
  unfolding solve_key
  solve_key-IsValid key now a v = go a.solve v.play
    where
      go :
          (o : Option Solve)
          → PlayOk o
          → Ensures IsValid (elim o as (λ _. Option App) [
            | none ↦ some (record a { screen = browse_screen })
            | some s ↦ mode_key env now s.mode key s >>= λ r.
                some (acted env disk now a (noted env disk now s.game r))
          ])
      go none h = v
      go (some s) (p, k) = Ensures-bind IsValid (mode_key env now s.mode key s) _ (λ r e.
          let (same, sound) = mode_key-IsSound env now key s p k s.mode e in
          let h =
            noted-PlayOk now s.game r
              (subst (λ x. IsPlayable x × IsSound x r.0.game) (sym same) (p, sound)) in
          acted-IsValid now a (noted env disk now s.game r) v h)
