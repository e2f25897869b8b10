-- ===== src/Crossword/App/Saves.antt =====
-- When the progress is written: what a key changed is written at once, or noted as unsaved for a tick.
use scratchpad.Common.{
  ℕ, ◌-◌, ◌*◌, ◌<◌, ◌≡◌, refl, sym, true, false, ◌&&◌, Option, none, some, List, ◌∷◌, ◌++◌, codes,
  arith, if-cases, ◌⊎◌, inl, inr, subst,
}
use scratchpad.Crossword.Puzzle.Letters.{Text}
use scratchpad.Crossword.Game.{Game}
use scratchpad.Crossword.Game.Undo.{progress}
use scratchpad.Crossword.Store.{Store, Attempt, Disk, FilePath, writes, file, save_progress}
use scratchpad.Crossword.Store.Paths.{attempt, save_progress-attempts}
use scratchpad.Crossword.Solve.{Env, Solve, error, say}
use scratchpad.Crossword.App.{App, save, save_to, written, tick, due}

-- After the attempts of `before` the progress of the puzzle is in its file, or the disk reported an
-- error, the message says so, and no file has changed.
abbrev pub Saved : Env → ℕ → Solve → FilePath → List Attempt → App → Type 0
Saved env now s path before a =
    (writes a.attempts ≡ (path, progress env.units now s.game) ∷ writes before)
    ⊎ ((e : Text) × (a.message ≡ say error (codes "Could not save progress: " ++ e))
        × (writes a.attempts ≡ writes before))

module _ (env : Env) (disk : Disk) (now : ℕ) (store : Store) (s : Solve) (path : FilePath)
    (there : file store.progress_dir s.puzzle ≡ some path) where
  written-Saved :
      (a : App) (failed : Option Text)
      → Saved env now s path a.attempts (
          written env disk a
            (attempt path (progress env.units now s.game) failed ∷ a.attempts, failed))
  written-Saved a none = inl refl
  written-Saved a (some e) = inr (e, refl, refl)

  save_to-Saved :
      (a : App) → Saved env now s path a.attempts (save_to env disk now a (some store) (some s))
  save_to-Saved a =
      let saved = progress env.units now s.game in
      subst (λ r. Saved env now s path a.attempts (written env disk a r))
        (sym (save_progress-attempts disk store a.attempts s.puzzle saved there))
        (written-Saved a (disk.failure a.attempts path saved))

  -- A save of an open puzzle whose file has a path writes its progress, or reports the disk's error.
  pub save-Saved :
      (a : App)
      → a.store ≡ some store
      → a.solve ≡ some s
      → Saved env now s path a.attempts (save env disk now a)
  unfolding save
  save-Saved a st so =
      let a₁ = record a { unsaved = false; last_save = some now } in
      subst (λ o. Saved env now s path a.attempts (save_to env disk now a₁ o a.solve)) (sym st)
        (subst (λ o. Saved env now s path a.attempts (save_to env disk now a₁ (some store) o))
          (sym so) (save_to-Saved a₁))

module _ (env : Env) (disk : Disk) (now : ℕ) where
  unsaved-written :
      (a : App) (r : List Attempt × Option Text) → (written env disk a r).unsaved ≡ a.unsaved
  unsaved-written a (log, none) = refl
  unsaved-written a (log, some e) = refl

  unsaved-save : (a : App) → (save env disk now a).unsaved ≡ false
  unfolding save
  unsaved-save a = go a.store a.solve
    where
      go :
          (st : Option Store) (s : Option Solve)
          → (save_to env disk now (record a { unsaved = false; last_save = some now }) st s).unsaved
            ≡ false
      go none s = refl
      go (some st) none = refl
      go (some st) (some s) =
          unsaved-written (record a { unsaved = false; last_save = some now })
            (save_progress disk st a.attempts s.puzzle (progress env.units now s.game))

  not_due :
      (o : Option ℕ)
      → due env disk now o ≡ false
      → (t : ℕ) × (o ≡ some t) × (now - t < 10 * env.units)
  not_due none h = absurd (cc)
  not_due (some t) h = (t, refl, ground arith)

  -- Letters that are unsaved after a tick are so because a save was made less than ten seconds before it.
  pub tick-unsaved :
      (a : App)
      → (tick env disk now a).unsaved ≡ true
      → (t : ℕ) × (a.last_save ≡ some t) × (now - t < 10 * env.units)
  unfolding tick
  tick-unsaved a h =
      if-cases
        (λ (x : App).
          x.unsaved ≡ true → (t : ℕ) × (a.last_save ≡ some t) × (now - t < 10 * env.units))
        (a.unsaved && due env disk now a.last_save) (save env disk now a) a
        (λ _ q. absurd (let saved = unsaved-save a in cc)) (λ e q. not_due a.last_save (rw q at e))
        h
