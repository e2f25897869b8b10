-- ===== src/Crossword/Game/Sound/Play.antt =====
-- Every call, and every sequence of calls, keeps the invariant and the locked squares.
use scratchpad.Common.{
  ℕ, zero, suc, ◌≡◌, refl, true, false, Bool, Option, none, some, List, [], ◌∷◌, arith, Bool-cases,
  inl, inr,
}
use scratchpad.Crossword.Puzzle.Letters.{TextOps}
use scratchpad.Crossword.Puzzle.{Puzzle, is_open}
use scratchpad.Crossword.Game.{Game, is_locked, set_cursor, letter_at, mark_at}
use scratchpad.Crossword.Game.Motion.{
  Heading, beside, room, seek_open, step, step_in_entry, goto_clue,
}
use scratchpad.Crossword.Game.Edit.{clear_cell, check, reveal}
use scratchpad.Crossword.Game.Commands.{
  Motion, Command, left_by, move, run, play, stepping, stepping_in_entry, toggling, to_next_start,
  to_prev_start, to_end, to_entry_start, to_entry_end, to_first, to_last, to_open_entry, clicking,
  to_entry, to_clue, moving, typing, erasing, clearing_onward, clearing_cell, replacing,
  clearing_to_end, clearing_entry, clearing, checking, revealing, checkpointing,
  dropping_checkpoint, undoing, redoing, pausing, resuming,
}
use scratchpad.Crossword.Game.Sound.Moves
use scratchpad.Crossword.Game.Sound.Moves.{IsPlayable, Ensures, Ensures-bind, Moved}
use scratchpad.Crossword.Game.Sound.History.{IsSound}
use scratchpad.Crossword.Game.Sound.Kept.{Kept, Kept-refl, Kept-trans, Kept-Moved, put-Kept}
use scratchpad.Crossword.Game.Sound.Ops
use scratchpad.Crossword.Game.Sound.Steps

seek_open-open :
    (p : Puzzle) (h : Heading) (n c : ℕ) {d : ℕ} → seek_open p h n c ≡ some d → is_open p d ≡ true
unfolding seek_open
seek_open-open p h zero c e = cc
seek_open-open p h (suc n) c e = elim (Bool-cases (is_open p (beside p c h))) [
  | inl a ↦ ground arith
  | inr a ↦ seek_open-open p h n (beside p c h) (rw a at e)
]

pub Ensures-left_by :
    (P : Game → Type 0) {A : Type 0} (o : Option (Game × A))
    → Ensures (λ r. P r.0) o
    → Ensures P (left_by o)
Ensures-left_by P none h = tt
Ensures-left_by P (some _) h = h

pub Ensures-then :
    {P Q : Game → Type 0} → ((g : Game) → P g → Q g) → (o : Option Game) → Ensures P o → Ensures Q o
Ensures-then f none h = tt
Ensures-then f (some g) h = f g h

module _ (p : Puzzle) (ok : IsPlayable p) (g : Game) (here : is_open p g.cursor ≡ true) where
  step-Moved : (h : Heading) → Moved p g (step p h g).0
  unfolding step
  step-Moved h = go (seek_open p h (room p g.cursor h) g.cursor) refl
    where
      go :
          (o : Option ℕ)
          → seek_open p h (room p g.cursor h) g.cursor ≡ o
          → Moved p g
              (elim o as (λ _. Game × Bool) [
                | some c ↦ (set_cursor p c g, true)
                | none ↦ (g, false)
              ]).0
      go none a = (g.cursor, g.direction, refl, here)
      go (some c) a = Moves.set_cursor-Moved p ok g here c (seek_open-open p h _ g.cursor a)

  pub move-Moved : (m : Motion) → Ensures (Moved p g) (move p m g)
  unfolding move
  move-Moved (stepping h) = step-Moved h
  move-Moved (stepping_in_entry forward) =
      Ensures-left_by (Moved p g) (step_in_entry p forward g)
        (Moves.step_in_entry-Moved p ok g here forward)
  move-Moved toggling = Moves.toggle_direction-Moved p ok g here
  move-Moved to_next_start = Moves.next_entry_start-Moved p ok g here
  move-Moved to_prev_start = Moves.prev_entry_start-Moved p ok g here
  move-Moved to_end = Moves.entry_end_motion-Moved p ok g here
  move-Moved to_entry_start = Moves.goto_entry_start-Moved p ok g here
  move-Moved to_entry_end = Moves.goto_entry_end-Moved p ok g here
  move-Moved to_first = Moves.goto_first-Moved p ok g here
  move-Moved to_last = Moves.goto_last-Moved p ok g here
  move-Moved (to_open_entry forward) = Moves.next_open_entry-Moved p ok g here forward
  move-Moved (clicking c) = Moves.click-Moved p ok g here c
  move-Moved (to_entry e) = Moves.goto_entry-Moved p ok g here e
  move-Moved (to_clue d n) =
      Ensures-left_by (Moved p g) (goto_clue p d n g) (Moves.goto_clue-Moved p ok g here d n)

pub Kept-Ensures-Moved :
    {p : Puzzle} {g : Game} (o : Option Game)
    → IsSound p g
    → Ensures (Moved p g) o
    → Ensures (Kept p g) o
Kept-Ensures-Moved none s h = tt
Kept-Ensures-Moved (some g') s h = Kept-Moved s h

module _ (p : Puzzle) (ops : TextOps) (ok : IsPlayable p) where
  pub run-Kept : (c : Command) (g : Game) → IsSound p g → Ensures (Kept p g) (run p ops c g)
  unfolding run clear_cell
  run-Kept (moving m) g s = Kept-Ensures-Moved (move p m g) s (move-Moved p ok g s.here m)
  run-Kept (typing l now) g s = Ops.type_letters-Kept p ok g s ops l now
  run-Kept erasing g s = Ops.backspace-Kept p ok g s
  run-Kept clearing_onward g s = Ops.clear_and_advance-Kept p ok g s
  run-Kept clearing_cell g s = put-Kept p g s g.cursor []
  run-Kept (replacing l now) g s = Ops.replace_cell-Kept p ok g s ops l now
  run-Kept clearing_to_end g s = Ops.clear_to_entry_end-Kept p ok g s
  run-Kept clearing_entry g s = Ops.clear_entry-Kept p ok g s
  run-Kept (clearing scope) g s = Ops.clear-Kept p ok g s scope
  run-Kept (checking scope) g s =
      Ensures-left_by (Kept p g) (check p scope g) (Ops.check-Kept p ok g s scope)
  run-Kept (revealing scope now) g s =
      Ensures-left_by (Kept p g) (reveal p scope now g) (Ops.reveal-Kept p ok g s scope now)
  run-Kept checkpointing g s = Steps.checkpoint-Kept p g s
  run-Kept dropping_checkpoint g s = Steps.drop_unchanged_checkpoint-Kept p g s
  run-Kept undoing g s = Steps.step_back-Kept p g s
  run-Kept (redoing now) g s = Steps.step_forward-Kept p g s now
  run-Kept (pausing now) g s = Steps.pause-Kept p g s now
  run-Kept (resuming now) g s = Steps.resume-Kept p g s now

  play-Kept : (cs : List Command) (g : Game) → IsSound p g → Ensures (Kept p g) (play p ops cs g)
  unfolding play
  play-Kept [] g s = Kept-refl s
  play-Kept (c ∷ cs) g s = Ensures-bind (Kept p g) (run p ops c g) _ (λ g' a.
      let k = rw a at (run-Kept c g s) in
      Ensures-then (λ g''. Kept-trans k) (play p ops cs g') (play-Kept cs g' k.sound))

  -- A sequence of calls that returns takes a sound game on a playable puzzle to a sound game.
  pub play-IsSound :
      (cs : List Command) {g g' : Game} → IsSound p g → play p ops cs g ≡ some g' → IsSound p g'
  play-IsSound cs {g} s e = let k = play-Kept cs g s in (rw e at k).sound

  -- In a sound game on a playable puzzle, a square that is locked keeps its letters and its lock
  -- through every sequence of calls that returns, undos and redos among them.
  pub play-locked :
      (cs : List Command) {g g' : Game} (c : ℕ)
      → IsSound p g
      → is_locked (mark_at g.marks c) ≡ true
      → play p ops cs g ≡ some g'
      → (letter_at g'.fill c ≡ letter_at g.fill c) × (is_locked (mark_at g'.marks c) ≡ true)
  play-locked cs {g} c s locked e =
      let k = play-Kept cs g s in
      let (q, stays) = (rw e at k).steps.at c (s.squares.ok c) in
      let (l, same) = stays locked in (same, l)
