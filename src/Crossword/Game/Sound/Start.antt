-- ===== src/Crossword/Game/Sound/Start.antt =====
-- The ways a game starts set up the invariant.
use scratchpad.Common.{
  ◌*◌, ℕ, zero, suc, ◌+◌, ◌≡◌, refl, sym, ◌∙◌, Bool, true, false, not, ◌&&◌, ◌||◌, Option, none,
  some, List, [], ◌∷◌, arith, length, Option-cases, inl, inr, ◌==◌, replicate, length-replicate,
  get_or-replicate, get_elem?, if-cases,
}
use scratchpad.Crossword.Puzzle.Letters.{Text, is_empty, TextOps, normalized}
use scratchpad.Crossword.Puzzle.{
  Puzzle, Direction, Entry, is_open, present, accepts, len, entry_at, other,
}
use scratchpad.Crossword.Game.{
  Game, Mark, unmarked, wrong, correct, revealed, letter_at, mark_at, is_correct, new_game,
  entry_cells, cells_of,
}
use scratchpad.Crossword.Game.Edit.{reset}
use scratchpad.Crossword.Game.Undo.{
  Progress, resumed_mark, resume_squares, resume_game, with_progress,
}
use scratchpad.Crossword.Game.Sound.{SquareOk, Squares}
use scratchpad.Crossword.Game.Sound.Moves.{AllOpen, IsPlayable, Ensures, goto_first-Moved}
use scratchpad.Crossword.Game.Sound.History.{IsSound}
use scratchpad.Crossword.Game.Sound.Kept.{Kept-Moved}

-- A blank board.
blank-Squares : (p : Puzzle) → Squares p (replicate (len p) []) (replicate (len p) unmarked)
blank-Squares p = record {
  fill_len = length-replicate (len p) [];
  marks_len = length-replicate (len p) unmarked;
  ok = λ c. rw (get_or-replicate (len p) unmarked c) tt;
}

-- The state that `new` and `reset` start from, with the cursor on an open square.
blank-IsSound :
    (p : Puzzle) (g : Game)
    → g.fill ≡ replicate (len p) []
    → g.marks ≡ replicate (len p) unmarked
    → g.solved ≡ false
    → g.undo ≡ []
    → g.redo ≡ []
    → is_open p g.cursor ≡ true
    → IsSound p g
blank-IsSound p g f m s u r h = record {
  squares = rw (f, m) (blank-Squares p);
  here = h;
  undo_ok = rw u tt;
  redo_ok = rw r tt;
  bounded = rw (u, r) (omega arith);
  solved_right = λ q. absurd (cc);
}

-- A reset of a sound game on a playable puzzle leaves a sound game.
pub reset-IsSound :
    (p : Puzzle) (ok : IsPlayable p) (g : Game) (now : ℕ) → IsSound p g → IsSound p (reset p now g)
unfolding reset
reset-IsSound p ok g now s =
    let g₀ = record g {
      fill = replicate (len p) [];
      marks = replicate (len p) unmarked;
      solved = false;
      elapsed = 0;
      running_since = some now;
      undo = [];
      redo = [];
    } in
    let s₀ = blank-IsSound p g₀ refl refl refl refl refl s.here in
    (Kept-Moved s₀ (goto_first-Moved p ok g₀ s₀.here)).sound

-- A sound game with no history.
abbrev pub IsFresh : Puzzle → Game → Type 0
IsFresh p g = IsSound p g × (g.undo ≡ []) × (g.redo ≡ [])

abbrev blank_game : Puzzle → ℕ → Direction → Game
blank_game p c d = record {
  fill = replicate (len p) [];
  marks = replicate (len p) unmarked;
  cursor = c;
  direction = d;
  solved = false;
  elapsed = 0;
  running_since = none;
  undo = [];
  redo = [];
}

-- The game that a puzzle starts with is sound.
pub new_game-IsFresh : (p : Puzzle) → IsPlayable p → Ensures (IsFresh p) (new_game p)
unfolding new_game entry_cells
new_game-IsFresh p ok = first p.entries (ok.entry_open 0)
  where
    begin :
        (d : Direction) (cells : List ℕ)
        → AllOpen p cells
        → Ensures
            (IsFresh p)
            (elim cells as (λ _. Option Game) [ [] ↦ none | c ∷ _ ↦ some (blank_game p c d) ])
    begin d [] h = tt
    begin d (c ∷ cells) h =
        (blank-IsSound p (blank_game p c d) refl refl refl refl refl h.0, refl, refl)

    first :
        (es : List Entry)
        → AllOpen p (cells_of (get_elem? es 0))
        → Ensures (IsFresh p) (elim es as (λ _. Option Game) [
          | [] ↦ none
          | e ∷ _ ↦ elim e.cells as (λ _. Option Game) [
            | [] ↦ none
            | c ∷ _ ↦ some (blank_game p c e.direction)
          ]
        ])
    first [] h = tt
    first (e ∷ es) h = begin e.direction e.cells h

resumed_mark-SquareOk :
    (p : Puzzle) (c : ℕ) (l : Text) (m : Mark) → SquareOk p c l (resumed_mark (accepts p c l) l m)
unfolding resumed_mark
resumed_mark-SquareOk p c l unmarked = tt
resumed_mark-SquareOk p c l wrong =
    if-cases (SquareOk p c l) (accepts p c l || is_empty l) unmarked wrong (λ _. tt)
      (λ h. ground arith)
resumed_mark-SquareOk p c l correct =
    if-cases (SquareOk p c l) (accepts p c l) correct unmarked (λ h. h) (λ _. tt)
resumed_mark-SquareOk p c l revealed =
    if-cases (SquareOk p c l) (accepts p c l) revealed unmarked (λ h. h) (λ _. tt)

module _ (p : Puzzle) (ops : TextOps) where
  resume_squares-at :
      (c : ℕ) (fill : List Text) (marks : List Mark) (j : ℕ)
      → let r = resume_squares p ops c fill marks in
        SquareOk p (c + j) (letter_at r.0 j) (mark_at r.1 j)
  unfolding resume_squares
  resume_squares-at c [] marks j = tt
  resume_squares-at c (l ∷ fill) [] j = tt
  resume_squares-at c (l ∷ fill) (m ∷ marks) zero =
      let e : c + 0 ≡ c = omega arith in
      rw e (
        if-cases (λ (r : List Text × List Mark). SquareOk p c (letter_at r.0 0) (mark_at r.1 0))
          (is_open p c) _ _ (λ _. resumed_mark-SquareOk p c (normalized ops l) m) (λ _. tt))
  resume_squares-at c (l ∷ fill) (m ∷ marks) (suc j) =
      let e : c + suc j ≡ (c + 1) + j = omega arith in
      let rest = resume_squares-at (c + 1) fill marks j in
      rw e (
        if-cases
          (λ (r : List Text × List Mark).
            SquareOk p ((c + 1) + j) (letter_at r.0 (suc j)) (mark_at r.1 (suc j)))
          (is_open p c) _ _ (λ _. rest) (λ _. rest))

  length-resume_squares :
      (c : ℕ) (fill : List Text) (marks : List Mark)
      → length fill ≡ length marks
      → let r = resume_squares p ops c fill marks in
        (length r.0 ≡ length fill) × (length r.1 ≡ length marks)
  unfolding resume_squares
  length-resume_squares c [] [] e = (refl, refl)
  length-resume_squares c (l ∷ fill) (m ∷ marks) e =
      ground (arith, length-resume_squares (c + 1) fill marks)
  length-resume_squares c [] (m ∷ marks) e = absurd (omega arith)
  length-resume_squares c (l ∷ fill) [] e = absurd (omega arith)

resumed-IsSound :
    (p : Puzzle) (g : Game) (f : List Text) (m : List Mark) (c t : ℕ) (d : Direction)
    (solved : Bool)
    → IsFresh p g
    → Squares p f m
    → is_open p c ≡ true
    → (solved ≡ true → is_correct p (record g { fill = f; marks = m }) ≡ true)
    → IsSound p
        (record g { fill = f; marks = m; cursor = c; direction = d; elapsed = t; solved = solved })
unfolding is_correct
resumed-IsSound p g f m c t d solved (s, u, r) q h right = record {
  squares = q;
  here = h;
  undo_ok = rw u tt;
  redo_ok = rw r tt;
  bounded = rw (u, r) (omega arith);
  solved_right = right;
}

resume_game-IsSound :
    (p : Puzzle) (ops : TextOps) (units : ℕ) (saved : Progress) (g : Game)
    → IsFresh p g
    → IsSound p (resume_game p ops units saved g)
unfolding resume_game is_correct
resume_game-IsSound p ops units saved g h =
    if-cases (IsSound p) (not (length saved.fill == len p) || not (length saved.marks == len p)) _ _
      (λ _. h.0)
      (λ fits.
        let r = resume_squares p ops 0 saved.fill saved.marks in
        let same : (length saved.fill ≡ len p) × (length saved.marks ≡ len p) = ground arith in
        let (a, b) = length-resume_squares p ops 0 saved.fill saved.marks (same.0 ∙ sym same.1) in
        let q : Squares p r.0 r.1 = record {
          fill_len = a ∙ same.0;
          marks_len = b ∙ same.1;
          ok = λ c.
              let e : 0 + c ≡ c = omega arith in
              rw e at (resume_squares-at p ops 0 saved.fill saved.marks c);
        } in
        let t = saved.elapsed_secs * units in
        let lands = λ (c : ℕ) (d : Direction) (o : is_open p c ≡ true).
          resumed-IsSound p g r.0 r.1 c t d _ h q o (λ w. both saved.solved w) in
        if-cases
          (λ (x : Game).
            IsSound p (record x { elapsed = t; solved = saved.solved && is_correct p x }))
          (is_open p saved.cursor) _ _
          (λ o.
            if-cases
              (λ (x : Game).
                IsSound p (record x { elapsed = t; solved = saved.solved && is_correct p x }))
              (present (entry_at p saved.cursor saved.direction)) _ _
              (λ _. lands saved.cursor saved.direction o)
              (λ _. lands saved.cursor (other saved.direction) o))
          (λ _. lands g.cursor g.direction h.0.here))
  where
    both : (a : Bool) {b : Bool} → (a && b) ≡ true → b ≡ true
    both a w = ground arith

-- A game resumed from any saved progress is sound: a saved mark that no longer fits its letter, and
-- progress of another size, are dropped.
pub with_progress-IsSound :
    (p : Puzzle) (ops : TextOps) (units : ℕ) (saved : Progress)
    → IsPlayable p
    → Ensures (IsSound p) (with_progress p ops units saved)
unfolding with_progress
with_progress-IsSound p ops units saved ok = elim (Option-cases (new_game p)) [
  | inl a ↦ rw a tt
  | inr (g, a) ↦ rw a (resume_game-IsSound p ops units saved g (rw a at (new_game-IsFresh p ok)))
]
