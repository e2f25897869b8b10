-- ===== src/Crossword/Game/Sound/Kept.antt =====
-- Each operation keeps the invariant of a game and changes squares as the rules allow.
use scratchpad.Common.{
  ℕ, ◌≡◌, ap, sym, ◌∙◌, true, false, not, ◌&&◌, List, arith, length, Bool-cases, inl, inr, subst,
}
use scratchpad.Crossword.Puzzle.Letters.{Text}
use scratchpad.Crossword.Puzzle.{Puzzle, Direction, is_open}
use scratchpad.Crossword.Game.{Game, Mark, CheckReport, is_correct, check_solved}
use scratchpad.Crossword.Game.Edit.{editable, put, check_cell, reveal_cell}
use scratchpad.Crossword.Game.Sound.{Extends, Extends-refl, Extends-trans, Squares-Extends}
use scratchpad.Crossword.Game.Sound.Edits.{
  GameExtends, HasAnswer, put-Extends, check_cell-Extends, reveal_cell-Extends,
}
use scratchpad.Crossword.Game.Sound.Moves.{Moved}
use scratchpad.Crossword.Game.Sound.History.{IsSound, AllSteps-Extends}

-- From a sound game: the result is sound, and its squares have changed as the rules allow.
pub record Kept (p : Puzzle) (g g' : Game) : Type 0 where
  pub sound : IsSound p g'
  pub steps : GameExtends p g g'

module _ {p : Puzzle} where
  pub Kept-refl : {g : Game} → IsSound p g → Kept p g g
  Kept-refl {g} s = record { sound = s; steps = Extends-refl g.fill g.marks }

  pub Kept-trans : {g g' g'' : Game} → Kept p g g' → Kept p g' g'' → Kept p g g''
  Kept-trans a b = record { sound = b.sound; steps = Extends-trans a.steps b.steps }

  Kept-moved_to :
      {g : Game} (c : ℕ) (d : Direction)
      → IsSound p g
      → is_open p c ≡ true
      → Kept p g (record g { cursor = c; direction = d })
  unfolding is_correct
  Kept-moved_to {g} c d s h = record {
    sound = record {
      squares = s.squares;
      here = h;
      undo_ok = s.undo_ok;
      redo_ok = s.redo_ok;
      bounded = s.bounded;
      solved_right = s.solved_right;
    };
    steps = Extends-refl g.fill g.marks;
  }

  pub Kept-Moved : {g g' : Game} → IsSound p g → Moved p g g' → Kept p g g'
  Kept-Moved {g} s (c, d, e, h) = subst (Kept p g) (sym e) (Kept-moved_to c d s h)

  -- Letters and marks are written, and nothing else; in a solved game no letter is.
  Kept-squares :
      {g : Game} (f : List Text) (m : List Mark)
      → IsSound p g
      → Extends p g.fill g.marks f m
      → (g.solved ≡ true → f ≡ g.fill)
      → Kept p g (record g { fill = f; marks = m })
  unfolding is_correct
  Kept-squares {g} f m s e same = record {
    sound = record {
      squares = Squares-Extends s.squares e;
      here = s.here;
      undo_ok = AllSteps-Extends g.undo s.squares e s.undo_ok;
      redo_ok = AllSteps-Extends g.redo s.squares e s.redo_ok;
      bounded = s.bounded;
      solved_right = λ q.
          ap (λ (x : List Text). is_correct p (record g { fill = x })) (same q) ∙ s.solved_right q;
    };
    steps = e;
  }

  Kept-frame :
      {g g' : Game}
      → IsSound p g
      → g' ≡ record g { fill = g'.fill; marks = g'.marks }
      → GameExtends p g g'
      → (g.solved ≡ true → g'.fill ≡ g.fill)
      → Kept p g g'
  Kept-frame {g} {g'} s e x same = subst (Kept p g) (sym e) (Kept-squares g'.fill g'.marks s x same)

module _ (p : Puzzle) (g : Game) (s : IsSound p g) where
  lens : length g.fill ≡ length g.marks
  lens = s.squares.fill_len ∙ sym s.squares.marks_len

  pub put-Kept : (c : ℕ) (l : Text) → Kept p g (put p c l g).0
  put-Kept c l = Kept-frame s frame (put-Extends p c l g lens) frozen
    where
      frame :
          (put p c l g).0 ≡ record g { fill = (put p c l g).0.fill; marks = (put p c l g).0.marks }
      frame = unfold put in ground arith

      frozen : g.solved ≡ true → (put p c l g).0.fill ≡ g.fill
      frozen h = unfold put editable in ground arith

  pub check_cell-Kept : (c : ℕ) (r : CheckReport) → Kept p g (check_cell p c (g, r)).0
  check_cell-Kept c r = Kept-frame s frame (check_cell-Extends p c g r) frozen
    where
      frame : (check_cell p c (g, r)).0 ≡ record g {
        fill = (check_cell p c (g, r)).0.fill;
        marks = (check_cell p c (g, r)).0.marks;
      }
      frame = unfold check_cell in ground arith

      frozen : g.solved ≡ true → (check_cell p c (g, r)).0.fill ≡ g.fill
      frozen h = unfold check_cell in ground arith

  pub reveal_cell-Kept :
      (c n : ℕ) → g.solved ≡ false → HasAnswer p c → Kept p g (reveal_cell p c (g, n)).0
  reveal_cell-Kept c n open' h =
      Kept-frame s frame (reveal_cell-Extends p c g n lens h) (λ q. absurd (cc))
    where
      frame : (reveal_cell p c (g, n)).0 ≡ record g {
        fill = (reveal_cell p c (g, n)).0.fill;
        marks = (reveal_cell p c (g, n)).0.marks;
      }
      frame = unfold reveal_cell in ground arith

  pub check_solved-Kept : (now : ℕ) → Kept p g (check_solved p now g)
  unfolding check_solved
  check_solved-Kept now = elim (Bool-cases (not g.solved && is_correct p g)) [
    | inr stays ↦ rw stays (Kept-refl s)
    | inl right ↦ rw right (record {
      sound = record {
        squares = s.squares;
        here = s.here;
        undo_ok = s.undo_ok;
        redo_ok = s.redo_ok;
        bounded = s.bounded;
        solved_right = λ _. unfold is_correct in ground arith;
      };
      steps = Extends-refl g.fill g.marks;
    })
  ]
