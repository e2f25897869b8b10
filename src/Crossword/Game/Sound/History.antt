-- ===== src/Crossword/Game/Sound/History.antt =====
-- The history of a game: its steps are true of their letters, and hold no lock that is not held now.
use scratchpad.Common.{
  ℕ, zero, suc, ◌+◌, ◌≤◌, ◌≡◌, refl, ap, sym, ◌∙◌, true, ◌&&◌, List, [], ◌∷◌, arith, length,
  Bool-cases, inl, inr, subst, bytes_eq, bytes_eq_iff,
}
use scratchpad.Crossword.Puzzle.Letters.{Text}
use scratchpad.Crossword.Puzzle.{Puzzle, is_open}
use scratchpad.Crossword.Game.{
  Game, Snapshot, Mark, is_locked, is_wrong, undo_limit, letter_at, mark_at, is_correct,
}
use scratchpad.Crossword.Game.Undo.{restore_square, restore_squares, restore}
use scratchpad.Crossword.Game.Sound.{SquareOk, SquareStep, Squares, Extends}

pub record StepOk (p : Puzzle) (marks : List Mark) (s : Snapshot) : Type 0 where
  pub squares : Squares p s.fill s.marks
  pub covered : (c : ℕ) → is_locked (mark_at s.marks c) ≡ true → is_locked (mark_at marks c) ≡ true
  pub here : is_open p s.cursor ≡ true

abbrev pub AllSteps : Puzzle → List Mark → List Snapshot → Type 0
AllSteps p marks [] = Unit {0}
AllSteps p marks (s ∷ steps) = StepOk p marks s × AllSteps p marks steps

-- The invariant of a game.
pub record IsSound (p : Puzzle) (g : Game) : Type 0 where
  pub squares : Squares p g.fill g.marks
  pub here : is_open p g.cursor ≡ true
  pub undo_ok : AllSteps p g.marks g.undo
  pub redo_ok : AllSteps p g.marks g.redo
  pub bounded : length g.undo + length g.redo ≤ undo_limit
  pub solved_right : g.solved ≡ true → is_correct p g ≡ true

pub AllSteps-Extends :
    {p : Puzzle} {f f' : List Text} {m m' : List Mark} (steps : List Snapshot)
    → Squares p f m
    → Extends p f m f' m'
    → AllSteps p m steps
    → AllSteps p m' steps
AllSteps-Extends [] q e h = tt
AllSteps-Extends (s ∷ steps) q e (h, t) = (
  record {
    squares = h.squares;
    covered = λ c k. ((e.at c (q.ok c)).1 (h.covered c k)).0;
    here = h.here;
  },
  AllSteps-Extends steps q e t,
)

restore-at :
    (ls : List Text) (ss : List Mark) (fill : List Text) (marks : List Mark) (c : ℕ)
    → length ls ≡ length fill
    → length ss ≡ length fill
    → length marks ≡ length fill
    → let r = restore_squares ls ss fill marks in
      let q = restore_square (letter_at ls c) (mark_at ss c) (letter_at fill c) (mark_at marks c) in
      (letter_at r.0 c ≡ q.0) × (mark_at r.1 c ≡ q.1)
unfolding restore_squares restore_square
restore-at (l ∷ ls) (s ∷ ss) (h ∷ fill) (m ∷ marks) zero a b d = (refl, refl)
restore-at (l ∷ ls) (s ∷ ss) (h ∷ fill) (m ∷ marks) (suc c) a b d =
    restore-at ls ss fill marks c (omega arith) (omega arith) (omega arith)
restore-at [] [] [] [] c a b d = (refl, refl)
restore-at _ _ _ _ c a b d = absurd (omega arith)

length-restore :
    (ls : List Text) (ss : List Mark) (fill : List Text) (marks : List Mark)
    → let r = restore_squares ls ss fill marks in
      (length r.0 ≡ length fill) × (length r.1 ≡ length marks)
unfolding restore_squares restore_square
length-restore (l ∷ ls) (s ∷ ss) (h ∷ fill) (m ∷ marks) =
    let (a, b) = length-restore ls ss fill marks in (ap suc a, ap suc b)
length-restore _ _ fill marks = (refl, refl)

restore_step :
    (p : Puzzle) (c : ℕ) (letters here : Text) (saved mark : Mark)
    → SquareOk p c letters saved
    → (is_locked saved ≡ true → is_locked mark ≡ true)
    → let q = restore_square letters saved here mark in SquareStep p c here mark q.0 q.1
unfolding restore_square
restore_step p c letters here saved mark s k o = elim (Bool-cases (is_locked mark)) [
  | inl locked ↦ rw locked (o, λ q. (locked, refl))
  | inr free ↦ elim (Bool-cases (is_wrong mark && bytes_eq letters here)) [
    | inl same ↦
        rw (free, same)
          (let e = (bytes_eq_iff letters here).0 (ground arith) in
            (subst (λ l. SquareOk p c l mark) (sym e) o, λ q. absurd (cc)))
    | inr differs ↦ rw (free, differs) (s, λ q. absurd (cc))
  ]
]

-- Restoring a step of the history changes squares as the rules allow.
pub restore-Extends :
    {p : Puzzle} (s : Snapshot) (g : Game)
    → Squares p g.fill g.marks
    → StepOk p g.marks s
    → Extends p g.fill g.marks (restore s g).fill (restore s g).marks
unfolding restore
restore-Extends {p} s g q h =
    let (a, b) = length-restore s.fill s.marks g.fill g.marks in
    record {
      fill_len = a;
      marks_len = b;
      at = λ c.
          let (x, y) =
            restore-at s.fill s.marks g.fill g.marks c (h.squares.fill_len ∙ sym q.fill_len)
              (h.squares.marks_len ∙ sym q.fill_len) (q.marks_len ∙ sym q.fill_len) in
          rw (x, y)
            (restore_step p c (letter_at s.fill c) (letter_at g.fill c) (mark_at s.marks c)
              (mark_at g.marks c) (h.squares.ok c) (h.covered c));
    }
