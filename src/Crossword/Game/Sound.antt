-- ===== src/Crossword/Game/Sound.antt =====
-- What the marks of a game say of its letters, and the changes that keep it so.
pub mod Edits
pub mod Moves
pub mod History
pub mod Kept
pub mod Ops
pub mod Steps
pub mod Start
pub mod Play
pub mod Built
pub mod Return
pub mod Covered
pub mod Stuck
use scratchpad.Common.{ℕ, ◌≡◌, refl, ◌∙◌, Bool, true, false, List, [], ◌∷◌, length}
use scratchpad.Crossword.Puzzle.Letters.{Text, is_empty}
use scratchpad.Crossword.Puzzle.{Puzzle, accepts, is_open, len}
use scratchpad.Crossword.Game.{
  Mark, unmarked, wrong, correct, revealed, is_locked, letter_at, mark_at,
}

-- A locked square holds a right letter, and a square marked wrong holds a letter that is not.
abbrev pub SquareOk : Puzzle → ℕ → Text → Mark → Type 0
SquareOk p c letters unmarked = Unit {0}
SquareOk p c letters wrong = (is_empty letters ≡ false) × (accepts p c letters ≡ false)
SquareOk p c letters correct = accepts p c letters ≡ true
SquareOk p c letters revealed = accepts p c letters ≡ true

pub record Squares (p : Puzzle) (fill : List Text) (marks : List Mark) : Type 0 where
  pub fill_len : length fill ≡ len p
  pub marks_len : length marks ≡ len p
  pub ok : (c : ℕ) → SquareOk p c (letter_at fill c) (mark_at marks c)

-- A square changes as the rules allow: its mark stays true of its letters, and a lock stays, with
-- the letters under it.
abbrev pub SquareStep : Puzzle → ℕ → Text → Mark → Text → Mark → Type 0
SquareStep p c l m l' m' =
    SquareOk p c l m
    → SquareOk p c l' m' × ((is_locked m ≡ true) → (is_locked m' ≡ true) × (l' ≡ l))

pub record Extends (p : Puzzle) (fill : List Text) (marks : List Mark) (fill' : List Text)
    (marks' : List Mark) : Type 0 where
  pub fill_len : length fill' ≡ length fill
  pub marks_len : length marks' ≡ length marks
  pub at :
      (c : ℕ)
      → SquareStep p c (letter_at fill c) (mark_at marks c) (letter_at fill' c) (mark_at marks' c)

module _ {p : Puzzle} where
  pub Extends-refl : (f : List Text) (m : List Mark) → Extends p f m f m
  Extends-refl f m = record { fill_len = refl; marks_len = refl; at = λ c h. (h, λ k. (k, refl)) }

  pub Extends-trans :
      {f f' f'' : List Text} {m m' m'' : List Mark}
      → Extends p f m f' m'
      → Extends p f' m' f'' m''
      → Extends p f m f'' m''
  Extends-trans a b = record {
    fill_len = b.fill_len ∙ a.fill_len;
    marks_len = b.marks_len ∙ a.marks_len;
    at = λ c h.
        let (h', keep) = a.at c h in
        let (h'', keep') = b.at c h' in
        (h'', λ k. let (k', e) = keep k in let (k'', e') = keep' k' in (k'', e' ∙ e));
  }

  pub Squares-Extends :
      {f f' : List Text} {m m' : List Mark} → Squares p f m → Extends p f m f' m' → Squares p f' m'
  Squares-Extends s e = record {
    fill_len = e.fill_len ∙ s.fill_len;
    marks_len = e.marks_len ∙ s.marks_len;
    ok = λ c. (e.at c (s.ok c)).0;
  }
