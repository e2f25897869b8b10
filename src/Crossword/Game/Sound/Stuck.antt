-- ===== src/Crossword/Game/Sound/Stuck.antt =====
-- When the `expect` of `current_entry` holds, on a puzzle that is built.
use scratchpad.Common.{
  ℕ, zero, suc, ◌<◌, ◌≡◌, refl, true, false, Option, none, some, [], ◌∷◌, arith, length, Bool-cases,
  inl, inr, contains,
}
use scratchpad.Common.Io.{ok}
use scratchpad.Crossword.Puzzle.Letters.{TextOps}
use scratchpad.Crossword.Puzzle.{
  Puzzle, PuzzleData, Grid, Direction, across, down, other, entry_at, is_open, open_at,
}
use scratchpad.Crossword.Puzzle.Build.{new_puzzle, derive}
use scratchpad.Crossword.Game.{Game, entry_cells, current_entry, or_else}
use scratchpad.Crossword.Game.Sound.Built.{new_puzzle-Yields}
use scratchpad.Crossword.Game.Sound.Covered.{Looked, derive-Looked}

-- The entry found at a square runs through it; if none is found, no entry does.
abbrev pub EntryUnder : Puzzle → ℕ → Option ℕ → Type 0
EntryUnder p c none = (e : ℕ) → contains c (entry_cells p e) ≡ false
EntryUnder p c (some e) = contains c (entry_cells p e) ≡ true

open_at-lt-length : (grid : Grid) (c : ℕ) → open_at grid c ≡ true → c < length grid
unfolding open_at
open_at-lt-length [] c h = absurd (cc)
open_at-lt-length (x ∷ grid) zero h = omega arith
open_at-lt-length (x ∷ grid) (suc c) h = omega (arith, open_at-lt-length grid c h)

module _ (p : Puzzle) (g : Game) where
  or_else-EntryUnder :
      (a b : Option ℕ)
      → ((e : ℕ) → a ≡ some e → contains g.cursor (entry_cells p e) ≡ true)
      → ((e : ℕ) → b ≡ some e → contains g.cursor (entry_cells p e) ≡ true)
      → (a ≡ none → b ≡ none → (e : ℕ) → contains g.cursor (entry_cells p e) ≡ false)
      → EntryUnder p g.cursor (or_else p g a b)
  or_else-EntryUnder none none h k n = n refl refl
  or_else-EntryUnder none (some e) h k n = k e refl
  or_else-EntryUnder (some e) b h k n = h e refl

  current_entry-Looked : Looked p g.cursor → EntryUnder p g.cursor (current_entry p g)
  unfolding current_entry other
  current_entry-Looked l = go g.direction
    where
      lacks :
          entry_at p g.cursor across ≡ none
          → entry_at p g.cursor down ≡ none
          → (e : ℕ) → contains g.cursor (entry_cells p e) ≡ false
      lacks a b e = elim (Bool-cases (contains g.cursor (entry_cells p e))) [
        | inl t ↦ absurd (l.missing a b e t)
        | inr t ↦ t
      ]

      go :
          (d : Direction)
          → EntryUnder p g.cursor
              (or_else p g (entry_at p g.cursor d) (entry_at p g.cursor (other d)))
      go across = or_else-EntryUnder _ _ (l.through across) (l.through down) lacks
      go down = or_else-EntryUnder _ _ (l.through down) (l.through across) (λ b a. lacks a b)

-- On a puzzle that `new_puzzle` has built, with the cursor on an open square, the entry under the cursor
-- runs through its square, and if there is none, so that the `expect` fails, no entry of the puzzle does.
pub current_entry-EntryUnder :
    (ops : TextOps) (d : PuzzleData) (g : Game) {p : Puzzle}
    → new_puzzle ops d ≡ ok p
    → is_open p g.cursor ≡ true
    → EntryUnder p g.cursor (current_entry p g)
current_entry-EntryUnder ops d g b o =
    let derived =
      new_puzzle-Yields (λ p. is_open p g.cursor ≡ true → EntryUnder p g.cursor (current_entry p g))
        ops d
        (λ data' acrosses downs _ inside. current_entry-Looked (derive ops data' acrosses downs) g (
          derive-Looked ops data' acrosses downs g.cursor
            (open_at-lt-length data'.grid g.cursor (unfold derive in inside)))) in
    (rw b at derived) o
