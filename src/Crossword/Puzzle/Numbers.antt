-- ===== src/Crossword/Puzzle/Numbers.antt =====
-- puzzle.rs: the clue numbers follow the starts of the runs.
use scratchpad.Common.{
  ℕ, zero, suc, ◌+◌, ◌<◌, ◌≡◌, refl, none, some, arith, length, get_or, if◌then◌else◌, Bool-cases,
  inl, inr,
}
use scratchpad.Crossword.Puzzle.{Grid, starts, numbering_from, numbering}

module _ (width height : ℕ) (grid : Grid) where
  -- How many of the `n` cells from `cell` on start a run.
  abbrev pub starts_in : ℕ → ℕ → ℕ
  starts_in cell zero = 0
  starts_in cell (suc n) =
      let rest = starts_in (cell + 1) n in if starts width height grid cell then suc rest else rest

  numbering_from-at :
      (left cell next j : ℕ)
      → j < left
      → get_or (numbering_from width height grid left cell next) j none
        ≡ (if starts width height grid (cell + j) then some (next + starts_in cell j) else none)
  unfolding numbering_from
  numbering_from-at zero cell next j h = absurd (omega arith)
  numbering_from-at (suc left) cell next zero h =
      let e : cell + 0 ≡ cell = omega arith in
      let k : next + 0 ≡ next = omega arith in rw (e, k) refl
  numbering_from-at (suc left) cell next (suc j) h =
      let e : cell + suc j ≡ (cell + 1) + j = omega arith in
      elim (Bool-cases (starts width height grid cell)) [
        | inl a ↦
            let k : next + suc (starts_in (cell + 1) j) ≡ (next + 1) + starts_in (cell + 1) j =
              omega arith in
            rw (a, e, k) (numbering_from-at left (cell + 1) (next + 1) j (omega arith))
        | inr a ↦ rw (a, e) (numbering_from-at left (cell + 1) next j (omega arith))
      ]

  -- A cell of the grid has a number exactly if a run starts there, and its number is one more
  -- than the starts before it.
  pub numbering-at :
      (cell : ℕ)
      → cell < length grid
      → get_or (numbering width height grid) cell none
        ≡ (if starts width height grid cell then some (suc (starts_in 0 cell)) else none)
  unfolding numbering
  numbering-at cell h =
      let z : 0 + cell ≡ cell = omega arith in
      let o : 1 + starts_in 0 cell ≡ suc (starts_in 0 cell) = omega arith in
      rw (z, o) at (numbering_from-at (length grid) 0 1 cell h)
