-- ===== src/Crossword/Puzzle/Reads.antt =====
-- puzzle.rs: `run_starts` with every index and subtraction checked, as the code runs it.
use scratchpad.Common.{
  ℕ, zero, suc, ◌+◌, ◌-◌, ◌*◌, ◌/◌, ◌%◌, ◌<◌, ◌≤◌, ◌≡◌, refl, ap, ◌∙◌, Bool, true, false, not, ◌&&◌,
  ◌||◌, Option, none, some, [], ◌∷◌, arith, ltb, ltb→lt, ◌==◌, &&_iff, if◌then◌else◌, length,
  get_elem?, if-cases, Bool-cases, inl, inr,
}
use mathlib.Core.Option
use native.Mathlib.Nat.{div-add-mod', mul-le-mul, mod-lt, mul_comm, le_refl, zero-mul}
use scratchpad.Crossword.Puzzle.{Grid, open_at, present, run_starts, starts_across, starts_down}
use scratchpad.Crossword.Game.{◌>>=◌}

-- `grid[i].is_some()`; `none` is the panic of an index past the end.
abbrev pub read_open : Grid → ℕ → Option Bool
read_open grid i = Option.map present (get_elem? grid i)

-- `!open(cell - back)`; `none` is also the panic of a subtraction below zero.
abbrev pub closed_before : Grid → ℕ → ℕ → Option Bool
closed_before grid cell back =
    if ltb cell back then none else Option.map not (read_open grid (cell - back))

-- `&&` and `||`, whose right sides are run only when the left ones do not decide
abbrev pub and_then : Bool → Option Bool → Option Bool
and_then true next = next
and_then false next = some false

abbrev pub or_then : Bool → Option Bool → Option Bool
or_then true next = some true
or_then false next = next

unfoldable pub checked_across : ℕ → Grid → ℕ → Option Bool
checked_across width grid cell =
    or_then (cell % width == 0) (closed_before grid cell 1) >>= λ closed.
    and_then (closed && ltb (cell % width + 1) width) (read_open grid (cell + 1))

unfoldable pub checked_down : ℕ → ℕ → Grid → ℕ → Option Bool
checked_down width height grid cell =
    or_then (cell / width == 0) (closed_before grid cell width) >>= λ closed.
    and_then (closed && ltb (cell / width + 1) height) (read_open grid (cell + width))

-- `run_starts`, with its panics
unfoldable pub checked_run_starts : ℕ → ℕ → Grid → ℕ → Option (Bool × Bool)
unfolding checked_across checked_down
checked_run_starts width height grid cell = read_open grid cell >>= λ here.
    if not here
    then some (false, false)
    else if width == 0
    then none
    else checked_across width grid cell >>= λ a.
        checked_down width height grid cell >>= λ d. some (a, d)

read_open-inside :
    (grid : Grid) (i : ℕ) → i < length grid → read_open grid i ≡ some (open_at grid i)
unfolding open_at
read_open-inside [] i h = absurd (omega (arith, h))
read_open-inside (x ∷ grid) zero h = refl
read_open-inside (x ∷ grid) (suc i) h = read_open-inside grid i (omega (arith, h))

closed_before-inside :
    (grid : Grid) (cell back : ℕ)
    → cell < length grid
    → back ≤ cell
    → closed_before grid cell back ≡ some (not (open_at grid (cell - back)))
closed_before-inside grid cell back h k =
    if-cases (λ o. o ≡ some (not (open_at grid (cell - back)))) (ltb cell back) _ _
      (λ e. absurd (ground (arith, e, k)))
      (λ _. ap (Option.map not) (read_open-inside grid (cell - back) (omega (arith, h, k))))

and_then-some :
    (a b : Bool) (next : Option Bool) → (a ≡ true → next ≡ some b) → and_then a next ≡ some (a && b)
and_then-some true b next h = h refl
and_then-some false b next h = refl

or_then-some :
    (a b : Bool) (next : Option Bool) → (a ≡ false → next ≡ some b) → or_then a next ≡ some (a || b)
or_then-some true b next h = refl
or_then-some false b next h = h refl

module _ (width height : ℕ) (grid : Grid) (cell : ℕ) (whole : length grid ≡ width * height)
    (inside : cell < length grid) where
  -- The cell is in its row and column.
  place : cell / width * width + cell % width ≡ cell
  place = div-add-mod' cell width

  some_width : 0 < width
  some_width = elim (Bool-cases (ltb 0 width)) [
    | inl e ↦ ltb→lt 0 width e
    | inr e ↦ absurd (
        let narrow : width ≡ 0 = ground (arith, e) in
        let none_there : width * height ≡ 0 = ap (λ w. w * height) narrow ∙ zero-mul height in
        omega (arith, none_there, whole, inside))
  ]

  row-inside : cell / width < height
  row-inside = elim (Bool-cases (ltb (cell / width) height)) [
    | inl e ↦ ltb→lt _ _ e
    | inr e ↦ absurd (
        let over : height ≤ cell / width = ground (arith, e) in
        let area : height * width ≤ cell / width * width = mul-le-mul over (le_refl width) in
        omega (arith, area, place, whole, inside, mul_comm width height))
  ]

  right-inside : cell % width + 1 < width → cell + 1 < length grid
  right-inside h =
      let area : suc (cell / width) * width ≤ height * width =
        mul-le-mul row-inside (le_refl width) in
      omega (arith, h, area, place, whole, mul_comm width height)

  below-inside : cell / width + 1 < height → cell + width < length grid
  below-inside h =
      let area : suc (cell / width + 1) * width ≤ height * width = mul-le-mul h (le_refl width) in
      omega (arith, area, place, whole, mul_comm width height, mod-lt cell some_width)

  left-there : (cell % width == 0) ≡ false → 1 ≤ cell
  left-there e = let more : 0 < cell % width = ground (arith, e) in omega (arith, more, place)

  above-there : (cell / width == 0) ≡ false → width ≤ cell
  above-there e =
      let more : 1 ≤ cell / width = ground (arith, e) in
      let area : 1 * width ≤ cell / width * width = mul-le-mul more (le_refl width) in
      omega (arith, area, place)

  across-checked : checked_across width grid cell ≡ some (starts_across width grid cell)
  unfolding checked_across
  across-checked =
      let closed = cell % width == 0 || not (open_at grid (cell - 1)) in
      rw
        (or_then-some (cell % width == 0) (not (open_at grid (cell - 1))) _
          (λ e. closed_before-inside grid cell 1 inside (left-there e)))
        (and_then-some (closed && ltb (cell % width + 1) width) (open_at grid (cell + 1)) _ (λ e.
          let last : ltb (cell % width + 1) width ≡ true = ((&&_iff closed _).0 e).1 in
          read_open-inside grid (cell + 1) (right-inside (ltb→lt _ _ last))))

  down-checked : checked_down width height grid cell ≡ some (starts_down width height grid cell)
  unfolding checked_down
  down-checked =
      let closed = cell / width == 0 || not (open_at grid (cell - width)) in
      rw
        (or_then-some (cell / width == 0) (not (open_at grid (cell - width))) _
          (λ e. closed_before-inside grid cell width inside (above-there e)))
        (and_then-some (closed && ltb (cell / width + 1) height) (open_at grid (cell + width)) _
          (λ e.
            let last : ltb (cell / width + 1) height ≡ true = ((&&_iff closed _).0 e).1 in
            read_open-inside grid (cell + width) (below-inside (ltb→lt _ _ last))))

  -- On a grid of its width and height, no read of `run_starts` is off the grid and no subtraction goes
  -- below zero: it returns for every cell, and its answer is the rule's.
  pub checked_run_starts-eq :
      checked_run_starts width height grid cell ≡ some (run_starts width height grid cell)
  unfolding checked_run_starts run_starts
  checked_run_starts-eq = elim (Bool-cases (open_at grid cell)) [
    | inr e ↦ rw (read_open-inside grid cell inside, e) refl
    | inl e ↦
        let wide : (width == 0) ≡ false = ground (arith, some_width) in
        rw (read_open-inside grid cell inside, e, wide, across-checked, down-checked) refl
  ]
