-- ===== src/Crossword/Game/Sound/Built.antt =====
-- A puzzle that `Puzzle::new` accepts is one that a game can be played on.
use scratchpad.Common.{
  ℕ, zero, suc, ◌+◌, ◌*◌, ◌==◌, ◌≡◌, refl, sym, subst, true, false, not, Option, none, some, List,
  [], ◌∷◌, ◌++◌, arith, Bool-cases, inl, inr, if-cases, get_elem?, length,
}
use scratchpad.Common.Io.{Result, ok, err}
use scratchpad.Crossword.Puzzle.Letters.{Text, TextOps, is_empty, normalized, answer_matches_self}
use scratchpad.Crossword.Puzzle.{
  Puzzle, PuzzleData, Grid, numbering, Direction, Entry, square, open_at, is_open, accepts,
}
use scratchpad.Crossword.Puzzle.Build.{
  ◌>>=◌, PuzzleError, guard, out_of_range, circled_ok, no_runs, normalize_others, normalize_grid,
  take_while, across_cells, down_cells, Run, runs_from, add_runs, own, derive, new_puzzle,
}
use scratchpad.Crossword.Game.{Game, entry_cells, cells_of}
use scratchpad.Crossword.Game.Commands.{Command, play}
use scratchpad.Crossword.Game.Undo.{Progress, with_progress}
use scratchpad.Crossword.Game.Sound.Edits.{HasAnswer}
use scratchpad.Crossword.Game.Sound.Moves.{AllOpen, IsPlayable}
use scratchpad.Crossword.Game.Sound.History.{IsSound}
use scratchpad.Crossword.Game.Sound.Start.{with_progress-IsSound}
use scratchpad.Crossword.Game.Sound.Play.{play-IsSound}

abbrev pub Yields {ℓ} : {A : Type 0} → (A → Type ℓ) → Result PuzzleError A → Type ℓ
Yields P (ok a) = P a
Yields P (err _) = Unit

Yields-bind {ℓ} :
    {A B : Type 0} (P : B → Type ℓ) (m : Result PuzzleError A) (f : A → Result PuzzleError B)
    → ((a : A) → m ≡ ok a → Yields P (f a))
    → Yields P (m >>= f)
Yields-bind P (ok a) f h = h a refl
Yields-bind P (err _) f h = tt

-- Every answer of a grid has a character.
abbrev Answered : Grid → Type 0
Answered grid = (c : ℕ) (s : Text) → square grid c ≡ some s → is_empty s ≡ false

Answered-[] : Answered []
Answered-[] c s h = cc

Answered-none : (grid : Grid) → Answered grid → Answered (none ∷ grid)
Answered-none grid h zero s e = cc
Answered-none grid h (suc c) s e = h c s e

Answered-some :
    (a : Text) (grid : Grid) → is_empty a ≡ false → Answered grid → Answered (some a ∷ grid)
Answered-some a grid n h zero s e = ground arith
Answered-some a grid n h (suc c) s e = h c s e

normalize_grid-Answered : (ops : TextOps) (grid : Grid) → Yields Answered (normalize_grid ops grid)
unfolding normalize_grid
normalize_grid-Answered ops [] = Answered-[]
normalize_grid-Answered ops (none ∷ grid) =
    Yields-bind Answered (normalize_grid ops grid) _
      (λ rest e. Answered-none rest (rw e at (normalize_grid-Answered ops grid)))
normalize_grid-Answered ops (some a ∷ grid) = elim (Bool-cases (is_empty (normalized ops a))) [
  | inl bad ↦ rw bad tt
  | inr good ↦ rw good (
      Yields-bind Answered (normalize_grid ops grid) _ (λ rest e.
        Answered-some (normalized ops a) rest good (rw e at (normalize_grid-Answered ops grid))))
]

-- Squares of a grid that are open.
abbrev OpenIn : Grid → List ℕ → Type 0
OpenIn grid [] = Unit {0}
OpenIn grid (c ∷ cells) = (open_at grid c ≡ true) × OpenIn grid cells

take_while-OpenIn : (grid : Grid) (cells : List ℕ) → OpenIn grid (take_while (open_at grid) cells)
take_while-OpenIn grid [] = tt
take_while-OpenIn grid (c ∷ cells) =
    if-cases (OpenIn grid) (open_at grid c) _ _ (λ h. (h, take_while-OpenIn grid cells)) (λ _. tt)

abbrev RunsIn : Grid → List Run → Type 0
RunsIn grid [] = Unit {0}
RunsIn grid ((_, cells) ∷ runs) = OpenIn grid cells × RunsIn grid runs

runs_from-RunsIn :
    (w h : ℕ) (grid : Grid) (numbers : List (Option ℕ)) (c : ℕ)
    → let r = runs_from w h grid numbers c in RunsIn grid r.0 × RunsIn grid r.1
unfolding runs_from across_cells down_cells
runs_from-RunsIn w h grid [] c = (tt, tt)
runs_from-RunsIn w h grid (none ∷ numbers) c = runs_from-RunsIn w h grid numbers (c + 1)
runs_from-RunsIn w h grid (some n ∷ numbers) c =
    let (a, d) = runs_from-RunsIn w h grid numbers (c + 1) in
    (
      if-cases (RunsIn grid) _ ((n, across_cells w grid c) ∷ (runs_from w h grid numbers (c + 1)).0)
          _ (λ _. (take_while-OpenIn grid _, a)) (λ _. a),
      if-cases (RunsIn grid) _ ((n, down_cells w grid c) ∷ (runs_from w h grid numbers (c + 1)).1) _
          (λ _. (take_while-OpenIn grid _, d)) (λ _. d),
    )

abbrev EntriesIn : Grid → List Entry → Type 0
EntriesIn grid [] = Unit {0}
EntriesIn grid (e ∷ es) = OpenIn grid e.cells × EntriesIn grid es

add_runs-EntriesIn :
    (grid : Grid) (clue : ℕ → Text) (d : Direction) (runs : List Run) (i : ℕ)
    (owner : List (Option ℕ))
    → RunsIn grid runs
    → EntriesIn grid (add_runs clue d runs i owner).0
unfolding add_runs
add_runs-EntriesIn grid clue d [] i owner h = tt
add_runs-EntriesIn grid clue d ((n, cells) ∷ runs) i owner h =
    (h.0, add_runs-EntriesIn grid clue d runs (i + 1) (own owner cells i) h.1)

EntriesIn-++ :
    (grid : Grid) (a b : List Entry) → EntriesIn grid a → EntriesIn grid b → EntriesIn grid (a ++ b)
EntriesIn-++ grid [] b h k = k
EntriesIn-++ grid (e ∷ a) b h k = (h.0, EntriesIn-++ grid a b h.1 k)

module _ (p : Puzzle) where
  OpenIn-AllOpen : (cells : List ℕ) → OpenIn p.raw.grid cells → AllOpen p cells
  OpenIn-AllOpen [] h = tt
  OpenIn-AllOpen (c ∷ cells) h = (h.0, OpenIn-AllOpen cells h.1)

  cells_of-AllOpen :
      (es : List Entry) → EntriesIn p.raw.grid es → (e : ℕ) → AllOpen p (cells_of (get_elem? es e))
  cells_of-AllOpen [] h e = tt
  cells_of-AllOpen (x ∷ es) h zero = OpenIn-AllOpen x.cells h.0
  cells_of-AllOpen (x ∷ es) h (suc e) = cells_of-AllOpen es h.1 e

  Answered-HasAnswer : Answered p.raw.grid → (c : ℕ) → is_open p c ≡ true → HasAnswer p c
  unfolding accepts open_at
  Answered-HasAnswer h c o = go (square p.raw.grid c) refl o
    where
      go : (s : Option Text) → square p.raw.grid c ≡ s → open_at p.raw.grid c ≡ true → HasAnswer p c
      go none e o = let closed : false ≡ true = rw e at o in cc
      go (some s) e o = rw (e, answer_matches_self s (h c s e)) refl

  built-IsPlayable : Answered p.raw.grid → EntriesIn p.raw.grid p.entries → IsPlayable p
  unfolding entry_cells
  built-IsPlayable a e = record {
    answers = Answered-HasAnswer a;
    entry_open = cells_of-AllOpen p.entries e;
  }

derive-IsPlayable :
    (ops : TextOps) (d : PuzzleData) (across_runs down_runs : List Run)
    → Answered d.grid
    → RunsIn d.grid across_runs × RunsIn d.grid down_runs
    → IsPlayable (derive ops d across_runs down_runs)
unfolding derive
derive-IsPlayable ops d across_runs down_runs a (h, k) = built-IsPlayable _ a (
    EntriesIn-++ d.grid _ _ (add_runs-EntriesIn d.grid _ _ across_runs _ _ h)
      (add_runs-EntriesIn d.grid _ _ down_runs _ _ k))

-- What holds of all that `derive` makes of a normalized grid and its runs holds of a puzzle that is built.
pub new_puzzle-Yields :
    (P : Puzzle → Type 0) (ops : TextOps) (d : PuzzleData)
    → ((d' : PuzzleData) (acrosses downs : List Run)
        → (normalize_grid ops d.grid ≡ ok d'.grid)
          × ((acrosses, downs)
              ≡ runs_from d.width d.height d'.grid (numbering d.width d.height d'.grid) 0)
        → P (derive ops d' acrosses downs))
    → Yields P (new_puzzle ops d)
unfolding new_puzzle
new_puzzle-Yields P ops d h =
    Yields-bind P (guard (not (out_of_range d.width d.height)) _) _ (λ _ _.
      Yields-bind P (guard (length d.grid == d.width * d.height) _) _ (λ _ _.
        Yields-bind P (normalize_grid ops d.grid) _ (λ grid e.
          Yields-bind P (circled_ok (length grid) d.circled) _ (λ _ _.
            Yields-bind P (normalize_others ops grid d.alternates) _ (λ others _.
              Yields-bind P
                (guard
                  (not
                    (no_runs (runs_from d.width d.height grid (numbering d.width d.height grid) 0)))
                  _)
                _ (λ _ _. h (record d { grid = grid; alternates = others }) _ _ (e, refl)))))))

-- A puzzle that is built can be played: each open square accepts its own answer, and the entries run
-- over open squares alone.
pub new_puzzle-IsPlayable :
    (ops : TextOps) (d : PuzzleData) {p : Puzzle} → new_puzzle ops d ≡ ok p → IsPlayable p
new_puzzle-IsPlayable ops d h = rw h at (
    new_puzzle-Yields IsPlayable ops d (λ d' acrosses downs (e, runs).
      derive-IsPlayable ops d' acrosses downs (rw e at (normalize_grid-Answered ops d.grid)) (
        subst (λ (r : List Run × List Run). RunsIn d'.grid r.0 × RunsIn d'.grid r.1) (sym runs)
          (runs_from-RunsIn d.width d.height d'.grid (numbering d.width d.height d'.grid) 0))))

-- On a puzzle that `new_puzzle` has built, resumed from any saved progress, every sequence of
-- calls that returns leaves a sound game.
pub play-built-IsSound :
    (ops : TextOps) (units : ℕ) (d : PuzzleData) (saved : Progress) (cs : List Command) {p : Puzzle}
    {g g' : Game}
    → new_puzzle ops d ≡ ok p
    → with_progress p ops units saved ≡ some g
    → play p ops cs g ≡ some g'
    → IsSound p g'
play-built-IsSound ops units d saved cs {p} b w e =
    let playable = new_puzzle-IsPlayable ops d b in
    play-IsSound p ops playable cs (rw w at (with_progress-IsSound p ops units saved playable)) e
