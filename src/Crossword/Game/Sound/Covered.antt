-- ===== src/Crossword/Game/Sound/Covered.antt =====
-- What the lookups of a built puzzle say: an entry that runs through a square is found there, and only such.
use scratchpad.Common.{
  ℕ, zero, suc, ◌+◌, ◌<◌, ◌==◌, ==_iff, ◌≡◌, refl, sym, ◌∙◌, subst, true, false, Option, none, some,
  List, [], ◌∷◌, ◌++◌, arith, Bool-cases, ◌⊎◌, inl, inr, contains, get_elem?, get_or, length, set,
  length-set, replicate, length-replicate, get_or-set_self, get_or-set_ne, get_or-replicate,
}
use mathlib.Core.Option
use scratchpad.Crossword.Puzzle.Letters.{Text, TextOps}
use scratchpad.Crossword.Puzzle.{Puzzle, PuzzleData, Direction, across, down, Entry, entry_at}
use scratchpad.Crossword.Puzzle.Build.{Run, own, add_runs, derive, clue_text}
use scratchpad.Crossword.Game.{cells_of, entry_cells}

abbrev Through : ℕ → List Entry → ℕ → Type 0
Through c es k = contains c (cells_of (get_elem? es k)) ≡ true

Through-cons :
    (c : ℕ) (x : Entry) (es : List Entry)
    → contains c x.cells ≡ false
    → ((k : ℕ) → Through c es k → ⊥)
    → (k : ℕ) → Through c (x ∷ es) k
    → ⊥
Through-cons c x es h rest zero t = cc
Through-cons c x es h rest (suc k) t = rest k t

length-own :
    (cells : List ℕ) (owner : List (Option ℕ)) (i : ℕ) → length (own owner cells i) ≡ length owner
unfolding own
length-own [] owner i = refl
length-own (x ∷ cells) owner i =
    length-own cells (set owner x (some i)) i ∙ length-set owner x (some i)

-- The run's cells are its own, and the others are whose they were.
own-at :
    (c : ℕ) (cells : List ℕ) (owner : List (Option ℕ)) (i : ℕ)
    → c < length owner
    → ((contains c cells ≡ true) × (get_or (own owner cells i) c none ≡ some i))
      ⊎ ((contains c cells ≡ false) × (get_or (own owner cells i) c none ≡ get_or owner c none))
unfolding own contains
own-at c [] owner i h = inr (refl, refl)
own-at c (x ∷ cells) owner i h =
    elim (own-at c cells (set owner x (some i)) i (omega (arith, h, length-set owner x (some i)))) [
      | inl (e, q) ↦ inl (ground (arith, e), q)
      | inr (e, q) ↦ elim (Bool-cases (x == c)) [
        | inl same ↦ inl (
          ground (arith, same),
          q
              ∙ subst (λ y. get_or (set owner y (some i)) c none ≡ some i)
                  (sym ((==_iff x c).0 same)) (get_or-set_self owner c (some i) none h),
        )
        | inr apart ↦ inr (
          ground (arith, apart, e),
          q ∙ get_or-set_ne owner x c (some i) none (λ s. ground (arith, apart, s)),
        )
      ]
    ]

module _ (clue : ℕ → Text) (d : Direction) (c : ℕ) where
  -- A square's entry after the loop is one that runs through it, or the one it had before.
  add_runs-Through :
      (runs : List Run) (i : ℕ) (owner : List (Option ℕ)) {e : ℕ}
      → c < length owner
      → get_or (add_runs clue d runs i owner).1 c none ≡ some e
      → (get_or owner c none ≡ some e)
        ⊎ ((k : ℕ) × (e ≡ i + k) × Through c (add_runs clue d runs i owner).0 k)
  unfolding add_runs
  add_runs-Through [] i owner h q = inl q
  add_runs-Through ((n, cells) ∷ runs) i owner {e} h q =
      let inside : c < length (own owner cells i) = omega (arith, h, length-own cells owner i) in
      elim (add_runs-Through runs (i + 1) (own owner cells i) inside q) [
        | inr (k, s, t) ↦ inr (suc k, omega (arith, s), t)
        | inl before ↦ elim (own-at c cells owner i h) [
          | inl (t, s) ↦ inr (
            zero,
            (let r : some i ≡ some e = sym s ∙ before in let s : i ≡ e = cc in omega (arith, s)),
            t,
          )
          | inr (_, s) ↦ inl (sym s ∙ before)
        ]
      ]

  -- A square with no entry after the loop had none before, and no entry runs through it.
  add_runs-none :
      (runs : List Run) (i : ℕ) (owner : List (Option ℕ))
      → c < length owner
      → get_or (add_runs clue d runs i owner).1 c none ≡ none
      → (get_or owner c none ≡ none) × ((k : ℕ) → Through c (add_runs clue d runs i owner).0 k → ⊥)
  unfolding add_runs contains
  add_runs-none [] i owner h q = (q, λ k t. cc)
  add_runs-none ((n, cells) ∷ runs) i owner h q =
      let inside : c < length (own owner cells i) = omega (arith, h, length-own cells owner i) in
      let (before, rest) = add_runs-none runs (i + 1) (own owner cells i) inside q in
      elim (own-at c cells owner i h) [
        | inl (t, s) ↦ absurd (let r : some i ≡ none = sym s ∙ before in cc)
        | inr (t, s) ↦ (sym s ∙ before, Through-cons c _ _ t rest)
      ]

Through-left : (c : ℕ) (a b : List Entry) (k : ℕ) → Through c a k → Through c (a ++ b) k
unfolding contains
Through-left c [] b k t = absurd (cc)
Through-left c (x ∷ a) b zero t = t
Through-left c (x ∷ a) b (suc k) t = Through-left c a b k t

Through-right :
    (c : ℕ) (a b : List Entry) (k : ℕ) → Through c b k → Through c (a ++ b) (length a + k)
Through-right c [] b k t = let same : k ≡ 0 + k = omega arith in subst (Through c b) same t
Through-right c (x ∷ a) b k t =
    let same : suc (length a + k) ≡ suc (length a) + k = omega arith in
    subst (Through c (x ∷ a ++ b)) same (Through-right c a b k t)

Through-either :
    (c : ℕ) (a b : List Entry) (k : ℕ)
    → Through c (a ++ b) k
    → ((k : ℕ) × Through c a k) ⊎ ((k : ℕ) × Through c b k)
Through-either c [] b k t = inr (k, t)
Through-either c (x ∷ a) b zero t = inl (zero, t)
Through-either c (x ∷ a) b (suc k) t = elim (Through-either c a b k t) [
  | inl (k, u) ↦ inl (suc k, u)
  | inr u ↦ inr u
]

-- At a square, the entry found in a direction runs through it, and if none is found in either direction,
-- no entry does.
pub record Looked (p : Puzzle) (c : ℕ) : Type 0 where
  pub through :
      (d : Direction) (e : ℕ) → entry_at p c d ≡ some e → contains c (entry_cells p e) ≡ true
  pub missing :
      entry_at p c across ≡ none
      → entry_at p c down ≡ none
      → (e : ℕ) → contains c (entry_cells p e) ≡ true
      → ⊥

module _ (ops : TextOps) (data' : PuzzleData) (acrosses downs : List Run) (c : ℕ) where
  abbrev blank : List (Option ℕ)
  blank = replicate (length data'.grid) none

  abbrev clue : Direction → ℕ → Text
  clue d n = Option.get_or (clue_text ops d n data'.clues) []

  abbrev across_part : List Entry × List (Option ℕ)
  across_part = add_runs (clue across) across acrosses 0 blank

  abbrev down_part : List Entry × List (Option ℕ)
  down_part = add_runs (clue down) down downs (length across_part.0) blank

  not_vacant : {e : ℕ} → get_or blank c none ≡ some e → ⊥
  not_vacant {e} q =
      let none_there : none ≡ some e = sym (get_or-replicate (length data'.grid) none c) ∙ q in cc

  pub derive-Looked : c < length data'.grid → Looked (derive ops data' acrosses downs) c
  unfolding derive entry_cells
  derive-Looked h = record {
    through = found;
    missing = λ a b e t. elim (Through-either c across_part.0 down_part.0 e t) [
      | inl (k, u) ↦ (add_runs-none (clue across) across c acrosses 0 blank inside a).1 k u
      | inr (k, u) ↦
          (add_runs-none (clue down) down c downs (length across_part.0) blank inside b).1 k u
    ];
  }
    where
      inside : c < length blank
      inside = omega (arith, h, length-replicate {A = Option ℕ} (length data'.grid) none)

      found :
          (d : Direction) (e : ℕ)
          → entry_at (derive ops data' acrosses downs) c d ≡ some e
          → Through c (across_part.0 ++ down_part.0) e
      found across e q = elim (add_runs-Through (clue across) across c acrosses 0 blank inside q) [
        | inl before ↦ absurd (not_vacant before)
        | inr (k, s, t) ↦
            let same : k ≡ e = omega (arith, s) in
            subst (Through c (across_part.0 ++ down_part.0)) same
              (Through-left c across_part.0 down_part.0 k t)
      ]
      found down e q =
          elim (add_runs-Through (clue down) down c downs (length across_part.0) blank inside q) [
            | inl before ↦ absurd (not_vacant before)
            | inr (k, s, t) ↦
                subst (Through c (across_part.0 ++ down_part.0)) (sym s)
                  (Through-right c across_part.0 down_part.0 k t)
          ]
