-- ===== src/Crossword/Game/Sound/Edits.antt =====
-- Each edit, check and reveal changes squares as the rules allow.
use scratchpad.Common.{
  ℕ, ◌≡◌, refl, true, false, not, ◌&&◌, ◌||◌, List, [], arith, length, set, length-set, get_or-set,
  bytes_eq, ◌==◌, ltb, if◌then◌else◌, Bool-cases, subst, inl, inr,
}
use mathlib.Core.Option
use scratchpad.Crossword.Puzzle.Letters.{Text, is_empty}
use scratchpad.Crossword.Puzzle.{Puzzle, accepts, solution}
use scratchpad.Crossword.Game.{
  Game, CheckReport, Mark, unmarked, wrong, correct, revealed, is_locked, is_wrong, letter_at,
  mark_at, cell_correct, filled,
}
use scratchpad.Crossword.Game.Edit.{editable, put, is_revealed, check_cell, reveal_cell}
use scratchpad.Crossword.Game.Sound.{SquareOk, SquareStep, Extends, Extends-refl}

abbrev pub GameExtends : Puzzle → Game → Game → Type 0
GameExtends p g g' = Extends p g.fill g.marks g'.fill g'.marks

-- Letters and mark of one square are written.
Extends-set :
    (p : Puzzle) (f : List Text) (m : List Mark) (c : ℕ) (l : Text) (k : Mark)
    → length f ≡ length m
    → SquareStep p c (letter_at f c) (mark_at m c) l k
    → Extends p f m (set f c l) (set m c k)
Extends-set p f m c l k e h = record {
  fill_len = length-set f c l;
  marks_len = length-set m c k;
  at = λ j.
      rw (get_or-set f c j l [], get_or-set m c j k unmarked, ← e)
        (elim (Bool-cases (c == j && ltb c (length f))) [
          | inl here ↦
              rw here
                (subst (λ i. SquareStep p i (letter_at f i) (mark_at m i) l k) (same j here) h)
          | inr there ↦ rw there (λ o. (o, λ q. (q, refl)))
        ]);
}
  where
    same : (j : ℕ) → (c == j && ltb c (length f)) ≡ true → c ≡ j
    same j q = ground arith

-- The mark of one square is written.
Extends-mark :
    (p : Puzzle) (f : List Text) (m : List Mark) (c : ℕ) (k : Mark)
    → SquareStep p c (letter_at f c) (mark_at m c) (letter_at f c) k
    → Extends p f m f (set m c k)
Extends-mark p f m c k h = record {
  fill_len = refl;
  marks_len = length-set m c k;
  at = λ j. rw (get_or-set m c j k unmarked) (elim (Bool-cases (c == j && ltb c (length m))) [
    | inl here ↦ rw here (
        subst (λ i. SquareStep p i (letter_at f i) (mark_at m i) (letter_at f i) k) (same j here) h)
    | inr there ↦ rw there (λ o. (o, λ q. (q, refl)))
  ]);
}
  where
    same : (j : ℕ) → (c == j && ltb c (length m)) ≡ true → c ≡ j
    same j q = ground arith

-- The letters of one square are written.
Extends-fill :
    (p : Puzzle) (f : List Text) (m : List Mark) (c : ℕ) (l : Text)
    → SquareStep p c (letter_at f c) (mark_at m c) l (mark_at m c)
    → Extends p f m (set f c l) m
Extends-fill p f m c l h = record {
  fill_len = length-set f c l;
  marks_len = refl;
  at = λ j. rw (get_or-set f c j l []) (elim (Bool-cases (c == j && ltb c (length f))) [
    | inl here ↦
        rw here (
          subst (λ i. SquareStep p i (letter_at f i) (mark_at m i) l (mark_at m i)) (same j here) h)
    | inr there ↦ rw there (λ o. (o, λ q. (q, refl)))
  ]);
}
  where
    same : (j : ℕ) → (c == j && ltb c (length f)) ≡ true → c ≡ j
    same j q = ground arith

typed_step :
    (p : Puzzle) (c : ℕ) (l l' : Text) (k : Mark)
    → is_locked k ≡ false
    → SquareStep p c l k l' (if is_wrong k then unmarked else k)
typed_step p c l l' unmarked h o = (tt, λ q. cc)
typed_step p c l l' wrong h o = (tt, λ q. cc)
typed_step p c l l' correct h o = absurd (cc)
typed_step p c l l' revealed h o = absurd (cc)

pub put-Extends :
    (p : Puzzle) (c : ℕ) (l : Text) (g : Game)
    → length g.fill ≡ length g.marks
    → GameExtends p g (put p c l g).0
unfolding put editable
put-Extends p c l g e =
    elim (Bool-cases (not (editable p g c) || bytes_eq (letter_at g.fill c) l)) [
      | inl stays ↦ rw stays (Extends-refl g.fill g.marks)
      | inr writes ↦
          let free : is_locked (mark_at g.marks c) ≡ false = ground arith in
          let step = typed_step p c (letter_at g.fill c) l (mark_at g.marks c) free in
          elim (Bool-cases (is_wrong (mark_at g.marks c))) [
            | inl w ↦ rw (writes, w) (Extends-set p g.fill g.marks c l unmarked e (rw w at step))
            | inr n ↦ rw (writes, n) (Extends-fill p g.fill g.marks c l (rw n at step))
          ]
    ]

verdict :
    (p : Puzzle) (c : ℕ) (l : Text)
    → is_empty l ≡ false
    → SquareOk p c l (if accepts p c l then correct else wrong)
verdict p c l e = elim (Bool-cases (accepts p c l)) [
  | inl right ↦ rw right right
  | inr bad ↦ rw bad (e, bad)
]

checked_step :
    (p : Puzzle) (c : ℕ) (l : Text) (m : Mark)
    → is_empty l ≡ false
    → SquareStep p c l m l (if accepts p c l then correct else wrong)
checked_step p c l unmarked e o = (verdict p c l e, λ q. cc)
checked_step p c l wrong e o = (verdict p c l e, λ q. cc)
checked_step p c l correct e o = rw o (o, λ q. (refl, refl))
checked_step p c l revealed e o = rw o (o, λ q. (refl, refl))

pub check_cell-Extends :
    (p : Puzzle) (c : ℕ) (g : Game) (r : CheckReport) → GameExtends p g (check_cell p c (g, r)).0
unfolding check_cell
check_cell-Extends p c g r =
    elim (Bool-cases (not (filled p g c) || is_revealed (mark_at g.marks c))) [
      | inl skips ↦ rw skips (Extends-refl g.fill g.marks)
      | inr looks ↦
          let step = checked_step p c (letter_at g.fill c) (mark_at g.marks c) (ground arith) in
          elim (Bool-cases (cell_correct p g c)) [
            | inl right ↦
                rw (looks, right) (Extends-mark p g.fill g.marks c correct (rw right at step))
            | inr bad ↦ rw (looks, bad) (Extends-mark p g.fill g.marks c wrong (rw bad at step))
          ]
    ]

abbrev answer : Puzzle → ℕ → Text
answer p c = Option.get_or (solution p c) []

-- The square's own answer counts as right.
abbrev pub HasAnswer : Puzzle → ℕ → Type 0
HasAnswer p c = accepts p c (answer p c) ≡ true

unlocked_step :
    (p : Puzzle) (c : ℕ) (l l' : Text) (m m' : Mark)
    → is_locked m ≡ false
    → SquareOk p c l' m'
    → SquareStep p c l m l' m'
unlocked_step p c l l' m m' h o _ = (o, λ q. absurd (cc))

pub reveal_cell-Extends :
    (p : Puzzle) (c : ℕ) (g : Game) (n : ℕ)
    → length g.fill ≡ length g.marks
    → HasAnswer p c
    → GameExtends p g (reveal_cell p c (g, n)).0
unfolding reveal_cell
reveal_cell-Extends p c g n e h = elim (Bool-cases (is_locked (mark_at g.marks c))) [
  | inl locked ↦ rw locked (Extends-refl g.fill g.marks)
  | inr free ↦ elim (Bool-cases (cell_correct p g c)) [
    | inl right ↦
        rw (free, right)
          (Extends-mark p g.fill g.marks c correct (unlocked_step p c _ _ _ correct free right))
    | inr bad ↦
        rw (free, bad)
          (Extends-set p g.fill g.marks c (answer p c) revealed e
            (unlocked_step p c _ _ _ revealed free h))
  ]
]
