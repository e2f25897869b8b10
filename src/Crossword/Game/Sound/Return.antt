-- ===== src/Crossword/Game/Sound/Return.antt =====
-- A redo takes an undo back.
use scratchpad.Common.{
  ℕ, suc, ◌≡◌, refl, ap, ap₂, sym, Bool, true, false, not, ◌&&◌, List, [], ◌∷◌, length, Bool-cases,
  inl, inr, if-cases, bytes_eq,
}
use scratchpad.Crossword.Puzzle.Letters.{Text}
use scratchpad.Crossword.Puzzle.{Puzzle}
use scratchpad.Crossword.Game.{
  Game, Snapshot, Mark, is_locked, is_wrong, is_correct, mark_at, check_solved, pause,
}
use scratchpad.Crossword.Game.Undo.{
  restore_square, restore_squares, restore, snapshot, step_back, undo_to, step_forward, redo_to,
}
use scratchpad.Crossword.Game.Sound.History.{IsSound, StepOk}

-- An unlocked square takes the letters that are restored.
unlocked-restore :
    (l : Text) (s : Mark) (h : Text) (m : Mark)
    → is_locked m ≡ false
    → (restore_square l s h m).0 ≡ l
unfolding restore_square
unlocked-restore l s h m e = rw e (
    if-cases (λ (q : Text × Mark). q.0 ≡ l) (is_wrong m && bytes_eq l h) _ _ (λ _. refl)
      (λ _. refl))

locked-restore :
    (l : Text) (s : Mark) (h : Text) (m : Mark)
    → is_locked m ≡ true
    → restore_square l s h m ≡ (h, m)
unfolding restore_square
locked-restore l s h m e = rw e refl

restore-unlocked :
    (l : Text) (s : Mark) (h : Text) (m : Mark)
    → is_locked m ≡ false
    → is_locked s ≡ false
    → is_locked (restore_square l s h m).1 ≡ false
unfolding restore_square
restore-unlocked l s h m e k = rw e (
    if-cases (λ (q : Text × Mark). is_locked q.1 ≡ false) (is_wrong m && bytes_eq l h) _ _ (λ _. e)
      (λ _. k))

square_returns :
    (l : Text) (s : Mark) (h : Text) (m : Mark)
    → (is_locked s ≡ true → is_locked m ≡ true)
    → let q = restore_square l s h m in (restore_square h m q.0 q.1).0 ≡ h
square_returns l s h m k = elim (Bool-cases (is_locked m)) [
  | inl locked ↦ rw (locked-restore l s h m locked, locked-restore h m h m locked) refl
  | inr free ↦
      let open' : is_locked s ≡ false = elim (Bool-cases (is_locked s)) [
        | inl a ↦ let x : is_locked m ≡ true = k a in absurd (cc)
        | inr a ↦ a
      ] in
      unlocked-restore h m _ _ (restore-unlocked l s h m free open')
]

square_same : (h : Text) (m : Mark) → (restore_square h m h m).0 ≡ h
square_same h m = elim (Bool-cases (is_locked m)) [
  | inl locked ↦ rw (locked-restore h m h m locked) refl
  | inr free ↦ unlocked-restore h m h m free
]

squares_same :
    (fill : List Text) (marks : List Mark) → (restore_squares fill marks fill marks).0 ≡ fill
unfolding restore_squares
squares_same [] marks = refl
squares_same (h ∷ fill) [] = refl
squares_same (h ∷ fill) (m ∷ marks) =
    ap₂ (λ (x : Text) (xs : List Text). x ∷ xs) (square_same h m) (squares_same fill marks)

squares_return :
    (ls : List Text) (ss : List Mark) (fill : List Text) (marks : List Mark)
    → ((c : ℕ) → is_locked (mark_at ss c) ≡ true → is_locked (mark_at marks c) ≡ true)
    → let r = restore_squares ls ss fill marks in (restore_squares fill marks r.0 r.1).0 ≡ fill
unfolding restore_squares
squares_return (l ∷ ls) (s ∷ ss) (h ∷ fill) (m ∷ marks) k =
    ap₂ (λ (x : Text) (xs : List Text). x ∷ xs) (square_returns l s h m (k 0))
      (squares_return ls ss fill marks (λ c. k (suc c)))
squares_return [] ss fill marks k = squares_same fill marks
squares_return (l ∷ ls) [] fill marks k = squares_same fill marks
squares_return (l ∷ ls) (s ∷ ss) [] marks k = refl
squares_return (l ∷ ls) (s ∷ ss) (h ∷ fill) [] k = refl

-- The letters, the cursor and its direction agree, and so do the steps that a redo would take and how
-- many an undo would.
abbrev pub SameView : Game → Game → Type 0
SameView a b =
    (a.fill ≡ b.fill)
    × (a.cursor ≡ b.cursor)
    × (a.direction ≡ b.direction)
    × (length a.undo ≡ length b.undo)
    × (a.redo ≡ b.redo)

check_solved-SameView :
    (p : Puzzle) (now : ℕ) (g h : Game) → SameView g h → SameView (check_solved p now g) h
unfolding check_solved pause
check_solved-SameView p now g h v =
    if-cases (λ x. SameView x h) (not g.solved && is_correct p g) _ _ (λ _. v) (λ _. v)

module _ (p : Puzzle) (now : ℕ) (g : Game) where
  redone-SameView :
      (h : Game) (t : Snapshot) (later : List Snapshot)
      → g.solved ≡ false
      → g.redo ≡ t ∷ later
      → SameView (restore t (record g { redo = later; undo = snapshot g ∷ g.undo })) h
      → SameView (step_forward p now g).0 h
  unfolding step_forward
  redone-SameView h t later plays top v =
      if-cases (λ (r : Game × Bool). SameView r.0 h) g.solved _ _ (λ over. absurd (cc))
        (λ _. go g.redo top)
    where
      go : (rs : List Snapshot) → rs ≡ t ∷ later → SameView (redo_to p now g rs).0 h
      go rs e = rw e (unfold redo_to in check_solved-SameView p now _ h v)

undone :
    (g : Game) (s : Snapshot) (steps : List Snapshot)
    → g.solved ≡ false
    → g.undo ≡ s ∷ steps
    → (step_back g).0 ≡ restore s (record g { undo = steps; redo = snapshot g ∷ g.redo })
unfolding step_back
undone g s steps plays top =
    if-cases
      (λ (r : Game × Bool). r.0 ≡ restore s (record g { undo = steps; redo = snapshot g ∷ g.redo }))
      g.solved _ _ (λ over. absurd (cc)) (λ _. go g.undo top)
  where
    go :
        (us : List Snapshot)
        → us ≡ s ∷ steps
        → (undo_to g us).0 ≡ restore s (record g { undo = steps; redo = snapshot g ∷ g.redo })
    go us e = rw e (unfold undo_to in refl)

-- In a sound unsolved game with a step to undo, a redo takes an undo back: the letters, the
-- cursor, its direction and the extent of both histories are as before.
pub step_forward-step_back :
    (p : Puzzle) (now : ℕ) (g : Game) (s : Snapshot) (steps : List Snapshot)
    → IsSound p g
    → g.solved ≡ false
    → g.undo ≡ s ∷ steps
    → SameView (step_forward p now (step_back g).0).0 g
unfolding restore snapshot
step_forward-step_back p now g s steps sound plays top =
    let ok : StepOk p g.marks s = (rw top at sound.undo_ok).0 in
    rw (undone g s steps plays top) (
      redone-SameView p now (restore s (record g { undo = steps; redo = snapshot g ∷ g.redo })) g
        (snapshot g) g.redo plays refl
        (
          squares_return s.fill s.marks g.fill g.marks ok.covered,
          refl,
          refl,
          sym (ap length top),
          refl,
        ))
