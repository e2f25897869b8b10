-- ===== src/Crossword/Game/Sound/Steps.antt =====
-- The history, the timer, and the ways a game starts keep or set up the invariant.
use scratchpad.Common.{
  ℕ, zero, suc, ◌+◌, ◌≤◌, ◌≡◌, Bool, false, not, ◌&&◌, Option, none, some, List, [], ◌∷◌, arith,
  length, if◌then◌else◌, Bool-cases, inl, inr, take, ◌==◌, length-take, if-cases,
}
use scratchpad.Crossword.Puzzle.{Puzzle, present}
use scratchpad.Crossword.Game.{Game, Snapshot, Mark, undo_limit, is_correct, pause, resume}
use scratchpad.Crossword.Game.Undo.{
  snapshot, restore, checkpoint, texts_eq, marks_eq, drop_if, drop_unchanged_checkpoint, undo_to,
  step_back, redo_to, step_forward,
}
use scratchpad.Crossword.Game.Sound.{Extends-refl, Squares-Extends}
use scratchpad.Crossword.Game.Sound.History.{
  StepOk, IsSound, AllSteps, AllSteps-Extends, restore-Extends,
}
use scratchpad.Crossword.Game.Sound.Kept.{Kept, Kept-refl, Kept-trans, check_solved-Kept}

AllSteps-take :
    (p : Puzzle) (m : List Mark) (n : ℕ) (steps : List Snapshot)
    → AllSteps p m steps
    → AllSteps p m (take n steps)
AllSteps-take p m zero steps h = tt
AllSteps-take p m (suc n) [] h = tt
AllSteps-take p m (suc n) (s ∷ steps) h = (h.0, AllSteps-take p m n steps h.1)

module _ (p : Puzzle) (g : Game) (s : IsSound p g) where
  snapshot-StepOk : StepOk p g.marks (snapshot g)
  unfolding snapshot
  snapshot-StepOk = record { squares = s.squares; covered = λ c h. h; here = s.here }

  -- Only the history changes.
  history-Kept :
      (u r : List Snapshot)
      → AllSteps p g.marks u
      → AllSteps p g.marks r
      → length u + length r ≤ undo_limit
      → Kept p g (record g { undo = u; redo = r })
  unfolding is_correct
  history-Kept u r hu hr b = record {
    sound = record {
      squares = s.squares;
      here = s.here;
      undo_ok = hu;
      redo_ok = hr;
      bounded = b;
      solved_right = s.solved_right;
    };
    steps = Extends-refl g.fill g.marks;
  }

  pub checkpoint-Kept : Kept p g (checkpoint g)
  unfolding checkpoint
  checkpoint-Kept =
      if-cases (Kept p g) g.solved _ _ (λ _. Kept-refl s)
        (λ _. history-Kept (snapshot g ∷ kept) [] (snapshot-StepOk, steps.0) tt steps.1)
    where
      kept : List Snapshot
      kept = if length g.undo == undo_limit then take 499 g.undo else g.undo

      steps : AllSteps p g.marks kept × (suc (length kept) + 0 ≤ undo_limit)
      steps =
          if-cases (λ u. AllSteps p g.marks u × (suc (length u) + 0 ≤ undo_limit))
            (length g.undo == undo_limit) (take 499 g.undo) g.undo
            (λ _.
              (AllSteps-take p g.marks 499 g.undo s.undo_ok, omega (arith, length-take 499 g.undo)))
            (λ room. (s.undo_ok, ground (arith, s.bounded)))

  pub drop_unchanged_checkpoint-Kept : Kept p g (drop_unchanged_checkpoint g).0
  unfolding drop_unchanged_checkpoint
  drop_unchanged_checkpoint-Kept = go g.undo s.undo_ok s.bounded
    where
      go :
          (u : List Snapshot)
          → AllSteps p g.marks u
          → length u + length g.redo ≤ undo_limit
          → Kept p g (drop_if g u).0
      go [] h b = Kept-refl s
      go (t ∷ u) h b =
          unfold drop_if in
          if-cases (λ (r : Game × Bool). Kept p g r.0)
            (texts_eq t.fill g.fill && marks_eq t.marks g.marks) _ _
            (λ _. history-Kept u g.redo h.1 s.redo_ok (omega arith)) (λ _. Kept-refl s)

  -- A step is restored, and the history becomes `u` and `r`.
  restored-Kept :
      (t : Snapshot) (u r : List Snapshot)
      → g.solved ≡ false
      → StepOk p g.marks t
      → AllSteps p g.marks u
      → AllSteps p g.marks r
      → length u + length r ≤ undo_limit
      → Kept p g (restore t (record g { undo = u; redo = r }))
  restored-Kept t u r plays ok hu hr b =
      let e = restore-Extends t g s.squares ok in
      let g' = restore t (record g { undo = u; redo = r }) in
      unfold restore in
      record {
        sound = record {
          squares = Squares-Extends s.squares e;
          here = ok.here;
          undo_ok = AllSteps-Extends u s.squares e hu;
          redo_ok = AllSteps-Extends r s.squares e hr;
          bounded = b;
          solved_right = λ q. absurd (cc);
        };
        steps = e;
      }

  pub step_back-Kept : Kept p g (step_back g).0
  unfolding step_back
  step_back-Kept =
      if-cases (λ (r : Game × Bool). Kept p g r.0) g.solved _ _ (λ _. Kept-refl s)
        (λ plays. go g.undo s.undo_ok s.bounded plays)
    where
      go :
          (u : List Snapshot)
          → AllSteps p g.marks u
          → length u + length g.redo ≤ undo_limit
          → g.solved ≡ false
          → Kept p g (undo_to g u).0
      go [] h b plays = Kept-refl s
      go (t ∷ u) h b plays =
          unfold undo_to in
          restored-Kept t u (snapshot g ∷ g.redo) plays h.0 h.1 (snapshot-StepOk, s.redo_ok)
            (omega arith)

  pub step_forward-Kept : (now : ℕ) → Kept p g (step_forward p now g).0
  unfolding step_forward
  step_forward-Kept now =
      if-cases (λ (r : Game × Bool). Kept p g r.0) g.solved _ _ (λ _. Kept-refl s)
        (λ plays. go g.redo s.redo_ok s.bounded plays)
    where
      go :
          (r : List Snapshot)
          → AllSteps p g.marks r
          → length g.undo + length r ≤ undo_limit
          → g.solved ≡ false
          → Kept p g (redo_to p now g r).0
      go [] h b plays = Kept-refl s
      go (t ∷ r) h b plays =
          let k =
            restored-Kept t (snapshot g ∷ g.undo) r plays h.0 (snapshot-StepOk, s.undo_ok) h.1
              (omega arith) in
          unfold redo_to in Kept-trans k (check_solved-Kept p _ k.sound now)

  timer-Kept : (t : ℕ) (r : Option ℕ) → Kept p g (record g { elapsed = t; running_since = r })
  unfolding is_correct
  timer-Kept t r = record {
    sound = record {
      squares = s.squares;
      here = s.here;
      undo_ok = s.undo_ok;
      redo_ok = s.redo_ok;
      bounded = s.bounded;
      solved_right = s.solved_right;
    };
    steps = Extends-refl g.fill g.marks;
  }

  pub pause-Kept : (now : ℕ) → Kept p g (pause now g)
  unfolding pause
  pause-Kept now = timer-Kept _ none

  pub resume-Kept : (now : ℕ) → Kept p g (resume now g)
  unfolding resume
  resume-Kept now = elim (Bool-cases (not (present g.running_since) && not g.solved)) [
    | inl a ↦ rw a (timer-Kept g.elapsed (some now))
    | inr a ↦ rw a (Kept-refl s)
  ]
