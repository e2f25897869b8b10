-- ===== src/Crossword/Solve/Sound.antt =====
-- The keys of the solve screen keep the game sound and its locked squares, `:reset` apart.
pub mod Keys
pub mod Modes
pub mod Commands
use scratchpad.Common.{
  ℕ, zero, suc, ◌≡◌, refl, Bool, true, false, not, ◌||◌, ◌&&◌, Option, none, some, List, [], ◌∷◌,
  ◌==◌, arith, if◌then◌else◌, if-cases, Bool-cases, Option-cases, ◌⊎◌, inl, inr,
}
use scratchpad.Crossword.Puzzle.{Puzzle}
use scratchpad.Crossword.Game.{Game, ◌>>=◌}
use scratchpad.Crossword.Game.Undo.{checkpoint, drop_unchanged_checkpoint}
use scratchpad.Crossword.Game.Sound.Moves.{IsPlayable, Ensures, Ensures-bind, Ensures-if}
use scratchpad.Crossword.Game.Sound.History.{IsSound}
use scratchpad.Crossword.Game.Sound.Kept.{Kept, Kept-refl, Kept-trans}
use scratchpad.Crossword.Game.Sound.Play.{Ensures-then}
use scratchpad.Crossword.Game.Sound.Steps
use scratchpad.Crossword.Solve.{Solve, Outcome, Message, enter_insert, edit, repeat, any_of}
use scratchpad.Crossword.Solve.Normal.{played, edited, entered, change_by, insert_after, any_change}

-- The puzzle stays, and the game changes as the rules allow.
abbrev pub Stays : Solve → Solve × Outcome → Type 0
Stays s r = (r.0.built ≡ s.built) × Kept s.built s.game r.0.game

-- An operation that keeps every sound game
abbrev pub Keeps : Puzzle → (Game → Option Game) → Type 0
Keeps p op = (g : Game) → IsSound p g → Ensures (Kept p g) (op g)

module _ (p : Puzzle) where
  pub edit-Kept :
      (change : Game → Option Game) (g : Game)
      → Keeps p change
      → IsSound p g
      → Ensures (λ r. Kept p g r.0) (edit g change)
  unfolding edit
  edit-Kept change g keeps k =
      Ensures-if (λ r. Kept p g r.0) g.solved _ _ (λ _. Kept-refl k)
        (λ _.
          Ensures-bind (λ r. Kept p g r.0) (change (checkpoint g)) _
            (λ g' e.
              let k₁ = Steps.checkpoint-Kept p g k in
              let k₂ = rw e at (keeps (checkpoint g) k₁.sound) in
              Kept-trans k₁ (Kept-trans k₂ (Steps.drop_unchanged_checkpoint-Kept p g' k₂.sound))))

  pub repeat-Kept :
      (n : ℕ) (motion : Game → Option Game) → Keeps p motion → Keeps p (repeat n motion)
  unfolding repeat
  repeat-Kept zero motion keeps g k = Kept-refl k
  repeat-Kept (suc n) motion keeps g k = Ensures-bind (Kept p g) (motion g) _ (λ g' e.
      let k₁ = rw e at (keeps g k) in
      Ensures-then (λ g''. Kept-trans k₁) (repeat n motion g')
        (repeat-Kept n motion keeps g' k₁.sound))

  pub any_of-Kept :
      (n : ℕ) (act : Game → Game × Bool) (g : Game) (any : Bool)
      → ((x : Game) → IsSound p x → Kept p x (act x).0)
      → IsSound p g
      → Kept p g (any_of n act g any).0
  unfolding any_of
  any_of-Kept zero act g any keeps k = Kept-refl k
  any_of-Kept (suc n) act g any keeps k =
      let k₁ = keeps g k in
      Kept-trans k₁ (any_of-Kept n act (act g).0 (any || (act g).1) keeps k₁.sound)

module _ (s : Solve) (k : IsSound s.built s.game) where
  pub played-Stays :
      (o : Option Game) (out : Outcome)
      → Ensures (Kept s.built s.game) o
      → Ensures (Stays s) (played s o out)
  played-Stays none out h = tt
  played-Stays (some g) out h = (refl, h)

  pub edited-Stays :
      (change : Game → Option Game) (out : Game → Bool → Outcome)
      → Keeps s.built change
      → Ensures (Stays s) (edited s (edit s.game change) out)
  edited-Stays change out keeps =
      Ensures-bind (Stays s) (edit s.game change) _
        (λ r e. (refl, rw e at (edit-Kept s.built change s.game keeps k)))

  pub enter_insert-Kept :
      (mark : Bool)
      → (((enter_insert mark s).0.built ≡ s.built)
          × Kept s.built s.game (enter_insert mark s).0.game)
  unfolding enter_insert
  enter_insert-Kept mark =
      if-cases
        (λ (r : Solve × Option Message). (r.0.built ≡ s.built) × Kept s.built s.game r.0.game)
        s.game.solved _ _ (λ _. (refl, Kept-refl k))
        (λ _. (
          refl,
          if-cases (Kept s.built s.game) mark (checkpoint s.game) s.game
              (λ _. Steps.checkpoint-Kept s.built s.game k) (λ _. Kept-refl k),
        ))

module _ (s : Solve) (k : IsSound s.built s.game) where
  pub change_by-Stays :
      (op : Game → Option Game) → Keeps s.built op → Ensures (Stays s) (change_by s op)
  change_by-Stays op keeps = Ensures-bind (Stays s) (op (checkpoint s.game)) _ (λ g e.
      let k₁ = Steps.checkpoint-Kept s.built s.game k in
      let k₂ = Kept-trans k₁ (rw e at (keeps (checkpoint s.game) k₁.sound)) in
      let (b, k₃) = enter_insert-Kept (record s { game = g }) k₂.sound false in
      (b, Kept-trans k₂ k₃))

  pub insert_after-Stays :
      (o : Option Game) → Ensures (Kept s.built s.game) o → Ensures (Stays s) (insert_after s o)
  insert_after-Stays none h = tt
  insert_after-Stays (some g) h =
      let (b, k₁) = enter_insert-Kept (record s { game = g }) h.sound true in (b, Kept-trans h k₁)
