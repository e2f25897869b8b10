-- ===== src/Crossword/Solve/Sound/Commands.antt =====
-- The command line, and a key in any mode: what it keeps of the game.
use scratchpad.Common.{
  ℕ, ◌≡◌, refl, Bool, true, Option, none, some, [], if-cases, ◌⊎◌, inl, inr, subst, sym,
}
use scratchpad.Crossword.Puzzle.Letters.{Text}
use scratchpad.Crossword.Puzzle.{Direction, other}
use scratchpad.Crossword.Game.{Game, Scope, letter_at, mark_at, is_locked}
use scratchpad.Crossword.Game.Motion.{goto_clue}
use scratchpad.Crossword.Game.Edit.{reset, check, reveal}
use scratchpad.Crossword.Game.Commands.{run, clearing}
use scratchpad.Crossword.Game.Sound.Moves.{
  IsPlayable, Ensures, Ensures-bind, Ensures-if, Moved, goto_clue-Moved,
}
use scratchpad.Crossword.Game.Sound.History.{IsSound}
use scratchpad.Crossword.Game.Sound.Start.{reset-IsSound}
use scratchpad.Crossword.Game.Sound.Kept.{Kept, Kept-refl, Kept-trans, Kept-Moved}
use scratchpad.Crossword.Game.Sound.Play.{run-Kept}
use scratchpad.Crossword.Game.Sound.Ops.{check-Kept, reveal-Kept}
use scratchpad.Crossword.Keys.{KeyCode, Key, is_chorded}
use scratchpad.Crossword.Solve.{Env, Solve, Outcome, Mode, normal, insert, command, rebus, quiet}
use scratchpad.Crossword.Solve.Insert.{leaves_by}
use scratchpad.Crossword.Solve.Commands.{
  CommandName, check_name, reveal_name, clear_name, empty_name, leave_name, quit_name, write_name,
  reset_name, help_name, other_name, scoped, unknown_scope, scoped_command, other_command,
  find_clue, parse_scope, parse_clue_ref, run_named, run_command, command_code, command_key,
  mode_key, command_name, name_and_arg,
}
use scratchpad.Crossword.Solve.Sound.{Stays, edited-Stays}
use scratchpad.Crossword.Solve.Sound.Modes.{insert_key-Stays, rebus_key-Stays}
use scratchpad.Crossword.Solve.Sound.Keys.{normal_key-Stays}

-- As `Stays`, or the game is reset.
abbrev pub Allowed : ℕ → Solve → Solve × Outcome → Type 0
Allowed now s r =
    (r.0.built ≡ s.built) × (Kept s.built s.game r.0.game ⊎ (r.0.game ≡ reset s.built now s.game))

Stays-Allowed :
    (now : ℕ) (s : Solve) (o : Option (Solve × Outcome))
    → Ensures (Stays s) o
    → Ensures (Allowed now s) o
Stays-Allowed now s none h = tt
Stays-Allowed now s (some r) (b, k) = (b, inl k)

module _ (env : Env) (now : ℕ) (s : Solve) (ok : IsPlayable s.built)
    (k : IsSound s.built s.game) where
  goes :
      (d : Direction) (n : ℕ)
      → Ensures (λ r. Kept s.built s.game r.0) (goto_clue s.built d n s.game)
  goes d n = unlessed (goto_clue s.built d n s.game) (goto_clue-Moved s.built ok s.game k.here d n)
    where
      unlessed :
          (o : Option (Game × Bool))
          → Ensures (λ r. Moved s.built s.game r.0) o
          → Ensures (λ r. Kept s.built s.game r.0) o
      unlessed none h = tt
      unlessed (some r) h = Kept-Moved k h

module _ (env : Env) (now : ℕ) (s : Solve) (ok : IsPlayable s.built)
    (k : IsSound s.built s.game) where
  scoped-Stays :
      (name : CommandName) (scope : Scope) → Ensures (Stays s) (scoped env now name scope s)
  unfolding scoped
  scoped-Stays check_name scope =
      Ensures-bind (Stays s) (check s.built scope s.game) _
        (λ r e. (refl, rw e at (check-Kept s.built ok s.game k scope)))
  scoped-Stays reveal_name scope =
      Ensures-bind (Stays s) (reveal s.built scope now s.game) _
        (λ r e. (refl, rw e at (reveal-Kept s.built ok s.game k scope now)))
  scoped-Stays _ scope =
      edited-Stays s k _ _ (unfold run in run-Kept s.built env.ops ok (clearing scope))

  scoped_command-Stays :
      (name : CommandName) (arg : Option Text)
      → Ensures (Stays s) (scoped_command env now name arg s)
  unfolding scoped_command
  scoped_command-Stays name arg =
      Ensures-if (Stays s) s.game.solved _ _ (λ _. (refl, Kept-refl k))
        (λ _. by_scope (parse_scope arg))
    where
      by_scope :
          (o : Option Scope)
          → Ensures (Stays s) (elim o as (λ _. Option (Solve × Outcome)) [
            | some scope ↦ scoped env now name scope s
            | none ↦ unknown_scope env now arg s
          ])
      by_scope (some scope) = scoped-Stays name scope
      by_scope none = (refl, Kept-refl k)

  find_clue-Kept :
      (d : Option Direction) (n : ℕ)
      → Ensures (λ r. Kept s.built s.game r.0) (find_clue env now d n s)
  find_clue-Kept (some d) n = goes env now s ok k d n
  find_clue-Kept none n =
      Ensures-bind (λ r. Kept s.built s.game r.0) (goto_clue s.built s.game.direction n s.game) _
        (λ r e.
          let k₁ = rw e at (goes env now s ok k s.game.direction n) in
          Ensures-if (λ r. Kept s.built s.game r.0) r.1 _ _ (λ _. k₁)
            (λ _.
              then_goes (goto_clue s.built (other r.0.direction) n r.0) k₁
                (goes env now (record s { game = r.0 }) ok k₁.sound (other r.0.direction) n)))
    where
      then_goes :
          {g : Game} (o : Option (Game × Bool))
          → Kept s.built s.game g
          → Ensures (λ r. Kept s.built g r.0) o
          → Ensures (λ r. Kept s.built s.game r.0) o
      then_goes none a h = tt
      then_goes (some r) a h = Kept-trans a h

  other_command-Stays :
      (name line : Text) (o : Option (ℕ × Option Direction))
      → Ensures (Stays s) (other_command env now name line o s)
  unfolding other_command
  other_command-Stays name line none = (refl, Kept-refl k)
  other_command-Stays name line (some (n, d)) =
      Ensures-bind (Stays s) (find_clue env now d n s) _
        (λ r e. (refl, rw e at (find_clue-Kept d n)))

  run_named-Allowed :
      (c : CommandName) (name : Text) (arg : Option Text) (line : Text)
      → Ensures (Allowed now s) (run_named env now c name arg line s)
  unfolding run_named
  run_named-Allowed empty_name name arg line = (refl, inl (Kept-refl k))
  run_named-Allowed leave_name name arg line = (refl, inl (Kept-refl k))
  run_named-Allowed quit_name name arg line = (refl, inl (Kept-refl k))
  run_named-Allowed write_name name arg line = (refl, inl (Kept-refl k))
  run_named-Allowed reset_name name arg line = (refl, inr refl)
  run_named-Allowed help_name name arg line = (refl, inl (Kept-refl k))
  run_named-Allowed other_name name arg line =
      Stays-Allowed now s _ (other_command-Stays name line (parse_clue_ref name))
  run_named-Allowed check_name name arg line =
      Stays-Allowed now s _ (scoped_command-Stays check_name arg)
  run_named-Allowed reveal_name name arg line =
      Stays-Allowed now s _ (scoped_command-Stays reveal_name arg)
  run_named-Allowed clear_name name arg line =
      Stays-Allowed now s _ (scoped_command-Stays clear_name arg)

module _ (env : Env) (now : ℕ) (key : Key) (s : Solve) (ok : IsPlayable s.built)
    (k : IsSound s.built s.game) where
  command_code-Allowed :
      (code : KeyCode) → Ensures (Allowed now s) (command_code env now key code s)
  unfolding command_code run_command
  command_code-Allowed KeyCode.enter =
      let line = env.ops.trim s.input in
      let r = name_and_arg env now line in
      run_named-Allowed env now (record s { mode = normal; input = [] }) ok k (command_name r.0) r.0
        r.1 line
  command_code-Allowed KeyCode.backspace = (refl, inl (Kept-refl k))
  command_code-Allowed (KeyCode.char c) =
      if-cases (λ (x : Solve). Allowed now s (x, quiet)) (is_chorded key) _ _
        (λ _. (refl, inl (Kept-refl k))) (λ _. (refl, inl (Kept-refl k)))
  command_code-Allowed _ = (refl, inl (Kept-refl k))

  pub mode_key-Allowed : (mode : Mode) → Ensures (Allowed now s) (mode_key env now mode key s)
  unfolding mode_key command_key
  mode_key-Allowed normal = Stays-Allowed now s _ (normal_key-Stays env now key s ok k)
  mode_key-Allowed insert = Stays-Allowed now s _ (insert_key-Stays env now s ok k key)
  mode_key-Allowed rebus = Stays-Allowed now s _ (rebus_key-Stays env now s ok k key)
  mode_key-Allowed command =
      Ensures-if (Allowed now s) (leaves_by key) _ _ (λ _. (refl, inl (Kept-refl k)))
        (λ _. command_code-Allowed key.code)

  -- A key in any mode that returns leaves the puzzle as it is and a sound game.
  pub mode_key-IsSound :
      (mode : Mode) {r : Solve × Outcome}
      → mode_key env now mode key s ≡ some r
      → (r.0.built ≡ s.built) × IsSound s.built r.0.game
  mode_key-IsSound mode {r} e = of_allowed (rw e at (mode_key-Allowed mode))
    where
      of_allowed : Allowed now s r → (r.0.built ≡ s.built) × IsSound s.built r.0.game
      of_allowed (b, inl h) = (b, h.sound)
      of_allowed (b, inr h) =
          (b, subst (IsSound s.built) (sym h) (reset-IsSound s.built ok s.game now k))

  -- In a sound game on a playable puzzle, a square that is locked keeps its letters and its lock
  -- through a key in any mode that returns, but for the one whose command resets the game.
  pub mode_key-locked :
      (mode : Mode) (c : ℕ) {r : Solve × Outcome}
      → mode_key env now mode key s ≡ some r
      → is_locked (mark_at s.game.marks c) ≡ true
      → ((letter_at r.0.game.fill c ≡ letter_at s.game.fill c)
          × (is_locked (mark_at r.0.game.marks c) ≡ true))
        ⊎ (r.0.game ≡ reset s.built now s.game)
  mode_key-locked mode c {r} e locked = of_allowed (rw e at (mode_key-Allowed mode))
    where
      of_allowed :
          Allowed now s r
          → ((letter_at r.0.game.fill c ≡ letter_at s.game.fill c)
              × (is_locked (mark_at r.0.game.marks c) ≡ true))
            ⊎ (r.0.game ≡ reset s.built now s.game)
      of_allowed (b, inr h) = inr h
      of_allowed (b, inl h) =
          let (q, stays) = h.steps.at c (k.squares.ok c) in
          let (l, same) = stays locked in inl (same, l)
