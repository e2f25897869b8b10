-- ===== src/Crossword/Solve/Sound/Keys.antt =====
-- Every key of the solve screen, in each mode.
use scratchpad.Common.{
  ℕ, refl, Bool, true, false, not, ◌&&◌, Option, none, some, [], ◌∷◌, ◌==◌, if-cases,
}
use mathlib.Core.Option
use scratchpad.Crossword.Puzzle.Letters.{Text}
use scratchpad.Crossword.Game.{Game}
use scratchpad.Crossword.Game.Motion.{step_in_entry}
use scratchpad.Crossword.Game.Edit.{editable}
use scratchpad.Crossword.Game.Commands.{
  Command, Motion, run, move, stepping, toggling, to_next_start, to_prev_start, to_end,
  to_entry_start, to_entry_end, to_first, to_last, to_open_entry, moving, clearing_cell, replacing,
  clearing_to_end, clearing_entry,
}
use scratchpad.Crossword.Game.Sound.Moves.{
  IsPlayable, Ensures, Ensures-bind, Ensures-if, step_in_entry-Moved,
}
use scratchpad.Crossword.Game.Sound.History.{IsSound}
use scratchpad.Crossword.Game.Sound.Kept.{Kept, Kept-refl, Kept-Moved}
use scratchpad.Crossword.Game.Sound.Play.{run-Kept}
use scratchpad.Crossword.Game.Sound.Steps
use scratchpad.Crossword.Keys.{KeyCode, Key, is_chorded, esc_prefixed}
use scratchpad.Crossword.Solve.{Env, Solve, Outcome, Pending, quiet, edit, repeat}
use scratchpad.Crossword.Solve.{pending_g, pending_replace, pending_delete, pending_change}
use scratchpad.Crossword.Solve.Normal.{
  Arm, played, edited, change_by, quit_hint, redo_arm, ignored, go, next_start, prev_start,
  entry_end, to_last, toggle, wait, open_entry, insert_here, append, insert_start, append_end,
  delete_cell, delete_rest, substitute, substitute_entry, change_rest, undo_arm, start_rebus,
  start_command, ask_help, ask_leave, run_arm, normal_key, plain_normal_key, first_key, second_key,
  second_char, arm_of, any_change, rest_key, digit_of, counted,
}
use scratchpad.Crossword.Solve.Sound.{
  Stays, Keeps, repeat-Kept, any_of-Kept, played-Stays, edited-Stays, change_by-Stays,
  insert_after-Stays,
}

module _ (env : Env) (now : ℕ) (s : Solve) (ok : IsPlayable s.built)
    (k : IsSound s.built s.game) where
  any_change-Stays :
      (at_end : Text) (r : Game × Bool)
      → Kept s.built s.game r.0
      → Ensures (Stays s) (any_change at_end s r)
  any_change-Stays at_end (g, true) h = (refl, h)
  any_change-Stays at_end (g, false) h = (refl, h)

  keeps : (c : Command) → Keeps s.built (run s.built env.ops c)
  keeps c = run-Kept s.built env.ops ok c

  moves : (n : ℕ) (m : Motion) → Ensures (Kept s.built s.game) (repeat n (move s.built m) s.game)
  moves n m = repeat-Kept s.built n (move s.built m) (unfold run in keeps (moving m)) s.game k

  moved : (m : Motion) → Ensures (Stays s) (played s (run s.built env.ops (moving m) s.game) quiet)
  moved m =
      played-Stays s k (run s.built env.ops (moving m) s.game) quiet (keeps (moving m) s.game k)

  changed_by : (c : Command) → Ensures (Stays s) (change_by s (run s.built env.ops c))
  changed_by c = change_by-Stays s k (run s.built env.ops c) (keeps c)

  edited_by :
      (c : Command) (out : Game → Bool → Outcome)
      → Ensures (Stays s) (edited s (edit s.game (run s.built env.ops c)) out)
  edited_by c out = edited-Stays s k (run s.built env.ops c) out (keeps c)

  run_arm-Stays : (n : ℕ) (arm : Arm) → Ensures (Stays s) (run_arm env now n s arm)
  unfolding run_arm run move
  run_arm-Stays n quit_hint = (refl, Kept-refl k)
  run_arm-Stays n redo_arm =
      any_change-Stays _ _
        (any_of-Kept s.built n _ s.game false (λ g h. Steps.step_forward-Kept s.built g h now) k)
  run_arm-Stays n ignored = (refl, Kept-refl k)
  run_arm-Stays n (go h) = played-Stays s k _ quiet (moves n (stepping h))
  run_arm-Stays n next_start = played-Stays s k _ quiet (moves n to_next_start)
  run_arm-Stays n prev_start = played-Stays s k _ quiet (moves n to_prev_start)
  run_arm-Stays n entry_end = played-Stays s k _ quiet (moves n to_end)
  run_arm-Stays n Arm.to_entry_start = moved to_entry_start
  run_arm-Stays n Arm.to_entry_end = moved to_entry_end
  run_arm-Stays n Arm.to_last = moved to_last
  run_arm-Stays n toggle = moved toggling
  run_arm-Stays n (wait q) = (refl, Kept-refl k)
  run_arm-Stays n (open_entry forward) = played-Stays s k _ quiet (moves n (to_open_entry forward))
  run_arm-Stays n insert_here = insert_after-Stays s k (some s.game) (Kept-refl k)
  run_arm-Stays n append = insert_after-Stays s k _ (
      Ensures-bind (Kept s.built s.game) (step_in_entry s.built true s.game) _
        (λ r e. Kept-Moved k (rw e at (step_in_entry-Moved s.built ok s.game k.here true))))
  run_arm-Stays n insert_start = insert_after-Stays s k _ (keeps (moving to_entry_start) s.game k)
  run_arm-Stays n append_end = insert_after-Stays s k _ (keeps (moving to_entry_end) s.game k)
  run_arm-Stays n delete_cell = edited_by clearing_cell _
  run_arm-Stays n delete_rest = edited_by clearing_to_end _
  run_arm-Stays n substitute = changed_by clearing_cell
  run_arm-Stays n substitute_entry = changed_by clearing_entry
  run_arm-Stays n change_rest = changed_by clearing_to_end
  run_arm-Stays n undo_arm =
      any_change-Stays _ _
        (any_of-Kept s.built n _ s.game false (λ g h. Steps.step_back-Kept s.built g h) k)
  run_arm-Stays n start_rebus =
      if-cases (Stays s) (editable s.built s.game s.game.cursor) _ _ (λ _. (refl, Kept-refl k))
        (λ _. (refl, Kept-refl k))
  run_arm-Stays n start_command = (refl, Kept-refl k)
  run_arm-Stays n ask_help = (refl, Kept-refl k)
  run_arm-Stays n ask_leave = (refl, Kept-refl k)

  second_char-Stays :
      (q : Pending) (chord : Bool) (c : ℕ) → Ensures (Stays s) (second_char env now q chord c s)
  unfolding second_char run move
  second_char-Stays pending_g chord c =
      Ensures-if (Stays s) (c == b'g') _ _ (λ _. moved to_first) (λ _. (refl, Kept-refl k))
  second_char-Stays pending_replace chord c =
      Ensures-if (Stays s) (not chord && env.is_alphanumeric c) _ _
        (λ _. edited_by (replacing (c ∷ []) now) _) (λ _. (refl, Kept-refl k))
  second_char-Stays pending_delete chord c =
      Ensures-if (Stays s) (c == b'd') _ _ (λ _. edited_by clearing_entry _)
        (λ _.
          Ensures-if (Stays s) (rest_key env now c) _ _ (λ _. edited_by clearing_to_end _)
            (λ _. (refl, Kept-refl k)))
  second_char-Stays pending_change chord c =
      Ensures-if (Stays s) (c == b'c') _ _ (λ _. changed_by clearing_entry)
        (λ _.
          Ensures-if (Stays s) (rest_key env now c) _ _ (λ _. changed_by clearing_to_end)
            (λ _. (refl, Kept-refl k)))

module _ (env : Env) (now : ℕ) (key : Key) where
  second_key-Stays :
      (q : Pending) (code : KeyCode) (s : Solve)
      → IsPlayable s.built
      → IsSound s.built s.game
      → Ensures (Stays s) (second_key env now q key code s)
  unfolding second_key
  second_key-Stays q (KeyCode.char c) s ok k = second_char-Stays env now s ok k q (is_chorded key) c
  second_key-Stays q _ s ok k = (refl, Kept-refl k)

  first_key-Stays :
      (s : Solve)
      → IsPlayable s.built
      → IsSound s.built s.game
      → Ensures (Stays s) (first_key env now key s)
  unfolding first_key
  first_key-Stays s ok k = by_digit (digit_of env now key key.code s.count)
    where
      by_digit :
          (o : Option ℕ)
          → Ensures (Stays s) (elim o as (λ _. Option (Solve × Outcome)) [
            | some digit ↦ some (record s { count = some (counted env now s.count digit) }, quiet)
            | none ↦
                run_arm env now (Option.get_or s.count 1) (record s { count = none }) (arm_of key)
          ])
      by_digit (some digit) = (refl, Kept-refl k)
      by_digit none = run_arm-Stays env now (record s { count = none }) ok k _ (arm_of key)

  plain_normal_key-Stays :
      (s : Solve)
      → IsPlayable s.built
      → IsSound s.built s.game
      → Ensures (Stays s) (plain_normal_key env now key s)
  unfolding plain_normal_key
  plain_normal_key-Stays s ok k = by_pending s.pending
    where
      by_pending :
          (o : Option Pending)
          → Ensures (Stays s) (elim o as (λ _. Option (Solve × Outcome)) [
            | some q ↦ second_key env now q key key.code (record s { pending = none; count = none })
            | none ↦ first_key env now key s
          ])
      by_pending (some q) =
          second_key-Stays q key.code (record s { pending = none; count = none }) ok k
      by_pending none = first_key-Stays s ok k

module _ (env : Env) (now : ℕ) (key : Key) where
  pub normal_key-Stays :
      (s : Solve)
      → IsPlayable s.built
      → IsSound s.built s.game
      → Ensures (Stays s) (normal_key env now key s)
  unfolding normal_key
  normal_key-Stays s ok k = by_prefix (esc_prefixed key)
    where
      by_prefix :
          (o : Option Key)
          → Ensures (Stays s) (elim o as (λ _. Option (Solve × Outcome)) [
            | some plain ↦
                plain_normal_key env now plain (record s { pending = none; count = none })
            | none ↦ plain_normal_key env now key s
          ])
      by_prefix (some plain) =
          plain_normal_key-Stays env now plain (record s { pending = none; count = none }) ok k
      by_prefix none = plain_normal_key-Stays env now key s ok k
