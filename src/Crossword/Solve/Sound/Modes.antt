-- ===== src/Crossword/Solve/Sound/Modes.antt =====
-- The keys of the other modes, and of a key in any mode what it keeps.
use scratchpad.Common.{ℕ, refl, true, false, Option, none, some, [], ◌∷◌, ◌==◌, if-cases}
use scratchpad.Crossword.Game.{◌>>=◌}
use scratchpad.Crossword.Game.Commands.{
  Command, run, move, stepping, toggling, to_open_entry, moving, typing, erasing, clearing_onward,
  clearing_cell, replacing,
}
use scratchpad.Crossword.Game.Motion.{Heading}
use scratchpad.Crossword.Game.Sound.Moves.{IsPlayable, Ensures, Ensures-bind, Ensures-if}
use scratchpad.Crossword.Game.Sound.History.{IsSound}
use scratchpad.Crossword.Game.Sound.Kept.{Kept, Kept-refl, Kept-trans}
use scratchpad.Crossword.Game.Sound.Play.{run-Kept}
use scratchpad.Crossword.Game.Sound.Steps.{drop_unchanged_checkpoint-Kept}
use scratchpad.Crossword.Keys.{KeyCode, Key, is_chorded, esc_prefixed}
use scratchpad.Crossword.Solve.{Env, Solve, Outcome, normal, quiet, changes}
use scratchpad.Crossword.Solve.Normal.{normal_key, played}
use scratchpad.Crossword.Solve.Insert.{
  insert_key, plain_insert_key, insert_code, leave_insert, leaves_by, rebus_key, rebus_code,
}
use scratchpad.Crossword.Solve.Sound.{Stays, played-Stays, edited-Stays}
use scratchpad.Crossword.Solve.Sound.Keys.{normal_key-Stays}

module _ (env : Env) (now : ℕ) (s : Solve) (ok : IsPlayable s.built)
    (k : IsSound s.built s.game) where
  left_insert : Kept s.built s.game (leave_insert s).game
  unfolding leave_insert
  left_insert = drop_unchanged_checkpoint-Kept s.built s.game k

  does :
      (c : Command) (out : Outcome)
      → Ensures (Stays s) (played s (run s.built env.ops c s.game) out)
  does c out =
      played-Stays s k (run s.built env.ops c s.game) out (run-Kept s.built env.ops ok c s.game k)

  insert_code-Stays : (code : KeyCode) → Ensures (Stays s) (insert_code env now code s)
  unfolding insert_code run move
  insert_code-Stays (KeyCode.char c) =
      Ensures-if (Stays s) (c == b' ') _ _ (λ _. does clearing_onward (changes true))
        (λ _.
          Ensures-if (Stays s) (env.is_alphanumeric c) _ _
            (λ _. does (typing (c ∷ []) now) (changes true)) (λ _. (refl, Kept-refl k)))
  insert_code-Stays KeyCode.backspace = does erasing (changes true)
  insert_code-Stays KeyCode.delete = does clearing_cell (changes true)
  insert_code-Stays KeyCode.left = does (moving (stepping Heading.left)) quiet
  insert_code-Stays KeyCode.right = does (moving (stepping Heading.right)) quiet
  insert_code-Stays KeyCode.up = does (moving (stepping Heading.up)) quiet
  insert_code-Stays KeyCode.down = does (moving (stepping Heading.below)) quiet
  insert_code-Stays KeyCode.tab = does (moving (to_open_entry true)) quiet
  insert_code-Stays KeyCode.back_tab = does (moving (to_open_entry false)) quiet
  insert_code-Stays KeyCode.enter = does (moving toggling) quiet
  insert_code-Stays _ = (refl, Kept-refl k)

  plain_insert_key-Stays : (key : Key) → Ensures (Stays s) (plain_insert_key env now key s)
  unfolding plain_insert_key leave_insert
  plain_insert_key-Stays key =
      Ensures-if (Stays s) (leaves_by key) _ _ (λ _. (refl, left_insert))
        (λ _.
          Ensures-if (Stays s) (is_chorded key) _ _ (λ _. (refl, Kept-refl k))
            (λ _. insert_code-Stays key.code))

  pub insert_key-Stays : (key : Key) → Ensures (Stays s) (insert_key env now key s)
  unfolding insert_key leave_insert
  insert_key-Stays key = by_prefix (esc_prefixed key)
    where
      by_prefix :
          (o : Option Key)
          → Ensures (Stays s) (elim o as (λ _. Option (Solve × Outcome)) [
            | some plain ↦ normal_key env now plain (leave_insert s) >>= λ r.
                some (r.0, record r.1 { save = true })
            | none ↦ plain_insert_key env now key s
          ])
      by_prefix none = plain_insert_key-Stays key
      by_prefix (some plain) =
          Ensures-bind (Stays s) (normal_key env now plain (leave_insert s)) _ (λ r e.
            let (b, k₁) =
              rw e at (normal_key-Stays env now plain (leave_insert s) ok left_insert.sound) in
            (b, Kept-trans left_insert k₁))

  rebus_code-Stays :
      (key : Key) (code : KeyCode) → Ensures (Stays s) (rebus_code env now key code s)
  unfolding rebus_code
  rebus_code-Stays key KeyCode.enter =
      edited-Stays (record s { mode = normal; input = [] }) k _ _
        (unfold run in run-Kept s.built env.ops ok (replacing s.input now))
  rebus_code-Stays key KeyCode.backspace = (refl, Kept-refl k)
  rebus_code-Stays key (KeyCode.char c) =
      if-cases (λ (x : Solve). Stays s (x, quiet)) _ _ _ (λ _. (refl, Kept-refl k))
        (λ _. (refl, Kept-refl k))
  rebus_code-Stays key _ = (refl, Kept-refl k)

  pub rebus_key-Stays : (key : Key) → Ensures (Stays s) (rebus_key env now key s)
  unfolding rebus_key
  rebus_key-Stays key =
      Ensures-if (Stays s) (leaves_by key) _ _ (λ _. (refl, Kept-refl k))
        (λ _. rebus_code-Stays key key.code)
