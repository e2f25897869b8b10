-- ===== src/Crossword/Keys.antt =====
-- crossword/core/src/keys.rs: key presses. A character is its code point.
use scratchpad.Common.{
  ℕ, Bool, true, false, not, ◌&&◌, ◌||◌, Option, none, some, List, [], ◌∷◌, ◌==◌, if◌then◌else◌,
}

pub data KeyCode : Type 0 where
  char : ℕ → KeyCode
  enter esc backspace delete tab back_tab left right up down home end page_up page_down : KeyCode

pub record Modifiers : Type 0 where
  pub ctrl : Bool
  pub alt : Bool

pub record Key : Type 0 where
  pub code : KeyCode
  pub modifiers : Modifiers

-- `Key::new`, `Key::ctrl` and `Key::alt`
abbrev pub plain_key : KeyCode → Key
plain_key code = record { code = code; modifiers = record { ctrl = false; alt = false } }

abbrev pub ctrl_key : ℕ → Key
ctrl_key c = record { code = KeyCode.char c; modifiers = record { ctrl = true; alt = false } }

abbrev pub alt_key : KeyCode → Key
alt_key code = record { code = code; modifiers = record { ctrl = false; alt = true } }

abbrev pub is_ctrl : Key → Bool
is_ctrl k = k.modifiers.ctrl

abbrev pub is_chorded : Key → Bool
is_chorded k = k.modifiers.ctrl || k.modifiers.alt

unfoldable pub esc_prefixed : Key → Option Key
esc_prefixed k =
    if k.modifiers.alt && not k.modifiers.ctrl
    then some (record k { modifiers = record k.modifiers { alt = false } })
    else none

-- The `match` of `typed` on one character: 9099, 9166, 9003 and 8677 are the signs of the four keys.
abbrev typed_code : ℕ → KeyCode
typed_code c =
    if c == 9099
    then KeyCode.esc
    else if c == 9166
    then KeyCode.enter
    else if c == 9003
    then KeyCode.backspace
    else if c == 8677
    then KeyCode.tab
    else KeyCode.char c

unfoldable pub typed : List ℕ → List Key
typed [] = []
typed (c ∷ text) = plain_key (typed_code c) ∷ typed text
