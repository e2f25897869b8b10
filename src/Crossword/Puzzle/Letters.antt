-- ===== src/Crossword/Puzzle/Letters.antt =====
-- puzzle.rs: `answer_matches`. `trim` and `to_uppercase` of Rust's `str` follow Unicode's tables, so
-- they are a parameter.
use scratchpad.Common.{
  ℕ, ◌+◌, ◌≡◌, refl, Bool, true, false, ◌&&◌, [], ◌∷◌, arith, Bytes, leb, ◌==◌, if◌then◌else◌,
  ==_refl,
}

abbrev pub Text : Type 0
Text = Bytes

pub record TextOps : Type 0 where
  pub trim : Text → Text
  pub to_uppercase : Text → Text

abbrev pub normalized : TextOps → Text → Text
normalized ops a = ops.to_uppercase (ops.trim a)

abbrev pub is_empty : Text → Bool
is_empty [] = true
is_empty (_ ∷ _) = false

abbrev pub ascii_lower : ℕ → ℕ
ascii_lower c = if leb b'A' c && leb c b'Z' then c + 32 else c

-- `eq_ignore_ascii_case`
unfoldable pub same_letters : Text → Text → Bool
same_letters [] [] = true
same_letters (a ∷ s) (b ∷ t) = ascii_lower a == ascii_lower b && same_letters s t
same_letters _ _ = false

-- More than one character in the solution, and the guess is its first alone.
abbrev first_alone : Text → Text → Bool
first_alone (f ∷ _ ∷ _) (g ∷ []) = ascii_lower g == ascii_lower f
first_alone _ _ = false

unfoldable pub answer_matches : Text → Text → Bool
answer_matches solution guess =
    if is_empty guess
    then false
    else if same_letters solution guess
    then true
    else first_alone solution guess

same_letters_refl : (s : Text) → same_letters s s ≡ true
unfolding same_letters
same_letters_refl [] = refl
same_letters_refl (a ∷ s) = ground (arith, ==_refl (ascii_lower a), same_letters_refl s)

pub answer_matches_self : (s : Text) → is_empty s ≡ false → answer_matches s s ≡ true
unfolding answer_matches
answer_matches_self s h = ground (arith, same_letters_refl s)
