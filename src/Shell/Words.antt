-- ===== src/Shell/Words.antt =====
-- lib.rs: `trim`, `split`, `is_exit_command` and `is_blank`.
pub mod Laws
use mathlib.Core.Option
use scratchpad.Common.{
  ℕ, suc, ◌+◌, ◌-◌, Bool, true, false, not, ◌||◌, Option, none, some, List, [], ◌∷◌, Bytes, ◌==◌,
  if◌then◌else◌, length, position, take, drop, bytes_eq,
}
use scratchpad.Shell.{exit_word}

-- `SPACE.contains(byte)`
abbrev pub is_space : ℕ → Bool
is_space b = b == 32 || b == 9 || b == 10 || b == 11 || b == 12 || b == 13

-- The last index that passes.
abbrev pub rposition : (ℕ → Bool) → Bytes → Option ℕ
rposition t [] = none
rposition t (b ∷ bs) = elim (rposition t bs) [
  | some i ↦ some (suc i)
  | none ↦ if t b then some 0 else none
]

abbrev trim_end : ℕ → Option ℕ → ℕ
trim_end start none = start
trim_end start (some last) = last + 1

unfoldable pub trim : Bytes → Bytes
trim line =
    let start = Option.get_or (position (λ b. not (is_space b)) line) (length line) in
    take (trim_end start (rposition (λ b. not (is_space b)) line) - start) (drop start line)

abbrev push_byte : ℕ → List Bytes → List Bytes
push_byte b [] = (b ∷ []) ∷ []
push_byte b (w ∷ ws) = (b ∷ w) ∷ ws

-- `line.split(..)`: the slices between the separators
unfoldable pub segments : Bytes → List Bytes
segments [] = [] ∷ []
segments (b ∷ line) = let rest = segments line in if is_space b then [] ∷ rest else push_byte b rest

abbrev pub drop_empty : List Bytes → List Bytes
drop_empty [] = []
drop_empty ([] ∷ ws) = drop_empty ws
drop_empty ((b ∷ w) ∷ ws) = (b ∷ w) ∷ drop_empty ws

unfoldable pub split : Bytes → List Bytes
unfolding segments
split line = drop_empty (segments line)

unfoldable pub is_exit_command : Bytes → Bool
unfolding trim
is_exit_command line = bytes_eq (trim line) exit_word

abbrev pub is_nil : Bytes → Bool
is_nil [] = true
is_nil (_ ∷ _) = false

unfoldable pub is_blank : Bytes → Bool
unfolding trim
is_blank line = is_nil (trim line)
