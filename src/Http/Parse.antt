-- ===== src/Http/Parse.antt =====
-- http.rs: `skip_one_blank_line`, `first_line`, `version_shape_ok`, `split_once` and
-- `parse_request`. A slice is its bytes.
pub mod Split
pub mod Grammar
pub mod Sound
pub mod Complete
use mathlib.Core.Option
use scratchpad.Common.{
  ℕ, ◌+◌, ◌-◌, Bool, true, false, not, ◌&&◌, ◌||◌, Option, none, some, List, [], ◌∷◌, Bytes, codes,
  ◌==◌, if◌then◌else◌, length, get_or, take, drop, position, bytes_eq, contains, strip_prefix,
  starts_with, strip_last,
}
use scratchpad.Common.Decimal.{is_digit}
use scratchpad.Http.{Method, get, head, other, Request}

unfoldable pub skip_one_blank_line : Bytes → Bytes
skip_one_blank_line block = elim (strip_prefix (b'\r' ∷ b'\n' ∷ []) block) [
  | some rest ↦ rest
  | none ↦ Option.get_or (strip_prefix (b'\n' ∷ []) block) block
]

unfoldable pub first_line : Bytes → Bytes
first_line block = elim (position (λ b. b == b'\n') block) [
  | some nl ↦ strip_last b'\r' (take nl block)
  | none ↦ strip_last b'\r' block
]

unfoldable pub version_shape_ok : Bytes → Bool
version_shape_ok field =
    length field == 8
    && starts_with (codes "HTTP/") field
    && is_digit (get_or field 5 0)
    && get_or field 6 0 == b'.'
    && is_digit (get_or field 7 0)

-- The slices `[..at]` and `[at + 1..]`.
abbrev pub around : Bytes → ℕ → Bytes × Bytes
around bytes at = (take at bytes, drop (at + 1) bytes)

unfoldable pub split_once : Bytes → ℕ → Option (Bytes × Bytes)
split_once bytes needle = Option.map (around bytes) (position (λ b. b == needle) bytes)

unfoldable pub method_of : Bytes → Method
method_of m =
    if bytes_eq m (codes "GET") then get else if bytes_eq m (codes "HEAD") then head else other

unfoldable pub path_of : Bytes → Bytes
path_of target = elim (split_once target b'?') [ some (path, _) ↦ path | none ↦ target ]

infixl 5 ◌>>=◌
abbrev ◌>>=◌ : {A B : Type 0} → Option A → (A → Option B) → Option B
some a >>= f = f a
none >>= f = none

-- The `Request` that a checked line makes.
abbrev request_of : Bytes → Bytes → Bytes → Bytes → Request
request_of line method target version = record {
  method = method_of method;
  target = target;
  path = path_of target;
  major = get_or version 5 0 - b'0';
  minor = get_or version 7 0 - b'0';
  line = line;
}

parse_fields : Bytes → Bytes → Bytes → Bytes → Option Request
parse_fields line method target version =
    if contains b' ' version || bytes_eq method [] || bytes_eq target []
    then none
    else if not (version_shape_ok version)
    then none
    else some (request_of line method target version)

-- The request line, its terminator already off.
parse_line : Bytes → Option Request
parse_line line = do
  let checked = if contains 0 line then none else some line
  line ← checked
  (method, tail) ← split_once line b' '
  (target, version) ← split_once tail b' '
  parse_fields line method target version

unfoldable pub parse_request : Bytes → Option Request
unfolding parse_line parse_fields
parse_request block = do
  (line, _) ← split_once (skip_one_blank_line block) b'\n'
  parse_line (strip_last b'\r' line)
