-- ===== src/Http/Sanitize.antt =====
-- http.rs: `sanitize`. The `String` is its bytes, since every character pushed is ASCII.
pub mod Bounds
use scratchpad.Common.{
  ℕ, ◌-◌, Bool, ◌&&◌, List, [], ◌∷◌, ◌++◌, map, min, Bytes, leb, ltb, if◌then◌else◌, length, take,
}
use scratchpad.Http.{ellipsis}

-- `(0x20..0x7f).contains(&c)`
abbrev pub is_printable : ℕ → Bool
is_printable c = leb 0x20 c && ltb c 0x7f

abbrev pub shown : ℕ → ℕ
shown c = if is_printable c then c else b'?'

-- `(keep, dots)`
unfoldable pub kept : ℕ → ℕ → ℕ × ℕ
kept len max =
    if ltb max len then (max - min max (length ellipsis), min max (length ellipsis)) else (len, 0)

unfoldable pub sanitize : Bytes → ℕ → Bytes
unfolding kept
sanitize src max =
    let (keep, dots) = kept (length src) max in map shown (take keep src) ++ take dots ellipsis
