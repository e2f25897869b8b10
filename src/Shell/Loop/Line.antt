-- ===== src/Shell/Loop/Line.antt =====
-- `read_line` reads no byte past the line.
use scratchpad.Common.{ℕ, ◌+◌, ◌≡◌, false, ◌⊎◌, [], ◌∷◌, ◌++◌, Bytes, length, contains}
use scratchpad.Common.Io.{IoError, Input, payload, Result, ok, err}
use scratchpad.Shell.Loop.{LineRead}

-- How the bytes `got` end: with the first new line, at the end of the input, or at an error.
abbrev pub Ends : ℕ → Bytes → LineRead → Type 0
Ends count got r =
    ((body : Bytes) × (got ≡ body ++ b'\n' ∷ [])
      × (contains b'\n' body ≡ false)
      × (r.result ≡ ok (count + length got)))
    ⊎ ((contains b'\n' got ≡ false) × (r.unread ≡ []) × (r.result ≡ ok (count + length got)))
    ⊎ ((contains b'\n' got ≡ false) × (e : IoError) × (r.result ≡ err e))

pub record ReadsLine (count : ℕ) (old : Bytes) (input : Input) (r : LineRead) : Type 0 where
  pub seen : Input
  pub input_is : input ≡ seen ++ r.unread
  pub line_is : r.line ≡ old ++ payload seen
  pub ends : Ends count (payload seen) r

abbrev counted : ℕ → Result IoError ℕ
counted n = ok n
