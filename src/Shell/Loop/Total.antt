-- ===== src/Shell/Loop/Total.antt =====
-- The loop of the shell ends, and names a program in every call of the runner.
use scratchpad.Common.{
  ℕ, zero, suc, ◌≤◌, ◌<◌, ◌≡◌, refl, Bool, false, ◌⊎◌, inl, inr, Option, none, some, List, [], ◌∷◌,
  ◌++◌, arith, Bytes, ◌==◌, if◌then◌else◌, if-cases, length, contains,
}
use scratchpad.Common.Io.{IoError, interrupted, byte, fault, Input, Result, ok, err, Output}
use scratchpad.Shell.{Runner, ShellError}
use scratchpad.Shell.Words.{split, is_blank, is_exit_command}
use scratchpad.Shell.Words.Laws.{AllWords, NulFree, split_sound, split-present, split-NulFree}
use scratchpad.Shell.Loop.{
  LineRead, read_line, Shell, Round, again, done, panicked, wrote, run_words, run_line, end_input,
  took_line, prompted, round, run_loop, started, run, put_prompt, write_banner, silent,
}

-- What a runner may be handed: a program and its arguments, each a word without a NUL.
abbrev pub IsArgv : List Bytes → Type 0
IsArgv [] = ⊥
IsArgv (w ∷ ws) = AllWords (w ∷ ws) × NulFree (w ∷ ws)

abbrev pub AllArgv : List (List Bytes) → Type 0
AllArgv [] = Unit {0}
AllArgv (argv ∷ ran) = IsArgv argv × AllArgv ran

AllArgv-concat :
    (ran : List (List Bytes)) (argv : List Bytes)
    → AllArgv ran
    → IsArgv argv
    → AllArgv (ran ++ argv ∷ [])
AllArgv-concat [] argv h k = (k, tt)
AllArgv-concat (a ∷ ran) argv h k = (h.0, AllArgv-concat ran argv h.1 k)

-- What a read of one line leaves: all of it, if it gave no byte, and less, if it gave one.
read_line-shrinks :
    (count : ℕ) (line : Bytes) (input : Input)
    → let r = read_line count line input in
      (length r.unread ≤ length input)
      × ((n : ℕ) → r.result ≡ ok n → (n ≡ count) ⊎ (length r.unread < length input))
unfolding read_line
read_line-shrinks count line [] = (omega arith, λ n e. inl (ground arith))
read_line-shrinks count line (byte b ∷ input) =
    let rest = read_line-shrinks (suc count) (line ++ b ∷ []) input in
    if-cases
      (λ (r : LineRead).
        (length r.unread ≤ suc (length input))
        × ((n : ℕ) → r.result ≡ ok n → (n ≡ count) ⊎ (length r.unread < suc (length input))))
      (b == b'\n') _ _ (λ _. (omega arith, λ n e. inr (omega arith)))
      (λ _. (omega (arith, rest.0), λ n e. inr (omega (arith, rest.0))))
read_line-shrinks count line (fault interrupted ∷ input) =
    let rest = read_line-shrinks count line input in
    (
      omega (arith, rest.0),
      λ n e. elim (rest.1 n e) [ inl q ↦ inl q | inr q ↦ inr (omega (arith, q)) ],
    )
read_line-shrinks count line (fault _ ∷ input) = (omega arith, λ n e. cc)

-- A round that goes on leaves less than `n` of the input; no round panics.
abbrev Fine : ℕ → Round → Type 0
Fine n (again s) = (length s.input < n) × AllArgv s.ran
Fine n (done _ s) = AllArgv s.ran
Fine n panicked = ⊥

wrote-Fine :
    (n : ℕ) (r : Result IoError (Unit {0}) × Output) (s : Shell)
    → length s.input < n
    → AllArgv s.ran
    → Fine n (wrote r s)
wrote-Fine n (ok _, e) s h k = (h, k)
wrote-Fine n (err x, e) s h k = k

end_input-Fine :
    (n : ℕ) (r : Result IoError (Unit {0}) × Output) (s : Shell)
    → AllArgv s.ran
    → Fine n (end_input r s)
end_input-Fine n (ok _, o) s k = k
end_input-Fine n (err x, o) s k = k

module _ (io_text : IoError → Bytes) (runner : Runner) where
  run_words-Fine :
      (n : ℕ) (words : List Bytes) (s : Shell)
      → length s.input < n
      → AllArgv s.ran
      → IsArgv words
      → Fine n (run_words io_text runner words s)
  unfolding run_words
  run_words-Fine n [] s h k a = a
  run_words-Fine n (program ∷ args) s h k a =
      wrote-Fine n _ (record s { ran = s.ran ++ (program ∷ args) ∷ [] }) h
        (AllArgv-concat s.ran (program ∷ args) k a)

  words-IsArgv :
      (line : Bytes) → is_blank line ≡ false → contains 0 line ≡ false → IsArgv (split line)
  words-IsArgv line b c =
      let (w, ws, e) = split-present line b in
      let q = split_sound line in let z = split-NulFree line c in rw e (rw e at q.0, rw e at z)

  run_line-Fine :
      (n : ℕ) (line : Bytes) (s : Shell)
      → length s.input < n
      → AllArgv s.ran
      → Fine n (run_line io_text runner line s)
  unfolding run_line
  run_line-Fine n line s h k =
      if-cases (Fine n) (is_blank line) _ _ (λ _. (h, k))
        (λ b.
          if-cases (Fine n) (is_exit_command line) _ _ (λ _. k)
            (λ _.
              if-cases (Fine n) (contains 0 line) _ _ (λ _. wrote-Fine n _ s h k)
                (λ c. run_words-Fine n (split line) s h k (words-IsArgv line b c))))

  took_line-Fine :
      (n : ℕ) (r : LineRead) (s : Shell)
      → ((m : ℕ) → r.result ≡ ok (suc m) → length r.unread < n)
      → AllArgv s.ran
      → Fine n (took_line io_text runner r s)
  unfolding took_line
  took_line-Fine n r s h k = go r.result refl
    where
      go :
          (q : Result IoError ℕ)
          → r.result ≡ q
          → Fine n (took_line io_text runner (record r { result = q }) s)
      go (err e) _ = k
      go (ok zero) _ = end_input-Fine n _ (record s { input = r.unread }) k
      go (ok (suc m)) e = run_line-Fine n _ (record s { input = r.unread }) (h m e) k

  round-Fine : (s : Shell) → AllArgv s.ran → Fine (length s.input) (round io_text runner s)
  unfolding round prompted
  round-Fine s k = go (put_prompt s.out)
    where
      shrinks :
          (m : ℕ)
          → (read_line 0 [] s.input).result ≡ ok (suc m)
          → length (read_line 0 [] s.input).unread < length s.input
      shrinks m e = elim ((read_line-shrinks 0 [] s.input).1 (suc m) e) [
        | inl q ↦ absurd (omega (arith, q))
        | inr q ↦ q
      ]

      go :
          (w : Result IoError (Unit {0}) × Output)
          → Fine (length s.input) (prompted io_text runner w s)
      go (err x, o) = k
      go (ok _, o) =
          took_line-Fine (length s.input) (read_line 0 [] s.input) (record s { out = o }) shrinks k

  -- The loop returns, and what it ran can be run.
  abbrev pub Returns : Option (Result ShellError (Unit {0}) × Shell) → Type 0
  Returns none = ⊥
  Returns (some (_, s)) = AllArgv s.ran

  run_loop-Returns :
      (fuel : ℕ) (s : Shell)
      → length s.input < fuel
      → AllArgv s.ran
      → Returns (run_loop io_text runner fuel s)
  unfolding run_loop
  run_loop-Returns zero s h k = omega arith
  run_loop-Returns (suc fuel) s h k =
      go (round io_text runner s) (round-Fine s k)
        (λ s' h' k'. run_loop-Returns fuel s' (omega arith) k')
    where
      go :
          (r : Round)
          → Fine (length s.input) r
          → ((s' : Shell)
              → length s'.input < length s.input
              → AllArgv s'.ran
              → Returns (run_loop io_text runner fuel s'))
          → Returns (elim r as (λ _. Option (Result ShellError (Unit {0}) × Shell)) [
            | again s' ↦ run_loop io_text runner fuel s'
            | done q s' ↦ some (q, s')
            | panicked ↦ none
          ])
      go (again s') f next = next s' f.0 f.1
      go (done q s') f next = f
      go panicked f next = f

  -- Whatever the input, the streams and the runner do, the shell returns, with no panic, and every
  -- argument vector it has handed to the runner names a program, in words without a space or a NUL.
  pub run-Returns :
      (show_banner : Bool) (input : Input) (out err_out : Output)
      → Returns (run io_text runner show_banner input out err_out)
  unfolding run started
  run-Returns show_banner input out err_out =
      go ((if show_banner then write_banner else silent) out)
    where
      go :
          (w : Result IoError (Unit {0}) × Output)
          → Returns (
              started io_text runner w
                (record { input = input; out = out; err_out = err_out; ran = [] }))
      go (err x, o) = tt
      go (ok _, o) =
          run_loop-Returns (suc (length input))
            (record { input = input; out = o; err_out = err_out; ran = [] }) (omega arith) tt
