-- ===== src/Http/Read/Framing.antt =====
-- `read_request` finds the first end of a header block, and never reads past it.
use scratchpad.Common.{
  ℕ, zero, suc, ◌≤◌, ◌<◌, ◌≡◌, refl, ap, sym, ◌∙◌, true, false, [], ◌∷◌, ◌++◌, ◌⊎◌, inl, inr, arith,
  Bytes, length, length-append, take, take-nil, take-length, append_assoc, append-nil, ◌==◌, ==_iff,
  Bool-cases, subst,
}
use scratchpad.Common.Io.{
  interrupted, ReadEvent, byte, fault, Input, bytes_input, payload, Result, ok, err,
}
use scratchpad.Http.{ConnectionError, ReadOutcome, complete, too_large}
use scratchpad.Http.Read.{terminated, ends_with, ReadResult, stop, read_loop, read_request}

-- No part of the block from its start ends a header block.
abbrev pub IsOpen : Bytes → Type 0
IsOpen block = (n : ℕ) → terminated (take n block) ≡ false

abbrev pub EndsFirst : Bytes → Type 0
EndsFirst block =
    (terminated block ≡ true) × ((n : ℕ) → n < length block → terminated (take n block) ≡ false)

-- `block` is what was kept of the bytes `got`.
abbrev pub Fits : ℕ → Bytes → Result ConnectionError ReadOutcome → Bytes → Type 0
Fits cap got (ok complete) block = (block ≡ got) × (length block ≤ cap) × EndsFirst block
Fits cap got (ok too_large) block =
    (b : ℕ) × (block ++ b ∷ [] ≡ got) × (length block ≡ cap) × IsOpen block
Fits cap got (err _) block = (block ≡ got) × (length block ≤ cap) × IsOpen block

pub record Framed (cap : ℕ) (out : Bytes) (input : Input) (r : ReadResult) : Type 0 where
  pub seen : Input
  pub input_is : input ≡ seen ++ r.unread
  pub fits : Fits cap (out ++ payload seen) r.outcome r.block

take-concat :
    (n : ℕ) (xs : Bytes) (b : ℕ)
    → (take n (xs ++ b ∷ []) ≡ take n xs)
      ⊎ ((take n (xs ++ b ∷ []) ≡ xs ++ b ∷ []) × (length (xs ++ b ∷ []) ≤ n))
take-concat zero xs b = inl refl
take-concat (suc n) [] b = inr (ap (◌∷◌ b) (take-nil n), omega arith)
take-concat (suc n) (x ∷ xs) b = elim (take-concat n xs b) [
  | inl e ↦ inl (ap (◌∷◌ x) e)
  | inr (e, h) ↦ inr (ap (◌∷◌ x) e, omega arith)
]

IsOpen-nil : IsOpen []
unfolding terminated ends_with
IsOpen-nil zero = refl
IsOpen-nil (suc n) = refl

IsOpen-concat :
    (out : Bytes) (b : ℕ) → IsOpen out → terminated (out ++ b ∷ []) ≡ false → IsOpen (out ++ b ∷ [])
IsOpen-concat out b o h n = elim (take-concat n out b) [
  | inl e ↦ ap terminated e ∙ o n
  | inr (e, _) ↦ ap terminated e ∙ h
]

EndsFirst-concat :
    (out : Bytes) (b : ℕ)
    → IsOpen out
    → terminated (out ++ b ∷ []) ≡ true
    → EndsFirst (out ++ b ∷ [])
EndsFirst-concat out b o h = (
  h,
  λ n lt. elim (take-concat n out b) [
    | inl e ↦ ap terminated e ∙ o n
    | inr (_, le) ↦ absurd (omega arith)
  ],
)

-- One more event in front of what was seen.
Framed-cons :
    {cap : ℕ} {out : Bytes} {input : Input} {r : ReadResult} (e : ReadEvent) (out' : Bytes)
    → out' ≡ out ++ payload (e ∷ [])
    → Framed cap out' input r
    → Framed cap out (e ∷ input) r
Framed-cons {cap} {out} {input} {r} e out' p f = record {
  seen = e ∷ f.seen;
  input_is = ap (◌∷◌ e) f.input_is;
  fits = subst (λ got. Fits cap got r.outcome r.block) (got_is e p) f.fits;
}
  where
    got_is :
        (e : ReadEvent)
        → out' ≡ out ++ payload (e ∷ [])
        → out' ++ payload f.seen ≡ out ++ payload (e ∷ f.seen)
    got_is (byte b) q = ap (λ z. z ++ payload f.seen) q ∙ append_assoc out (b ∷ []) _
    got_is (fault _) q = ap (λ z. z ++ payload f.seen) (q ∙ append-nil out)

read_loop-Framed :
    (cap : ℕ) (out : Bytes) (input : Input)
    → length out ≤ cap
    → IsOpen out
    → Framed cap out input (read_loop cap out input)
unfolding read_loop
read_loop-Framed cap out [] h o = record {
  seen = [];
  input_is = refl;
  fits = (sym (append-nil out), h, o);
}
read_loop-Framed cap out (byte b ∷ input) h o = elim (Bool-cases (length out == cap)) [
  | inl full ↦
      rw full
        (record { seen = byte b ∷ []; input_is = refl; fits = (b, refl, (==_iff _ _).0 full, o) })
  | inr room ↦ elim (Bool-cases (terminated (out ++ b ∷ []))) [
    | inl done ↦
        rw (room, done)
          (record {
            seen = byte b ∷ [];
            input_is = refl;
            fits =
                (refl, ground (arith, length-append out (b ∷ [])), EndsFirst-concat out b o done);
          })
    | inr more ↦
        rw (room, more)
          (Framed-cons (byte b) (out ++ b ∷ []) refl (
            read_loop-Framed cap (out ++ b ∷ []) input (ground (arith, length-append out (b ∷ [])))
              (IsOpen-concat out b o more)))
  ]
]
read_loop-Framed cap out (fault interrupted ∷ input) h o =
    Framed-cons (fault interrupted) out (sym (append-nil out)) (read_loop-Framed cap out input h o)
read_loop-Framed cap out (fault e ∷ input) h o = record {
  seen = fault e ∷ [];
  input_is = refl;
  fits = (sym (append-nil out), h, o);
}

-- Every outcome accounts for the input: what was read is a part from its start, and the rest is
-- left. A complete block is those bytes, within the cap, and is the first that ends a header block;
-- a block that is too large has `cap` bytes with no end among them, and one byte was read past it;
-- after a fault or the end of the input the bytes read hold no end of a header block.
pub read_request-Framed : (cap : ℕ) (input : Input) → Framed cap [] input (read_request cap input)
unfolding read_request
read_request-Framed cap input = read_loop-Framed cap [] input (omega arith) IsOpen-nil

read_loop_complete :
    (cap : ℕ) (out : Bytes) (b : ℕ) (tail rest block : Bytes)
    → out ++ b ∷ tail ≡ block
    → EndsFirst block
    → length block ≤ cap
    → read_loop cap out (bytes_input (b ∷ (tail ++ rest)))
      ≡ stop (ok complete) block (bytes_input rest)
unfolding read_loop
read_loop_complete cap out b [] rest block e d h =
    let room : (length out == cap) ≡ false =
      ground (arith, ap length e, length-append out (b ∷ [])) in
    rw (room, e, d.0) refl
read_loop_complete cap out b (c ∷ tail) rest block e d h =
    let room : (length out == cap) ≡ false =
      ground (arith, ap length e, length-append out (b ∷ c ∷ tail)) in
    let e' : (out ++ b ∷ []) ++ c ∷ tail ≡ block = append_assoc out (b ∷ []) (c ∷ tail) ∙ e in
    let part : take (length (out ++ b ∷ [])) block ≡ out ++ b ∷ [] =
      ap (take (length (out ++ b ∷ []))) (sym e') ∙ take-length (out ++ b ∷ []) (c ∷ tail) in
    let more : terminated (out ++ b ∷ []) ≡ false =
      ap terminated (sym part)
      ∙ d.1 _ (omega (arith, ap length e', length-append (out ++ b ∷ []) (c ∷ tail))) in
    rw (room, more) (read_loop_complete cap (out ++ b ∷ []) c tail rest block e' d h)

-- A header block within the cap is read whole, up to its first end, and what follows it stays unread.
pub read_request_complete :
    (cap : ℕ) (block rest : Bytes)
    → EndsFirst block
    → length block ≤ cap
    → read_request cap (bytes_input (block ++ rest)) ≡ stop (ok complete) block (bytes_input rest)
unfolding read_request
read_request_complete cap [] rest d h = absurd (cc (d.0, IsOpen-nil 0))
read_request_complete cap (b ∷ tail) rest d h =
    read_loop_complete cap [] b tail rest (b ∷ tail) refl d h

-- The events that are left when every read that a signal interrupted is made again.
abbrev pub retried : Input → Input
retried [] = []
retried (byte b ∷ input) = byte b ∷ retried input
retried (fault interrupted ∷ input) = retried input
retried (fault e ∷ input) = fault e ∷ retried input

abbrev pub retried_result : ReadResult → ReadResult
retried_result r = record r { unread = retried r.unread }

read_loop-retried :
    (cap : ℕ) (out : Bytes) (input : Input)
    → retried_result (read_loop cap out input) ≡ read_loop cap out (retried input)
unfolding read_loop
read_loop-retried cap out [] = refl
read_loop-retried cap out (byte b ∷ input) =
    ground (arith, read_loop-retried cap (out ++ b ∷ []) input)
read_loop-retried cap out (fault interrupted ∷ input) = read_loop-retried cap out input
read_loop-retried cap out (fault e ∷ input) = refl

-- Interrupted reads change nothing: the outcome, the block and what is left are those of the same
-- input without them.
pub read_request-retried :
    (cap : ℕ) (input : Input)
    → retried_result (read_request cap input) ≡ read_request cap (retried input)
unfolding read_request
read_request-retried cap input = read_loop-retried cap [] input
