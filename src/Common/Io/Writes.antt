-- ===== src/Common/Io/Writes.antt =====
-- A sequence of writes puts out a prefix of the bytes that it means to write, all of them unless it
-- reports an error, and it reports none if the output answers every call with success.
use scratchpad.Common.Slices.{Bytes}
use scratchpad.Common.Lists.{take}
use mathlib.Core.Path.{◌≡◌, refl, ap, ◌∙◌, sym}
use mathlib.Core.List.{List, [], ◌∷◌, ◌++◌, append_assoc}
use Prim.Native.Nat.{ℕ, zero, suc}
use scratchpad.Common.Io.{
  IoError, Result, ok, err, WriteAnswer, accepts, fails, Output, Write, answer_write, write_all,
  flush, continue, ◌>>◌,
}

-- `bs` is what was meant, after `old`.
pub data Sent (bs old : Bytes) : Result IoError (Unit {0}) × Output → Type 0 where
  all_sent : {out : Output} → out.written ≡ old ++ bs → Sent bs old (ok tt, out)
  part_sent :
      {out : Output} (e : IoError) (n : ℕ)
      → out.written ≡ old ++ take n bs
      → Sent bs old (err e, out)

abbrev pub calm : Bytes → Output
calm old = record { written = old; answers = [] }

pub record Writes (bs : Bytes) (w : Write IoError) : Type 0 where
  pub sent : (out : Output) → Sent bs out.written (w out)
  pub quiet : (old : Bytes) → w (calm old) ≡ (ok tt, calm (old ++ bs))

answer_write-Sent :
    (bs old : Bytes) (later : List WriteAnswer) → Sent bs old (answer_write bs old later)
unfolding answer_write
answer_write-Sent bs old [] = all_sent refl
answer_write-Sent bs old (accepts ∷ later) = all_sent refl
answer_write-Sent bs old (fails n e ∷ later) = part_sent e n refl

pub Writes-write_all : (bs : Bytes) → Writes bs (write_all bs)
unfolding write_all
Writes-write_all bs = record {
  sent = λ out. answer_write-Sent bs out.written out.answers;
  quiet = λ old. refl;
}

pub Writes-flush : Writes [] flush
unfolding flush
Writes-flush = Writes-write_all []

take-append : (n : ℕ) (xs ys : Bytes) → (m : ℕ) × (take m (xs ++ ys) ≡ take n xs)
take-append zero xs ys = (0, refl)
take-append (suc n) [] ys = (0, refl)
take-append (suc n) (x ∷ xs) ys = let (m, e) = take-append n xs ys in (suc m, ap (◌∷◌ x) e)

take-past : (n : ℕ) (xs ys : Bytes) → (m : ℕ) × (take m (xs ++ ys) ≡ xs ++ take n ys)
take-past n [] ys = (n, refl)
take-past n (x ∷ xs) ys = let (m, e) = take-past n xs ys in (suc m, ap (◌∷◌ x) e)

Sent-later :
    (xs ys old mid : Bytes) {r : Result IoError (Unit {0}) × Output}
    → mid ≡ old ++ xs
    → Sent ys mid r
    → Sent (xs ++ ys) old r
Sent-later xs ys old mid e (all_sent p) =
    all_sent (p ∙ ap (λ z. z ++ ys) e ∙ append_assoc old xs ys)
Sent-later xs ys old mid e (part_sent err' n p) =
    let (m, q) = take-past n xs ys in
    part_sent err' m (
      p ∙ ap (λ z. z ++ take n ys) e ∙ append_assoc old xs (take n ys) ∙ ap (λ z. old ++ z) (sym q))

Sent-continue :
    (xs ys old : Bytes) {r : Result IoError (Unit {0}) × Output} (b : Write IoError)
    → Sent xs old r
    → Writes ys b
    → Sent (xs ++ ys) old (continue r b)
unfolding continue
Sent-continue xs ys old b (all_sent {out} p) w = Sent-later xs ys old out.written p (w.sent out)
Sent-continue xs ys old b (part_sent e n p) w =
    let (m, q) = take-append n xs ys in part_sent e m (p ∙ ap (λ z. old ++ z) (sym q))

pub Writes->> :
    {xs ys : Bytes} {a b : Write IoError} → Writes xs a → Writes ys b → Writes (xs ++ ys) (a >> b)
unfolding ◌>>◌
Writes->> {xs} {ys} {a} {b} v w = record {
  sent = λ out. Sent-continue xs ys out.written b (v.sent out) w;
  quiet = λ old.
      rw (v.quiet old, continue)
        (w.quiet (old ++ xs) ∙ ap (λ z. (ok tt, calm z)) (append_assoc old xs ys));
}
