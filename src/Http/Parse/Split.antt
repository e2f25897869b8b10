-- ===== src/Http/Parse/Split.antt =====
-- `split_once` cuts at the first separator, and the fields of a request line that it finds.
use mathlib.Core.Option
use scratchpad.Common.{
  ℕ, suc, ◌+◌, ◌≡◌, refl, ap, sym, ◌∙◌, false, Option, none, some, [], ◌∷◌, ◌++◌, inl, inr, arith,
  Bytes, ◌==◌, if◌then◌else◌, Bool-cases, Option-cases, drop, take, position, contains, ==_refl,
}
use scratchpad.Http.Parse.{around, split_once}

abbrev grow : ℕ → Bytes × Bytes → Bytes × Bytes
grow x (a, b) = (x ∷ a, b)

-- `split_once` as a recursion on the bytes.
cut : Bytes → ℕ → Option (Bytes × Bytes)
cut [] n = none
cut (x ∷ xs) n = if x == n then some ([], xs) else Option.map (grow x) (cut xs n)

split_cons :
    (x : ℕ) (xs : Bytes) (o : Option ℕ)
    → Option.map (around (x ∷ xs)) (Option.map suc o)
      ≡ Option.map (grow x) (Option.map (around xs) o)
split_cons x xs none = refl
split_cons x xs (some at) =
    let e : suc at + 1 ≡ suc (at + 1) = omega arith in
    ap (λ k. some (x ∷ take at xs, drop k (x ∷ xs))) e

split_once-cut : (xs : Bytes) (n : ℕ) → split_once xs n ≡ cut xs n
unfolding split_once cut
split_once-cut [] n = refl
split_once-cut (x ∷ xs) n = elim (Bool-cases (x == n)) [
  | inl e ↦ rw e refl
  | inr e ↦
      rw (e, cut)
        (split_cons x xs (position (λ b. b == n) xs)
          ∙ ap (Option.map (grow x)) (split_once-cut xs n))
]

cut-append : (xs ys : Bytes) (n : ℕ) → contains n xs ≡ false → cut (xs ++ n ∷ ys) n ≡ some (xs, ys)
unfolding cut contains
cut-append [] ys n h = rw ==_refl
cut-append (x ∷ xs) ys n h = ground (arith, cut-append xs ys n)

cut-none : (xs : Bytes) (n : ℕ) → contains n xs ≡ false → cut xs n ≡ none
unfolding cut contains
cut-none [] n h = refl
cut-none (x ∷ xs) n h = ground (arith, cut-none xs n)

cut_sound :
    (xs : Bytes) (n : ℕ) {a b : Bytes}
    → cut xs n ≡ some (a, b)
    → (xs ≡ a ++ n ∷ b) × (contains n a ≡ false)
unfolding cut contains
cut_sound [] n h = cc
cut_sound (x ∷ xs) n h = elim (Option-cases (cut xs n)) [
  | inl e ↦ ground arith
  | inr ((a', b'), e) ↦ ground (arith, cut_sound xs n e)
]

cut-missing : (xs : Bytes) (n : ℕ) → cut xs n ≡ none → contains n xs ≡ false
unfolding cut contains
cut-missing [] n h = refl
cut-missing (x ∷ xs) n h = ground (arith, cut-missing xs n)

pub split_once-append :
    (xs ys : Bytes) (n : ℕ) → contains n xs ≡ false → split_once (xs ++ n ∷ ys) n ≡ some (xs, ys)
split_once-append xs ys n h = split_once-cut _ n ∙ cut-append xs ys n h

pub split_once-none : (xs : Bytes) (n : ℕ) → contains n xs ≡ false → split_once xs n ≡ none
split_once-none xs n h = split_once-cut xs n ∙ cut-none xs n h

pub split_once_sound :
    (xs : Bytes) (n : ℕ) {a b : Bytes}
    → split_once xs n ≡ some (a, b)
    → (xs ≡ a ++ n ∷ b) × (contains n a ≡ false)
split_once_sound xs n h = cut_sound xs n (sym (split_once-cut xs n) ∙ h)

pub split_once-missing : (xs : Bytes) (n : ℕ) → split_once xs n ≡ none → contains n xs ≡ false
split_once-missing xs n h = cut-missing xs n (sym (split_once-cut xs n) ∙ h)
