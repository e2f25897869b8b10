-- ===== src/Http/Sanitize/Bounds.antt =====
-- A sanitized line is short and printable, and a short printable line is not changed.
use scratchpad.Common.{
  ℕ, zero, suc, ◌+◌, ◌≤◌, ◌≡◌, refl, ap, Bool, true, [], ◌∷◌, map, min, inl, inr, arith, Bytes, ltb,
  length, take, all, length-append, all-append, length-take, take-all, append-nil, Bool-cases,
}
use scratchpad.Http.{ellipsis}
use scratchpad.Http.Sanitize.{is_printable, shown, kept, sanitize}

length-map : (f : ℕ → ℕ) (xs : Bytes) → length (map f xs) ≡ length xs
length-map f [] = refl
length-map f (x ∷ xs) = ap suc (length-map f xs)

all-take : (p : ℕ → Bool) (n : ℕ) (xs : Bytes) → all p xs ≡ true → all p (take n xs) ≡ true
all-take p zero xs h = refl
all-take p (suc n) [] h = refl
all-take p (suc n) (x ∷ xs) h = ground (arith, all-take p n xs)

map-shown-printable : (xs : Bytes) → all is_printable (map shown xs) ≡ true
map-shown-printable [] = refl
map-shown-printable (x ∷ xs) = ground (arith, map-shown-printable xs)

map-shown-id : (xs : Bytes) → all is_printable xs ≡ true → map shown xs ≡ xs
map-shown-id [] h = refl
map-shown-id (x ∷ xs) h = ground (arith, map-shown-id xs)

-- The length is that of the input or the limit, whichever is less: nothing runs over it, and a
-- longer line is cut to exactly the limit.
pub length-sanitize : (src : Bytes) (max : ℕ) → length (sanitize src max) ≡ min (length src) max
unfolding sanitize
length-sanitize src max =
    let (keep, dots) = kept (length src) max in
    omega (
      arith,
      length-append (map shown (take keep src)) (take dots ellipsis),
      length-map shown (take keep src),
      length-take keep src,
      length-take dots ellipsis,
      lengths,
    )
  where
    lengths :
        min ((kept (length src) max).0) (length src) + min ((kept (length src) max).1) 3
        ≡ min (length src) max
    lengths = unfold kept in ground arith

-- Whatever bytes come in, every byte that goes to the log is printable ASCII, so none is an escape
-- or ends the line.
pub sanitize-printable : (src : Bytes) (max : ℕ) → all is_printable (sanitize src max) ≡ true
unfolding sanitize
sanitize-printable src max =
    let (keep, dots) = kept (length src) max in
    rw (all-append, map-shown-printable (take keep src)) (all-take is_printable dots ellipsis refl)

-- A line of printable bytes within the limit is logged as it is.
sanitize-id :
    (src : Bytes) (max : ℕ)
    → all is_printable src ≡ true
    → length src ≤ max
    → sanitize src max ≡ src
unfolding sanitize kept
sanitize-id src max h k = elim (Bool-cases (ltb max (length src))) [
  | inl e ↦ absurd (ground arith)
  | inr e ↦ rw (e, take-all src, map-shown-id src h) (append-nil src)
]
