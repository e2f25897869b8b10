-- ===== src/Analyzer/Pieces.antt =====
-- The words of a text, cut from its bytes, and how a word is kept (text_analyzer/rust/src/analyzer.rs).
use scratchpad.Common.{
  ℕ, zero, suc, ◌+◌, ◌-◌, min, ◌<◌, ◌≤◌, ltb→lt, take-nil, ◌≡◌, refl, sym, ap, ◌∙◌, false, List, [],
  ◌∷◌, ◌++◌, append-nil, append_assoc, Bytes, ltb, arith, if◌then◌else◌, Bool-cases, inl, inr,
  length, length-take, take, map,
}
use scratchpad.Analyzer.{Words, is_alphabetic, to_lowercase, count_word}

abbrev onto_first : ℕ → List Bytes → List Bytes
onto_first b [] = (b ∷ []) ∷ []
onto_first b (p ∷ ps) = (b ∷ p) ∷ ps

-- The text cut at each byte that is no letter.
abbrev pub pieces : Bytes → List Bytes
pieces [] = [] ∷ []
pieces (b ∷ bs) = let rest = pieces bs in if is_alphabetic b then onto_first b rest else [] ∷ rest

abbrev pub nonempty : List Bytes → List Bytes
nonempty [] = []
nonempty ([] ∷ ps) = nonempty ps
nonempty ((b ∷ p) ∷ ps) = (b ∷ p) ∷ nonempty ps

-- The words of a text: the runs of letters between other bytes.
abbrev pub words_of : Bytes → List Bytes
words_of bs = nonempty (pieces bs)

-- A word as it is kept: in lower case, one byte short of the limit.
abbrev pub spelled : ℕ → Bytes → Bytes
spelled limit p = map to_lowercase (take (limit - 1) p)

abbrev pub tally : ℕ → List Bytes → Words → Words
tally limit [] w = w
tally limit (p ∷ ps) w = tally limit ps (count_word (spelled limit p) (length p) w)

abbrev pub prepend : Bytes → List Bytes → List Bytes
prepend p [] = p ∷ []
prepend p (q ∷ qs) = (p ++ q) ∷ qs

map-append : (f : ℕ → ℕ) (p q : Bytes) → map f (p ++ q) ≡ map f p ++ map f q
map-append f [] q = refl
map-append f (b ∷ p) q = ap (◌∷◌ (f b)) (map-append f p q)

ltb_false→le : (a b : ℕ) → ltb a b ≡ false → b ≤ a
ltb_false→le a b h = ground arith

take-snoc_lt :
    (n : ℕ) (p : Bytes) (b : ℕ) → length p < n → take n (p ++ b ∷ []) ≡ take n p ++ b ∷ []
take-snoc_lt zero p b h = elim h [ ]
take-snoc_lt (suc n) [] b h = ap (◌∷◌ b) (take-nil n)
take-snoc_lt (suc n) (x ∷ p) b h = ap (◌∷◌ x) (take-snoc_lt n p b (omega (arith, h)))

take-snoc_le : (n : ℕ) (p : Bytes) (b : ℕ) → n ≤ length p → take n (p ++ b ∷ []) ≡ take n p
take-snoc_le zero p b h = refl
take-snoc_le (suc n) [] b h = elim h [ ]
take-snoc_le (suc n) (x ∷ p) b h = ap (◌∷◌ x) (take-snoc_le n p b (omega (arith, h)))

length-spelled : (limit : ℕ) (p : Bytes) → length (spelled limit p) ≡ min (limit - 1) (length p)
length-spelled limit p = length-map to_lowercase (take (limit - 1) p) ∙ length-take (limit - 1) p
  where
    length-map : (f : ℕ → ℕ) (p : Bytes) → length (map f p) ≡ length p
    length-map f [] = refl
    length-map f (b ∷ p) = ap suc (length-map f p)

-- A letter more in the text is a letter more in what is kept, up to the limit.
pub spelled-snoc :
    (limit : ℕ) (p : Bytes) (b : ℕ)
    → (if ltb (length (spelled limit p) + 1) limit
        then spelled limit p ++ to_lowercase b ∷ []
        else spelled limit p)
      ≡ spelled limit (p ++ b ∷ [])
spelled-snoc limit p b = elim (Bool-cases (ltb (length (spelled limit p) + 1) limit)) [
  | inl e ↦ rw e (
      sym (map-append to_lowercase (take (limit - 1) p) (b ∷ []))
      ∙ ap (map to_lowercase) (
          sym (take-snoc_lt (limit - 1) p b (omega (arith, ltb→lt _ _ e, length-spelled limit p)))))
  | inr e ↦ rw e (
      ap (map to_lowercase) (
        sym (
          take-snoc_le (limit - 1) p b
            (omega (arith, ltb_false→le _ _ e, length-spelled limit p)))))
]

pub prepend-onto_first :
    (p : Bytes) (b : ℕ) (ps : List Bytes) → prepend p (onto_first b ps) ≡ prepend (p ++ b ∷ []) ps
prepend-onto_first p b [] = refl
prepend-onto_first p b (q ∷ qs) = ap (λ x. x ∷ qs) (sym (append_assoc p (b ∷ []) q))

pub nonempty-prepend : (ps : List Bytes) → nonempty (prepend [] ps) ≡ nonempty ps
nonempty-prepend [] = refl
nonempty-prepend (p ∷ ps) = refl

pub append-prepend :
    (p : Bytes) (ps : List Bytes) → nonempty (prepend p ([] ∷ ps)) ≡ nonempty (p ∷ ps)
append-prepend p ps = ap (λ x. nonempty (x ∷ ps)) (append-nil p)

pub tally-append :
    (limit : ℕ) (p : Bytes) (ps : List Bytes) (w : Words)
    → tally limit (nonempty (p ∷ ps)) w
      ≡ tally limit (nonempty ps) (tally limit (nonempty (p ∷ [])) w)
tally-append limit [] ps w = refl
tally-append limit (x ∷ p) ps w = refl
