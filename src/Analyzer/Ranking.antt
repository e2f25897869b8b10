-- ===== src/Analyzer/Ranking.antt =====
-- The order of the top words (`top_words` in text_analyzer/rust/src/analyzer.rs).
use scratchpad.Common.{
  ℕ, zero, suc, ◌≡◌, refl, sym, subst, ap, ◌<◌, ltb→lt, Bool, true, false, List, [], ◌∷◌, ◌++◌,
  Bytes, ◌==◌, arith, if-cases, Bool-cases, inl, inr, take, ◌⊎◌, ==_iff, if_true, if_false, ◌∙◌,
  length, length-take, min,
}
use mathlib.Core.List.{Perm}
use mathlib.Core.List.Perm
use scratchpad.Analyzer.{WordFreq}
use scratchpad.Analyzer.Rank.{top_words, sort_by, insert, word_before, word_le}
use scratchpad.Analyzer.Table.{Each, Each-insert, Each-map}

-- The order of the words: by their first bytes that differ, and a word before its continuations.
abbrev pub Precedes : Bytes → Bytes → Type 0
Precedes [] v = Unit {0}
Precedes (a ∷ u) [] = ⊥
Precedes (a ∷ u) (b ∷ v) = (a < b) ⊎ ((a ≡ b) × Precedes u v)

-- The entry `x` occurs more often, or as often and its word is not after that of `y`.
abbrev pub Outranks : WordFreq → WordFreq → Type 0
Outranks x y = (y.count < x.count) ⊎ ((x.count ≡ y.count) × Precedes x.word y.word)

-- Each entry is so related to all those after it.
abbrev pub IsRanked {ℓ κ} : {A : Type ℓ} → (A → A → Type κ) → List A → Type κ
IsRanked R [] = Unit
IsRanked R (x ∷ xs) = Each (R x) xs × IsRanked R xs

IsRanked-map {ℓ κ μ} :
    {A : Type ℓ} {R : A → A → Type κ} {S : A → A → Type μ}
    → ((x y : A) → R x y → S x y)
    → (xs : List A) → IsRanked R xs
    → IsRanked S xs
IsRanked-map f [] h = tt
IsRanked-map f (x ∷ xs) h = (Each-map (f x) xs h.0, IsRanked-map f xs h.1)

abbrev left_out {ℓ} : {A : Type ℓ} → ℕ → List A → List A
left_out zero xs = xs
left_out (suc n) [] = []
left_out (suc n) (x ∷ xs) = left_out n xs

take-left_out {ℓ} : {A : Type ℓ} (n : ℕ) (xs : List A) → take n xs ++ left_out n xs ≡ xs
take-left_out zero xs = refl
take-left_out (suc n) [] = refl
take-left_out (suc n) (x ∷ xs) = ap (◌∷◌ x) (take-left_out n xs)

module _ {ℓ} {A : Type ℓ} (before : A → A → Bool) where
  insert-perm : (x : A) (xs : List A) → Perm (insert before x xs) (x ∷ xs)
  unfolding insert
  insert-perm x [] = Perm.rfl
  insert-perm x (y ∷ ys) =
      if-cases (λ l. Perm l (x ∷ y ∷ ys)) (before x y) _ _ (λ _. Perm.rfl)
        (λ _. Perm.trans (Perm.cons y (insert-perm x ys)) (Perm.swap x y ys))

  sort_by-perm : (xs : List A) → Perm (sort_by before xs) xs
  unfolding sort_by
  sort_by-perm [] = Perm.rfl
  sort_by-perm (x ∷ xs) =
      Perm.trans (insert-perm x (sort_by before xs)) (Perm.cons x (sort_by-perm xs))

  length-insert : (x : A) (xs : List A) → length (insert before x xs) ≡ suc (length xs)
  unfolding insert
  length-insert x [] = refl
  length-insert x (y ∷ ys) =
      if-cases (λ (l : List A). length l ≡ suc (suc (length ys))) (before x y) _ _ (λ _. refl)
        (λ _. ap suc (length-insert x ys))

  length-sort_by : (xs : List A) → length (sort_by before xs) ≡ length xs
  unfolding sort_by
  length-sort_by [] = refl
  length-sort_by (x ∷ xs) = length-insert x (sort_by before xs) ∙ ap suc (length-sort_by xs)

module _ {ℓ} {A : Type ℓ} (before : A → A → Bool)
    (total : (x y : A) → before x y ≡ false → before y x ≡ true)
    (trans : (x y z : A) → before x y ≡ true → before y z ≡ true → before x z ≡ true) where
  abbrev May : A → A → Type 0
  May x y = before x y ≡ true

  insert-IsRanked : (x : A) (xs : List A) → IsRanked May xs → IsRanked May (insert before x xs)
  unfolding insert
  insert-IsRanked x [] h = (tt, tt)
  insert-IsRanked x (y ∷ ys) h =
      if-cases (IsRanked May) (before x y) _ _ (λ e. ((e, Each-map (λ z. trans x y z e) ys h.0), h))
        (λ e. (Each-insert (May y) before x ys (total x y e) h.0, insert-IsRanked x ys h.1))

  sort_by-IsRanked : (xs : List A) → IsRanked May (sort_by before xs)
  unfolding sort_by
  sort_by-IsRanked [] = tt
  sort_by-IsRanked (x ∷ xs) = insert-IsRanked x (sort_by before xs) (sort_by-IsRanked xs)

word_le_total : (u v : Bytes) → word_le u v ≡ false → word_le v u ≡ true
unfolding word_le
word_le_total [] v h = absurd (cc)
word_le_total (a ∷ u) [] h = refl
word_le_total (a ∷ u) (b ∷ v) h = ground (arith, word_le_total u v)

word_le_trans : (u v w : Bytes) → word_le u v ≡ true → word_le v w ≡ true → word_le u w ≡ true
unfolding word_le
word_le_trans [] v w h k = refl
word_le_trans (a ∷ u) [] w h k = absurd (cc)
word_le_trans (a ∷ u) (b ∷ v) [] h k = absurd (cc)
word_le_trans (a ∷ u) (b ∷ v) (c ∷ w) h k = ground (arith, word_le_trans u v w)

word_before_total : (x y : WordFreq) → word_before x y ≡ false → word_before y x ≡ true
unfolding word_before
word_before_total x y h = ground (arith, word_le_total x.word y.word)

word_before_trans :
    (x y z : WordFreq) → word_before x y ≡ true → word_before y z ≡ true → word_before x z ≡ true
unfolding word_before
word_before_trans x y z h k = ground (arith, word_le_trans x.word y.word z.word)

word_le→Precedes : (u v : Bytes) → word_le u v ≡ true → Precedes u v
unfolding word_le
word_le→Precedes [] v h = tt
word_le→Precedes (a ∷ u) [] h = absurd (cc)
word_le→Precedes (a ∷ u) (b ∷ v) h = elim (Bool-cases (a == b)) [
  | inl e ↦ inr ((==_iff a b).0 e, word_le→Precedes u v (sym (if_true _ _ _ e) ∙ h))
  | inr e ↦ inl (ltb→lt a b (sym (if_false _ _ _ e) ∙ h))
]

word_before→Outranks : (x y : WordFreq) → word_before x y ≡ true → Outranks x y
unfolding word_before
word_before→Outranks x y h = elim (Bool-cases (x.count == y.count)) [
  | inl e ↦
      inr ((==_iff x.count y.count).0 e, word_le→Precedes x.word y.word (sym (if_true _ _ _ e) ∙ h))
  | inr e ↦ inl (ltb→lt y.count x.count (sym (if_false _ _ _ e) ∙ h))
]

-- The top words with some entries left out are those of the table in another order, in which each
-- occurs more often than any after it, or as often and its word is not after the other's, and they are
-- `top_n` or all of them.
pub top_words-IsRanked :
    (table : List WordFreq) (top_n : ℕ)
    → (rest : List WordFreq) × Perm (top_words table top_n ++ rest) table
      × IsRanked Outranks (top_words table top_n ++ rest)
      × (length (top_words table top_n) ≡ min top_n (length table))
unfolding top_words
top_words-IsRanked table top_n =
    let sorted = sort_by word_before table in
    let (perm, ranked) =
      subst (λ l. Perm l table × IsRanked (λ x y. word_before x y ≡ true) l)
        (sym (take-left_out top_n sorted))
        (
          sort_by-perm word_before table,
          sort_by-IsRanked word_before word_before_total word_before_trans table,
        ) in
    (
      left_out top_n sorted,
      perm,
      IsRanked-map word_before→Outranks (take top_n sorted ++ left_out top_n sorted) ranked,
      length-take top_n sorted ∙ ap (min top_n) (length-sort_by word_before table),
    )
