-- ===== src/Analyzer/Table.antt =====
-- The table of words and its ranking, against the words counted (text_analyzer/rust/src/analyzer.rs).
use scratchpad.Common.{
  if_true, if_false, ℕ, zero, suc, ◌+◌, ◌≡◌, refl, sym, ap, ◌∙◌, subst, Bool, true, false, List, [],
  ◌∷◌, Bytes, arith, if◌then◌else◌, if-cases, Bool-cases, inl, inr, length, take, bytes_eq,
  bytes_eq_iff,
}
use scratchpad.Analyzer.{WordFreq, Words, add_word, count_word}
use scratchpad.Analyzer.Rank.{top_words, sort_by, insert, word_before}
use scratchpad.Analyzer.Pieces.{spelled, tally}

-- How many of the words are kept as `w`.
abbrev pub occurrences : ℕ → Bytes → List Bytes → ℕ
occurrences limit w [] = 0
occurrences limit w (p ∷ ps) =
    (if bytes_eq (spelled limit p) w then 1 else 0) + occurrences limit w ps

abbrev pub total_length : List Bytes → ℕ
total_length [] = 0
total_length (p ∷ ps) = length p + total_length ps

abbrev count_of : Bytes → List WordFreq → ℕ
count_of w [] = 0
count_of w (e ∷ table) =
    let later = count_of w table in if bytes_eq e.word w then e.count else later

-- No entry after the one of `w` has that word.
abbrev Lacks : Bytes → List WordFreq → Type 0
Lacks w [] = Unit {0}
Lacks w (e ∷ table) = (bytes_eq w e.word ≡ false) × Lacks w table

abbrev AreDistinct : List WordFreq → Type 0
AreDistinct [] = Unit {0}
AreDistinct (e ∷ table) = Lacks e.word table × AreDistinct table

abbrev pub Each {ℓ κ} : {A : Type ℓ} → (A → Type κ) → List A → Type κ
Each P [] = Unit
Each P (x ∷ xs) = P x × Each P xs

bytes_eq_refl : (w : Bytes) → bytes_eq w w ≡ true
bytes_eq_refl w = (bytes_eq_iff w w).1 refl

pub bump :
    (b c : Bool) (n m : ℕ)
    → b ≡ c
    → (if b then n + 1 else m) ≡ (if b then n else m) + (if c then 1 else 0)
bump true c n m h = subst (λ c. n + 1 ≡ n + (if c then 1 else 0)) h refl
bump false c n m h = subst (λ c. m ≡ m + (if c then 1 else 0)) h (omega arith)

skip :
    (b c : Bool) (n m m' : ℕ)
    → (b ≡ true → c ≡ false)
    → m' ≡ m + (if c then 1 else 0)
    → (if b then n else m') ≡ (if b then n else m) + (if c then 1 else 0)
skip true c n m m' h e = subst (λ c. n ≡ n + (if c then 1 else 0)) (sym (h refl)) (omega arith)
skip false c n m m' h e = e

-- Two words that differ are not both `w`.
bytes_eq_apart : (u x w : Bytes) → bytes_eq u x ≡ false → bytes_eq u w ≡ true → bytes_eq x w ≡ false
bytes_eq_apart u x w d e = elim (Bool-cases (bytes_eq x w)) [
  | inr f ↦ f
  | inl f ↦ absurd (
      let same : u ≡ x = (bytes_eq_iff u w).0 e ∙ sym ((bytes_eq_iff x w).0 f) in
      let t = (bytes_eq_iff u x).1 same in cc)
]

-- Adding a word counts it once, and no other word.
count_of-add_word :
    (w x : Bytes) (table : List WordFreq)
    → count_of w (add_word x table) ≡ count_of w table + (if bytes_eq x w then 1 else 0)
unfolding add_word
count_of-add_word w x [] = omega arith
count_of-add_word w x (e ∷ table) = elim (Bool-cases (bytes_eq e.word x)) [
  | inl same ↦
      ap (count_of w) (if_true _ _ _ same)
      ∙ bump (bytes_eq e.word w) (bytes_eq x w) e.count (count_of w table)
          (ap (λ u. bytes_eq u w) ((bytes_eq_iff e.word x).0 same))
  | inr other ↦
      ap (count_of w) (if_false _ _ _ other)
      ∙ skip (bytes_eq e.word w) (bytes_eq x w) e.count (count_of w table)
          (count_of w (add_word x table)) (bytes_eq_apart e.word x w other)
          (count_of-add_word w x table)
]

Lacks-add_word :
    (w x : Bytes) (table : List WordFreq)
    → bytes_eq w x ≡ false
    → Lacks w table
    → Lacks w (add_word x table)
unfolding add_word
Lacks-add_word w x [] d h = (d, tt)
Lacks-add_word w x (e ∷ table) d h =
    if-cases (Lacks w) (bytes_eq e.word x) _ _ (λ _. h) (λ _. (h.0, Lacks-add_word w x table d h.1))

AreDistinct-add_word :
    (x : Bytes) (table : List WordFreq) → AreDistinct table → AreDistinct (add_word x table)
unfolding add_word
AreDistinct-add_word x [] h = (tt, tt)
AreDistinct-add_word x (e ∷ table) h =
    if-cases AreDistinct (bytes_eq e.word x) _ _ (λ _. h)
      (λ other. (Lacks-add_word e.word x table other h.0, AreDistinct-add_word x table h.1))

Each-behind :
    (e : WordFreq) (table xs : List WordFreq)
    → Lacks e.word xs
    → Each (λ x. x.count ≡ count_of x.word table) xs
    → Each (λ x. x.count ≡ count_of x.word (e ∷ table)) xs
Each-behind e table [] h q = tt
Each-behind e table (x ∷ xs) h q = (q.0 ∙ sym (if_false _ _ _ h.0), Each-behind e table xs h.1 q.1)

-- In a table with one entry for each word, an entry is what its word has.
Each-count_of :
    (table : List WordFreq) → AreDistinct table → Each (λ e. e.count ≡ count_of e.word table) table
Each-count_of [] h = tt
Each-count_of (e ∷ table) h = (
  sym (if_true _ _ _ (bytes_eq_refl e.word)),
  Each-behind e table table h.0 (Each-count_of table h.1),
)

module _ (limit : ℕ) where
  pub tally-words :
      (ps : List Bytes) (w : Words)
      → ((tally limit ps w).word_count ≡ w.word_count + length ps)
        × ((tally limit ps w).length_sum ≡ w.length_sum + total_length ps)
  unfolding count_word
  tally-words [] w = (omega arith, omega arith)
  tally-words (p ∷ ps) w =
      let h = tally-words ps (count_word (spelled limit p) (length p) w) in
      (omega (arith, h.0), omega (arith, h.1))

  pub tally-table :
      (word : Bytes) (ps : List Bytes) (w : Words)
      → count_of word (tally limit ps w).table ≡ count_of word w.table + occurrences limit word ps
  unfolding count_word
  tally-table word [] w = omega arith
  tally-table word (p ∷ ps) w = omega (
    arith,
    tally-table word ps (count_word (spelled limit p) (length p) w),
    count_of-add_word word (spelled limit p) w.table,
  )

  pub tally-AreDistinct :
      (ps : List Bytes) (w : Words) → AreDistinct w.table → AreDistinct (tally limit ps w).table
  unfolding count_word
  tally-AreDistinct [] w h = h
  tally-AreDistinct (p ∷ ps) w h =
      tally-AreDistinct ps (count_word (spelled limit p) (length p) w)
        (AreDistinct-add_word (spelled limit p) w.table h)

module _ {ℓ κ} {A : Type ℓ} (P : A → Type κ) (before : A → A → Bool) where
  pub Each-insert : (x : A) (xs : List A) → P x → Each P xs → Each P (insert before x xs)
  unfolding insert
  Each-insert x [] q h = (q, tt)
  Each-insert x (y ∷ ys) q h =
      if-cases (Each P) (before x y) _ _ (λ _. (q, h)) (λ _. (h.0, Each-insert x ys q h.1))

  Each-sort_by : (xs : List A) → Each P xs → Each P (sort_by before xs)
  unfolding sort_by
  Each-sort_by [] h = tt
  Each-sort_by (x ∷ xs) h = Each-insert x (sort_by before xs) h.0 (Each-sort_by xs h.1)

  Each-take : (n : ℕ) (xs : List A) → Each P xs → Each P (take n xs)
  Each-take zero xs h = tt
  Each-take (suc n) [] h = tt
  Each-take (suc n) (x ∷ xs) h = (h.0, Each-take n xs h.1)

module _ {ℓ κ μ} {A : Type ℓ} {P : A → Type κ} {Q : A → Type μ} where
  pub Each-map : ((x : A) → P x → Q x) → (xs : List A) → Each P xs → Each Q xs
  Each-map f [] h = tt
  Each-map f (x ∷ xs) h = (f x h.0, Each-map f xs h.1)

-- The entries of the ranking have what the table has.
pub top_words-exact :
    (limit : ℕ) (ps : List Bytes) (w : Words) (n : ℕ)
    → AreDistinct w.table
    → ((word : Bytes) → count_of word w.table ≡ occurrences limit word ps)
    → Each (λ e. e.count ≡ occurrences limit e.word ps) (top_words w.table n)
unfolding top_words
top_words-exact limit ps w n h same =
    let Exact = λ (e : WordFreq). e.count ≡ occurrences limit e.word ps in
    Each-take Exact word_before n (sort_by word_before w.table) (
      Each-sort_by Exact word_before w.table
        (Each-map (λ e q. q ∙ same e.word) w.table (Each-count_of w.table h)))
