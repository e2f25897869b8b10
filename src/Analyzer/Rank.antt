-- ===== src/Analyzer/Rank.antt =====
-- analyzer.rs: the percentiles, the rankings, and `finish`.
use scratchpad.Common.{
  ℕ, zero, suc, ◌+◌, ◌-◌, ◌*◌, ◌/◌, ◌%◌, Bool, true, false, not, ◌&&◌, ◌||◌, List, [], ◌∷◌, Bytes,
  ◌==◌, leb, ltb, if◌then◌else◌, get_or, take,
}
use scratchpad.Common.Io.{Input, IoError, Result, ok, err}
use scratchpad.Analyzer.{Config, WordFreq, Accum, new_accum, flush_word, feed}

pub record CharFreq : Type 0 where
  pub ch : ℕ
  pub count : ℕ

pub record WordLengthStats : Type 0 where
  pub count : ℕ
  pub sum : ℕ
  pub shortest : ℕ
  pub longest : ℕ
  pub p25 : ℕ
  pub p50 : ℕ
  pub p75 : ℕ

pub record TextStats : Type 0 where
  pub line_count : ℕ
  pub blank_line_count : ℕ
  pub word_count : ℕ
  pub char_count : ℕ
  pub digit_count : ℕ
  pub punct_count : ℕ
  pub word_length : WordLengthStats
  pub top_words : List WordFreq
  pub top_chars : List CharFreq

-- The loop of `quantile`: the first length at which the sum so far has reached the rank.
unfoldable pub reach : ℕ → ℕ → ℕ → List ℕ → ℕ
reach rank len cumulative [] = 0
reach rank len cumulative (n ∷ hist) =
    let later = reach rank (len + 1) (cumulative + n) hist in
    if leb rank (cumulative + n) then len else later

-- `div_ceil(100).max(1)`
abbrev pub rank_of : ℕ → ℕ → ℕ
rank_of count pct =
    let up = if pct * count % 100 == 0 then pct * count / 100 else pct * count / 100 + 1 in
    if ltb up 1 then 1 else up

unfoldable pub quantile : List ℕ → ℕ → ℕ → ℕ
unfolding reach
quantile hist count pct = if count == 0 then 0 else reach (rank_of count pct) 0 0 hist

-- `a.word.cmp(&b.word)` is not after
unfoldable pub word_le : Bytes → Bytes → Bool
word_le [] right = true
word_le (a ∷ left) [] = false
word_le (a ∷ left) (b ∷ right) = let later = word_le left right in if a == b then later else ltb a b

-- The order of the ranking, as `sort_by` reads it: `a` may stand before `b`.
unfoldable pub word_before : WordFreq → WordFreq → Bool
unfolding word_le
word_before a b = if a.count == b.count then word_le a.word b.word else ltb b.count a.count

unfoldable pub char_before : CharFreq → CharFreq → Bool
char_before a b = if a.count == b.count then leb a.ch b.ch else ltb b.count a.count

module _ {ℓ} {A : Type ℓ} (before : A → A → Bool) where
  unfoldable pub insert : A → List A → List A
  insert x [] = x ∷ []
  insert x (y ∷ ys) = let rest = insert x ys in if before x y then x ∷ y ∷ ys else y ∷ rest

  -- `sort_by`, which is stable
  unfoldable pub sort_by : List A → List A
  unfolding insert
  sort_by [] = []
  sort_by (x ∷ xs) = insert x (sort_by xs)

unfoldable pub top_words : List WordFreq → ℕ → List WordFreq
unfolding sort_by word_before
top_words table top_n = take top_n (sort_by word_before table)

-- The characters from `b` on that occur, of `left` in a row.
unfoldable pub chars_from : List ℕ → ℕ → ℕ → List CharFreq
chars_from counts zero b = []
chars_from counts (suc left) b =
    let rest = chars_from counts left (b + 1) in
    if ltb 0 (get_or counts b 0) then record { ch = b; count = get_or counts b 0 } ∷ rest else rest

-- `PRINTABLE_ASCII_MIN..=PRINTABLE_ASCII_MAX`
unfoldable pub top_chars : List ℕ → ℕ → List CharFreq
unfolding chars_from sort_by char_before
top_chars counts top_n = take top_n (sort_by char_before (chars_from counts (b'~' + 1 - b'!') b'!'))

-- `is_ascii_digit` and `is_ascii_punctuation`
abbrev pub is_digit : ℕ → Bool
is_digit b = leb b'0' b && leb b b'9'

abbrev pub is_punctuation : ℕ → Bool
is_punctuation b =
    leb 33 b && leb b 47 || leb 58 b && leb b 64 || leb 91 b && leb b 96 || leb 123 b && leb b 126

-- The loop of `finish` over the counts, from the byte `b` on.
unfoldable pub sum_where : (ℕ → Bool) → ℕ → List ℕ → ℕ
sum_where test b [] = 0
sum_where test b (n ∷ counts) = (if test b then n else 0) + sum_where test (b + 1) counts

unfoldable pub finish : Accum → TextStats
unfolding flush_word sum_where quantile top_words top_chars
finish accum =
    let a = if accum.in_word then flush_word accum else accum in
    let w = a.words in
    record {
      line_count = a.lines.line_count;
      blank_line_count = a.lines.blank_line_count;
      word_count = w.word_count;
      char_count = a.char_count;
      digit_count = sum_where is_digit 0 a.char_counts;
      punct_count = sum_where (λ b. not (is_digit b) && is_punctuation b) 0 a.char_counts;
      word_length = record {
        count = w.word_count;
        sum = w.length_sum;
        shortest = w.length_min;
        longest = w.length_max;
        p25 = quantile w.length_hist w.word_count 25;
        p50 = quantile w.length_hist w.word_count 50;
        p75 = quantile w.length_hist w.word_count 75;
      };
      top_words = top_words w.table a.config.top_n;
      top_chars = top_chars a.char_counts a.config.top_n;
    }

abbrev pub finished : Result IoError (Unit {0}) × Accum → Result IoError TextStats
finished (ok _, a) = ok (finish a)
finished (err e, a) = err e

unfoldable pub analyze : Input → Config → Result IoError TextStats
unfolding feed new_accum finish
analyze input config = finished (feed input (new_accum config))
