-- ===== src/Analyzer/Totals.antt =====
-- The totals of a text, against its bytes and its words.
use scratchpad.Common.{
  if_true, if_false, ℕ, zero, suc, ◌+◌, ◌<◌, ◌≡◌, refl, sym, ap, ◌∙◌, subst, Bool, not, ◌&&◌, List,
  [], ◌∷◌, Bytes, ◌==◌, arith, if◌then◌else◌, if-cases, Bool-cases, inl, inr, length, length-set,
  length-replicate, get_or, replicate,
}
use native.Mathlib.Nat.{zero-add}
use scratchpad.Common.Io.{ok, bytes_input}
use scratchpad.Analyzer.{
  Config, Words, Lines, Accum, new_accum, increment, end_line, is_whitespace, take_byte,
}
use scratchpad.Analyzer.Rank.{
  TextStats, finish, analyze, top_words, sum_where, is_digit, is_punctuation, finished,
}
use scratchpad.Analyzer.Counts.{
  count_where, taken, ended, feed-taken, base-ended, base-take_byte, config-ended, taken-words,
}
use scratchpad.Analyzer.Pieces.{words_of, tally}
use scratchpad.Analyzer.Table.{
  occurrences, total_length, Each, bump, tally-words, tally-table, tally-AreDistinct,
  top_words-exact,
}

set-sum_where :
    (test : ℕ → Bool) (from i : ℕ) (counts : List ℕ)
    → i < length counts
    → sum_where test from (increment i counts)
      ≡ sum_where test from counts + (if test (from + i) then 1 else 0)
unfolding sum_where
set-sum_where test from i [] h = elim h [ ]
set-sum_where test from zero (n ∷ counts) h =
    omega (arith, bump (test from) (test (from + 0)) n 0 (ap test (omega arith)))
set-sum_where test from (suc i) (n ∷ counts) h =
    let same : from + 1 + i ≡ from + suc i = omega arith in
    omega (
      arith,
      set-sum_where test (from + 1) i counts (omega (arith, h)),
      ap {B = ℕ} (λ k. if test k then 1 else 0) same,
    )

line_count-end_line :
    (b : ℕ) (l : Lines) → (end_line b l).line_count ≡ l.line_count + (if b == b'\n' then 1 else 0)
unfolding end_line
line_count-end_line b l = elim (Bool-cases (b == b'\n')) [
  | inl e ↦
      ap (λ (x : Lines). x.line_count) (if_true _ _ _ e)
      ∙ ap (λ k. l.line_count + (if k then 1 else 0)) (sym e)
  | inr e ↦
      let none_more : l.line_count ≡ l.line_count + 0 = omega arith in
      ap (λ (x : Lines). x.line_count) (if_false _ _ _ e)
      ∙ if-cases (λ (x : Lines). x.line_count ≡ l.line_count) (is_whitespace b) _ _ (λ _. refl)
          (λ _. refl)
      ∙ none_more
      ∙ ap (λ k. l.line_count + (if k then 1 else 0)) (sym e)
]

taken-base :
    (bs : Bytes) (a : Accum)
    → ((taken bs a).char_count ≡ a.char_count + length bs)
      × ((taken bs a).lines.line_count ≡ a.lines.line_count + count_where (λ b. b == b'\n') bs)
taken-base [] a = (omega arith, omega arith)
taken-base (b ∷ bs) a =
    let q = base-take_byte b a in
    let h = taken-base bs (take_byte b a) in
    (
      omega (arith, h.0, ap (λ (x : ℕ × List ℕ × Lines). x.0) q),
      omega (
        arith,
        h.1,
        ap (λ (x : ℕ × List ℕ × Lines). x.2.line_count) q,
        line_count-end_line b a.lines,
      ),
    )

taken-char_counts :
    (test : ℕ → Bool) (bs : Bytes) (a : Accum)
    → Each (λ b. b < 256) bs
    → length a.char_counts ≡ 256
    → sum_where test 0 (taken bs a).char_counts
      ≡ sum_where test 0 a.char_counts + count_where test bs
taken-char_counts test [] a small h = omega arith
taken-char_counts test (b ∷ bs) a small h =
    let q = ap (λ (x : ℕ × List ℕ × Lines). x.1) (base-take_byte b a) in
    let inside : b < length a.char_counts = omega (arith, small.0, h) in
    let rest =
      taken-char_counts test bs (take_byte b a) small.1
        (ap length q ∙ length-set a.char_counts b (get_or a.char_counts b 0 + 1) ∙ h) in
    let same : 0 + b ≡ b = omega arith in
    omega (
      arith,
      rest,
      ap (sum_where test 0) q,
      set-sum_where test 0 b a.char_counts inside,
      ap {B = ℕ} (λ k. if test k then 1 else 0) same,
    )

sum_where-blank : (test : ℕ → Bool) (from n : ℕ) → sum_where test from (replicate n 0) ≡ 0
unfolding sum_where
sum_where-blank test from zero = refl
sum_where-blank test from (suc n) = omega (
  arith,
  sum_where-blank test (from + 1) n,
  if-cases {A = ℕ} (λ k. k ≡ 0) (test from) 0 0 (λ _. refl) (λ _. refl),
)

module _ (config : Config) (bs : Bytes) where
  abbrev read_all : Accum
  read_all = taken bs (new_accum config)

  digits-finish :
      (test : ℕ → Bool)
      → Each (λ b. b < 256) bs
      → sum_where test 0 (ended read_all).char_counts ≡ count_where test bs
  unfolding new_accum
  digits-finish test small =
      ap (λ (x : ℕ × List ℕ × Lines). sum_where test 0 x.1) (base-ended read_all)
      ∙ taken-char_counts test bs (new_accum config) small (length-replicate {A = ℕ} 256 0)
      ∙ ap (λ n. n + count_where test bs) (sum_where-blank test 0 256)
      ∙ zero-add (count_where test bs)

  counts-finish :
      ((ended read_all).char_count ≡ length bs)
      × ((ended read_all).lines.line_count ≡ count_where (λ b. b == b'\n') bs)
  unfolding new_accum
  counts-finish =
      let end = base-ended read_all in
      let counts = taken-base bs (new_accum config) in
      (
        ap (λ (x : ℕ × List ℕ × Lines). x.0) end ∙ counts.0 ∙ zero-add (length bs),
        ap (λ (x : ℕ × List ℕ × Lines). x.2.line_count) end
            ∙ counts.1
            ∙ zero-add (count_where (λ b. b == b'\n') bs),
      )

  words-finish :
      ((ended read_all).words.word_count ≡ length (words_of bs))
      × ((ended read_all).words.length_sum ≡ total_length (words_of bs))
      × Each
          (λ e. e.count ≡ occurrences config.max_word_len e.word (words_of bs))
          (top_words (ended read_all).words.table config.top_n)
  unfolding new_accum
  words-finish =
      let ps = words_of bs in
      let start = (new_accum config).words in
      let limit = config.max_word_len in
      let w = tally limit ps start in
      let sums = tally-words limit ps start in
      subst
        (λ (x : Words).
          (x.word_count ≡ length ps)
          × (x.length_sum ≡ total_length ps)
          × Each (λ e. e.count ≡ occurrences limit e.word ps) (top_words x.table config.top_n))
        (sym (taken-words config bs))
        (
          sums.0 ∙ zero-add (length ps),
          sums.1 ∙ zero-add (total_length ps),
          top_words-exact limit ps w config.top_n (tally-AreDistinct limit ps start tt)
              (λ word. tally-table limit word ps start ∙ zero-add (occurrences limit word ps)),
        )

-- Of any bytes, `analyze` returns: the characters are the bytes, a line is a new line, the digits and the
-- punctuation are the bytes that pass those tests, the words are the runs of letters, and an entry of
-- the top words has the number of words that are kept as its word.
pub analyze-totals :
    (config : Config) (bs : Bytes)
    → Each (λ b. b < 256) bs
    → (s : TextStats) × (analyze (bytes_input bs) config ≡ ok s)
      × (s.char_count ≡ length bs)
      × (s.line_count ≡ count_where (λ b. b == b'\n') bs)
      × (s.digit_count ≡ count_where is_digit bs)
      × (s.punct_count ≡ count_where (λ b. not (is_digit b) && is_punctuation b) bs)
      × (s.word_count ≡ length (words_of bs))
      × (s.word_length.sum ≡ total_length (words_of bs))
      × Each (λ e. e.count ≡ occurrences config.max_word_len e.word (words_of bs)) s.top_words
unfolding analyze finish
analyze-totals config bs small =
    let a = read_all config bs in
    let (chars, lines) = counts-finish config bs in
    let (count, sum, exact) = words-finish config bs in
    (
      finish a,
      ap finished (feed-taken bs (new_accum config)),
      chars,
      lines,
      digits-finish config bs is_digit small,
      digits-finish config bs (λ b. not (is_digit b) && is_punctuation b) small,
      count,
      sum,
      ranked exact,
    )
  where
    ranked :
        Each
          (λ e. e.count ≡ occurrences config.max_word_len e.word (words_of bs))
          (top_words (ended (read_all config bs)).words.table config.top_n)
        → Each
            (λ e. e.count ≡ occurrences config.max_word_len e.word (words_of bs))
            (finish (read_all config bs)).top_words
    ranked exact =
        subst
          (λ (c : Config).
            Each (λ e. e.count ≡ occurrences config.max_word_len e.word (words_of bs))
              (top_words (ended (read_all config bs)).words.table c.top_n))
          (sym (config-ended bs (new_accum config))) (unfold new_accum in exact)
