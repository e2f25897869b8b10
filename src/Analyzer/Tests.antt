-- ===== src/Analyzer/Tests.antt =====
-- text_analyzer: a run on a short text, and the theorems applied to it.
use mathlib.Core.List.{Perm}
use scratchpad.Common.{
  List, length, ◌≡◌, ◌<◌, refl, not, ◌&&◌, [], ◌∷◌, ◌++◌, Bytes, codes, ◌==◌, arith,
}
use scratchpad.Common.Io.{ok, bytes_input}
use scratchpad.Analyzer.Ranking.{Outranks, IsRanked, top_words-IsRanked}
use scratchpad.Analyzer.{Config, WordFreq}
use scratchpad.Analyzer.Rank.{
  TextStats, analyze, quantile, reach, top_words, sort_by, insert, word_before, word_le, is_digit,
  is_punctuation,
}
use scratchpad.Analyzer.Pieces.{words_of}
use scratchpad.Analyzer.Counts.{count_where}
use scratchpad.Analyzer.Table.{occurrences, Each}
use scratchpad.Analyzer.Totals.{analyze-totals}

abbrev two_words : Config
two_words = record { max_word_len = 16; top_n = 2 }

abbrev sample : Bytes
sample = codes "Go,7 go\n"

small : Each (λ b. b < 256) sample
small = (
  omega arith,
  (
    omega arith,
    (omega arith, (omega arith, (omega arith, (omega arith, (omega arith, (omega arith, tt)))))),
  ),
)

analyze-totals_example :
    (s : TextStats) × (analyze (bytes_input sample) two_words ≡ ok s)
    × (s.char_count ≡ 8)
    × (s.line_count ≡ count_where (λ b. b == b'\n') sample)
    × (s.digit_count ≡ count_where is_digit sample)
    × (s.punct_count ≡ count_where (λ b. not (is_digit b) && is_punctuation b) sample)
    × (s.word_count ≡ 2)
    × (s.word_length.sum ≡ 4)
    × Each (λ e. e.count ≡ occurrences 16 e.word (words_of sample)) s.top_words
analyze-totals_example = analyze-totals two_words sample small

words_test : words_of sample ≡ codes "Go" ∷ codes "go" ∷ []
words_test = refl

quantile_test : quantile (0 ∷ 2 ∷ 1 ∷ 1 ∷ []) 4 75 ≡ 2
unfolding quantile reach
quantile_test = refl

abbrev three_words : List WordFreq
three_words =
    record { word = codes "b"; count = 1 }
    ∷ record { word = codes "a"; count = 1 }
    ∷ record { word = codes "c"; count = 2 }
    ∷ []

rank_test :
    top_words three_words 2
    ≡ record { word = codes "c"; count = 2 } ∷ record { word = codes "a"; count = 1 } ∷ []
unfolding top_words sort_by insert word_before word_le
rank_test = refl

top_words-IsRanked_example :
    (rest : List WordFreq) × Perm (top_words three_words 2 ++ rest) three_words
    × IsRanked Outranks (top_words three_words 2 ++ rest)
    × (length (top_words three_words 2) ≡ 2)
top_words-IsRanked_example = top_words-IsRanked three_words 2
