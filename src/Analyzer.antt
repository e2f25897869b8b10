-- ===== src/Analyzer.antt =====
-- text_analyzer/rust/src/analyzer.rs: the statistics of a text, read byte by byte. A count has no bound
-- here. The table of words is a list with an entry for each word, in the order they first came.
pub mod Rank
pub mod Pieces
pub mod Counts
pub mod Table
pub mod Totals
pub mod Ranking
mod Tests
use scratchpad.Common.{
  ℕ, zero, suc, ◌+◌, ◌-◌, ◌*◌, ◌/◌, ◌%◌, min, Bool, true, false, not, ◌&&◌, ◌||◌, Option, none,
  some, List, [], ◌∷◌, ◌++◌, Bytes, ◌==◌, leb, ltb, if◌then◌else◌, length, get_or, set, replicate,
  bytes_eq,
}
use scratchpad.Common.Io.{Input, byte, fault, interrupted, IoError, Result, ok, err}

pub record Config : Type 0 where
  pub max_word_len : ℕ
  pub top_n : ℕ

pub record WordFreq : Type 0 where
  pub word : Bytes
  pub count : ℕ

-- `LENGTH_HIST_BUCKETS`
abbrev pub length_hist_buckets : ℕ
length_hist_buckets = 257

-- What a finished word changes.
pub record Words : Type 0 where
  pub table : List WordFreq
  pub word_count : ℕ
  pub length_hist : List ℕ
  pub length_sum : ℕ
  pub length_min : ℕ
  pub length_max : ℕ

-- What a line changes.
pub record Lines : Type 0 where
  pub line_count : ℕ
  pub blank_line_count : ℕ
  pub line_has_content : Bool

pub record Accum : Type 0 where
  pub config : Config
  pub lines : Lines
  pub char_count : ℕ
  pub char_counts : List ℕ
  pub words : Words
  pub word : Bytes
  pub cur_word_len : ℕ
  pub in_word : Bool

unfoldable pub new_accum : Config → Accum
new_accum config = record {
  config = config;
  lines = record { line_count = 0; blank_line_count = 0; line_has_content = false };
  char_count = 0;
  char_counts = replicate 256 0;
  words = record {
    table = [];
    word_count = 0;
    length_hist = replicate length_hist_buckets 0;
    length_sum = 0;
    length_min = 0;
    length_max = 0;
  };
  word = [];
  cur_word_len = 0;
  in_word = false;
}

-- `is_ascii_alphabetic`, `to_ascii_lowercase` and `is_ascii_whitespace`
abbrev pub is_alphabetic : ℕ → Bool
is_alphabetic b = leb b'A' b && leb b b'Z' || leb b'a' b && leb b b'z'

abbrev pub to_lowercase : ℕ → ℕ
to_lowercase b = if leb b'A' b && leb b b'Z' then b + 32 else b

abbrev pub is_whitespace : ℕ → Bool
is_whitespace b = b == b' ' || b == 9 || b == 10 || b == 12 || b == 13

-- `*words.entry(word).or_insert(0) += 1`
unfoldable pub add_word : Bytes → List WordFreq → List WordFreq
add_word word [] = record { word = word; count = 1 } ∷ []
add_word word (entry ∷ table) =
    let rest = add_word word table in
    if bytes_eq entry.word word
    then record entry { count = entry.count + 1 } ∷ table
    else entry ∷ rest

abbrev pub increment : ℕ → List ℕ → List ℕ
increment i counts = set counts i (get_or counts i 0 + 1)

-- `flush_word`, of the word and its length
unfoldable pub count_word : Bytes → ℕ → Words → Words
unfolding add_word
count_word word len w = record {
  table = add_word word w.table;
  word_count = w.word_count + 1;
  length_hist = increment (min len (length_hist_buckets - 1)) w.length_hist;
  length_sum = w.length_sum + len;
  length_min = if w.length_min == 0 || ltb len w.length_min then len else w.length_min;
  length_max = if w.length_max == 0 || ltb w.length_max len then len else w.length_max;
}

unfoldable pub flush_word : Accum → Accum
unfolding count_word
flush_word a = record a {
  words = count_word a.word a.cur_word_len a.words;
  word = [];
  cur_word_len = 0;
  in_word = false;
}

unfoldable pub end_line : ℕ → Lines → Lines
end_line b l =
    if b == b'\n'
    then record {
      line_count = l.line_count + 1;
      blank_line_count = if l.line_has_content then l.blank_line_count else l.blank_line_count + 1;
      line_has_content = false;
    }
    else if is_whitespace b
    then l
    else record l { line_has_content = true }

unfoldable pub take_letter : ℕ → Accum → Accum
unfolding flush_word
take_letter b a =
    if is_alphabetic b
    then record a {
      word =
          if ltb (length a.word + 1) a.config.max_word_len
          then a.word ++ to_lowercase b ∷ []
          else a.word;
      cur_word_len = a.cur_word_len + 1;
      in_word = true;
    }
    else if a.in_word
    then flush_word a
    else a

-- The body of the loop of `feed`.
unfoldable pub take_byte : ℕ → Accum → Accum
unfolding end_line take_letter
take_byte b a = take_letter b (record a {
  char_counts = increment b a.char_counts;
  char_count = a.char_count + 1;
  lines = end_line b a.lines;
})

-- `feed`. `bytes` reads again after an interrupt; another error ends it, with what was read counted.
unfoldable pub feed : Input → Accum → Result IoError (Unit {0}) × Accum
unfolding take_byte
feed [] a = (ok tt, a)
feed (byte b ∷ input) a = feed input (take_byte b a)
feed (fault interrupted ∷ input) a = feed input a
feed (fault e ∷ input) a = (err e, a)
