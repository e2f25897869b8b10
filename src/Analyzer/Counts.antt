-- ===== src/Analyzer/Counts.antt =====
-- The loop of `feed` over the bytes of a text: the words it counts and what it leaves of the rest.
use scratchpad.Common.{
  if_true, if_false, ℕ, ◌+◌, ◌-◌, take-nil, ◌≡◌, refl, sym, ap, ap₂, ◌∙◌, subst, Bool, true, false,
  not, List, [], ◌∷◌, ◌++◌, append-nil, Bytes, ltb, arith, if◌then◌else◌, if-cases, Bool-cases, inl,
  inr, length, length-append, map,
}
use scratchpad.Common.Io.{ok, bytes_input}
use scratchpad.Analyzer.{
  Config, Lines, Accum, new_accum, is_alphabetic, to_lowercase, increment, count_word, flush_word,
  end_line, take_letter, take_byte, feed,
}
use scratchpad.Analyzer.Pieces.{
  pieces, nonempty, words_of, spelled, tally, prepend, spelled-snoc, prepend-onto_first,
  nonempty-prepend, append-prepend, tally-append,
}

-- The bytes that pass a test
abbrev pub count_where : (ℕ → Bool) → Bytes → ℕ
count_where test [] = 0
count_where test (b ∷ bs) = (if test b then 1 else 0) + count_where test bs

abbrev pub taken : Bytes → Accum → Accum
taken [] a = a
taken (b ∷ bs) a = taken bs (take_byte b a)

pub feed-taken : (bs : Bytes) (a : Accum) → feed (bytes_input bs) a ≡ (ok tt, taken bs a)
unfolding feed
feed-taken [] a = refl
feed-taken (b ∷ bs) a = feed-taken bs (take_byte b a)

-- The word at the end of the text is counted by `finish`.
abbrev pub ended : Accum → Accum
ended a = if a.in_word then flush_word a else a

abbrev is_nil : Bytes → Bool
is_nil [] = true
is_nil (b ∷ p) = false

-- The letters `p` are those of the word in progress.
record Pending (p : Bytes) (a : Accum) : Type 0 where
  pub word_is : a.word ≡ spelled a.config.max_word_len p
  pub len_is : a.cur_word_len ≡ length p
  pub in_is : a.in_word ≡ not (is_nil p)

-- What a byte does to the word in progress: `p` before it, `q` after it, and the words `ps` counted.
record Stepped (p q : Bytes) (ps : List Bytes) (a a' : Accum) : Type 0 where
  pub pending : Pending q a'
  pub words_are : a'.words ≡ tally a.config.max_word_len ps a.words
  pub config_is : a'.config ≡ a.config

take_letter-joins :
    (b : ℕ) (p : Bytes) (a : Accum)
    → Pending p a
    → is_alphabetic b ≡ true
    → Stepped p (p ++ b ∷ []) [] a (take_letter b a)
unfolding take_letter
take_letter-joins b p a h e = rw e (record {
  pending = record {
    word_is =
        ap
          (λ (t : Bytes).
            if ltb (length t + 1) a.config.max_word_len then t ++ to_lowercase b ∷ [] else t)
          h.word_is
        ∙ spelled-snoc a.config.max_word_len p b;
    len_is = omega (arith, h.len_is, length-append p (b ∷ []));
    in_is = sym (not-is_nil-snoc p b);
  };
  words_are = refl;
  config_is = refl;
})
  where
    not-is_nil-snoc : (p : Bytes) (b : ℕ) → not (is_nil (p ++ b ∷ [])) ≡ true
    not-is_nil-snoc [] b = refl
    not-is_nil-snoc (x ∷ p) b = refl

-- A byte that is no letter ends the word in progress, when there is one.
take_letter-ends :
    (b : ℕ) (p : Bytes) (a : Accum)
    → Pending p a
    → is_alphabetic b ≡ false
    → Stepped p [] (nonempty (p ∷ [])) a (take_letter b a)
unfolding take_letter
take_letter-ends b [] a h e =
    subst (Stepped [] [] [] a)
      (sym (if_false _ _ _ e ∙ if_false a.in_word (flush_word a) a h.in_is))
      (record { pending = h; words_are = refl; config_is = refl })
take_letter-ends b (x ∷ p) a h e =
    subst (Stepped (x ∷ p) [] ((x ∷ p) ∷ []) a)
      (sym (if_false _ _ _ e ∙ if_true a.in_word (flush_word a) a h.in_is))
      (unfold flush_word in
        record {
          pending = record {
            word_is = sym (ap (map to_lowercase) (take-nil (a.config.max_word_len - 1)));
            len_is = refl;
            in_is = refl;
          };
          words_are = ap₂ (λ word len. count_word word len a.words) h.word_is h.len_is;
          config_is = refl;
        })

module _ (b : ℕ) (a : Accum) where
  -- What `take_byte` leaves for `take_letter`.
  abbrev counted_byte : Accum
  counted_byte = record a {
    char_counts = increment b a.char_counts;
    char_count = a.char_count + 1;
    lines = end_line b a.lines;
  }

  Pending-counted : (p : Bytes) → Pending p a → Pending p counted_byte
  Pending-counted p h = record { word_is = h.word_is; len_is = h.len_is; in_is = h.in_is }

-- The words that the loop counts, from a state with the letters `p` in progress.
taken-tally :
    (bs p : Bytes) (a : Accum)
    → Pending p a
    → (ended (taken bs a)).words
      ≡ tally a.config.max_word_len (nonempty (prepend p (pieces bs))) a.words
unfolding take_byte
taken-tally [] [] a h = ap (λ (x : Accum). x.words) (if_false a.in_word (flush_word a) a h.in_is)
taken-tally [] (x ∷ p) a h =
    ap (λ (x : Accum). x.words) (if_true a.in_word (flush_word a) a h.in_is)
    ∙ (unfold flush_word in ap₂ (λ word len. count_word word len a.words) h.word_is h.len_is)
    ∙ ap (λ q. tally a.config.max_word_len ((x ∷ q) ∷ []) a.words) (sym (append-nil p))
taken-tally (b ∷ bs) p a h = elim (Bool-cases (is_alphabetic b)) [
  | inl e ↦
      let st = take_letter-joins b p (counted_byte b a) (Pending-counted b a p h) e in
      taken-tally bs (p ++ b ∷ []) (take_letter b (counted_byte b a)) st.pending
      ∙ ap₂
          (λ (c : Config) w. tally c.max_word_len (nonempty (prepend (p ++ b ∷ []) (pieces bs))) w)
          st.config_is st.words_are
      ∙ ap (λ ps. tally a.config.max_word_len (nonempty ps) a.words)
          (sym (prepend-onto_first p b (pieces bs)) ∙ ap (prepend p) (sym (if_true _ _ _ e)))
  | inr e ↦
      let st = take_letter-ends b p (counted_byte b a) (Pending-counted b a p h) e in
      let limit = a.config.max_word_len in
      taken-tally bs [] (take_letter b (counted_byte b a)) st.pending
      ∙ ap₂ (λ (c : Config) w. tally c.max_word_len (nonempty (prepend [] (pieces bs))) w)
          st.config_is st.words_are
      ∙ ap (λ ps. tally limit ps (tally limit (nonempty (p ∷ [])) a.words))
          (nonempty-prepend (pieces bs))
      ∙ sym (tally-append limit p (pieces bs) a.words)
      ∙ ap (λ ps. tally limit ps a.words)
          (sym (append-prepend p (pieces bs))
            ∙ ap (λ ps. nonempty (prepend p ps)) (sym (if_false _ _ _ e)))
]

-- The words that `finish` has are those of the text.
pub taken-words :
    (config : Config) (bs : Bytes)
    → (ended (taken bs (new_accum config))).words
      ≡ tally config.max_word_len (words_of bs) (new_accum config).words
unfolding new_accum
taken-words config bs =
    let start : Pending [] (new_accum config) = record {
      word_is = sym (ap (map to_lowercase) (take-nil (config.max_word_len - 1)));
      len_is = refl;
      in_is = refl;
    } in
    taken-tally bs [] (new_accum config) start
    ∙ ap (λ ps. tally config.max_word_len ps (new_accum config).words)
        (nonempty-prepend (pieces bs))

-- What a letter does not change.
abbrev pub base : Accum → ℕ × List ℕ × Lines
base a = (a.char_count, a.char_counts, a.lines)

pub base-ended : (a : Accum) → base (ended a) ≡ base a
unfolding flush_word
base-ended a =
    if-cases (λ (x : Accum). base x ≡ base a) a.in_word (flush_word a) a (λ _. refl) (λ _. refl)

pub base-take_byte :
    (b : ℕ) (a : Accum)
    → base (take_byte b a) ≡ (a.char_count + 1, increment b a.char_counts, end_line b a.lines)
unfolding take_byte take_letter flush_word
base-take_byte b a =
    let a' = counted_byte b a in
    if-cases (λ (x : Accum). base x ≡ base a') (is_alphabetic b) _ _ (λ _. refl)
      (λ _.
        if-cases (λ (x : Accum). base x ≡ base a') a.in_word (flush_word a') a' (λ _. refl)
          (λ _. refl))

config-take_byte : (b : ℕ) (a : Accum) → (take_byte b a).config ≡ a.config
unfolding take_byte take_letter flush_word
config-take_byte b a =
    let a' = counted_byte b a in
    if-cases (λ (x : Accum). x.config ≡ a.config) (is_alphabetic b) _ _ (λ _. refl)
      (λ _.
        if-cases (λ (x : Accum). x.config ≡ a.config) a.in_word (flush_word a') a' (λ _. refl)
          (λ _. refl))

config-taken : (bs : Bytes) (a : Accum) → (taken bs a).config ≡ a.config
config-taken [] a = refl
config-taken (b ∷ bs) a = config-taken bs (take_byte b a) ∙ config-take_byte b a

pub config-ended : (bs : Bytes) (a : Accum) → (ended (taken bs a)).config ≡ a.config
unfolding flush_word
config-ended bs a =
    let a' = taken bs a in
    if-cases (λ (x : Accum). x.config ≡ a'.config) a'.in_word (flush_word a') a' (λ _. refl)
      (λ _. refl)
    ∙ config-taken bs a
