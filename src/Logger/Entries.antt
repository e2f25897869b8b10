-- ===== src/Logger/Entries.antt =====
-- What `write_lines` logs, told by the lines of the text.
use scratchpad.Common.{
  ℕ, zero, suc, ◌+◌, ◌<◌, ◌≤◌, ◌≡◌, refl, sym, ap, ap₂, ◌∙◌, true, false, List, [], ◌∷◌, ◌++◌,
  append_assoc, append-nil, Bytes, ◌==◌, arith, if◌then◌else◌, if-cases, if_true, if_false,
  Bool-cases, inl, inr, length, strip_last,
}
use scratchpad.Common.Io.{Input, byte, fault, interrupted, IoError, payload, Result, ok, Write}
use scratchpad.Common.Io.Writes.{calm, Writes-write_all}
use scratchpad.Logger.{
  Format, LineError, format_entry, write_entry, read_until, stripped, then_lines, logged,
  after_read, write_lines_loop, write_lines,
}

-- No read fails, interrupts apart.
abbrev pub Readable : Input → Type 0
Readable [] = Unit {0}
Readable (byte b ∷ input) = Readable input
Readable (fault interrupted ∷ input) = Readable input
Readable (fault e ∷ input) = (true ≡ false)

abbrev onto_first : ℕ → List Bytes → List Bytes
onto_first b [] = (b ∷ []) ∷ []
onto_first b (p ∷ ps) = (b ∷ p) ∷ ps

-- The text cut at each new line.
abbrev pub line_pieces : Bytes → List Bytes
line_pieces [] = [] ∷ []
line_pieces (b ∷ bs) =
    let rest = line_pieces bs in if b == b'\n' then [] ∷ rest else onto_first b rest

abbrev last_open : Bytes → List Bytes
last_open [] = []
last_open (b ∷ p) = (b ∷ p) ∷ []

abbrev pub drop_open : List Bytes → List Bytes
drop_open [] = []
drop_open (p ∷ []) = last_open p
drop_open (p ∷ q ∷ ps) = p ∷ drop_open (q ∷ ps)

-- The lines of a text: what stands before each new line, and what follows the last one if it is not empty.
abbrev pub lines_of : Bytes → List Bytes
lines_of bs = drop_open (line_pieces bs)

abbrev first : Bytes → Bytes
first [] = []
first (b ∷ bs) = let rest = first bs in if b == b'\n' then b ∷ [] else b ∷ rest

abbrev after : Bytes → Bytes
after [] = []
after (b ∷ bs) = let rest = after bs in if b == b'\n' then bs else rest

-- `read_until` takes the first line of what the input delivers, and leaves the rest.
record Took (input : Input) (line : Bytes) (r : Result IoError Bytes × Input) : Type 0 where
  pub rest : Input
  pub result_is : r ≡ (ok (line ++ first (payload input)), rest)
  pub rest_is : payload rest ≡ after (payload input)
  pub readable : Readable rest
  pub shorter : length rest ≤ length input
  pub takes : (b : ℕ) (bs : Bytes) → payload input ≡ b ∷ bs → length rest < length input

read_until-Took :
    (input : Input) (line : Bytes) → Readable input → Took input line (read_until input line)
unfolding read_until
read_until-Took [] line h = record {
  rest = [];
  result_is = ap (λ l. (ok l, [])) (sym (append-nil line));
  rest_is = refl;
  readable = tt;
  shorter = omega arith;
  takes = λ b bs e. absurd (cc);
}
read_until-Took (fault interrupted ∷ input) line h =
    let t = read_until-Took input line h in
    record {
      rest = t.rest;
      result_is = t.result_is;
      rest_is = t.rest_is;
      readable = t.readable;
      shorter = omega (arith, t.shorter);
      takes = λ b bs e. omega (arith, t.shorter);
    }
read_until-Took (byte b ∷ input) line h = elim (Bool-cases (b == b'\n')) [
  | inl e ↦ record {
    rest = input;
    result_is =
        if_true _ _ _ e
        ∙ ap (λ l. (ok (line ++ l), input))
            (sym (if_true (b == b'\n') (b ∷ []) (b ∷ first (payload input)) e));
    rest_is = sym (if_true _ _ _ e);
    readable = h;
    shorter = omega arith;
    takes = λ b bs e. omega arith;
  }
  | inr e ↦
      let t = read_until-Took input (line ++ b ∷ []) h in
      record {
        rest = t.rest;
        result_is =
            if_false _ _ _ e
            ∙ t.result_is
            ∙ ap (λ l. (ok l, t.rest)) (append_assoc line (b ∷ []) (first (payload input)))
            ∙ ap (λ l. (ok (line ++ l), t.rest))
                (sym (if_false (b == b'\n') (b ∷ []) (b ∷ first (payload input)) e));
        rest_is = t.rest_is ∙ sym (if_false _ _ _ e);
        readable = t.readable;
        shorter = omega (arith, t.shorter);
        takes = λ b bs e. omega (arith, t.shorter);
      }
]
read_until-Took (fault e ∷ input) line h = absurd (cc)

drop_open-onto_first :
    (b : ℕ) (ps : List Bytes) (p : Bytes) (qs : List Bytes)
    → drop_open ps ≡ p ∷ qs
    → drop_open (onto_first b ps) ≡ (b ∷ p) ∷ qs
drop_open-onto_first b [] p qs h = absurd (cc)
drop_open-onto_first b ([] ∷ []) p qs h = absurd (cc)
drop_open-onto_first b ((c ∷ q) ∷ []) p qs h = cc
drop_open-onto_first b (q ∷ r ∷ ps) p qs h = cc

line_pieces-cons : (bs : Bytes) → (q : Bytes) × (qs : List Bytes) × (line_pieces bs ≡ q ∷ qs)
line_pieces-cons [] = ([], [], refl)
line_pieces-cons (b ∷ bs) =
    if-cases (λ (ps : List Bytes). (q : Bytes) × (qs : List Bytes) × (ps ≡ q ∷ qs)) (b == b'\n') _ _
      (λ _. ([], line_pieces bs, refl)) (λ _. onto (line_pieces bs))
  where
    onto : (ps : List Bytes) → (q : Bytes) × (qs : List Bytes) × (onto_first b ps ≡ q ∷ qs)
    onto [] = (b ∷ [], [], refl)
    onto (p ∷ ps) = (b ∷ p, ps, refl)

drop_open-line_pieces : (p bs : Bytes) → drop_open (p ∷ line_pieces bs) ≡ p ∷ lines_of bs
drop_open-line_pieces p bs =
    let (q, qs, e) = line_pieces-cons bs in
    ap (λ ps. drop_open (p ∷ ps)) e ∙ ap (λ ps. p ∷ drop_open ps) (sym e)

strip-cons : (b c : ℕ) (bs : Bytes) → strip_last b'\n' (b ∷ c ∷ bs) ≡ b ∷ strip_last b'\n' (c ∷ bs)
unfolding strip_last
strip-cons b c bs = refl

strip-first :
    (b c : ℕ) (bs : Bytes)
    → strip_last b'\n' (b ∷ first (c ∷ bs)) ≡ b ∷ strip_last b'\n' (first (c ∷ bs))
strip-first b c bs =
    if-cases (λ (l : Bytes). strip_last b'\n' (b ∷ l) ≡ b ∷ strip_last b'\n' l) (c == b'\n') _ _
      (λ _. strip-cons b c []) (λ _. strip-cons b c (first bs))

abbrev pair : Bytes → Bytes → List Bytes
pair line rest = line ∷ lines_of rest

only_newline : (b : ℕ) (bs : Bytes) → b == b'\n' ≡ true → [] ≡ strip_last b'\n' (first (b ∷ bs))
unfolding strip_last
only_newline b bs e =
    sym (if_true (b == b'\n') [] (b ∷ []) e)
    ∙ ap (strip_last b'\n') (sym (if_true (b == b'\n') (b ∷ []) (b ∷ first bs) e))

-- The lines of a text that is not empty are the first, without its new line, and those of the rest.
lines_of-cons :
    (b : ℕ) (bs : Bytes)
    → lines_of (b ∷ bs) ≡ strip_last b'\n' (first (b ∷ bs)) ∷ lines_of (after (b ∷ bs))
unfolding strip_last
lines_of-cons b [] = elim (Bool-cases (b == b'\n')) [
  | inl e ↦
      ap drop_open (if_true _ _ _ e)
      ∙ ap₂ pair (only_newline b [] e) (sym (if_true (b == b'\n') [] [] e))
  | inr e ↦
      ap drop_open (if_false _ _ _ e)
      ∙ ap₂ pair
          (sym (if_false (b == b'\n') [] (b ∷ []) e)
            ∙ ap (strip_last b'\n') (sym (if_false (b == b'\n') (b ∷ []) (b ∷ []) e)))
          (sym (if_false (b == b'\n') [] [] e))
]
lines_of-cons b (c ∷ bs) = elim (Bool-cases (b == b'\n')) [
  | inl e ↦
      ap drop_open (if_true _ _ _ e)
      ∙ drop_open-line_pieces [] (c ∷ bs)
      ∙ ap₂ pair (only_newline b (c ∷ bs) e)
          (sym (if_true (b == b'\n') (c ∷ bs) (after (c ∷ bs)) e))
  | inr e ↦
      ap drop_open (if_false _ _ _ e)
      ∙ drop_open-onto_first b (line_pieces (c ∷ bs)) _ _ (lines_of-cons c bs)
      ∙ ap₂ pair
          (sym (strip-first b c bs)
            ∙ ap (strip_last b'\n') (sym (if_false (b == b'\n') (b ∷ []) (b ∷ first (c ∷ bs)) e)))
          (sym (if_false (b == b'\n') (c ∷ bs) (after (c ∷ bs)) e))
]

module _ (fmt : Format) (timestamp : Bytes) where
  -- The entries of the lines, each with one carriage return at its end dropped
  abbrev pub entries : List Bytes → Bytes
  entries [] = []
  entries (l ∷ ls) = format_entry fmt timestamp (strip_last b'\r' l) ++ entries ls

  logged-cons :
      (b : ℕ) (line : Bytes) (rest : Write LineError) (old : Bytes)
      → logged fmt timestamp (b ∷ line) rest (calm old)
        ≡ rest (calm (old ++ format_entry fmt timestamp (stripped (b ∷ line))))
  unfolding write_entry
  logged-cons b line rest old =
      ap (λ r. then_lines r rest)
        ((Writes-write_all (format_entry fmt timestamp (stripped (b ∷ line)))).quiet old)

  -- A line that is not empty is logged, and then the rest.
  logged-first :
      (b : ℕ) (bs : Bytes) (rest : Write LineError) (old : Bytes)
      → logged fmt timestamp (first (b ∷ bs)) rest (calm old)
        ≡ rest (calm (old ++ format_entry fmt timestamp (stripped (first (b ∷ bs)))))
  logged-first b bs rest old =
      if-cases
        (λ (l : Bytes).
          logged fmt timestamp l rest (calm old)
          ≡ rest (calm (old ++ format_entry fmt timestamp (stripped l))))
        (b == b'\n') _ _ (λ _. logged-cons b [] rest old) (λ _. logged-cons b (first bs) rest old)

  -- One round, when the rounds after it log the rest.
  round-logs :
      (text : Bytes) (left : Bytes) (rest : Write LineError) (old : Bytes)
      → left ≡ after text
      → ((b : ℕ) (bs : Bytes)
          → text ≡ b ∷ bs
          → (old : Bytes) → rest (calm old) ≡ (ok tt, calm (old ++ entries (lines_of left))))
      → logged fmt timestamp (first text) rest (calm old)
        ≡ (ok tt, calm (old ++ entries (lines_of text)))
  round-logs [] left rest old e h = ap (λ o. (ok tt, calm o)) (sym (append-nil old))
  round-logs (b ∷ bs) left rest old e h =
      let entry = format_entry fmt timestamp (stripped (first (b ∷ bs))) in
      logged-first b bs rest old
      ∙ h b bs refl (old ++ entry)
      ∙ ap (λ o. (ok tt, calm o))
          (append_assoc old entry (entries (lines_of left))
            ∙ ap (λ l. old ++ (entry ++ entries (lines_of l))) e
            ∙ ap (λ ls. old ++ entries ls) (sym (lines_of-cons b bs)))

  loop-logs :
      (f : ℕ) (input : Input) (old : Bytes)
      → length input < f
      → Readable input
      → write_lines_loop fmt timestamp f input (calm old)
        ≡ (ok tt, calm (old ++ entries (lines_of (payload input))))
  unfolding write_lines_loop
  loop-logs zero input old h r = elim h [ ]
  loop-logs (suc f) input old h r =
      let t = read_until-Took input [] r in
      ap (λ q. after_read fmt timestamp (write_lines_loop fmt timestamp f) q (calm old)) t.result_is
      ∙ round-logs (payload input) (payload t.rest) (write_lines_loop fmt timestamp f t.rest) old
          t.rest_is
          (λ b bs e old'. loop-logs f t.rest old' (omega (arith, h, t.takes b bs e)) t.readable)

  -- When no read fails but for interrupts, and the output takes every write, `write_lines` returns, and it
  -- has written an entry for each line of the text, in order: the bytes before each new line, and those
  -- after the last one if there are any, each without one carriage return at its end.
  pub write_lines-logs :
      (input : Input) (old : Bytes)
      → Readable input
      → write_lines fmt timestamp input (calm old)
        ≡ (ok tt, calm (old ++ entries (lines_of (payload input))))
  unfolding write_lines
  write_lines-logs input old r = loop-logs (length input + 1) input old (omega arith) r
