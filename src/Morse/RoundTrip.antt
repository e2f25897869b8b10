-- ===== src/Morse/RoundTrip.antt =====
-- The lookups of the Morse table are inverse to each other.
use scratchpad.Common.{
  ◌≡◌, refl, ap, ap₂, subst, Bool, true, false, Option, none, some, [], ◌∷◌, arith, Bool-cases, inl,
  inr, ==_iff, all,
}
use scratchpad.Morse.{
  InputEvent, dot, dash, invalid, Symbol, char, backspace, Sequence, Table, table, event_eq, seq_eq,
  symbol_eq, find_sequence, find_symbol, truncated, look_up, decode, encode_symbol,
}

event_eq-path : (a b : InputEvent) → event_eq a b ≡ true → a ≡ b
event_eq-path dot dot h = refl
event_eq-path dash dash h = refl
event_eq-path invalid invalid h = refl
event_eq-path dot dash h = cc
event_eq-path dot invalid h = cc
event_eq-path dash dot h = cc
event_eq-path dash invalid h = cc
event_eq-path invalid dot h = cc
event_eq-path invalid dash h = cc

seq_eq-path : (s t : Sequence) → seq_eq s t ≡ true → s ≡ t
unfolding seq_eq
seq_eq-path [] [] h = refl
seq_eq-path [] (b ∷ t) h = cc
seq_eq-path (a ∷ s) [] h = cc
seq_eq-path (a ∷ s) (b ∷ t) h =
    let x : event_eq a b ≡ true = ground arith in
    let y : seq_eq s t ≡ true = ground arith in
    ap₂ (λ (e : InputEvent) (q : Sequence). e ∷ q) (event_eq-path a b x) (seq_eq-path s t y)

symbol_eq-path : (a b : Symbol) → symbol_eq a b ≡ true → a ≡ b
symbol_eq-path (char a) (char b) h = ap char ((==_iff a b).0 h)
symbol_eq-path (char a) backspace h = cc
symbol_eq-path backspace (char b) h = cc
symbol_eq-path backspace backspace h = refl

abbrev decodes_to : Option Symbol → Symbol → Bool
decodes_to none s = false
decodes_to (some a) s = symbol_eq a s

abbrev encodes_to : Option Sequence → Sequence → Bool
encodes_to none q = false
encodes_to (some a) q = seq_eq a q

-- Every entry of the table is found by its sequence and by its symbol.
table-decodes : all (λ (e : Symbol × Sequence). decodes_to (decode e.1) e.0) table ≡ true
unfolding decode seq_eq
table-decodes = refl

table-encodes : all (λ (e : Symbol × Sequence). encodes_to (encode_symbol e.0) e.1) table ≡ true
unfolding encode_symbol seq_eq
table-encodes = refl

decodes_to-path : (o : Option Symbol) (s : Symbol) → decodes_to o s ≡ true → o ≡ some s
decodes_to-path none s h = cc
decodes_to-path (some a) s h = ap some (symbol_eq-path a s h)

encodes_to-path : (o : Option Sequence) (q : Sequence) → encodes_to o q ≡ true → o ≡ some q
encodes_to-path none q h = cc
encodes_to-path (some a) q h = ap some (seq_eq-path a q h)

module _ (t : Symbol × Sequence → Bool) where
  find_symbol-all :
      (rows : Table) (s : Symbol) (q : Sequence)
      → all t rows ≡ true
      → find_symbol rows s ≡ some q
      → t (s, q) ≡ true
  unfolding find_symbol
  find_symbol-all [] s q h e = cc
  find_symbol-all ((s', q') ∷ rows) s q h e = elim (Bool-cases (symbol_eq s' s)) [
    | inl a ↦
        let same = symbol_eq-path s' s a in
        let found : some q' ≡ some q = rw a at e in
        let here : t (s', q') ≡ true = ground arith in
        let row : q' ≡ q = cc in
        subst (λ x. t (x, q) ≡ true) same (subst (λ y. t (s', y) ≡ true) row here)
    | inr a ↦ find_symbol-all rows s q (ground arith) (rw a at e)
  ]

  find_sequence-all :
      (rows : Table) (q : Sequence) (s : Symbol)
      → all t rows ≡ true
      → find_sequence rows q ≡ some s
      → t (s, q) ≡ true
  unfolding find_sequence
  find_sequence-all [] q s h e = cc
  find_sequence-all ((s', q') ∷ rows) q s h e = elim (Bool-cases (seq_eq q' q)) [
    | inl a ↦
        let same = seq_eq-path q' q a in
        let found : some s' ≡ some s = rw a at e in
        let here : t (s', q') ≡ true = ground arith in
        let row : s' ≡ s = cc in
        subst (λ x. t (x, q) ≡ true) row (subst (λ y. t (s', y) ≡ true) same here)
    | inr a ↦ find_sequence-all rows q s (ground arith) (rw a at e)
  ]

-- The sequence that `encode_symbol` gives for a symbol decodes to that symbol.
pub decode-encode_symbol :
    (s : Symbol) (q : Sequence) → encode_symbol s ≡ some q → decode q ≡ some s
unfolding encode_symbol
decode-encode_symbol s q h = decodes_to-path (decode q) s (
    find_symbol-all (λ (e : Symbol × Sequence). decodes_to (decode e.1) e.0) table s q table-decodes
      h)

-- Of what decodes to a symbol, the first five inputs are the sequence of that symbol.
pub encode_symbol-decode :
    (q : Sequence) (s : Symbol) → decode q ≡ some s → encode_symbol s ≡ some (truncated q)
unfolding decode
encode_symbol-decode q s h = go (truncated q) h
  where
    go : (q' : Sequence) → look_up q' ≡ some s → encode_symbol s ≡ some q'
    go [] e = cc
    go (x ∷ q') e = encodes_to-path (encode_symbol s) (x ∷ q') (
        find_sequence-all (λ (e : Symbol × Sequence). encodes_to (encode_symbol e.0) e.1) table
          (x ∷ q') s table-encodes e)
