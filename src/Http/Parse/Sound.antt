-- ===== src/Http/Parse/Sound.antt =====
-- What `parse_request` returns is said by the grammar.
use scratchpad.Common.{
  ℕ, ◌≡◌, ◌≢◌, refl, ap, sym, ◌∙◌, true, false, ◌&&◌, some, [], ◌∷◌, ◌++◌, ◌⊎◌, inl, inr, arith,
  Bytes, ◌==◌, Bool-cases, Option-cases, get_or, contains, contains-append, bytes_eq_iff,
  strip_prefix, strip_last, strip_last-cases, append_assoc, subst, contains-strip_last,
}
use scratchpad.Http.{Request}
use scratchpad.Http.Parse.{
  skip_one_blank_line, version_shape_ok, split_once, request_of, parse_fields, parse_line,
  parse_request,
}
use scratchpad.Http.Parse.Split.{split_once_sound}
use scratchpad.Http.Parse.Grammar.{
  Eol, IsWord, SaysLine, SaysRequest, method_of-MethodIs, path_of-PathIs, version_shape_ok_sound,
}

fields-inv :
    (line m t v : Bytes) {r : Request}
    → parse_fields line m t v ≡ some r
    → (contains b' ' v ≡ false)
      × (m ≢ [])
      × (t ≢ [])
      × (version_shape_ok v ≡ true)
      × (request_of line m t v ≡ r)
unfolding parse_fields
fields-inv line m t v h = ground (arith, bytes_eq_iff m [], bytes_eq_iff t [])

line-inv :
    (line : Bytes) {r : Request}
    → parse_line line ≡ some r
    → (contains 0 line ≡ false)
      × (m : Bytes) × (t : Bytes) × (v : Bytes) × (line ≡ m ++ b' ' ∷ (t ++ b' ' ∷ v))
      × (contains b' ' m ≡ false)
      × (contains b' ' t ≡ false)
      × (parse_fields line m t v ≡ some r)
unfolding parse_line
line-inv line h = elim (Bool-cases (contains 0 line)) [
  | inl e ↦ ground arith
  | inr e ↦ elim (Option-cases (split_once line b' ')) [
    | inl f ↦ ground arith
    | inr ((m, tail), f) ↦ elim (Option-cases (split_once tail b' ')) [
      | inl g ↦ ground arith
      | inr ((t, v), g) ↦
          let (p, q) = split_once_sound line b' ' f in
          let (p', q') = split_once_sound tail b' ' g in
          (e, m, t, v, p ∙ ap (λ z. m ++ b' ' ∷ z) p', q, q', ground arith)
    ]
  ]
]

IsWord-part :
    (line w a z : Bytes)
    → line ≡ a ++ (w ++ z)
    → w ≢ []
    → contains b' ' w ≡ false
    → contains b'\n' line ≡ false
    → contains 0 line ≡ false
    → IsWord w
IsWord-part line w a z e ne sp nl nul = record {
  ne_nil = ne;
  no_space = sp;
  no_newline = part b'\n' nl;
  no_nul = part 0 nul;
}
  where
    part : (b : ℕ) → contains b line ≡ false → contains b w ≡ false
    part b h =
        ground (arith, ap (contains b) e, contains-append b a (w ++ z), contains-append b w z)

parse_line_sound :
    (line : Bytes) {r : Request}
    → contains b'\n' line ≡ false
    → parse_line line ≡ some r
    → SaysLine line r
parse_line_sound line {r} nl h =
    let (nul, m, t, v, e, ms, ts, f) = line-inv line h in
    let (vs, mn, tn, shape, built) = fields-inv line m t v f in
    let (v_is, d₁, d₂) = version_shape_ok_sound v shape in
    let e' : line ≡ (m ++ b' ' ∷ []) ++ (t ++ b' ' ∷ v) = e ∙ sym (append_assoc m _ _) in
    subst (SaysLine line) built (record {
      word = m;
      digit₁ = get_or v 5 0;
      digit₂ = get_or v 7 0;
      line_is = e ∙ ap (λ z. m ++ b' ' ∷ (t ++ b' ' ∷ z)) v_is;
      word_ok = IsWord-part line m [] _ e mn ms nl nul;
      target_ok = IsWord-part line t (m ++ b' ' ∷ []) _ e' tn ts nl nul;
      method_is = method_of-MethodIs m;
      path_is = path_of-PathIs t;
      digit₁_ok = d₁;
      digit₂_ok = d₂;
      major_is = refl;
      minor_is = refl;
      kept = refl;
    })

skip_sound :
    (block : Bytes)
    → (blank : Bytes) × (block ≡ blank ++ skip_one_blank_line block) × ((blank ≡ []) ⊎ Eol blank)
unfolding skip_one_blank_line strip_prefix
skip_sound [] = ([], refl, inl refl)
skip_sound (x ∷ []) = elim (Bool-cases (x == b'\n')) [
  | inl e ↦ (x ∷ [], ground arith, ground arith)
  | inr e ↦ ([], ground arith, ground arith)
]
skip_sound (x ∷ y ∷ r) = elim (Bool-cases (x == b'\n')) [
  | inl e ↦ (x ∷ [], ground arith, ground arith)
  | inr e ↦ elim (Bool-cases (x == b'\r' && y == b'\n')) [
    | inl f ↦ (x ∷ y ∷ [], ground arith, ground arith)
    | inr f ↦ ([], ground arith, ground arith)
  ]
]

strip-Eol :
    (line rest : Bytes)
    → (eol : Bytes) × (line ++ b'\n' ∷ rest ≡ strip_last b'\r' line ++ (eol ++ rest)) × Eol eol
strip-Eol line rest = elim (strip_last-cases b'\r' line) [
  | inl e ↦ (b'\n' ∷ [], ap (λ l. l ++ b'\n' ∷ rest) e, inl refl)
  | inr e ↦ (
    b'\r' ∷ b'\n' ∷ [],
    ap (λ l. l ++ b'\n' ∷ rest) e ∙ append_assoc (strip_last b'\r' line) _ _,
    inr refl,
  )
]

request-inv :
    (block : Bytes) {r : Request}
    → parse_request block ≡ some r
    → (line : Bytes) × (rest : Bytes) × (skip_one_blank_line block ≡ line ++ b'\n' ∷ rest)
      × (contains b'\n' line ≡ false)
      × (parse_line (strip_last b'\r' line) ≡ some r)
unfolding parse_request
request-inv block h = elim (Option-cases (split_once (skip_one_blank_line block) b'\n')) [
  | inl e ↦ ground arith
  | inr ((line, rest), e) ↦
      let (p, q) = split_once_sound (skip_one_blank_line block) b'\n' e in
      (line, rest, p, q, ground arith)
]

-- Whatever `parse_request` returns is said by the block in the grammar: at most one empty line,
-- three words with a version that is two digits, no NUL, a terminator, and anything after it.
pub parse_request_sound :
    (block : Bytes) {r : Request} → parse_request block ≡ some r → SaysRequest block r
parse_request_sound block {r} h =
    let (line, rest, p, nl, f) = request-inv block h in
    let (blank, q, b) = skip_sound block in
    let (eol, s, e) = strip-Eol line rest in
    let says =
      parse_line_sound (strip_last b'\r' line) (contains-strip_last b'\n' b'\r' line nl) f in
    record {
      blank = blank;
      eol = eol;
      rest = rest;
      block_is = q ∙ ap (λ z. blank ++ z) (p ∙ s ∙ ap (λ l. l ++ (eol ++ rest)) (sym says.kept));
      blank_ok = b;
      eol_ok = e;
      says = subst (λ l. SaysLine l r) (sym says.kept) says;
    }
