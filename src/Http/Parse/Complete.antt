-- ===== src/Http/Parse/Complete.antt =====
-- What the grammar says is what `parse_request` returns.
use scratchpad.Common.{
  ℕ, ◌≡◌, ◌≢◌, refl, ap, sym, ◌∙◌, true, false, some, [], ◌∷◌, ◌++◌, ◌⊎◌, inl, inr, arith, Bytes,
  codes, ◌==◌, contains, contains-append, bytes_eq_iff, strip_prefix, strip_last, strip_last-concat,
  append_assoc, strip_last-other,
}
use scratchpad.Common.Decimal.{is_digit}
use scratchpad.Http.{Request}
use scratchpad.Http.Parse.{
  skip_one_blank_line, version_shape_ok, split_once, request_of, parse_fields, parse_line,
  parse_request,
}
use scratchpad.Http.Parse.Split.{split_once-append}
use scratchpad.Http.Parse.Grammar.{
  version, Eol, IsWord, SaysLine, SaysRequest, MethodIs-method_of, PathIs-path_of,
  version_shape_ok-version,
}

fields-some :
    (line m t v : Bytes)
    → contains b' ' v ≡ false
    → m ≢ []
    → t ≢ []
    → version_shape_ok v ≡ true
    → parse_fields line m t v ≡ some (request_of line m t v)
unfolding parse_fields
fields-some line m t v a b c d = ground (arith, bytes_eq_iff m [], bytes_eq_iff t [])

version-clean :
    (a b : ℕ)
    → is_digit a ≡ true
    → is_digit b ≡ true
    → (contains b' ' (version a b) ≡ false)
      × (contains b'\n' (version a b) ≡ false)
      × (contains 0 (version a b) ≡ false)
unfolding contains
version-clean a b h k = (ground arith, ground arith, ground arith)

contains-line :
    (b c : ℕ) (m t v : Bytes)
    → (c == b) ≡ false
    → contains b m ≡ false
    → contains b t ≡ false
    → contains b v ≡ false
    → contains b (m ++ c ∷ (t ++ c ∷ v)) ≡ false
contains-line b c m t v n x y z =
    unfold contains in
    ground (arith, contains-append b m (c ∷ (t ++ c ∷ v)), contains-append b t (c ∷ v))

SaysLine-contains :
    {line : Bytes} {r : Request} (s : SaysLine line r)
    → (contains 0 line ≡ false) × (contains b'\n' line ≡ false)
SaysLine-contains {line} {r} s =
    let (_, n, z) = version-clean s.digit₁ s.digit₂ s.digit₁_ok s.digit₂_ok in
    (
      ap (contains 0) s.line_is
          ∙ contains-line 0 b' ' s.word r.target _ refl s.word_ok.no_nul s.target_ok.no_nul z,
      ap (contains b'\n') s.line_is
          ∙ contains-line b'\n' b' ' s.word r.target _ refl s.word_ok.no_newline
              s.target_ok.no_newline n,
    )

SaysLine-request_of :
    {line : Bytes} {r : Request} (s : SaysLine line r)
    → request_of line s.word r.target (version s.digit₁ s.digit₂) ≡ r
SaysLine-request_of {line} {r} s = λ i. record {
  method = MethodIs-method_of s.word r.method s.method_is i;
  target = r.target;
  path = PathIs-path_of r.target r.path s.path_is i;
  major = sym s.major_is i;
  minor = sym s.minor_is i;
  line = sym s.kept i;
}

parse_line_complete : {line : Bytes} {r : Request} (s : SaysLine line r) → parse_line line ≡ some r
unfolding parse_line
parse_line_complete {line} {r} s =
    let v = version s.digit₁ s.digit₂ in
    let (sp, _, _) = version-clean s.digit₁ s.digit₂ s.digit₁_ok s.digit₂_ok in
    rw ((SaysLine-contains s).0) (
      rw
        (
          s.line_is,
          split_once-append s.word (r.target ++ b' ' ∷ v) b' ' s.word_ok.no_space,
          split_once-append r.target v b' ' s.target_ok.no_space,
        )
        (ap (λ l. parse_fields l s.word r.target v) (sym s.line_is)
          ∙ fields-some line s.word r.target v sp s.word_ok.ne_nil s.target_ok.ne_nil
              (version_shape_ok-version s.digit₁ s.digit₂ s.digit₁_ok s.digit₂_ok)
          ∙ ap some (SaysLine-request_of s)))

skip-starts :
    (blank : Bytes) (c d : ℕ) (z : Bytes)
    → (blank ≡ []) ⊎ Eol blank
    → (c == b'\n') ≡ false
    → (d == b'\n') ≡ false
    → skip_one_blank_line (blank ++ c ∷ d ∷ z) ≡ c ∷ d ∷ z
unfolding skip_one_blank_line strip_prefix
skip-starts blank c d z (inl e) h k = rw e (ground arith)
skip-starts blank c d z (inr (inl e)) h k = rw e (ground arith)
skip-starts blank c d z (inr (inr e)) h k = rw e (ground arith)

skip-word :
    (blank w z : Bytes)
    → (blank ≡ []) ⊎ Eol blank
    → IsWord w
    → skip_one_blank_line (blank ++ (w ++ b' ' ∷ z)) ≡ w ++ b' ' ∷ z
unfolding contains
skip-word blank [] z b k = absurd (k.ne_nil refl)
skip-word blank (c ∷ []) z b k = skip-starts blank c b' ' z b (ground (arith, k.no_newline)) refl
skip-word blank (c ∷ d ∷ w) z b k =
    skip-starts blank c d (w ++ b' ' ∷ z) b (ground (arith, k.no_newline))
      (ground (arith, k.no_newline))

line-ends :
    (m t : Bytes) (a b : ℕ)
    → m ++ b' ' ∷ (t ++ b' ' ∷ version a b)
      ≡ (m ++ b' ' ∷ (t ++ b' ' ∷ (codes "HTTP/" ++ a ∷ b'.' ∷ []))) ++ b ∷ []
line-ends m t a b = simp append_assoc

-- The terminator is found and taken off, whichever it is.
terminator_off :
    {line : Bytes} {r : Request} (eol rest : Bytes)
    → SaysLine line r
    → Eol eol
    → (l : Bytes) × (split_once (line ++ (eol ++ rest)) b'\n' ≡ some (l, rest))
      × (strip_last b'\r' l ≡ line)
terminator_off {line} eol rest s (inl e) = (
  line,
  rw e (split_once-append line rest b'\n' (SaysLine-contains s).1),
  let p = s.line_is ∙ line-ends s.word _ s.digit₁ s.digit₂ in
      let d₂ = s.digit₂_ok in
      ap (strip_last b'\r') p ∙ strip_last-other b'\r' s.digit₂ _ (ground arith) ∙ sym p,
)
terminator_off {line} eol rest s (inr e) = (
  line ++ b'\r' ∷ [],
  rw (e, ← append_assoc line (b'\r' ∷ []) (b'\n' ∷ rest))
      (split_once-append (line ++ b'\r' ∷ []) rest b'\n' (
        unfold contains in
        ground (arith, SaysLine-contains s, contains-append b'\n' line (b'\r' ∷ [])))),
  strip_last-concat b'\r' line,
)

-- Whatever the grammar says, `parse_request` returns: with an optional empty line before it, either
-- terminator, and any bytes after it.
pub parse_request_complete :
    (block : Bytes) {r : Request} → SaysRequest block r → parse_request block ≡ some r
unfolding parse_request
parse_request_complete block {r} g =
    let s = g.says in
    let tail = b' ' ∷ (r.target ++ b' ' ∷ version s.digit₁ s.digit₂) in
    let (l, cut, off) = terminator_off g.eol g.rest s g.eol_ok in
    let whole : r.line ++ (g.eol ++ g.rest)
        ≡ s.word ++ b' ' ∷ ((r.target ++ b' ' ∷ version s.digit₁ s.digit₂) ++ (g.eol ++ g.rest)) =
      ap (λ z. z ++ (g.eol ++ g.rest)) s.line_is ∙ append_assoc s.word tail _ in
    let skipped : skip_one_blank_line block ≡ r.line ++ (g.eol ++ g.rest) =
      ap skip_one_blank_line (g.block_is ∙ ap (λ z. g.blank ++ z) whole)
      ∙ skip-word g.blank s.word _ g.blank_ok s.word_ok
      ∙ sym whole in
    rw (skipped, cut, off) (parse_line_complete s)
