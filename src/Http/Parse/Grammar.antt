-- ===== src/Http/Parse/Grammar.antt =====
-- A grammar of request lines, independent of the parser, and the parser's tests on its pieces.
use scratchpad.Common.{
  ℕ, ◌-◌, ◌≡◌, ◌≢◌, refl, sym, true, false, [], ◌∷◌, ◌++◌, ◌⊎◌, inl, inr, arith, Bytes, codes,
  Bool-cases, Option-cases, get_or, contains, bytes_eq, bytes_eq_iff, starts_with,
}
use scratchpad.Common.Decimal.{is_digit}
use scratchpad.Http.{Method, get, head, other, Request}
use scratchpad.Http.Parse.{version_shape_ok, split_once, method_of, path_of}
use scratchpad.Http.Parse.Split.{
  split_once-append, split_once-none, split_once_sound, split_once-missing,
}

-- `HTTP/a.b`
abbrev pub version : ℕ → ℕ → Bytes
version a b = codes "HTTP/" ++ a ∷ b'.' ∷ b ∷ []

abbrev pub MethodIs : Bytes → Method → Type 0
MethodIs word get = word ≡ codes "GET"
MethodIs word head = word ≡ codes "HEAD"
MethodIs word other = (word ≢ codes "GET") × (word ≢ codes "HEAD")

abbrev pub PathIs : Bytes → Bytes → Type 0
PathIs target path =
    ((contains b'?' target ≡ false) × (path ≡ target))
    ⊎ ((query : Bytes) × (target ≡ path ++ b'?' ∷ query) × (contains b'?' path ≡ false))

abbrev pub Eol : Bytes → Type 0
Eol e = (e ≡ b'\n' ∷ []) ⊎ (e ≡ b'\r' ∷ b'\n' ∷ [])

-- A word of the request line: not empty, and with no space, newline or NUL.
pub record IsWord (w : Bytes) : Type 0 where
  pub ne_nil : w ≢ []
  pub no_space : contains b' ' w ≡ false
  pub no_newline : contains b'\n' w ≡ false
  pub no_nul : contains 0 w ≡ false

-- `line` is a request line that says `r`.
pub record SaysLine (line : Bytes) (r : Request) : Type 0 where
  pub word : Bytes
  pub digit₁ : ℕ
  pub digit₂ : ℕ
  pub line_is : line ≡ word ++ b' ' ∷ (r.target ++ b' ' ∷ version digit₁ digit₂)
  pub word_ok : IsWord word
  pub target_ok : IsWord r.target
  pub method_is : MethodIs word r.method
  pub path_is : PathIs r.target r.path
  pub digit₁_ok : is_digit digit₁ ≡ true
  pub digit₂_ok : is_digit digit₂ ≡ true
  pub major_is : r.major ≡ digit₁ - b'0'
  pub minor_is : r.minor ≡ digit₂ - b'0'
  pub kept : r.line ≡ line

-- The block is at most one empty line, a request line, its terminator, and anything.
pub record SaysRequest (block : Bytes) (r : Request) : Type 0 where
  pub blank : Bytes
  pub eol : Bytes
  pub rest : Bytes
  pub block_is : block ≡ blank ++ (r.line ++ (eol ++ rest))
  pub blank_ok : (blank ≡ []) ⊎ Eol blank
  pub eol_ok : Eol eol
  pub says : SaysLine r.line r

pub method_of-MethodIs : (w : Bytes) → MethodIs w (method_of w)
unfolding method_of
method_of-MethodIs w = elim (Bool-cases (bytes_eq w (codes "GET"))) [
  | inl e ↦ rw e ((bytes_eq_iff w _).0 e)
  | inr n ↦ elim (Bool-cases (bytes_eq w (codes "HEAD"))) [
    | inl e ↦ rw (n, e) ((bytes_eq_iff w _).0 e)
    | inr m ↦ rw (n, m) (λ p. cc ((bytes_eq_iff w _).1 p), λ p. cc ((bytes_eq_iff w _).1 p))
  ]
]

pub MethodIs-method_of : (w : Bytes) (m : Method) → MethodIs w m → method_of w ≡ m
unfolding method_of
MethodIs-method_of w get h = rw h (unfold bytes_eq in refl)
MethodIs-method_of w head h = rw h (unfold bytes_eq in refl)
MethodIs-method_of w other h =
    ground (arith, bytes_eq_iff w (codes "GET"), bytes_eq_iff w (codes "HEAD"))

pub path_of-PathIs : (t : Bytes) → PathIs t (path_of t)
unfolding path_of
path_of-PathIs t = elim (Option-cases (split_once t b'?')) [
  | inl e ↦ rw (e, path_of) (inl (split_once-missing t b'?' e, refl))
  | inr ((a, q), e) ↦ rw (e, path_of) (let (p, k) = split_once_sound t b'?' e in inr (q, p, k))
]

pub PathIs-path_of : (t p : Bytes) → PathIs t p → path_of t ≡ p
unfolding path_of
PathIs-path_of t p (inl (h, e)) = rw (path_of, split_once-none t b'?' h) (sym e)
PathIs-path_of t p (inr (q, e, h)) = rw (e, path_of, split_once-append p q b'?' h) refl

pub version_shape_ok-version :
    (a b : ℕ) → is_digit a ≡ true → is_digit b ≡ true → version_shape_ok (version a b) ≡ true
unfolding version_shape_ok starts_with
version_shape_ok-version a b h k = ground arith

pub version_shape_ok_sound :
    (v : Bytes)
    → version_shape_ok v ≡ true
    → (v ≡ version (get_or v 5 0) (get_or v 7 0))
      × (is_digit (get_or v 5 0) ≡ true)
      × (is_digit (get_or v 7 0) ≡ true)
unfolding version_shape_ok starts_with
version_shape_ok_sound (a ∷ b ∷ c ∷ d ∷ e ∷ f ∷ g ∷ h ∷ []) s = ground arith
version_shape_ok_sound _ s = ground arith
