-- ===== src/Shell/Words/Laws.antt =====
-- What `split` and `trim` make of a line.
use scratchpad.Common.{
  ℕ, ◌-◌, ◌≡◌, refl, ap, ◌∙◌, true, false, not, ◌⊎◌, inl, inr, none, List, [], ◌∷◌, ◌++◌, arith,
  Bytes, Bool-cases, ◌==◌, if◌then◌else◌, if-cases, length, all, contains, position,
}
use scratchpad.Shell.Words.{
  is_space, rposition, trim, segments, drop_empty, push_byte, split, is_blank, is_nil,
}

-- A word has a byte, and no space among its bytes.
abbrev pub IsWord : Bytes → Type 0
IsWord w = (is_nil w ≡ false) × (all (λ b. not (is_space b)) w ≡ true)

abbrev pub AllWords : List Bytes → Type 0
AllWords [] = Unit {0}
AllWords (w ∷ ws) = IsWord w × AllWords ws

abbrev pub joined : List Bytes → Bytes
joined [] = []
joined (w ∷ ws) = w ++ joined ws

abbrev pub without_spaces : Bytes → Bytes
without_spaces [] = []
without_spaces (b ∷ line) = if is_space b then without_spaces line else b ∷ without_spaces line

abbrev SpaceFree : List Bytes → Type 0
SpaceFree [] = Unit {0}
SpaceFree (w ∷ ws) = (all (λ b. not (is_space b)) w ≡ true) × SpaceFree ws

push-SpaceFree :
    (b : ℕ) (ws : List Bytes) → is_space b ≡ false → SpaceFree ws → SpaceFree (push_byte b ws)
push-SpaceFree b [] h k = (rw h refl, tt)
push-SpaceFree b (w ∷ ws) h k = (rw (h, k.0) refl, k.1)

segments-SpaceFree : (line : Bytes) → SpaceFree (segments line)
unfolding segments
segments-SpaceFree [] = (refl, tt)
segments-SpaceFree (b ∷ line) =
    if-cases SpaceFree (is_space b) ([] ∷ segments line) (push_byte b (segments line))
      (λ _. (refl, segments-SpaceFree line))
      (λ h. push-SpaceFree b (segments line) h (segments-SpaceFree line))

drop_empty-AllWords : (ws : List Bytes) → SpaceFree ws → AllWords (drop_empty ws)
drop_empty-AllWords [] h = tt
drop_empty-AllWords ([] ∷ ws) h = drop_empty-AllWords ws h.1
drop_empty-AllWords ((b ∷ w) ∷ ws) h = ((refl, h.0), drop_empty-AllWords ws h.1)

joined-drop_empty : (ws : List Bytes) → joined (drop_empty ws) ≡ joined ws
joined-drop_empty [] = refl
joined-drop_empty ([] ∷ ws) = joined-drop_empty ws
joined-drop_empty ((b ∷ w) ∷ ws) = ap (λ x. b ∷ w ++ x) (joined-drop_empty ws)

joined-push : (b : ℕ) (ws : List Bytes) → joined (push_byte b ws) ≡ b ∷ joined ws
joined-push b [] = refl
joined-push b (w ∷ ws) = refl

joined-segments : (line : Bytes) → joined (segments line) ≡ without_spaces line
unfolding segments
joined-segments [] = refl
joined-segments (b ∷ line) = elim (Bool-cases (is_space b)) [
  | inl h ↦ rw h (joined-segments line)
  | inr h ↦ rw h (joined-push b (segments line) ∙ ap (◌∷◌ b) (joined-segments line))
]

-- The words of a line are words, and together they are its bytes other than the spaces, in order.
pub split_sound :
    (line : Bytes) → AllWords (split line) × (joined (split line) ≡ without_spaces line)
unfolding split
split_sound line = (
  drop_empty-AllWords (segments line) (segments-SpaceFree line),
  joined-drop_empty (segments line) ∙ joined-segments line,
)

-- The first word ends at the first space behind it.
segments-word :
    (w rest : Bytes) (s : ℕ)
    → all (λ b. not (is_space b)) w ≡ true
    → is_space s ≡ true
    → segments (w ++ s ∷ rest) ≡ w ∷ segments rest
unfolding segments
segments-word [] rest s h k = rw k refl
segments-word (b ∷ w) rest s h k =
    let free : is_space b ≡ false = ground arith in
    let tail : all (λ b. not (is_space b)) w ≡ true = ground arith in
    rw (free, segments-word w rest s tail k) refl

-- A space at the start of a line is dropped, and a word with a space behind it is the first of
-- the words, followed by those of the rest.
pub split_separated :
    (w rest : Bytes) (s : ℕ)
    → IsWord w
    → is_space s ≡ true
    → (split (s ∷ rest) ≡ split rest) × (split (w ++ s ∷ rest) ≡ w ∷ split rest)
unfolding split segments
split_separated [] rest s h k = cc
split_separated (b ∷ w) rest s h k = (rw k refl, rw (segments-word (b ∷ w) rest s h.1 k) refl)

word_or_spaces :
    (line : Bytes)
    → (all is_space line ≡ true) ⊎ ((w : Bytes) × (ws : List Bytes) × (split line ≡ w ∷ ws))
unfolding split segments
word_or_spaces [] = inl refl
word_or_spaces (b ∷ line) = elim (Bool-cases (is_space b)) [
  | inl h ↦ rw h (word_or_spaces line)
  | inr h ↦ rw h (inr (pushed (segments line)))
]
  where
    pushed :
        (rest : List Bytes)
        → (w : Bytes) × (ws : List Bytes) × (drop_empty (push_byte b rest) ≡ w ∷ ws)
    pushed [] = (b ∷ [], [], refl)
    pushed (w ∷ ws) = (b ∷ w, drop_empty ws, refl)

position-spaces :
    (line : Bytes) → all is_space line ≡ true → position (λ b. not (is_space b)) line ≡ none
position-spaces [] h = refl
position-spaces (b ∷ line) h =
    let s : is_space b ≡ true = ground arith in
    let t : all is_space line ≡ true = ground arith in rw (s, position-spaces line t) refl

rposition-spaces :
    (line : Bytes) → all is_space line ≡ true → rposition (λ b. not (is_space b)) line ≡ none
rposition-spaces [] h = refl
rposition-spaces (b ∷ line) h =
    let s : is_space b ≡ true = ground arith in
    let t : all is_space line ≡ true = ground arith in rw (rposition-spaces line t, s) refl

spaces-blank : (line : Bytes) → all is_space line ≡ true → is_blank line ≡ true
unfolding is_blank trim
spaces-blank line h =
    let z : length line - length line ≡ 0 = omega arith in
    rw (position-spaces line h, rposition-spaces line h, z) refl

-- A line that is not blank has a word.
pub split-present :
    (line : Bytes) → is_blank line ≡ false → (w : Bytes) × (ws : List Bytes) × (split line ≡ w ∷ ws)
split-present line h = elim (word_or_spaces line) [
  | inl spaces ↦ let b = spaces-blank line spaces in absurd (cc)
  | inr word ↦ word
]

abbrev pub NulFree : List Bytes → Type 0
NulFree [] = Unit {0}
NulFree (w ∷ ws) = (contains 0 w ≡ false) × NulFree ws

push-NulFree : (b : ℕ) (ws : List Bytes) → (b == 0) ≡ false → NulFree ws → NulFree (push_byte b ws)
unfolding contains
push-NulFree b [] h k = (rw h refl, tt)
push-NulFree b (w ∷ ws) h k = (rw (h, k.0) refl, k.1)

segments-NulFree : (line : Bytes) → contains 0 line ≡ false → NulFree (segments line)
unfolding segments contains
segments-NulFree [] h = (refl, tt)
segments-NulFree (b ∷ line) h =
    let z : (b == 0) ≡ false = ground arith in
    let t : contains 0 line ≡ false = ground arith in
    if-cases NulFree (is_space b) ([] ∷ segments line) (push_byte b (segments line))
      (λ _. (refl, segments-NulFree line t))
      (λ _. push-NulFree b (segments line) z (segments-NulFree line t))

drop_empty-NulFree : (ws : List Bytes) → NulFree ws → NulFree (drop_empty ws)
drop_empty-NulFree [] h = tt
drop_empty-NulFree ([] ∷ ws) h = drop_empty-NulFree ws h.1
drop_empty-NulFree ((b ∷ w) ∷ ws) h = (h.0, drop_empty-NulFree ws h.1)

pub split-NulFree : (line : Bytes) → contains 0 line ≡ false → NulFree (split line)
unfolding split
split-NulFree line h = drop_empty-NulFree (segments line) (segments-NulFree line h)
