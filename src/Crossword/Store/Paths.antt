-- ===== src/Crossword/Store/Paths.antt =====
-- Where a puzzle's progress is: two names below the store's directory, and another place for each puzzle.
use scratchpad.Common.{
  ℕ, ◌≤◌, ◌≡◌, refl, sym, ap, ◌∙◌, true, false, ◌||◌, Option, none, some, List, [], ◌∷◌, ◌++◌,
  codes, arith, if◌then◌else◌, Bool-cases, ◌⊎◌, inl, inr, contains, length, all, leb, take,
  take-length, length-append, bytes_eq, starts_with, contains-append, leb→le,
}
use scratchpad.Crossword.Puzzle.Letters.{Text}
use scratchpad.Crossword.Game.Undo.{Progress}
use scratchpad.Crossword.Sources.{
  SourceId, princetonian_mini, nyt_mini, guardian_quick, nyt_midi, universal, princetonian,
  nyt_daily, id_char, PuzzleRef, slug, is_safe_id,
}
use scratchpad.Crossword.Store.{Store, Attempt, Disk, FilePath, file, save_progress}

abbrev pub attempt : FilePath → Progress → Option Text → Attempt
attempt path saved failed = record { path = path; saved = saved; failed = failed }

pub save_progress-attempts :
    (disk : Disk) (store : Store) (log : List Attempt) (puzzle : PuzzleRef) (saved : Progress)
    {path : FilePath}
    → file store.progress_dir puzzle ≡ some path
    → save_progress disk store log puzzle saved
      ≡ (attempt path saved (disk.failure log path saved) ∷ log, disk.failure log path saved)
unfolding save_progress
save_progress-attempts disk store log puzzle saved {path} h = go (file store.progress_dir puzzle) h
  where
    result : FilePath → List Attempt × Option Text
    result p = (attempt p saved (disk.failure log p saved) ∷ log, disk.failure log p saved)

    go :
        (o : Option FilePath)
        → o ≡ some path
        → (elim o as (λ _. List Attempt × Option Text) [
          | none ↦ (log, some (codes "unsafe puzzle id"))
          | some path ↦ result path
        ])
          ≡ result path
    go none e = absurd (cc)
    go (some p) e = let same : p ≡ path = cc in ap result same

file-path :
    (root : FilePath) (puzzle : PuzzleRef) {path : FilePath}
    → file root puzzle ≡ some path
    → (is_safe_id puzzle.id ≡ true)
      × (path ≡ root ++ slug puzzle.source ∷ (puzzle.id ++ codes ".json") ∷ [])
unfolding file
file-path root puzzle {path} h = elim (Bool-cases (is_safe_id puzzle.id)) [
  | inl e ↦
      let q : some (root ++ slug puzzle.source ∷ (puzzle.id ++ codes ".json") ∷ []) ≡ some path =
        rw e at h in
      (e, cc)
  | inr e ↦ absurd (let q : none ≡ some path = rw e at h in cc)
]

append_cancel_left {ℓ} : {A : Type ℓ} (xs : List A) {ys zs : List A} → xs ++ ys ≡ xs ++ zs → ys ≡ zs
append_cancel_left [] e = e
append_cancel_left (x ∷ xs) e = append_cancel_left xs (cc)

append_cancel_right {ℓ} : {A : Type ℓ} (xs ys s : List A) → xs ++ s ≡ ys ++ s → xs ≡ ys
append_cancel_right xs ys s e =
    let same : length xs ≡ length ys =
      omega (arith, length-append xs s, length-append ys s, ap length e) in
    sym (take-length xs s)
    ∙ ap (take (length xs)) e
    ∙ ap (λ n. take n (ys ++ s)) same
    ∙ take-length ys s

of_slug : Text → SourceId
of_slug t =
    if bytes_eq t (codes "princetonian-mini")
    then princetonian_mini
    else if bytes_eq t (codes "nyt-mini")
    then nyt_mini
    else if bytes_eq t (codes "guardian-quick")
    then guardian_quick
    else if bytes_eq t (codes "nyt-midi")
    then nyt_midi
    else if bytes_eq t (codes "universal")
    then universal
    else if bytes_eq t (codes "princetonian")
    then princetonian
    else nyt_daily

of_slug-slug : (source : SourceId) → of_slug (slug source) ≡ source
unfolding of_slug slug bytes_eq
of_slug-slug princetonian_mini = refl
of_slug-slug nyt_mini = refl
of_slug-slug guardian_quick = refl
of_slug-slug nyt_midi = refl
of_slug-slug universal = refl
of_slug-slug princetonian = refl
of_slug-slug nyt_daily = refl

-- Two puzzles with the same file below one directory have the same source and the same id.
pub file-injective :
    (root : FilePath) (p q : PuzzleRef) {path : FilePath}
    → file root p ≡ some path
    → file root q ≡ some path
    → (p.source ≡ q.source) × (p.id ≡ q.id)
file-injective root p q {path} h k =
    let names = append_cancel_left root (sym (file-path root p h).1 ∙ (file-path root q k).1) in
    let slugs : slug p.source ≡ slug q.source = cc in
    let ids : p.id ++ codes ".json" ≡ q.id ++ codes ".json" = cc in
    (
      sym (of_slug-slug p.source) ∙ ap of_slug slugs ∙ of_slug-slug q.source,
      append_cancel_right p.id q.id (codes ".json") ids,
    )

-- A character that no safe id has: the slash, or the dot
safe-lacks :
    (b : ℕ) → (b ≡ b'/') ⊎ (b ≡ b'.') → (id : Text) → all id_char id ≡ true → contains b id ≡ false
unfolding contains
safe-lacks b h [] e = refl
safe-lacks b h (c ∷ id) e = ground (arith, safe-lacks b h id)

slug-lacks : (source : SourceId) → contains b'/' (slug source) ≡ false
unfolding contains slug
slug-lacks princetonian_mini = refl
slug-lacks nyt_mini = refl
slug-lacks guardian_quick = refl
slug-lacks nyt_midi = refl
slug-lacks universal = refl
slug-lacks princetonian = refl
slug-lacks nyt_daily = refl

name-safe :
    (id : Text)
    → is_safe_id id ≡ true
    → (contains b'/' (id ++ codes ".json") ≡ false)
      × (starts_with (codes ".") (id ++ codes ".json") ≡ false)
      × (length (id ++ codes ".json") ≤ 69)
unfolding is_safe_id bytes_eq starts_with
name-safe [] h = absurd (cc)
name-safe (c ∷ id) h =
    let short : leb (length (c ∷ id)) 64 ≡ true = ground (arith, h) in
    let safe : all id_char (c ∷ id) ≡ true = ground (arith, h) in
    let first : contains b'.' (c ∷ id) ≡ false = safe-lacks b'.' (inr refl) (c ∷ id) safe in
    (
      contains-append b'/' (c ∷ id) (codes ".json")
          ∙ ap (λ b. b || contains b'/' (codes ".json")) (safe-lacks b'/' (inl refl) (c ∷ id) safe)
          ∙ (unfold contains in refl),
      (unfold contains in ground (arith, first)),
      omega (arith, leb→le (length (c ∷ id)) 64 short, length-append (c ∷ id) (codes ".json")),
    )

-- A puzzle's file lies two names below the directory, whatever its id: neither name has a slash, the
-- second starts with no dot, and it has at most 69 characters.
pub file-inside :
    (root : FilePath) (p : PuzzleRef) {path : FilePath}
    → file root p ≡ some path
    → (name : Text) × (path ≡ root ++ slug p.source ∷ name ∷ [])
      × (contains b'/' (slug p.source) ≡ false)
      × (contains b'/' name ≡ false)
      × (starts_with (codes ".") name ≡ false)
      × (length name ≤ 69)
file-inside root p {path} h =
    let (safe, e) = file-path root p h in
    let (plain, dotless, short) = name-safe p.id safe in
    (p.id ++ codes ".json", e, slug-lacks p.source, plain, dotless, short)
