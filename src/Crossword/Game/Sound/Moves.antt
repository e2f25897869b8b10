-- ===== src/Crossword/Game/Sound/Moves.antt =====
-- Motion changes the cursor and the direction alone, and leaves the cursor on an open square.
use scratchpad.Common.{
  ℕ, zero, suc, ◌+◌, ◌≡◌, refl, Bool, true, false, not, ◌&&◌, Option, none, some, List, [], ◌∷◌,
  arith, length, ltb, get_elem?, ◌==◌, if◌then◌else◌, Bool-cases, Option-cases, inl, inr, drop,
  take, position,
}
use scratchpad.Crossword.Puzzle.Letters.{is_empty}
use scratchpad.Crossword.Puzzle.{
  Puzzle, Entry, Direction, is_open, open_at, open_from, open_cells, len, entry_at, present, other,
}
use scratchpad.Crossword.Puzzle.Build.{is_direction}
use scratchpad.Crossword.Game.{
  Game, entry_cells, find, first_empty, current_entry, crossing_entry, position_in_entry,
  set_cursor, ◌>>=◌, letter_at,
}
use scratchpad.Crossword.Game.Motion.{
  last?, one_back, entry_direction, enter_entry, step_in_entry, toggle_direction, wrap_entry,
  enter_start, enter_end, next_entry_start, prev_entry_start, entry_end_motion, goto_entry_start,
  goto_entry_end, move_to, goto_first, goto_last, seek_blank, next_open_entry, click, goto_entry,
  goto_clue,
}
use scratchpad.Crossword.Game.Sound.Edits.{HasAnswer}

abbrev pub AllOpen : Puzzle → List ℕ → Type 0
AllOpen p [] = Unit {0}
AllOpen p (c ∷ cells) = (is_open p c ≡ true) × AllOpen p cells

-- What a validated puzzle gives: an open square accepts its answer, and entries run over open squares.
pub record IsPlayable (p : Puzzle) : Type 0 where
  pub answers : (c : ℕ) → is_open p c ≡ true → HasAnswer p c
  pub entry_open : (e : ℕ) → AllOpen p (entry_cells p e)

abbrev pub Ensures {ℓ κ} : {A : Type ℓ} → (A → Type κ) → Option A → Type κ
Ensures P none = Unit
Ensures P (some a) = P a

pub Ensures-bind {ℓ κ μ} :
    {A : Type ℓ} {B : Type κ} (P : B → Type μ) (o : Option A) (f : A → Option B)
    → ((a : A) → o ≡ some a → Ensures P (f a))
    → Ensures P (o >>= f)
Ensures-bind P none f h = tt
Ensures-bind P (some a) f h = h a refl

pub Ensures-if {ℓ κ} :
    {A : Type ℓ} (P : A → Type κ) (b : Bool) (x y : Option A)
    → (b ≡ true → Ensures P x)
    → (b ≡ false → Ensures P y)
    → Ensures P (if b then x else y)
Ensures-if P true x y h k = h refl
Ensures-if P false x y h k = k refl

abbrev pub Moved : Puzzle → Game → Game → Type 0
Moved p g g' =
    (c : ℕ) × (d : Direction) × (g' ≡ record g { cursor = c; direction = d }) × (is_open p c ≡ true)

module _ (p : Puzzle) where
  pub get_elem?-open :
      (cells : List ℕ) (k : ℕ) {c : ℕ}
      → AllOpen p cells
      → get_elem? cells k ≡ some c
      → is_open p c ≡ true
  get_elem?-open [] k h e = cc
  get_elem?-open (x ∷ cells) zero h e = ground arith
  get_elem?-open (x ∷ cells) (suc k) h e = get_elem?-open cells k h.1 e

  last?-open :
      (cells : List ℕ) {c : ℕ} → AllOpen p cells → last? cells ≡ some c → is_open p c ≡ true
  last?-open [] h e = cc
  last?-open (x ∷ []) h e = ground arith
  last?-open (x ∷ y ∷ cells) h e = last?-open (y ∷ cells) h.1 e

  pub find-open :
      (t : ℕ → Bool) (cells : List ℕ) {c : ℕ}
      → AllOpen p cells
      → find t cells ≡ some c
      → is_open p c ≡ true
  find-open t [] h e = cc
  find-open t (x ∷ cells) {c} h e = elim (Bool-cases (t x)) [
    | inl yes' ↦ ground arith
    | inr no' ↦ find-open t cells h.1 (rw no' at e)
  ]

  pub drop-AllOpen : (n : ℕ) (cells : List ℕ) → AllOpen p cells → AllOpen p (drop n cells)
  drop-AllOpen zero cells h = h
  drop-AllOpen (suc n) [] h = tt
  drop-AllOpen (suc n) (x ∷ cells) h = drop-AllOpen n cells h.1

  pub take-AllOpen : (n : ℕ) (cells : List ℕ) → AllOpen p cells → AllOpen p (take n cells)
  take-AllOpen zero cells h = tt
  take-AllOpen (suc n) [] h = tt
  take-AllOpen (suc n) (x ∷ cells) h = (h.0, take-AllOpen n cells h.1)

open_from-AllOpen : (p : Puzzle) (left c : ℕ) → AllOpen p (open_from p.raw.grid left c)
open_from-AllOpen p zero c = tt
open_from-AllOpen p (suc left) c = elim (Bool-cases (open_at p.raw.grid c)) [
  | inl o ↦ rw o (o, open_from-AllOpen p left (c + 1))
  | inr b ↦ rw b (open_from-AllOpen p left (c + 1))
]

pub open_cells-AllOpen : (p : Puzzle) → AllOpen p (open_cells p)
unfolding open_cells
open_cells-AllOpen p = open_from-AllOpen p (len p) 0

module _ (p : Puzzle) (ok : IsPlayable p) (g : Game) (here : is_open p g.cursor ≡ true) where
  pub enter_entry-Moved : (e c : ℕ) → is_open p c ≡ true → Ensures (Moved p g) (enter_entry p e c g)
  unfolding enter_entry
  enter_entry-Moved e c h =
      Ensures-bind (Moved p g) (entry_direction p e)
        (λ d. some (record g { cursor = c; direction = d })) (λ d _. (c, d, refl, h))

  enter_start-Moved : (e : ℕ) → Ensures (Moved p g) (enter_start p e g)
  unfolding enter_start
  enter_start-Moved e =
      Ensures-bind (Moved p g) (get_elem? (entry_cells p e) 0) (λ c. enter_entry p e c g)
        (λ c q. enter_entry-Moved e c (get_elem?-open p (entry_cells p e) 0 (ok.entry_open e) q))

  enter_end-Moved : (e : ℕ) → Ensures (Moved p g) (enter_end p e g)
  unfolding enter_end
  enter_end-Moved e =
      Ensures-bind (Moved p g) (last? (entry_cells p e)) (λ c. enter_entry p e c g)
        (λ c q. enter_entry-Moved e c (last?-open p (entry_cells p e) (ok.entry_open e) q))

  pub next_entry_start-Moved : Ensures (Moved p g) (next_entry_start p g)
  unfolding next_entry_start
  next_entry_start-Moved =
      Ensures-bind (Moved p g) (current_entry p g) _
        (λ e _. enter_start-Moved (wrap_entry p e true))

  pub set_cursor-Moved : (c : ℕ) → is_open p c ≡ true → Moved p g (set_cursor p c g)
  unfolding set_cursor
  set_cursor-Moved c h = elim (Bool-cases (present (entry_at p c g.direction))) [
    | inl a ↦ rw a (c, g.direction, refl, h)
    | inr a ↦ rw a (c, other g.direction, refl, h)
  ]

  pub prev_entry_start-Moved : Ensures (Moved p g) (prev_entry_start p g)
  unfolding prev_entry_start
  prev_entry_start-Moved =
      Ensures-bind (Moved p g) (position_in_entry p g) _ (λ x _. enter_start-Moved _)

  pub entry_end_motion-Moved : Ensures (Moved p g) (entry_end_motion p g)
  unfolding entry_end_motion
  entry_end_motion-Moved =
      Ensures-bind (Moved p g) (position_in_entry p g) _ (λ x _. enter_end-Moved _)

  pub goto_entry_start-Moved : Ensures (Moved p g) (goto_entry_start p g)
  unfolding goto_entry_start
  goto_entry_start-Moved = Ensures-bind (Moved p g) (current_entry p g) _ (λ e _.
      Ensures-bind (Moved p g) (get_elem? (entry_cells p e) 0) _
        (λ c q. (c, g.direction, refl, get_elem?-open p (entry_cells p e) 0 (ok.entry_open e) q)))

  pub goto_entry_end-Moved : Ensures (Moved p g) (goto_entry_end p g)
  unfolding goto_entry_end
  goto_entry_end-Moved = Ensures-bind (Moved p g) (current_entry p g) _ (λ e _.
      Ensures-bind (Moved p g) (last? (entry_cells p e)) _
        (λ c q. (c, g.direction, refl, last?-open p (entry_cells p e) (ok.entry_open e) q)))

  move_to-Moved :
      (o : Option ℕ) → ((c : ℕ) → o ≡ some c → is_open p c ≡ true) → Moved p g (move_to p o g)
  move_to-Moved none h = (g.cursor, g.direction, refl, here)
  move_to-Moved (some c) h = set_cursor-Moved c (h c refl)

  pub goto_first-Moved : Moved p g (goto_first p g)
  unfolding goto_first
  goto_first-Moved =
      move_to-Moved (get_elem? (open_cells p) 0)
        (λ c q. get_elem?-open p (open_cells p) 0 (open_cells-AllOpen p) q)

  pub goto_last-Moved : Moved p g (goto_last p g)
  unfolding goto_last
  goto_last-Moved =
      move_to-Moved (last? (open_cells p))
        (λ c q. last?-open p (open_cells p) (open_cells-AllOpen p) q)

  pub toggle_direction-Moved : Moved p g (toggle_direction p g)
  unfolding toggle_direction
  toggle_direction-Moved = elim (Bool-cases (present (crossing_entry p g))) [
    | inl a ↦ rw a (g.cursor, other g.direction, refl, here)
    | inr a ↦ rw a (g.cursor, g.direction, refl, here)
  ]

  pub click-Moved : (c : ℕ) → Moved p g (click p c g).0
  unfolding click
  click-Moved c = elim (Bool-cases (not (is_open p c))) [
    | inl a ↦ rw a (g.cursor, g.direction, refl, here)
    | inr a ↦ elim (Bool-cases (c == g.cursor)) [
      | inl b ↦ rw (a, b) toggle_direction-Moved
      | inr b ↦ rw (a, b) (set_cursor-Moved c (ground arith))
    ]
  ]

  pub step_in_entry-Moved :
      (forward : Bool) → Ensures (λ r. Moved p g r.0) (step_in_entry p forward g)
  unfolding step_in_entry
  step_in_entry-Moved forward =
      Ensures-bind (λ r. Moved p g r.0) (position_in_entry p g) _
        (λ x _. landed (entry_cells p x.0) (ok.entry_open x.0) x.1 forward)
    where
      lands :
          (o : Option ℕ)
          → ((c : ℕ) → o ≡ some c → is_open p c ≡ true)
          → Moved p g
              (elim o as (λ _. Game × Bool) [
                | some c ↦ (record g { cursor = c }, true)
                | none ↦ (g, false)
              ]).0
      lands none h = (g.cursor, g.direction, refl, here)
      lands (some c) h = (c, g.direction, refl, h c refl)

      landed :
          (cells : List ℕ)
          → AllOpen p cells
          → (pos : ℕ) (f : Bool)
          → Moved p g
              (elim (if f then get_elem? cells (pos + 1) else one_back cells pos)
                as (λ _. Game × Bool) [
                  | some c ↦ (record g { cursor = c }, true)
                  | none ↦ (g, false)
                ]).0
      landed cells h pos true =
          lands (get_elem? cells (pos + 1)) (λ c q. get_elem?-open p cells (pos + 1) h q)
      landed cells h zero false = lands none (λ c q. cc)
      landed cells h (suc k) false = lands (get_elem? cells k) (λ c q. get_elem?-open p cells k h q)

  pub seek_blank-open :
      (forward : Bool) (rounds e : ℕ) {x : ℕ × ℕ}
      → seek_blank p g forward rounds e ≡ some x
      → is_open p x.1 ≡ true
  unfolding seek_blank first_empty
  seek_blank-open forward zero e h = cc
  seek_blank-open forward (suc rounds) e h =
      let next = wrap_entry p e forward in
      let blank = λ (c : ℕ). is_empty (letter_at g.fill c) in
      elim (Option-cases (find blank (entry_cells p next))) [
        | inl a ↦ seek_blank-open forward rounds next (rw (a, seek_blank) at h)
        | inr (c, a) ↦
            let q = find-open p blank (entry_cells p next) (ok.entry_open next) a in
            let k = rw (a, seek_blank) at h in ground arith
      ]

  pub next_open_entry-Moved : (forward : Bool) → Ensures (Moved p g) (next_open_entry p forward g)
  unfolding next_open_entry
  next_open_entry-Moved forward =
      Ensures-bind (Moved p g) (current_entry p g) _
        (λ e _. found e (seek_blank p g forward (length p.entries) e) refl)
    where
      found :
          (e : ℕ) (o : Option (ℕ × ℕ))
          → seek_blank p g forward (length p.entries) e ≡ o
          → Ensures (Moved p g) (elim o as (λ _. Option Game) [
            | some x ↦ enter_entry p x.0 x.1 g
            | none ↦ enter_start p (wrap_entry p e forward) g
          ])
      found e none h = enter_start-Moved (wrap_entry p e forward)
      found e (some x) h =
          enter_entry-Moved x.0 x.1 (seek_blank-open forward (length p.entries) e h)

  pub goto_entry-Moved : (e : ℕ) → Ensures (Moved p g) (goto_entry p e g)
  unfolding goto_entry
  goto_entry-Moved e = elim (Bool-cases (ltb e (length p.entries))) [
    | inl a ↦ rw a (enter_start-Moved e)
    | inr a ↦ rw a (g.cursor, g.direction, refl, here)
  ]

  pub goto_clue-Moved : (d : Direction) (n : ℕ) → Ensures (λ r. Moved p g r.0) (goto_clue p d n g)
  unfolding goto_clue
  goto_clue-Moved d n =
      found (position (λ (e : Entry). is_direction e.direction d && e.number == n) p.entries)
    where
      found :
          (o : Option ℕ)
          → Ensures
              (λ r. Moved p g r.0)
              (elim o as (λ _. Option (Game × Bool)) [
                | some e ↦ (enter_start p e g >>= λ g'. some (g', true))
                | none ↦ some (g, false)
              ])
      found none = (g.cursor, g.direction, refl, here)
      found (some e) = elim (Option-cases (enter_start p e g)) [
        | inl a ↦ rw a tt
        | inr (g', a) ↦ rw a (rw a at (enter_start-Moved e))
      ]
