-- ===== src/Crossword/Game/Sound/Ops.antt =====
-- The editing operations keep the invariant.
use scratchpad.Common.{
  ℕ, zero, suc, ◌+◌, ◌≡◌, refl, ◌∙◌, Bool, true, false, not, ◌&&◌, ◌||◌, Option, none, some, List,
  [], ◌∷◌, arith, length, if◌then◌else◌, Bool-cases, Option-cases, inl, inr, take, drop, get_elem?,
}
use scratchpad.Crossword.Puzzle.Letters.{Text, TextOps, normalized, is_empty}
use scratchpad.Crossword.Puzzle.{Puzzle, is_open}
use scratchpad.Crossword.Game.{
  Game, Scope, one_cell, whole_entry, whole_puzzle, CheckReport, filled, current_entry, entry_cells,
  entry_is_full, position_in_entry, scope_cells, find, or_else, ◌>>=◌,
}
use scratchpad.Crossword.Game.Motion.{seek_blank, enter_entry, goto_entry_start}
use scratchpad.Crossword.Game.Edit.{
  editable, put, clear_cells, step_on, jump_to_next_blank, advance, type_letters, backspace,
  clear_and_advance, replace_cell, clear_to_entry_end, clear_entry, clear, check_cell, check_cells,
  check, reveal_cell, reveal_cells, reveal,
}
use scratchpad.Crossword.Game.Sound.Moves.{
  AllOpen, IsPlayable, Ensures, Ensures-bind, Ensures-if, get_elem?-open, find-open, drop-AllOpen,
  take-AllOpen, open_cells-AllOpen, enter_entry-Moved, seek_blank-open, goto_entry_start-Moved,
}
use scratchpad.Crossword.Game.Sound.History.{IsSound}
use scratchpad.Crossword.Game.Sound.Kept.{
  Kept, Kept-refl, Kept-trans, Kept-Moved, put-Kept, check_cell-Kept, reveal_cell-Kept,
  check_solved-Kept,
}

pub clear_cells-Kept :
    (p : Puzzle) (cells : List ℕ) (g : Game) → IsSound p g → Kept p g (clear_cells p cells g)
unfolding clear_cells
clear_cells-Kept p [] g s = Kept-refl s
clear_cells-Kept p (c ∷ cells) g s =
    let k = put-Kept p g s c [] in Kept-trans k (clear_cells-Kept p cells (put p c [] g).0 k.sound)

check_cells-Kept :
    (p : Puzzle) (cells : List ℕ) (g : Game) (r : CheckReport)
    → IsSound p g
    → Kept p g (check_cells p cells (g, r)).0
unfolding check_cells
check_cells-Kept p [] g r s = Kept-refl s
check_cells-Kept p (c ∷ cells) g r s =
    let (g', r') = check_cell p c (g, r) in
    let k = check_cell-Kept p g s c r in Kept-trans k (check_cells-Kept p cells g' r' k.sound)

solved-reveal_cell :
    (p : Puzzle) (c : ℕ) (g : Game) (n : ℕ) → (reveal_cell p c (g, n)).0.solved ≡ g.solved
unfolding reveal_cell
solved-reveal_cell p c g n = ground arith

reveal_cells-Kept :
    (p : Puzzle) (cells : List ℕ) (g : Game) (n : ℕ)
    → IsPlayable p
    → IsSound p g
    → g.solved ≡ false
    → AllOpen p cells
    → Kept p g (reveal_cells p cells (g, n)).0
unfolding reveal_cells
reveal_cells-Kept p [] g n ok s o h = Kept-refl s
reveal_cells-Kept p (c ∷ cells) g n ok s o h =
    let (g', n') = reveal_cell p c (g, n) in
    let k = reveal_cell-Kept p g s c n o (ok.answers c h.0) in
    Kept-trans k (reveal_cells-Kept p cells g' n' ok k.sound (solved-reveal_cell p c g n ∙ o) h.1)

module _ (p : Puzzle) (ok : IsPlayable p) (g : Game) (s : IsSound p g) where
  scope_cells-AllOpen : (scope : Scope) → Ensures (AllOpen p) (scope_cells p g scope)
  unfolding scope_cells
  scope_cells-AllOpen one_cell = (s.here, tt)
  scope_cells-AllOpen whole_entry =
      Ensures-bind (AllOpen p) (current_entry p g) _ (λ e _. ok.entry_open e)
  scope_cells-AllOpen whole_puzzle = open_cells-AllOpen p

  to_cell : (c : ℕ) → is_open p c ≡ true → Kept p g (record g { cursor = c })
  to_cell c h = Kept-Moved s (c, g.direction, refl, h)

  step_on-Kept : (e pos : ℕ) → Kept p g (step_on (entry_cells p e) pos g)
  step_on-Kept e pos = lands (get_elem? (entry_cells p e) (pos + 1)) refl
    where
      lands :
          (o : Option ℕ)
          → get_elem? (entry_cells p e) (pos + 1) ≡ o
          → Kept p g (elim o as (λ _. Game) [ some c ↦ record g { cursor = c } | none ↦ g ])
      lands none h = Kept-refl s
      lands (some c) h =
          to_cell c (get_elem?-open p (entry_cells p e) (pos + 1) (ok.entry_open e) h)

  jump-Kept : (e : ℕ) → Ensures (λ r. Kept p g r.0) (jump_to_next_blank p e g)
  unfolding jump_to_next_blank
  jump-Kept e = lands (seek_blank p g true (length p.entries) e) refl
    where
      lands :
          (o : Option (ℕ × ℕ))
          → seek_blank p g true (length p.entries) e ≡ o
          → Ensures
              (λ r. Kept p g r.0)
              (elim o as (λ _. Option (Game × Bool)) [
                | some x ↦ (enter_entry p x.0 x.1 g >>= λ g'. some (g', true))
                | none ↦ some (g, false)
              ])
      lands none h = Kept-refl s
      lands (some x) h = elim (Option-cases (enter_entry p x.0 x.1 g)) [
        | inl a ↦ rw a tt
        | inr (g', a) ↦ rw a (
            Kept-Moved s (
              rw a at (
                enter_entry-Moved p ok g s.here x.0 x.1
                  (seek_blank-open p ok g s.here true (length p.entries) e h))))
      ]

module _ (p : Puzzle) (ok : IsPlayable p) (g : Game) (s : IsSound p g) where
  blank_after : (e pos : ℕ) → Option ℕ
  blank_after e pos =
      let blank = λ (c : ℕ). not (filled p g c) in
      or_else p g (find blank (drop (pos + 1) (entry_cells p e)))
        (find blank (take pos (entry_cells p e)))

  blank_after-open : (e pos : ℕ) {c : ℕ} → blank_after e pos ≡ some c → is_open p c ≡ true
  unfolding blank_after
  blank_after-open e pos {c} h =
      let blank = λ (c : ℕ). not (filled p g c) in
      let cells = entry_cells p e in
      elim (Option-cases (find blank (drop (pos + 1) cells))) [
        | inl a ↦
            find-open p blank (take pos cells) (take-AllOpen p pos cells (ok.entry_open e))
              (rw (a, or_else) at h)
        | inr (x, a) ↦
            find-open p blank (drop (pos + 1) cells)
              (drop-AllOpen p (pos + 1) cells (ok.entry_open e)) (a ∙ (rw (a, or_else) at h))
      ]

  stepped :
      (e pos : ℕ) (r : Game × Bool)
      → Kept p g r.0
      → Kept p g (if r.1 then r.0 else step_on (entry_cells p e) pos r.0)
  stepped e pos (g', true) k = k
  stepped e pos (g', false) k = Kept-trans k (step_on-Kept p ok g' k.sound e pos)

  pub advance-Kept : (e pos : ℕ) (was_full : Bool) → Ensures (Kept p g) (advance p e pos was_full g)
  unfolding advance blank_after
  advance-Kept e pos was_full = lands (blank_after e pos) refl was_full
    where
      lands :
          (o : Option ℕ)
          → blank_after e pos ≡ o
          → (full : Bool)
          → Ensures (Kept p g) (elim o as (λ _. Option Game) [
            | none ↦
                if full
                then some (step_on (entry_cells p e) pos g)
                else (jump_to_next_blank p e g >>= λ x.
                    some (if x.1 then x.0 else step_on (entry_cells p e) pos x.0))
            | some next ↦ some (record g { cursor = next })
          ])
      lands (some c) h full = to_cell p ok g s c (blank_after-open e pos h)
      lands none h true = step_on-Kept p ok g s e pos
      lands none h false = elim (Option-cases (jump_to_next_blank p e g)) [
        | inl a ↦ rw a tt
        | inr (r, a) ↦ rw a (stepped e pos r (rw a at (jump-Kept p ok g s e)))
      ]

module _ (p : Puzzle) (ok : IsPlayable p) (g : Game) (s : IsSound p g) where
  pub type_letters-Kept :
      (ops : TextOps) (letters : Text) (now : ℕ)
      → Ensures (Kept p g) (type_letters p ops letters now g)
  unfolding type_letters
  type_letters-Kept ops letters now =
      elim (Bool-cases (g.solved || is_empty (normalized ops letters))) [
        | inl stays ↦ rw stays (Kept-refl s)
        | inr writes ↦ rw writes (
            let k = put-Kept p g s g.cursor (normalized ops letters) in
            let g₁ = (put p g.cursor (normalized ops letters) g).0 in
            Ensures-bind (Kept p g) (position_in_entry p g) _ (λ x _.
              Ensures-bind (Kept p g) (advance p x.0 x.1 (entry_is_full p g x.0) g₁) _ (λ g₂ a.
                let k₂ = rw a at (advance-Kept p ok g₁ k.sound x.0 x.1 (entry_is_full p g x.0)) in
                Kept-trans k (Kept-trans k₂ (check_solved-Kept p g₂ k₂.sound now)))))
      ]

  pub backspace-Kept : Ensures (Kept p g) (backspace p g)
  unfolding backspace
  backspace-Kept =
      Ensures-if (Kept p g) g.solved _ _ (λ _. Kept-refl s)
        (λ _.
          Ensures-if (Kept p g) (filled p g g.cursor && editable p g g.cursor) _ _
            (λ _. put-Kept p g s g.cursor [])
            (λ _. Ensures-bind (Kept p g) (position_in_entry p g) _ (λ x _. erased x.0 x.1)))
    where
      back :
          (e k : ℕ) (o : Option ℕ)
          → get_elem? (entry_cells p e) k ≡ o
          → Kept p g (elim o as (λ _. Game) [
            | some c ↦ (put p c [] (record g { cursor = c })).0
            | none ↦ g
          ])
      back e k none h = Kept-refl s
      back e k (some c) h =
          let m = to_cell p ok g s c (get_elem?-open p (entry_cells p e) k (ok.entry_open e) h) in
          Kept-trans m (put-Kept p (record g { cursor = c }) m.sound c [])

      erased :
          (e pos : ℕ)
          → Kept p g (elim pos as (λ _. Game) [
            | zero ↦ g
            | suc k ↦ elim (get_elem? (entry_cells p e) k) as (λ _. Game) [
              | some c ↦ (put p c [] (record g { cursor = c })).0
              | none ↦ g
            ]
          ])
      erased e zero = Kept-refl s
      erased e (suc k) = back e k (get_elem? (entry_cells p e) k) refl

  pub clear_and_advance-Kept : Ensures (Kept p g) (clear_and_advance p g)
  unfolding clear_and_advance
  clear_and_advance-Kept =
      Ensures-if (Kept p g) g.solved _ _ (λ _. Kept-refl s)
        (λ _.
          let k = put-Kept p g s g.cursor [] in
          let g₁ = (put p g.cursor [] g).0 in
          Ensures-bind (Kept p g) (position_in_entry p g₁) _
            (λ x _. Kept-trans k (step_on-Kept p ok g₁ k.sound x.0 x.1)))

  pub replace_cell-Kept :
      (ops : TextOps) (letters : Text) (now : ℕ) → Kept p g (replace_cell p ops letters now g)
  unfolding replace_cell
  replace_cell-Kept ops letters now = elim (Bool-cases (is_empty (normalized ops letters))) [
    | inl stays ↦ rw stays (Kept-refl s)
    | inr writes ↦ rw writes (
        let k = put-Kept p g s g.cursor (normalized ops letters) in
        Kept-trans k
          (check_solved-Kept p (put p g.cursor (normalized ops letters) g).0 k.sound now))
  ]

  pub clear_to_entry_end-Kept : Ensures (Kept p g) (clear_to_entry_end p g)
  unfolding clear_to_entry_end
  clear_to_entry_end-Kept =
      Ensures-bind (Kept p g) (position_in_entry p g) _
        (λ x _. clear_cells-Kept p (drop x.1 (entry_cells p x.0)) g s)

  pub clear-Kept : (scope : Scope) → Ensures (Kept p g) (clear p scope g)
  unfolding clear
  clear-Kept scope =
      Ensures-bind (Kept p g) (scope_cells p g scope) _ (λ cells _. clear_cells-Kept p cells g s)

  pub check-Kept : (scope : Scope) → Ensures (λ r. Kept p g r.0) (check p scope g)
  unfolding check
  check-Kept scope =
      Ensures-if (λ r. Kept p g r.0) g.solved _ _ (λ _. Kept-refl s)
        (λ _.
          Ensures-bind (λ r. Kept p g r.0) (scope_cells p g scope) _
            (λ cells _. check_cells-Kept p cells g _ s))

  pub reveal-Kept : (scope : Scope) (now : ℕ) → Ensures (λ r. Kept p g r.0) (reveal p scope now g)
  unfolding reveal
  reveal-Kept scope now =
      Ensures-if (λ r. Kept p g r.0) g.solved _ _ (λ _. Kept-refl s)
        (λ free.
          Ensures-bind (λ r. Kept p g r.0) (scope_cells p g scope) _
            (λ cells a.
              let k =
                reveal_cells-Kept p cells g 0 ok s free
                  (rw a at (scope_cells-AllOpen p ok g s scope)) in
              Kept-trans k (check_solved-Kept p (reveal_cells p cells (g, 0)).0 k.sound now)))

pub clear_entry-Kept :
    (p : Puzzle) (ok : IsPlayable p) (g : Game) (s : IsSound p g)
    → Ensures (Kept p g) (clear_entry p g)
unfolding clear_entry
clear_entry-Kept p ok g s = Ensures-bind (Kept p g) (goto_entry_start p g) _ (λ g₁ a.
    let k = Kept-Moved s (rw a at (goto_entry_start-Moved p ok g s.here)) in
    elim (Option-cases (clear_to_entry_end p g₁)) [
      | inl b ↦ rw b tt
      | inr (g₂, b) ↦ rw b (Kept-trans k (rw b at (clear_to_entry_end-Kept p ok g₁ k.sound)))
    ])
