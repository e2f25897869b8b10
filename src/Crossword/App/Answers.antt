-- ===== src/Crossword/App/Answers.antt =====
-- In a valid application, every key on the first two screens is answered: no index is out of range.
use scratchpad.Common.{
  ℕ, zero, suc, ◌-◌, ◌<◌, ◌≡◌, refl, Bool, true, false, ◌&&◌, ◌||◌, Option, none, some, List, [],
  ◌∷◌, ◌==◌, leb, arith, if◌then◌else◌, if-cases, length, get_elem?,
}
use scratchpad.Crossword.Puzzle.{present}
use scratchpad.Crossword.Game.{◌>>=◌}
use scratchpad.Crossword.Keys.{KeyCode, Key, is_ctrl}
use scratchpad.Crossword.Sources.{all_sizes}
use scratchpad.Crossword.Store.{Disk}
use scratchpad.Crossword.Solve.{Env}
use scratchpad.Crossword.App.{App, Browse, Tab, Screen, home_screen, browse_screen, solve_screen}
use scratchpad.Crossword.App.Listings.{
  current_tab, on_tab, when_browsing, selected_item, reload, open_selected,
}
use scratchpad.Crossword.App.Input.{
  open_nth, home_char, home_code, home_key, browse_char, browse_code, ctrl_code, browsed,
  browse_key, handle_key,
}
use scratchpad.Crossword.App.Solving.{solve_key}
use scratchpad.Crossword.App.Valid.{BrowseOk, IsValid}

-- The call returns.
abbrev pub Answers {ℓ} : {A : Type ℓ} → Option A → Type 0
Answers o = present o ≡ true

Answers-bind {ℓ κ} :
    {A : Type ℓ} {B : Type κ} (o : Option A) (f : A → Option B)
    → Answers o
    → ((a : A) → Answers (f a))
    → Answers (o >>= f)
Answers-bind none f h k = absurd (cc)
Answers-bind (some a) f h k = k a

Answers-if {ℓ} :
    {A : Type ℓ} (b : Bool) (x y : Option A)
    → (b ≡ true → Answers x)
    → (b ≡ false → Answers y)
    → Answers (if b then x else y)
Answers-if b x y h k = if-cases Answers b x y h k

get_elem?-Answers {ℓ} :
    {A : Type ℓ} (xs : List A) (i : ℕ) → i < length xs → Answers (get_elem? xs i)
get_elem?-Answers [] i h = elim h [ ]
get_elem?-Answers (x ∷ xs) zero h = refl
get_elem?-Answers (x ∷ xs) (suc i) h = get_elem?-Answers xs i (omega (arith, h))

module _ (a : App) (v : IsValid a) where
  open_nth-Answers : (i : ℕ) → i < 3 → Answers (open_nth i a)
  open_nth-Answers i h =
      Answers-bind (get_elem? all_sizes i) _ (get_elem?-Answers all_sizes i h) (λ size. refl)

  home_char-Answers : (c : ℕ) → Answers (home_char c a)
  home_char-Answers c =
      Answers-if (c == b'j') _ _ (λ _. refl)
        (λ _.
          Answers-if (c == b'k') _ _ (λ _. refl)
            (λ _.
              Answers-if (c == b'g') _ _ (λ _. refl)
                (λ _.
                  Answers-if (c == b'G') _ _ (λ _. refl)
                    (λ _.
                      Answers-if (leb b'1' c && leb c b'3') _ _
                        (λ e. open_nth-Answers (c - b'1') (ground (arith, e)))
                        (λ _.
                          Answers-if (c == b'l') _ _
                            (λ _. open_nth-Answers a.home_selected v.chosen_ok)
                            (λ _.
                              Answers-if (c == b'q') _ _ (λ _. refl)
                                (λ _. Answers-if (c == b'?') _ _ (λ _. refl) (λ _. refl))))))))

  home_code-Answers : (ctrl : Bool) (code : KeyCode) → Answers (home_code ctrl code a)
  unfolding home_code
  home_code-Answers ctrl (KeyCode.char c) =
      Answers-if (ctrl && c == b'c') _ _ (λ _. refl) (λ _. home_char-Answers c)
  home_code-Answers ctrl KeyCode.enter = open_nth-Answers a.home_selected v.chosen_ok
  home_code-Answers ctrl KeyCode.right = open_nth-Answers a.home_selected v.chosen_ok
  home_code-Answers ctrl _ = refl

  current_tab-Answers : (b : Browse) → BrowseOk (some b) → Answers (current_tab b)
  unfolding current_tab
  current_tab-Answers b h = get_elem?-Answers b.tabs b.active h.0

  on_tab-Answers :
      (change : Tab → Tab) (b : Browse) → BrowseOk (some b) → Answers (on_tab change a b)
  unfolding on_tab
  on_tab-Answers change b h = Answers-bind (current_tab b) _ (current_tab-Answers b h) (λ t. refl)

  when_browsing-Answers :
      (act : Browse → Option App)
      → ((b : Browse) → BrowseOk (some b) → Answers (act b))
      → Answers (when_browsing a act)
  when_browsing-Answers act h = go a.browse v.lists
    where
      go :
          (o : Option Browse)
          → BrowseOk o
          → Answers (elim o as (λ _. Option App) [ none ↦ some a | some b ↦ act b ])
      go none ok = refl
      go (some b) ok = h b ok

  reload-Answers : Answers (reload a)
  unfolding reload
  reload-Answers = when_browsing-Answers _ (λ b h.
      Answers-bind (current_tab b) _ (current_tab-Answers b h)
        (λ t. Answers-bind (on_tab _ a b) _ (on_tab-Answers _ b h) (λ a'. refl)))

  open_selected-Answers : Answers (open_selected a)
  unfolding open_selected selected_item
  open_selected-Answers = when_browsing-Answers _ (λ b h.
      Answers-bind (selected_item b) _
        (Answers-bind (current_tab b) _ (current_tab-Answers b h) (λ t. refl)) (λ item. refl))

  module _ (b : Browse) (h : BrowseOk (some b)) where
    ctrl_code-Answers : (code : KeyCode) → Answers (ctrl_code code a b)
    unfolding ctrl_code
    ctrl_code-Answers (KeyCode.char c) =
        Answers-if (c == b'c') _ _ (λ _. refl)
          (λ _.
            Answers-if (c == b'd' || c == b'f') _ _ (λ _. on_tab-Answers _ b h)
              (λ _.
                Answers-if (c == b'u' || c == b'b') _ _ (λ _. on_tab-Answers _ b h) (λ _. refl)))
    ctrl_code-Answers _ = refl

    browse_char-Answers : (c : ℕ) → Answers (browse_char c a b)
    browse_char-Answers c =
        Answers-if (c == b'j') _ _ (λ _. on_tab-Answers _ b h)
          (λ _.
            Answers-if (c == b'k') _ _ (λ _. on_tab-Answers _ b h)
              (λ _.
                Answers-if (c == b'g') _ _ (λ _. on_tab-Answers _ b h)
                  (λ _.
                    Answers-if (c == b'G') _ _ (λ _. on_tab-Answers _ b h)
                      (λ _.
                        Answers-if (c == b'l') _ _ (λ _. refl)
                          (λ _.
                            Answers-if (c == b'h') _ _ (λ _. refl)
                              (λ _.
                                Answers-if (c == b'r') _ _ (λ _. reload-Answers)
                                  (λ _.
                                    Answers-if (c == b'q') _ _ (λ _. refl)
                                      (λ _.
                                        Answers-if (c == b'?') _ _ (λ _. refl) (λ _. refl)))))))))

    browse_code-Answers : (code : KeyCode) → Answers (browse_code code a b)
    unfolding browse_code
    browse_code-Answers (KeyCode.char c) = browse_char-Answers c
    browse_code-Answers KeyCode.down = on_tab-Answers _ b h
    browse_code-Answers KeyCode.up = on_tab-Answers _ b h
    browse_code-Answers KeyCode.page_down = on_tab-Answers _ b h
    browse_code-Answers KeyCode.page_up = on_tab-Answers _ b h
    browse_code-Answers KeyCode.home = on_tab-Answers _ b h
    browse_code-Answers KeyCode.end = on_tab-Answers _ b h
    browse_code-Answers KeyCode.enter = open_selected-Answers
    browse_code-Answers _ = refl

  browsed-Answers : (key : Key) (o : Option Browse) → BrowseOk o → Answers (browsed key a o)
  browsed-Answers key none h = refl
  browsed-Answers key (some b) h = Answers-bind (current_tab b) _ (current_tab-Answers b h) (λ t.
      Answers-if (is_ctrl key) _ _ (λ _. ctrl_code-Answers b h key.code)
        (λ _. browse_code-Answers b h key.code))

-- In a valid application, a key is answered whenever the help is open or a puzzle is not: no index is out
-- of range on the screens of the sizes and the listings.
pub handle_key-Answers :
    (env : Env) (disk : Disk) (key : Key) (now : ℕ) (a : App)
    → IsValid a
    → ((a.screen ≡ solve_screen) → a.show_help ≡ true)
    → Answers (handle_key env disk key now a)
unfolding handle_key home_key browse_key
handle_key-Answers env disk key now a v reach =
    Answers-if a.show_help _ _ (λ _. refl)
      (λ e. on_screen a.screen (λ q. let open_help = reach q in cc))
  where
    on_screen :
        (s : Screen)
        → (s ≡ solve_screen → true ≡ false)
        → Answers (elim s as (λ _. Option App) [
          | home_screen ↦ home_code (is_ctrl key) key.code (record a { message = none })
          | browse_screen ↦ browsed key (record a { message = none }) a.browse
          | solve_screen ↦ solve_key env disk key now a
        ])
    on_screen home_screen h =
        home_code-Answers (record a { message = none }) v (is_ctrl key) key.code
    on_screen browse_screen h = browsed-Answers (record a { message = none }) v key a.browse v.lists
    on_screen solve_screen h = absurd (let q = h refl in cc)
