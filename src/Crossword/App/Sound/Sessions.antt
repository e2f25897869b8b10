-- ===== src/Crossword/App/Sound/Sessions.antt =====
-- Every key on the first two screens, and every sequence of calls of a frontend.
use scratchpad.Common.{
  ℕ, ◌-◌, ◌^◌, ◌≤◌, ◌≡◌, Bool, ◌&&◌, ◌||◌, Option, none, some, List, [], ◌∷◌, ◌==◌, ltb, leb, arith,
  if-cases, get_elem?,
}
use scratchpad.Crossword.Game.Sound.Moves.{Ensures, Ensures-bind, Ensures-if}
use scratchpad.Crossword.Keys.{KeyCode, Key, is_ctrl}
use scratchpad.Crossword.Sources.{all_sizes}
use scratchpad.Crossword.Store.{Store, Disk}
use scratchpad.Crossword.Solve.{Env}
use scratchpad.Crossword.App.Solving.{solve_key, leave_puzzle}
use scratchpad.Crossword.App.{
  App, Browse, Listing, loading, ready, failed_with, Screen, home_screen, browse_screen,
  solve_screen, new_app, open_help, close_help, screen_back, set_help_max_scroll, set_page_len,
  take_requests,
}
use scratchpad.Crossword.App.Listings.{Delta, forward, back, as_signed, negated, current_tab}
use scratchpad.Crossword.App.Input.{
  scrolls_down, scrolls_up, help_key, open_nth, next_size, prev_size, home_char, home_code,
  home_key, shifted, to_top, ctrl_browse, browse_char, browse_code, ctrl_code, browsed, browse_key,
  handle_key, go_back, Event, key_pressed, responded, ticked, focused, cell_clicked, clue_clicked,
  tab_clicked, item_clicked, size_clicked, page_turned, reload_clicked, back_clicked, quit_asked,
  help_asked, help_closed, help_drawn, list_drawn, requests_taken, handle, session,
}
use scratchpad.Crossword.App.Valid.{
  SelectedOk, BrowseOk, IsValid, with_scroll, with_choice, with_page, move_selection-TabOk,
  on_tab-IsValid, select_tab-IsValid,
}
use scratchpad.Crossword.App.Valid.Lists.{
  open_size-IsValid, reload-IsValid, turn_page-IsValid, open_selected-IsValid, open_item-IsValid,
}
use scratchpad.Crossword.App.Sound.{
  tick-IsValid, quit-IsValid, click_cell-IsValid, click_clue-IsValid, set_focus-IsValid,
}
use scratchpad.Crossword.App.Sound.Events.{
  on_response-IsValid, leave_puzzle-IsValid, solve_key-IsValid,
}

module _ (a : App) (v : IsValid a) where
  help_key-IsValid : (code : KeyCode) → IsValid (help_key code a)
  unfolding help_key
  help_key-IsValid code =
      if-cases IsValid (scrolls_down code) _ _ (λ _. with_scroll v (omega arith))
        (λ _.
          if-cases IsValid (scrolls_up code) _ _ (λ _. with_scroll v (omega (arith, v.scrolled)))
            (λ _. v))

  next_size-IsValid : IsValid (next_size a)
  next_size-IsValid = with_choice v (omega arith)

  prev_size-IsValid : IsValid (prev_size a)
  prev_size-IsValid = with_choice v (omega (arith, v.chosen_ok))

  open_nth-IsValid : (i : ℕ) → Ensures IsValid (open_nth i a)
  open_nth-IsValid i =
      Ensures-bind IsValid (get_elem? all_sizes i) _ (λ size _. open_size-IsValid a v size)

  home_char-IsValid : (c : ℕ) → Ensures IsValid (home_char c a)
  unfolding open_help
  home_char-IsValid c =
      Ensures-if IsValid (c == b'j') _ _ (λ _. next_size-IsValid)
        (λ _.
          Ensures-if IsValid (c == b'k') _ _ (λ _. prev_size-IsValid)
            (λ _.
              Ensures-if IsValid (c == b'g') _ _ (λ _. with_choice v (omega arith))
                (λ _.
                  Ensures-if IsValid (c == b'G') _ _ (λ _. with_choice v (omega arith))
                    (λ _.
                      Ensures-if IsValid (leb b'1' c && leb c b'3') _ _
                        (λ _. open_nth-IsValid (c - b'1'))
                        (λ _.
                          Ensures-if IsValid (c == b'l') _ _ (λ _. open_nth-IsValid a.home_selected)
                            (λ _.
                              Ensures-if IsValid (c == b'q') _ _ (λ _. v)
                                (λ _.
                                  Ensures-if IsValid (c == b'?') _ _
                                    (λ _. with_scroll v (omega arith)) (λ _. v))))))))

  home_code-IsValid : (ctrl : Bool) (code : KeyCode) → Ensures IsValid (home_code ctrl code a)
  unfolding home_code
  home_code-IsValid ctrl (KeyCode.char c) =
      Ensures-if IsValid (ctrl && c == b'c') _ _ (λ _. v) (λ _. home_char-IsValid c)
  home_code-IsValid ctrl KeyCode.down = next_size-IsValid
  home_code-IsValid ctrl KeyCode.up = prev_size-IsValid
  home_code-IsValid ctrl KeyCode.home = with_choice v (omega arith)
  home_code-IsValid ctrl KeyCode.end = with_choice v (omega arith)
  home_code-IsValid ctrl KeyCode.enter = open_nth-IsValid a.home_selected
  home_code-IsValid ctrl KeyCode.right = open_nth-IsValid a.home_selected
  home_code-IsValid ctrl _ = v

  module _ (b : Browse) (h : BrowseOk (some b)) where
    shifted-IsValid : (delta : Delta) → Ensures IsValid (shifted delta a b)
    shifted-IsValid delta = on_tab-IsValid a v _ b h (λ t _. move_selection-TabOk delta t)

    to_top-IsValid : Ensures IsValid (to_top a b)
    to_top-IsValid = on_tab-IsValid a v _ b h (λ t _. of_listing t.listing)
      where
        of_listing : (l : Listing) → SelectedOk l 0
        of_listing loading = tt
        of_listing (ready items) = omega arith
        of_listing (failed_with e) = tt

    ctrl_browse-IsValid : (c : ℕ) → Ensures IsValid (ctrl_browse c a b)
    ctrl_browse-IsValid c =
        Ensures-if IsValid (c == b'c') _ _ (λ _. v)
          (λ _.
            Ensures-if IsValid (c == b'd' || c == b'f') _ _
              (λ _. shifted-IsValid (as_signed a.page_len))
              (λ _.
                Ensures-if IsValid (c == b'u' || c == b'b') _ _
                  (λ _. shifted-IsValid (negated (as_signed a.page_len))) (λ _. v)))

    browse_char-IsValid : (c : ℕ) → Ensures IsValid (browse_char c a b)
    unfolding open_help screen_back
    browse_char-IsValid c =
        Ensures-if IsValid (c == b'j') _ _ (λ _. shifted-IsValid (forward 1))
          (λ _.
            Ensures-if IsValid (c == b'k') _ _ (λ _. shifted-IsValid (back 1))
              (λ _.
                Ensures-if IsValid (c == b'g') _ _ (λ _. to_top-IsValid)
                  (λ _.
                    Ensures-if IsValid (c == b'G') _ _ (λ _. shifted-IsValid (forward (2 ^ 63 - 1)))
                      (λ _.
                        Ensures-if IsValid (c == b'l') _ _ (λ _. select_tab-IsValid a v _)
                          (λ _.
                            Ensures-if IsValid (c == b'h') _ _ (λ _. select_tab-IsValid a v _)
                              (λ _.
                                Ensures-if IsValid (c == b'r') _ _ (λ _. reload-IsValid a v)
                                  (λ _.
                                    Ensures-if IsValid (c == b'q') _ _ (λ _. v)
                                      (λ _.
                                        Ensures-if IsValid (c == b'?') _ _
                                          (λ _. with_scroll v (omega arith)) (λ _. v)))))))))

    browse_code-IsValid : (code : KeyCode) → Ensures IsValid (browse_code code a b)
    unfolding browse_code screen_back
    browse_code-IsValid (KeyCode.char c) = browse_char-IsValid c
    browse_code-IsValid KeyCode.down = shifted-IsValid (forward 1)
    browse_code-IsValid KeyCode.up = shifted-IsValid (back 1)
    browse_code-IsValid KeyCode.page_down = shifted-IsValid (as_signed a.page_len)
    browse_code-IsValid KeyCode.page_up = shifted-IsValid (negated (as_signed a.page_len))
    browse_code-IsValid KeyCode.home = to_top-IsValid
    browse_code-IsValid KeyCode.end = shifted-IsValid (forward (2 ^ 63 - 1))
    browse_code-IsValid KeyCode.right = select_tab-IsValid a v _
    browse_code-IsValid KeyCode.tab = select_tab-IsValid a v _
    browse_code-IsValid KeyCode.left = select_tab-IsValid a v _
    browse_code-IsValid KeyCode.back_tab = select_tab-IsValid a v _
    browse_code-IsValid KeyCode.enter = open_selected-IsValid a v
    browse_code-IsValid KeyCode.esc = v
    browse_code-IsValid _ = v

    ctrl_code-IsValid : (code : KeyCode) → Ensures IsValid (ctrl_code code a b)
    unfolding ctrl_code
    ctrl_code-IsValid (KeyCode.char c) = ctrl_browse-IsValid c
    ctrl_code-IsValid _ = v

  browsed-IsValid : (key : Key) (o : Option Browse) → BrowseOk o → Ensures IsValid (browsed key a o)
  browsed-IsValid key none h = v
  browsed-IsValid key (some b) h = Ensures-bind IsValid (current_tab b) _ (λ tab _.
      Ensures-if IsValid (is_ctrl key) _ _ (λ _. ctrl_code-IsValid b h key.code)
        (λ _. browse_code-IsValid b h key.code))

module _ (env : Env) (disk : Disk) (a : App) (v : IsValid a) where
  handle_key-IsValid : (key : Key) (now : ℕ) → Ensures IsValid (handle_key env disk key now a)
  unfolding handle_key home_key browse_key
  handle_key-IsValid key now =
      Ensures-if IsValid a.show_help _ _ (λ _. help_key-IsValid a v key.code)
        (λ _. on_screen a.screen)
    where
      on_screen :
          (s : Screen)
          → Ensures IsValid (elim s as (λ _. Option App) [
            | home_screen ↦ home_code (is_ctrl key) key.code (record a { message = none })
            | browse_screen ↦ browsed key (record a { message = none }) a.browse
            | solve_screen ↦ solve_key env disk key now a
          ])
      on_screen home_screen =
          home_code-IsValid (record a { message = none }) v (is_ctrl key) key.code
      on_screen browse_screen = browsed-IsValid (record a { message = none }) v key a.browse v.lists
      on_screen solve_screen = solve_key-IsValid env disk key now a v

  go_back-IsValid : (now : ℕ) → IsValid (go_back env disk now a)
  unfolding go_back screen_back
  go_back-IsValid now = on_screen a.screen
    where
      on_screen :
          (s : Screen)
          → IsValid (elim s as (λ _. App) [
            | home_screen ↦ a
            | browse_screen ↦ screen_back a
            | solve_screen ↦ leave_puzzle env disk now a
          ])
      on_screen home_screen = v
      on_screen browse_screen = v
      on_screen solve_screen = leave_puzzle-IsValid env disk now a v

  handle-IsValid : (e : Event) → Ensures IsValid (handle env disk e a)
  unfolding handle open_help close_help set_help_max_scroll set_page_len take_requests
  handle-IsValid (key_pressed key now) = handle_key-IsValid key now
  handle-IsValid (responded r now) = on_response-IsValid env disk a v r now
  handle-IsValid (ticked now) = tick-IsValid env disk now a v
  handle-IsValid (focused on now) = set_focus-IsValid env disk a v on now
  handle-IsValid (cell_clicked cell) = click_cell-IsValid a v cell
  handle-IsValid (clue_clicked entry) = click_clue-IsValid a v entry
  handle-IsValid (tab_clicked index) = select_tab-IsValid a v index
  handle-IsValid (item_clicked index) = open_item-IsValid a v index
  handle-IsValid (size_clicked size) = open_size-IsValid a v size
  handle-IsValid (page_turned pages) = turn_page-IsValid a v pages
  handle-IsValid reload_clicked = reload-IsValid a v
  handle-IsValid (back_clicked now) = go_back-IsValid now
  handle-IsValid (quit_asked now) = quit-IsValid env disk now a v
  handle-IsValid help_asked = with_scroll v (omega arith)
  handle-IsValid help_closed = v
  handle-IsValid (help_drawn limit) = with_scroll v (omega arith)
  handle-IsValid (list_drawn len) =
      with_page v (if-cases (λ n. 1 ≤ n) (ltb len 1) 1 len (λ _. omega arith) (λ e. ground arith))
  handle-IsValid requests_taken = v

module _ (env : Env) (disk : Disk) where
  session-Ensures :
      (events : List Event) (a : App) → IsValid a → Ensures IsValid (session env disk events a)
  unfolding session
  session-Ensures [] a v = v
  session-Ensures (e ∷ events) a v =
      Ensures-bind IsValid (handle env disk e a) _
        (λ a' q. session-Ensures events a' (rw q at (handle-IsValid env disk a v e)))

  new_app-IsValid : (help_lines : ℕ) (store : Option Store) → IsValid (new_app help_lines store)
  unfolding new_app
  new_app-IsValid help_lines store = record {
    scrolled = omega arith;
    chosen_ok = omega arith;
    page_ok = omega arith;
    lists = tt;
    play = tt;
  }

  -- From a new application, every sequence of calls that returns leaves it valid: the help scrolls no
  -- further than it can, one of the three sizes is chosen, a page holds at least one item, the current
  -- tab exists, a selection is of its listing's items, and an open game is sound on a playable puzzle.
  pub session-IsValid :
      (help_lines : ℕ) (store : Option Store) (events : List Event) {a : App}
      → session env disk events (new_app help_lines store) ≡ some a
      → IsValid a
  session-IsValid help_lines store events e =
      rw e at (session-Ensures events (new_app help_lines store) (new_app-IsValid help_lines store))
