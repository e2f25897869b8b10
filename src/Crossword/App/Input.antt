-- ===== src/Crossword/App/Input.antt =====
-- app.rs: `handle_key`, the keys of the first two screens, and every event that reaches the application.
use scratchpad.Common.{
  ℕ, ◌+◌, ◌-◌, ◌%◌, ◌^◌, min, Bool, true, false, ◌&&◌, ◌||◌, Option, none, some, List, [], ◌∷◌,
  ◌==◌, leb, if◌then◌else◌, length, get_elem?,
}
use scratchpad.Crossword.Game.{◌>>=◌}
use scratchpad.Crossword.Keys.{KeyCode, Key, is_ctrl}
use scratchpad.Crossword.Sources.{Size, all_sizes, Response}
use scratchpad.Crossword.Store.{Disk}
use scratchpad.Crossword.Solve.{Env}
use scratchpad.Crossword.App.{
  App, Browse, home_screen, browse_screen, solve_screen, open_help, close_help, set_help_max_scroll,
  set_page_len, screen_back, take_requests, tick, quit,
}
use scratchpad.Crossword.App.Listings.{
  Delta, forward, back, as_signed, negated, move_selection, on_tab, current_tab, open_size,
  select_tab, reload, open_selected, open_item, turn_page,
}
use scratchpad.Crossword.App.Solving.{
  click_cell, click_clue, set_focus, on_response, leave_puzzle, solve_key,
}

abbrev pub scrolls_down : KeyCode → Bool
scrolls_down (KeyCode.char c) = c == b'j'
scrolls_down KeyCode.down = true
scrolls_down _ = false

abbrev pub scrolls_up : KeyCode → Bool
scrolls_up (KeyCode.char c) = c == b'k'
scrolls_up KeyCode.up = true
scrolls_up _ = false

-- Two keys scroll the help and any other closes it. The `u16` wraps, as in a build without overflow checks.
unfoldable pub help_key : KeyCode → App → App
help_key code a =
    if scrolls_down code
    then record a { help_scroll = min ((a.help_scroll + 1) % 2 ^ 16) a.help_max_scroll }
    else if scrolls_up code
    then record a { help_scroll = a.help_scroll - 1 }
    else record a { show_help = false }

-- `Size::ALL[index]`
abbrev pub open_nth : ℕ → App → Option App
open_nth index a = get_elem? all_sizes index >>= λ size. some (open_size size a)

abbrev pub last_size : ℕ
last_size = length all_sizes - 1

abbrev pub next_size : App → App
next_size a = record a { home_selected = min (a.home_selected + 1) last_size }

abbrev pub prev_size : App → App
prev_size a = record a { home_selected = a.home_selected - 1 }

abbrev pub home_char : ℕ → App → Option App
home_char c a =
    if c == b'j'
    then some (next_size a)
    else if c == b'k'
    then some (prev_size a)
    else if c == b'g'
    then some (record a { home_selected = 0 })
    else if c == b'G'
    then some (record a { home_selected = last_size })
    else if leb b'1' c && leb c b'3'
    then open_nth (c - b'1') a
    else if c == b'l'
    then open_nth a.home_selected a
    else if c == b'q'
    then some (record a { should_quit = true })
    else if c == b'?'
    then some (open_help a)
    else some a

unfoldable pub home_code : Bool → KeyCode → App → Option App
home_code ctrl (KeyCode.char c) a =
    if ctrl && c == b'c' then some (record a { should_quit = true }) else home_char c a
home_code ctrl KeyCode.down a = some (next_size a)
home_code ctrl KeyCode.up a = some (prev_size a)
home_code ctrl KeyCode.home a = some (record a { home_selected = 0 })
home_code ctrl KeyCode.end a = some (record a { home_selected = last_size })
home_code ctrl KeyCode.enter a = open_nth a.home_selected a
home_code ctrl KeyCode.right a = open_nth a.home_selected a
home_code ctrl _ a = some a

unfoldable pub home_key : Key → App → Option App
unfolding home_code
home_key key a = home_code (is_ctrl key) key.code (record a { message = none })

-- A change of the selection of the current tab
abbrev pub shifted : Delta → App → Browse → Option App
shifted delta = on_tab (move_selection delta)

abbrev pub to_top : App → Browse → Option App
to_top = on_tab (λ t. record t { selected = 0 })

-- `isize::MAX`
abbrev pub to_bottom : App → Browse → Option App
to_bottom = shifted (forward (2 ^ 63 - 1))

abbrev pub next_tab : App → Browse → Option App
next_tab a b = some (select_tab ((b.active + 1) % length b.tabs) a)

abbrev pub prev_tab : App → Browse → Option App
prev_tab a b = some (select_tab ((b.active + length b.tabs - 1) % length b.tabs) a)

abbrev pub ctrl_browse : ℕ → App → Browse → Option App
ctrl_browse c a b =
    if c == b'c'
    then some (record a { should_quit = true })
    else if c == b'd' || c == b'f'
    then shifted (as_signed a.page_len) a b
    else if c == b'u' || c == b'b'
    then shifted (negated (as_signed a.page_len)) a b
    else some a

abbrev pub browse_char : ℕ → App → Browse → Option App
browse_char c a b =
    if c == b'j'
    then shifted (forward 1) a b
    else if c == b'k'
    then shifted (back 1) a b
    else if c == b'g'
    then to_top a b
    else if c == b'G'
    then to_bottom a b
    else if c == b'l'
    then next_tab a b
    else if c == b'h'
    then prev_tab a b
    else if c == b'r'
    then reload a
    else if c == b'q'
    then some (screen_back a)
    else if c == b'?'
    then some (open_help a)
    else some a

unfoldable pub browse_code : KeyCode → App → Browse → Option App
browse_code (KeyCode.char c) a b = browse_char c a b
browse_code KeyCode.down a b = shifted (forward 1) a b
browse_code KeyCode.up a b = shifted (back 1) a b
browse_code KeyCode.page_down a b = shifted (as_signed a.page_len) a b
browse_code KeyCode.page_up a b = shifted (negated (as_signed a.page_len)) a b
browse_code KeyCode.home a b = to_top a b
browse_code KeyCode.end a b = to_bottom a b
browse_code KeyCode.right a b = next_tab a b
browse_code KeyCode.tab a b = next_tab a b
browse_code KeyCode.left a b = prev_tab a b
browse_code KeyCode.back_tab a b = prev_tab a b
browse_code KeyCode.enter a b = open_selected a
browse_code KeyCode.esc a b = some (screen_back a)
browse_code _ a b = some a

unfoldable pub ctrl_code : KeyCode → App → Browse → Option App
ctrl_code (KeyCode.char c) a b = ctrl_browse c a b
ctrl_code _ a b = some a

-- The current tab is looked up before the key, so an index out of range fails whatever the key is.
abbrev pub browsed : Key → App → Option Browse → Option App
browsed key a none = some (record a { screen = home_screen })
browsed key a (some b) = current_tab b >>= λ tab.
    if is_ctrl key then ctrl_code key.code a b else browse_code key.code a b

unfoldable pub browse_key : Key → App → Option App
unfolding browse_code ctrl_code
browse_key key a = browsed key (record a { message = none }) a.browse

module _ (env : Env) (disk : Disk) where
  unfoldable pub handle_key : Key → ℕ → App → Option App
  unfolding help_key home_key browse_key
  handle_key key now a = if a.show_help then some (help_key key.code a) else elim a.screen [
    | home_screen ↦ home_key key a
    | browse_screen ↦ browse_key key a
    | solve_screen ↦ solve_key env disk key now a
  ]

  -- `App::back`
  unfoldable pub go_back : ℕ → App → App
  go_back now a = elim a.screen [
    | home_screen ↦ a
    | browse_screen ↦ screen_back a
    | solve_screen ↦ leave_puzzle env disk now a
  ]

-- The calls of a frontend, each with what it reports.
pub data Event : Type 0 where
  key_pressed : Key → ℕ → Event
  responded : Response → ℕ → Event
  ticked : ℕ → Event
  focused : Bool → ℕ → Event
  cell_clicked : ℕ → Event
  clue_clicked : ℕ → Event
  tab_clicked : ℕ → Event
  item_clicked : ℕ → Event
  size_clicked : Size → Event
  page_turned : Delta → Event
  reload_clicked : Event
  back_clicked : ℕ → Event
  quit_asked : ℕ → Event
  help_asked : Event
  help_closed : Event
  help_drawn : ℕ → Event
  list_drawn : ℕ → Event
  requests_taken : Event

module _ (env : Env) (disk : Disk) where
  unfoldable pub handle : Event → App → Option App
  unfolding handle_key go_back
  handle (key_pressed key now) a = handle_key env disk key now a
  handle (responded response now) a = on_response env disk response now a
  handle (ticked now) a = some (tick env disk now a)
  handle (focused on now) a = some (set_focus env disk on now a)
  handle (cell_clicked cell) a = some (click_cell cell a)
  handle (clue_clicked entry) a = click_clue entry a
  handle (tab_clicked index) a = some (select_tab index a)
  handle (item_clicked index) a = open_item index a
  handle (size_clicked size) a = some (open_size size a)
  handle (page_turned pages) a = turn_page pages a
  handle reload_clicked a = reload a
  handle (back_clicked now) a = some (go_back env disk now a)
  handle (quit_asked now) a = some (quit env disk now a)
  handle help_asked a = some (open_help a)
  handle help_closed a = some (close_help a)
  handle (help_drawn limit) a = some (set_help_max_scroll limit a)
  handle (list_drawn len) a = some (set_page_len len a)
  handle requests_taken a = some (take_requests a).0

  unfoldable pub session : List Event → App → Option App
  unfolding handle
  session [] a = some a
  session (e ∷ events) a = handle e a >>= session events
