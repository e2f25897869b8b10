-- ===== src/Morse/App.antt =====
-- morse_trainer/src/app.rs: the state of the application and the calls that change it.
pub mod Valid
use scratchpad.Common.{
  ℕ, zero, suc, ◌+◌, ◌-◌, ◌%◌, ◌<◌, ◌≡◌, refl, ◌⊎◌, inl, inr, Bool, true, false, not, Option, none,
  some, List, [], ◌∷◌, ◌++◌, arith, Bytes, bytes_eq, pop, if◌then◌else◌, if-cases, length,
  get_elem?,
}
use scratchpad.Morse.{InputEvent, Symbol, char, backspace, Sequence, decode}
use scratchpad.Morse.Lessons.{Track, lessons_track, phrases_track, lesson_count, prompt}

pub data Screen : Type 0 where
  menu lesson_picker practice : Screen

pub data Mode : Type 0 where
  free_text prompted : Mode

pub record App : Type 0 where
  pub screen : Screen
  pub mode : Mode
  pub track : Track
  pub lesson : ℕ
  pub prompt_index : ℕ
  pub selection : ℕ
  pub output : Bytes
  pub typed : Bytes
  pub target : Bytes
  pub show_hint : Bool
  pub show_legend : Bool
  pub should_quit : Bool
  pub seq : Sequence

-- `App::default`
abbrev pub new_app : App
new_app = record {
  screen = menu;
  mode = free_text;
  track = phrases_track;
  lesson = 0;
  prompt_index = 0;
  selection = 0;
  output = [];
  typed = [];
  target = [];
  show_hint = false;
  show_legend = false;
  should_quit = false;
  seq = [];
}

abbrev pub menu_len : Screen → ℕ
menu_len menu = 2
menu_len lesson_picker = 1 + lesson_count
menu_len practice = 0

abbrev push_on : Screen → InputEvent → App → App
push_on practice e a = record a { seq = a.seq ++ e ∷ [] }
push_on _ e a = a

unfoldable pub push : InputEvent → App → App
push e a = push_on a.screen e a

unfoldable pub load_prompt : App → App
load_prompt a = record a { target = prompt a.track a.lesson a.prompt_index; typed = [] }

unfoldable pub next_prompt : App → App
unfolding load_prompt
next_prompt a = load_prompt (record a { prompt_index = a.prompt_index + 1 })

-- The `match` on the mode and the symbol.
unfoldable pub apply_symbol : Mode → Symbol → App → App
unfolding next_prompt
apply_symbol free_text (char c) a = record a { output = a.output ++ c ∷ [] }
apply_symbol free_text backspace a = record a { output = pop a.output }
apply_symbol prompted (char c) a =
    let a' = record a { typed = a.typed ++ c ∷ [] } in
    if bytes_eq a'.typed a'.target then next_prompt a' else a'
apply_symbol prompted backspace a = record a { typed = pop a.typed }

abbrev apply_decoded : Option Symbol → App → App
apply_decoded none a = a
apply_decoded (some symbol) a = apply_symbol a.mode symbol a

unfoldable pub commit_sequence : App → App
unfolding apply_symbol
commit_sequence a = apply_decoded (decode a.seq) (record a { seq = [] })

unfoldable pub next_expected_char : App → Option ℕ
next_expected_char a = get_elem? a.target (length a.typed)

unfoldable pub menu_up : App → App
menu_up a = elim (menu_len a.screen) [
  | zero ↦ a
  | suc n ↦ record a { selection = (a.selection + suc n - 1) % suc n }
]

unfoldable pub menu_down : App → App
menu_down a = elim (menu_len a.screen) [
  | zero ↦ a
  | suc n ↦ record a { selection = (a.selection + 1) % suc n }
]

unfoldable pub start_free_text : App → App
start_free_text a = record a { screen = practice; mode = free_text; output = []; seq = [] }

unfoldable pub start_prompted : Track → ℕ → App → App
unfolding load_prompt
start_prompted track lesson a = load_prompt (record a {
  screen = practice;
  mode = prompted;
  track = track;
  lesson = lesson;
  prompt_index = 0;
  seq = [];
})

unfoldable pub select_on : Screen → ℕ → App → App
unfolding start_free_text start_prompted
select_on menu zero a = start_free_text a
select_on menu (suc _) a = record a { screen = lesson_picker; selection = 0 }
select_on lesson_picker zero a = start_prompted phrases_track 0 a
select_on lesson_picker (suc n) a = start_prompted lessons_track n a
select_on practice _ a = a

unfoldable pub menu_select : App → App
unfolding select_on
menu_select a = select_on a.screen a.selection a

abbrev back_from : Screen → App → App
back_from menu a = record a { should_quit = true }
back_from _ a = record a { screen = menu; selection = 0; seq = [] }

unfoldable pub back : App → App
back a = back_from a.screen a

-- The calls of the event loop, and a sequence of them.
pub data Event : Type 0 where
  pushing : InputEvent → Event
  committing hinting charting going_up going_down selecting backing : Event

unfoldable pub handle : Event → App → App
unfolding push commit_sequence menu_up menu_down menu_select back
handle (pushing e) a = push e a
handle committing a = commit_sequence a
handle hinting a = record a { show_hint = not a.show_hint }
handle charting a = record a { show_legend = not a.show_legend }
handle going_up a = menu_up a
handle going_down a = menu_down a
handle selecting a = menu_select a
handle backing a = back a

unfoldable pub handle_all : List Event → App → App
unfolding handle
handle_all [] a = a
handle_all (e ∷ es) a = handle_all es (handle e a)
