-- ===== src/Crossword/App/Tests.antt =====
-- crossword/core/src/app.rs and store.rs: runs of the application, and the theorems applied to them.
use scratchpad.Common.{
  ℕ, ◌+◌, ◌-◌, ◌*◌, ◌≤◌, ◌<◌, ◌≡◌, refl, true, false, none, some, List, [], ◌∷◌, ◌++◌, arith, codes,
  ◌==◌, leb, ◌⊎◌, length, contains, starts_with, bytes_eq,
}
use scratchpad.Common.Io.{ok}
use scratchpad.Crossword.Puzzle.Letters.{Text, answer_matches, same_letters}
use scratchpad.Crossword.Puzzle.{present, open_at, open_cells, accepts, alternates_at}
use scratchpad.Crossword.Game.{
  Game, letter_at, mark_at, is_locked, position_in_entry, current_entry, entry_cells, entry_is_full,
  first_empty, check_solved, is_correct, is_full,
}
use scratchpad.Crossword.Game.Motion.{seek_blank, enter_entry, wrap_entry}
use scratchpad.Crossword.Game.Edit.{
  reset, put, editable, advance, jump_to_next_blank, type_letters, clear_cell,
}
use scratchpad.Crossword.Game.Undo.{
  fresh, checkpoint, snapshot, drop_unchanged_checkpoint, drop_if, progress,
}
use scratchpad.Crossword.Keys.{KeyCode, plain_key, esc_prefixed}
use scratchpad.Crossword.Sources.{
  mini, princetonian_mini, nyt_mini, PuzzleRef, sources, slug, is_safe_id, list_source, listed,
}
use scratchpad.Crossword.Store.{Store, Disk, FilePath, file}
use scratchpad.Crossword.Store.Paths.{file-injective, file-inside}
use scratchpad.Crossword.Solve.{
  Env, Solve, Mode, normal, insert, quiet, changes, edit, locked_hint, error, say,
}
use scratchpad.Crossword.Solve.Normal.{
  normal_key, plain_normal_key, first_key, arm_of, code_arm, arm_in, run_arm,
}
use scratchpad.Crossword.Solve.Insert.{insert_key, plain_insert_key, insert_code}
use scratchpad.Crossword.Solve.Commands.{mode_key}
use scratchpad.Crossword.Solve.Sound.Commands.{mode_key-locked}
use scratchpad.Crossword.App.{
  App, Tab, Listing, ready, Item, Browse, home_screen, browse_screen, solve_screen, new_app, tick,
}
use scratchpad.Crossword.App.Listings.{
  page, open_size, move_selection, moved_by, current_tab, select_tab,
}
use scratchpad.Crossword.App.Solving.{
  on_source, on_response, on_listed, noted, acted, finish, solve_key,
}
use scratchpad.Crossword.App.Input.{
  Event, size_clicked, responded, key_pressed, session, handle, handle_key, browse_key, browse_code,
}
use scratchpad.Crossword.App.Valid.{IsValid}
use scratchpad.Crossword.App.Sound.Sessions.{session-IsValid}
use scratchpad.Crossword.App.Answers.{handle_key-Answers}
use scratchpad.Crossword.App.Saves.{tick-unsaved}
use scratchpad.Crossword.App.Pages.{page-holds}
use scratchpad.Crossword.Tests.{
  ascii, small_puzzle, blank, game_after, filled_by, small_puzzle-IsPlayable, game_after-IsSound,
}

abbrev letters_only : Env
letters_only = record {
  ops = ascii;
  is_alphanumeric = λ c. leb 97 c;
  upper_char = λ c. c ∷ [];
  is_whitespace = λ c. c == 32;
  debug_text = λ t. t;
  units = 1000;
}

-- A disk that takes every write and has nothing to read.
abbrev empty_disk : Disk
empty_disk = record { read = λ log path. none; failure = λ log path saved. none }

abbrev numbered : Text → PuzzleRef
numbered id = record { source = nyt_mini; id = id; date = none; title = none }

abbrev item_of : Text → Item
item_of id = record { puzzle = numbered id; status = fresh }

abbrev three_items : Tab
three_items = record {
  source = nyt_mini;
  listing = ready (item_of (codes "1") ∷ item_of (codes "2") ∷ item_of (codes "3") ∷ []);
  selected = 2;
}

page-holds_example :
    ((page 2 three_items).start ≤ 2)
    × (2 < (page 2 three_items).end)
    × ((page 2 three_items).end ≤ 3)
    × ((page 2 three_items).end ≤ (page 2 three_items).start + 2)
    × ((page 2 three_items).number < (page 2 three_items).count)
page-holds_example = page-holds 2 three_items (omega arith)

abbrev home_app : App
home_app = record {
  screen = home_screen;
  home_selected = 0;
  browse = none;
  solve = none;
  message = none;
  show_help = false;
  help_scroll = 0;
  help_max_scroll = 40;
  page_len = 10;
  should_quit = false;
  loading = none;
  store = none;
  requests = [];
  unsaved = false;
  last_save = none;
  attempts = [];
}

abbrev two_tabs : Browse
two_tabs = record {
  size = mini;
  tabs =
      record { source = princetonian_mini; listing = Listing.loading; selected = 0 }
      ∷ record {
        source = nyt_mini;
        listing = ready (item_of (codes "1") ∷ item_of (codes "2") ∷ []);
        selected = 0;
      }
      ∷ [];
  active = 1;
}

abbrev events : List Event
events =
    size_clicked mini
    ∷ responded (listed nyt_mini (ok (numbered (codes "1") ∷ numbered (codes "2") ∷ []))) 3
    ∷ key_pressed (plain_key KeyCode.tab) 4
    ∷ []

abbrev listed_app : App
listed_app = record home_app {
  screen = browse_screen;
  browse = some two_tabs;
  requests = list_source princetonian_mini ∷ list_source nyt_mini ∷ [];
}

ran : session letters_only empty_disk events (new_app 40 none) ≡ some listed_app
unfolding session handle handle_key new_app open_size sources on_response on_listed on_source
    move_selection moved_by browse_key browse_code current_tab select_tab
ran = refl

session-IsValid_example : IsValid listed_app
session-IsValid_example = session-IsValid letters_only empty_disk 40 none events ran

listed_app-IsValid : IsValid listed_app
listed_app-IsValid = session-IsValid letters_only empty_disk 40 none events ran

handle_key-Answers_example :
    present (handle_key letters_only empty_disk (plain_key KeyCode.enter) 5 listed_app) ≡ true
handle_key-Answers_example =
    handle_key-Answers letters_only empty_disk (plain_key KeyCode.enter) 5 listed_app
      listed_app-IsValid (λ q. absurd (cc))

abbrev root : FilePath
root = codes "data" ∷ []

abbrev two_path : FilePath
two_path = codes "data" ∷ codes "nyt-mini" ∷ codes "2.json" ∷ []

abbrev titled : PuzzleRef
titled = record (numbered (codes "2")) { title = some (codes "Two") }

two-file : file root (numbered (codes "2")) ≡ some two_path
unfolding file slug is_safe_id bytes_eq
two-file = refl

titled-file : file root titled ≡ some two_path
unfolding file slug is_safe_id bytes_eq
titled-file = refl

file-injective_example : (nyt_mini ≡ nyt_mini) × (codes "2" ≡ codes "2")
file-injective_example = file-injective root (numbered (codes "2")) titled two-file titled-file

file-inside_example :
    (name : Text) × (two_path ≡ root ++ slug nyt_mini ∷ name ∷ [])
    × (contains b'/' (slug nyt_mini) ≡ false)
    × (contains b'/' name ≡ false)
    × (starts_with (codes ".") name ≡ false)
    × (length name ≤ 69)
file-inside_example = file-inside root (numbered (codes "2")) two-file

abbrev solving : Game → Mode → Solve
solving game mode = record {
  built = small_puzzle;
  game = game;
  puzzle = numbered (codes "2");
  mode = mode;
  input = [];
  pending = none;
  count = none;
}

-- `x` on a locked square
locked_key :
    mode_key letters_only 7 normal (plain_key (KeyCode.char b'x')) (solving game_after normal)
    ≡ some (solving game_after normal, record quiet { message = locked_hint })
unfolding mode_key normal_key plain_normal_key first_key esc_prefixed arm_of code_arm arm_in run_arm
    edit checkpoint snapshot clear_cell put editable drop_unchanged_checkpoint drop_if bytes_eq
    open_at
locked_key = refl

mode_key-locked_example :
    ((letter_at game_after.fill 2 ≡ letter_at game_after.fill 2)
      × (is_locked (mark_at game_after.marks 2) ≡ true))
    ⊎ (game_after ≡ reset small_puzzle 7 game_after)
mode_key-locked_example =
    mode_key-locked letters_only 7 (plain_key (KeyCode.char b'x')) (solving game_after normal)
      small_puzzle-IsPlayable game_after-IsSound normal 2 locked_key refl

abbrev store_at : Store
store_at = record { puzzles = root; progress_dir = root }

abbrev typing_app : App
typing_app = record home_app {
  screen = solve_screen;
  store = some store_at;
  solve = some (solving (blank small_puzzle) insert);
}

abbrev b_typed : Game
b_typed = record (blank small_puzzle) { fill = filled_by (codes "B") [] []; cursor = 1 }

abbrev typed_app : App
typed_app = record typing_app { solve = some (solving b_typed insert); unsaved = true }

typed_b :
    mode_key letters_only 7 insert
      (plain_key (KeyCode.char b'b'))
      (solving (blank small_puzzle) insert)
    ≡ some (solving b_typed insert, changes true)
unfolding mode_key insert_key plain_insert_key insert_code esc_prefixed type_letters
    position_in_entry current_entry entry_cells entry_is_full put editable advance
    jump_to_next_blank seek_blank wrap_entry first_empty enter_entry check_solved is_correct
    open_cells open_at accepts alternates_at answer_matches same_letters bytes_eq
typed_b = refl

typed_in :
    solve_key letters_only empty_disk (plain_key (KeyCode.char b'b')) 7 typing_app ≡ some typed_app
unfolding solve_key noted acted finish is_full open_cells open_at mode_key insert_key
    plain_insert_key insert_code esc_prefixed type_letters position_in_entry current_entry
    entry_cells entry_is_full put editable advance jump_to_next_blank seek_blank wrap_entry
    first_empty enter_entry check_solved is_correct accepts alternates_at answer_matches
    same_letters bytes_eq
typed_in = refl

-- A disk that takes no write
abbrev full_disk : Disk
full_disk = record {
  read = λ log path. none;
  failure = λ log path saved. some (codes "No space left on device");
}

abbrev b_under_cursor : Game
b_under_cursor = record b_typed { cursor = 0 }

abbrev b_removed : Game
b_removed = record b_under_cursor {
  fill = filled_by [] [] [];
  undo =
      record {
        fill = b_under_cursor.fill;
        marks = b_under_cursor.marks;
        cursor = 0;
        direction = b_under_cursor.direction;
      }
      ∷ [];
}

abbrev removing_app : App
removing_app = record typing_app { solve = some (solving b_under_cursor normal) }

-- The letter is gone, and the save has failed.
abbrev removed_app : App
removed_app = record typing_app {
  solve = some (solving b_removed normal);
  message = say error (codes "Could not save progress: No space left on device");
  last_save = some 7;
  attempts =
      record {
        path = two_path;
        saved = progress 1000 7 b_removed;
        failed = some (codes "No space left on device");
      }
      ∷ [];
}

abbrev unsaved_app : App
unsaved_app = record typed_app { last_save = some 5 }

tick-unsaved_example : (t : ℕ) × (some 5 ≡ some t) × (9 - t < 10 * 1000)
tick-unsaved_example = tick-unsaved letters_only empty_disk 9 unsaved_app (unfold tick in refl)
