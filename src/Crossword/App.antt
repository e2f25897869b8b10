-- ===== src/Crossword/App.antt =====
-- crossword/core/src/app.rs: the state of the application, its screens and its saves. The store's disk,
-- the clock and what Unicode decides are parameters; an index out of range is `none`.
pub mod Listings
pub mod Solving
pub mod Input
pub mod Valid
pub mod Saves
pub mod Pages
pub mod Answers
mod Tests
pub mod Sound
use scratchpad.Common.{
  ℕ, ◌-◌, ◌*◌, min, Bool, true, false, ◌&&◌, Option, none, some, List, [], ◌∷◌, ◌++◌, codes, leb,
  ltb, if◌then◌else◌,
}
use scratchpad.Crossword.Puzzle.Letters.{Text}
use scratchpad.Crossword.Game.Undo.{Progress, Status, progress}
use scratchpad.Crossword.Sources.{Size, SourceId, PuzzleRef, Request}
use scratchpad.Crossword.Store.{Store, Attempt, Disk, save_progress}
use scratchpad.Crossword.Solve.{Env, Solve, Message, error, say}

pub data Screen : Type 0 where
  home_screen browse_screen solve_screen : Screen

pub record Item : Type 0 where
  pub puzzle : PuzzleRef
  pub status : Status

pub data Listing : Type 0 where
  loading : Listing
  ready : List Item → Listing
  failed_with : Text → Listing

pub record Tab : Type 0 where
  pub source : SourceId
  pub listing : Listing
  pub selected : ℕ

pub record Browse : Type 0 where
  pub size : Size
  pub tabs : List Tab
  pub active : ℕ

-- `attempts` is what the store was given to write and how each ended, the latest first.
pub record App : Type 0 where
  pub screen : Screen
  pub home_selected : ℕ
  pub browse : Option Browse
  pub solve : Option Solve
  pub message : Option Message
  pub show_help : Bool
  pub help_scroll : ℕ
  pub help_max_scroll : ℕ
  pub page_len : ℕ
  pub should_quit : Bool
  pub loading : Option PuzzleRef
  pub store : Option Store
  pub requests : List Request
  pub unsaved : Bool
  pub last_save : Option ℕ
  pub attempts : List Attempt

-- `App::new`; `help_lines` is `help::line_count()`.
unfoldable pub new_app : ℕ → Option Store → App
new_app help_lines store = record {
  screen = home_screen;
  home_selected = 0;
  browse = none;
  solve = none;
  message = none;
  show_help = false;
  help_scroll = 0;
  help_max_scroll = help_lines;
  page_len = 10;
  should_quit = false;
  loading = none;
  store = store;
  requests = [];
  unsaved = false;
  last_save = none;
  attempts = [];
}

unfoldable pub take_requests : App → App × List Request
take_requests a = (record a { requests = [] }, a.requests)

unfoldable pub open_help : App → App
open_help a = record a { show_help = true; help_scroll = 0 }

unfoldable pub close_help : App → App
close_help a = record a { show_help = false }

unfoldable pub set_help_max_scroll : ℕ → App → App
set_help_max_scroll limit a = record a {
  help_max_scroll = limit;
  help_scroll = min a.help_scroll limit;
}

-- `len.max(1)`
unfoldable pub set_page_len : ℕ → App → App
set_page_len len a = record a { page_len = if ltb len 1 then 1 else len }

unfoldable pub screen_back : App → App
screen_back a = record a { loading = none; message = none; screen = home_screen }

module _ (env : Env) (disk : Disk) where
  -- What a write leaves: its error, when it has one, is the message.
  abbrev pub written : App → List Attempt × Option Text → App
  written a (log, none) = record a { attempts = log }
  written a (log, some e) = record a {
    attempts = log;
    message = say error (codes "Could not save progress: " ++ e);
  }

  abbrev pub save_to : ℕ → App → Option Store → Option Solve → App
  save_to now a (some store) (some s) =
      written a (save_progress disk store a.attempts s.puzzle (progress env.units now s.game))
  save_to now a _ _ = a

  unfoldable pub save : ℕ → App → App
  save now a = save_to now (record a { unsaved = false; last_save = some now }) a.store a.solve

  -- `is_none_or`, of at least `AUTOSAVE`, ten seconds
  abbrev pub due : ℕ → Option ℕ → Bool
  due now none = true
  due now (some t) = leb (10 * env.units) (now - t)

  unfoldable pub tick : ℕ → App → App
  unfolding save
  tick now a = if a.unsaved && due now a.last_save then save now a else a

  unfoldable pub quit : ℕ → App → App
  unfolding save
  quit now a = record (save now a) { should_quit = true }
