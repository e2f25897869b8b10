-- ===== src/Crossword/App/Valid.antt =====
-- What holds of the application between two calls, and the calls on the first two screens that keep it.
pub mod Lists
use scratchpad.Common.{
  ℕ, zero, suc, ◌+◌, ◌-◌, ◌%◌, ◌^◌, ◌≤◌, ◌<◌, min, ◌≡◌, refl, sym, ap, Bool, true, false, ◌&&◌,
  ◌||◌, Option, none, some, List, [], ◌∷◌, ◌++◌, ◌==◌, ltb, leb, arith, ltb→lt, if◌then◌else◌,
  if-cases, Bool-cases, ◌⊎◌, inl, inr, length, get_elem?, set, length-set, map,
}
use mathlib.Core.Option
use scratchpad.Crossword.Game.{◌>>=◌}
use scratchpad.Crossword.Game.Undo.{Status}
use scratchpad.Crossword.Game.Sound.Moves.{IsPlayable, Ensures, Ensures-bind, Ensures-if}
use scratchpad.Crossword.Game.Sound.History.{IsSound}
use scratchpad.Crossword.Sources.{
  Size, mini, midi, crossword, SourceId, PuzzleRef, sources, ref_eq, source_eq,
}
use scratchpad.Crossword.Solve.{Solve}
use scratchpad.Crossword.App.{App, Browse, Tab, Item, Listing, loading, ready, failed_with}
use scratchpad.Crossword.App.Listings.{
  Delta, items, ready_items, moved_by, move_selection, current_tab, selected_item, on_tab,
  when_browsing, blank_tab, same_size, open_size, select_tab, reload, reload_tab, fetching,
  open_selected, open_item, turn_page, times, as_signed, mark_item, mark_listing, mark_tabs,
}

-- A selection points at an item of a listing that is there, or at the first place of an empty one.
abbrev pub SelectedOk : Listing → ℕ → Type 0
SelectedOk (ready items) n = n ≤ length items - 1
SelectedOk _ n = Unit {0}

abbrev pub TabOk : Tab → Type 0
TabOk t = SelectedOk t.listing t.selected

abbrev pub AllTabs : List Tab → Type 0
AllTabs [] = Unit {0}
AllTabs (t ∷ tabs) = TabOk t × AllTabs tabs

abbrev pub BrowseOk : Option Browse → Type 0
BrowseOk none = Unit {0}
BrowseOk (some b) = (b.active < length b.tabs) × AllTabs b.tabs

abbrev pub PlayOk : Option Solve → Type 0
PlayOk none = Unit {0}
PlayOk (some s) = IsPlayable s.built × IsSound s.built s.game

pub record Fit (scroll limit chosen page_len : ℕ) (browse : Option Browse) (solve : Option Solve)
    : Type 0 where
  pub scrolled : scroll ≤ limit
  pub chosen_ok : chosen < 3
  pub page_ok : 1 ≤ page_len
  pub lists : BrowseOk browse
  pub play : PlayOk solve

-- The help scrolls no further than it can, one of the three sizes is chosen, a page holds an item, the
-- current tab exists, each selection is of its listing, and the game is sound on a playable puzzle.
abbrev pub IsValid : App → Type 0
IsValid a = Fit a.help_scroll a.help_max_scroll a.home_selected a.page_len a.browse a.solve

module _ {scroll limit chosen page_len : ℕ} {browse : Option Browse} {solve : Option Solve} where
  pub with_lists :
      {b : Option Browse}
      → Fit scroll limit chosen page_len browse solve
      → BrowseOk b
      → Fit scroll limit chosen page_len b solve
  with_lists v h = record {
    scrolled = v.scrolled;
    chosen_ok = v.chosen_ok;
    page_ok = v.page_ok;
    lists = h;
    play = v.play;
  }

  pub with_play :
      {s : Option Solve}
      → Fit scroll limit chosen page_len browse solve
      → PlayOk s
      → Fit scroll limit chosen page_len browse s
  with_play v h = record {
    scrolled = v.scrolled;
    chosen_ok = v.chosen_ok;
    page_ok = v.page_ok;
    lists = v.lists;
    play = h;
  }

  pub with_scroll :
      {m n : ℕ}
      → Fit scroll limit chosen page_len browse solve
      → m ≤ n
      → Fit m n chosen page_len browse solve
  with_scroll v h = record {
    scrolled = h;
    chosen_ok = v.chosen_ok;
    page_ok = v.page_ok;
    lists = v.lists;
    play = v.play;
  }

  pub with_choice :
      {c : ℕ}
      → Fit scroll limit chosen page_len browse solve
      → c < 3
      → Fit scroll limit c page_len browse solve
  with_choice v h = record {
    scrolled = v.scrolled;
    chosen_ok = h;
    page_ok = v.page_ok;
    lists = v.lists;
    play = v.play;
  }

  pub with_page :
      {n : ℕ}
      → Fit scroll limit chosen page_len browse solve
      → 1 ≤ n
      → Fit scroll limit chosen n browse solve
  with_page v h = record {
    scrolled = v.scrolled;
    chosen_ok = v.chosen_ok;
    page_ok = h;
    lists = v.lists;
    play = v.play;
  }

set-AllTabs : (tabs : List Tab) (i : ℕ) (t : Tab) → AllTabs tabs → TabOk t → AllTabs (set tabs i t)
set-AllTabs [] i t h ok = tt
set-AllTabs (x ∷ tabs) zero t h ok = (ok, h.1)
set-AllTabs (x ∷ tabs) (suc i) t h ok = (h.0, set-AllTabs tabs i t h.1 ok)

pub move_selection-TabOk : (delta : Delta) (t : Tab) → TabOk (move_selection delta t)
unfolding move_selection
move_selection-TabOk delta t = of_listing t.listing
  where
    of_listing :
        (l : Listing) → SelectedOk l (min (moved_by delta t.selected) (length (ready_items l) - 1))
    of_listing loading = tt
    of_listing (ready items) = omega arith
    of_listing (failed_with e) = tt

module _ (a : App) (v : IsValid a) where
  pub on_tab-IsValid :
      (change : Tab → Tab) (b : Browse)
      → BrowseOk (some b)
      → ((t : Tab) → current_tab b ≡ some t → TabOk (change t))
      → Ensures IsValid (on_tab change a b)
  unfolding on_tab
  on_tab-IsValid change b h ok = Ensures-bind IsValid (current_tab b) _ (λ t e. with_lists v (
    omega (arith, h.0, length-set b.tabs b.active (change t)),
    set-AllTabs b.tabs b.active (change t) h.1 (ok t e),
  ))

  pub when_browsing-IsValid :
      (act : Browse → Option App)
      → ((b : Browse) → BrowseOk (some b) → Ensures IsValid (act b))
      → Ensures IsValid (when_browsing a act)
  when_browsing-IsValid act h = go a.browse v.lists
    where
      go :
          (o : Option Browse)
          → BrowseOk o
          → Ensures IsValid (elim o as (λ _. Option App) [ none ↦ some a | some b ↦ act b ])
      go none ok = v
      go (some b) ok = h b ok

  pub select_tab-IsValid : (index : ℕ) → IsValid (select_tab index a)
  unfolding select_tab
  select_tab-IsValid index = go a.browse v.lists
    where
      go :
          (o : Option Browse)
          → BrowseOk o
          → IsValid (elim o as (λ _. App) [
            | none ↦ a
            | some b ↦
                if ltb index (length b.tabs)
                then record a { browse = some (record b { active = index }) }
                else a
          ])
      go none ok = v
      go (some b) ok =
          if-cases IsValid (ltb index (length b.tabs)) _ _
            (λ e. with_lists v (ltb→lt index (length b.tabs) e, ok.1)) (λ _. v)
