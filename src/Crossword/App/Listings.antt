-- ===== src/Crossword/App/Listings.antt =====
-- app.rs: the browse screen, its tabs and pages.
use scratchpad.Common.{
  ℕ, ◌+◌, ◌-◌, ◌*◌, ◌/◌, ◌%◌, ◌^◌, min, Bool, false, Option, none, some, List, [], ◌∷◌, ◌++◌, codes,
  ltb, ◌==◌, if◌then◌else◌, length, get_elem?, set, map, position,
}
use mathlib.Core.Option
use scratchpad.Crossword.Game.{◌>>=◌}
use scratchpad.Crossword.Game.Undo.{Status}
use scratchpad.Crossword.Sources.{
  Size, SourceId, PuzzleRef, list_source, fetch, all_sizes, sources, source_name, label, size_eq,
  ref_eq,
}
use scratchpad.Crossword.Solve.{info, say}
use scratchpad.Crossword.App.{Browse, Tab, Listing, ready, Item, App, browse_screen}

abbrev pub ready_items : Listing → List Item
ready_items (ready items) = items
ready_items _ = []

-- `Tab::items`
abbrev pub items : Tab → List Item
items tab = ready_items tab.listing

-- A signed machine word, by its sign.
pub data Delta : Type 0 where
  forward back : ℕ → Delta

-- `as isize`, and the sign changed
unfoldable pub as_signed : ℕ → Delta
as_signed n = if ltb n (2 ^ 63) then forward n else back (2 ^ 64 - n)

unfoldable pub negated : Delta → Delta
negated (forward n) = back n
negated (back n) = if n == 2 ^ 63 then back n else forward n

-- `saturating_mul`
unfoldable pub times : Delta → Delta → Delta
times (forward m) (forward n) = forward (min (m * n) (2 ^ 63 - 1))
times (forward m) (back n) = back (min (m * n) (2 ^ 63))
times (back m) (forward n) = back (min (m * n) (2 ^ 63))
times (back m) (back n) = forward (min (m * n) (2 ^ 63 - 1))

-- `saturating_add_signed`
unfoldable pub moved_by : Delta → ℕ → ℕ
moved_by (forward n) selected = min (selected + n) (2 ^ 64 - 1)
moved_by (back n) selected = selected - n

unfoldable pub move_selection : Delta → Tab → Tab
unfolding moved_by
move_selection delta tab = record tab {
  selected = min (moved_by delta tab.selected) (length (items tab) - 1);
}

pub record Page : Type 0 where
  pub start : ℕ
  pub end : ℕ
  pub number : ℕ
  pub count : ℕ

-- `.max(1)`
abbrev pub at_least_one : ℕ → ℕ
at_least_one n = if ltb n 1 then 1 else n

-- `div_ceil`
abbrev pub div_ceil : ℕ → ℕ → ℕ
div_ceil n d = if n % d == 0 then n / d else n / d + 1

unfoldable pub page : ℕ → Tab → Page
page wanted tab =
    let len = at_least_one wanted in
    let count = length (items tab) in
    let number = min tab.selected (count - 1) / len in
    record {
      start = number * len;
      end = min (number * len + len) count;
      number = number;
      count = at_least_one (div_ceil count len);
    }

-- `self.tabs[self.active]`
unfoldable pub current_tab : Browse → Option Tab
current_tab b = get_elem? b.tabs b.active

unfoldable pub selected_item : Browse → Option (Option Item)
unfolding current_tab
selected_item b = do tab ← current_tab b; some (get_elem? (items tab) tab.selected)

-- A change of the current tab; `none` is the index that is out of range.
unfoldable pub on_tab : (Tab → Tab) → App → Browse → Option App
unfolding current_tab
on_tab change a b = do
  tab ← current_tab b
  some (record a { browse = some (record b { tabs = set b.tabs b.active (change tab) }) })

-- Without a browse screen nothing happens.
abbrev pub when_browsing : App → (Browse → Option App) → Option App
when_browsing a act = elim a.browse [ none ↦ some a | some b ↦ act b ]

abbrev pub blank_tab : SourceId → Tab
blank_tab source = record { source = source; listing = Listing.loading; selected = 0 }

abbrev pub same_size : Size → Option Browse → Bool
same_size size none = false
same_size size (some b) = size_eq b.size size

unfoldable pub open_size : Size → App → App
open_size size a =
    let a₁ = record a {
      home_selected = Option.get_or (position (λ s. size_eq s size) all_sizes) 0;
    } in
    let a₂ = if same_size size a.browse then a₁ else record a₁ {
      browse = some (record { size = size; tabs = map blank_tab (sources size); active = 0 });
      requests = a.requests ++ map list_source (sources size);
    } in
    record a₂ { message = none; screen = browse_screen }

unfoldable pub select_tab : ℕ → App → App
select_tab index a = elim a.browse [
  | none ↦ a
  | some b ↦
      if ltb index (length b.tabs)
      then record a { browse = some (record b { active = index }) }
      else a
]

abbrev pub reload_tab : App → Browse → Option App
reload_tab a b = do
  tab ← current_tab b
  a' ← on_tab (λ t. record t { listing = Listing.loading }) a b
  some (record a' { requests = a.requests ++ list_source tab.source ∷ [] })

unfoldable pub reload : App → Option App
unfolding on_tab current_tab
reload a = when_browsing a (reload_tab a)

abbrev pub fetching : App → Option Item → App
fetching a none = a
fetching a (some item) = record a {
  message = say info (
      codes "Loading "
      ++ (source_name item.puzzle.source ++ (codes " " ++ (label item.puzzle ++ codes "…"))));
  loading = some item.puzzle;
  requests = a.requests ++ fetch item.puzzle ∷ [];
}

unfoldable pub open_selected : App → Option App
unfolding selected_item
open_selected a = when_browsing a (λ b. selected_item b >>= λ item. some (fetching a item))

unfoldable pub open_item : ℕ → App → Option App
unfolding current_tab on_tab open_selected
open_item index a = when_browsing a (λ b. current_tab b >>= λ tab.
    if ltb index (length (items tab))
    then on_tab (λ t. record t { selected = index }) a b >>= open_selected
    else some a)

unfoldable pub turn_page : Delta → App → Option App
unfolding on_tab move_selection times as_signed
turn_page pages a = when_browsing a (on_tab (move_selection (times pages (as_signed a.page_len))) a)

-- The first item of that puzzle takes the status.
unfoldable pub mark_item : PuzzleRef → Status → List Item → Option (List Item)
mark_item puzzle status [] = none
mark_item puzzle status (item ∷ rest) =
    if ref_eq item.puzzle puzzle
    then some (record item { status = status } ∷ rest)
    else Option.map (λ items. item ∷ items) (mark_item puzzle status rest)

abbrev pub mark_listing : PuzzleRef → Status → Listing → Option Listing
mark_listing puzzle status (ready items) = Option.map ready (mark_item puzzle status items)
mark_listing puzzle status _ = none

unfoldable pub mark_tabs : PuzzleRef → Status → List Tab → List Tab
unfolding mark_item
mark_tabs puzzle status [] = []
mark_tabs puzzle status (tab ∷ tabs) =
    let rest = mark_tabs puzzle status tabs in
    elim (mark_listing puzzle status tab.listing) [
      | some listing ↦ record tab { listing = listing } ∷ tabs
      | none ↦ tab ∷ rest
    ]
