-- ===== src/Crossword/App/Valid/Lists.antt =====
-- The calls on the sizes and the listings keep the application valid, and find the current tab.
use scratchpad.Common.{
  ℕ, suc, ◌<◌, ◌≡◌, refl, sym, ap, true, Option, none, some, List, [], ◌∷◌, ltb, arith, ltb→lt,
  if-cases, length, map, position, subst, ◌∙◌,
}
use mathlib.Core.Option
use scratchpad.Crossword.Game.Undo.{Status}
use scratchpad.Crossword.Game.Sound.Moves.{Ensures, Ensures-bind, Ensures-if}
use scratchpad.Crossword.Sources.{
  Size, mini, midi, crossword, SourceId, PuzzleRef, sources, ref_eq, source_eq, all_sizes, size_eq,
}
use scratchpad.Crossword.App.{App, Tab, Item, Listing, loading, ready, failed_with, browse_screen}
use scratchpad.Crossword.App.Listings.{
  Delta, items, ready_items, current_tab, selected_item, on_tab, blank_tab, same_size, open_size,
  reload, reload_tab, fetching, open_selected, open_item, turn_page, times, as_signed, mark_item,
  mark_listing, mark_tabs,
}
use scratchpad.Crossword.App.Solving.{on_source}
use scratchpad.Crossword.App.Valid.{
  SelectedOk, TabOk, AllTabs, BrowseOk, IsValid, with_lists, with_choice, move_selection-TabOk,
  on_tab-IsValid, when_browsing-IsValid,
}

blank-AllTabs : (ids : List SourceId) → AllTabs (map blank_tab ids)
blank-AllTabs [] = tt
blank-AllTabs (s ∷ ids) = (tt, blank-AllTabs ids)

-- Each size has a source, so its first tab exists.
blank-BrowseOk :
    (size : Size)
    → BrowseOk (some (record { size = size; tabs = map blank_tab (sources size); active = 0 }))
unfolding sources
blank-BrowseOk mini = (omega arith, blank-AllTabs (sources mini))
blank-BrowseOk midi = (omega arith, blank-AllTabs (sources midi))
blank-BrowseOk crossword = (omega arith, blank-AllTabs (sources crossword))

size_index : (size : Size) → Option.get_or (position (λ s. size_eq s size) all_sizes) 0 < 3
size_index mini = omega arith
size_index midi = omega arith
size_index crossword = omega arith

module _ (a : App) (v : IsValid a) where
  pub open_size-IsValid : (size : Size) → IsValid (open_size size a)
  unfolding open_size
  open_size-IsValid size =
      let w = with_choice v (size_index size) in
      if-cases (λ (x : App). IsValid (record x { message = none; screen = browse_screen }))
        (same_size size a.browse) _ _ (λ _. w) (λ _. with_lists w (blank-BrowseOk size))

  pub reload-IsValid : Ensures IsValid (reload a)
  unfolding reload
  reload-IsValid = when_browsing-IsValid a v (reload_tab a) (λ b h.
      Ensures-bind IsValid (current_tab b) _ (λ tab _.
        Ensures-bind IsValid (on_tab (λ t. record t { listing = loading }) a b) _ (λ a' e.
          rw e at (on_tab-IsValid a v (λ t. record t { listing = loading }) b h (λ t _. tt)))))

  pub turn_page-IsValid : (pages : Delta) → Ensures IsValid (turn_page pages a)
  unfolding turn_page
  turn_page-IsValid pages = when_browsing-IsValid a v _ (λ b h.
      on_tab-IsValid a v _ b h (λ t _. move_selection-TabOk (times pages (as_signed a.page_len)) t))

  fetching-IsValid : (item : Option Item) → IsValid (fetching a item)
  fetching-IsValid none = v
  fetching-IsValid (some item) = v

  pub open_selected-IsValid : Ensures IsValid (open_selected a)
  unfolding open_selected
  open_selected-IsValid =
      when_browsing-IsValid a v _
        (λ b h. Ensures-bind IsValid (selected_item b) _ (λ item _. fetching-IsValid item))

at_index-TabOk :
    (t : Tab) (index : ℕ)
    → ltb index (length (items t)) ≡ true
    → TabOk (record t { selected = index })
at_index-TabOk t index h = of_listing t.listing (ltb→lt index (length (items t)) h)
  where
    of_listing : (l : Listing) → index < length (ready_items l) → SelectedOk l index
    of_listing loading q = tt
    of_listing (ready items) q = omega arith
    of_listing (failed_with e) q = tt

module _ (a : App) (v : IsValid a) where
  pub open_item-IsValid : (index : ℕ) → Ensures IsValid (open_item index a)
  unfolding open_item
  open_item-IsValid index = when_browsing-IsValid a v _ (λ b h.
      Ensures-bind IsValid (current_tab b) _ (λ tab e.
        Ensures-if IsValid (ltb index (length (items tab))) _ _
          (λ inside.
            Ensures-bind IsValid (on_tab (λ t. record t { selected = index }) a b) _ (λ a' e'.
              open_selected-IsValid a' (
                rw e' at (
                  on_tab-IsValid a v (λ t. record t { selected = index }) b h
                    (λ t q. at_index-TabOk t index (same t tab (sym q ∙ e) inside))))))
          (λ _. v)))
    where
      same :
          (t tab : Tab)
          → some t ≡ some tab
          → ltb index (length (items tab)) ≡ true
          → ltb index (length (items t)) ≡ true
      same t tab q h =
          let e : tab ≡ t = cc in subst (λ (x : Tab). ltb index (length (items x)) ≡ true) e h

length-mark_item :
    (puzzle : PuzzleRef) (s : Status) (items : List Item)
    → Ensures (λ new. length new ≡ length items) (mark_item puzzle s items)
unfolding mark_item
length-mark_item puzzle s [] = tt
length-mark_item puzzle s (item ∷ rest) =
    Ensures-if (λ new. length new ≡ suc (length rest)) (ref_eq item.puzzle puzzle) _ _ (λ _. refl)
      (λ _. longer (mark_item puzzle s rest) (length-mark_item puzzle s rest))
  where
    longer :
        (o : Option (List Item))
        → Ensures (λ new. length new ≡ length rest) o
        → Ensures (λ new. length new ≡ suc (length rest)) (Option.map (λ items. item ∷ items) o)
    longer none h = tt
    longer (some new) h = ap suc h

mark_listing-SelectedOk :
    (puzzle : PuzzleRef) (s : Status) (l : Listing) (n : ℕ)
    → SelectedOk l n
    → Ensures (λ l'. SelectedOk l' n) (mark_listing puzzle s l)
mark_listing-SelectedOk puzzle s loading n h = tt
mark_listing-SelectedOk puzzle s (failed_with e) n h = tt
mark_listing-SelectedOk puzzle s (ready items) n h =
    kept (mark_item puzzle s items) (length-mark_item puzzle s items)
  where
    kept :
        (o : Option (List Item))
        → Ensures (λ new. length new ≡ length items) o
        → Ensures (λ l'. SelectedOk l' n) (Option.map ready o)
    kept none q = tt
    kept (some new) q = omega (arith, h, q)

pub length-mark_tabs :
    (puzzle : PuzzleRef) (s : Status) (tabs : List Tab)
    → length (mark_tabs puzzle s tabs) ≡ length tabs
unfolding mark_tabs
length-mark_tabs puzzle s [] = refl
length-mark_tabs puzzle s (t ∷ tabs) =
    go (mark_listing puzzle s t.listing) (length-mark_tabs puzzle s tabs)
  where
    go :
        (o : Option Listing)
        → length (mark_tabs puzzle s tabs) ≡ length tabs
        → length (elim o as (λ _. List Tab) [
          | some listing ↦ record t { listing = listing } ∷ tabs
          | none ↦ t ∷ mark_tabs puzzle s tabs
        ])
          ≡ suc (length tabs)
    go (some listing) later = refl
    go none later = ap suc later

pub mark_tabs-AllTabs :
    (puzzle : PuzzleRef) (s : Status) (tabs : List Tab)
    → AllTabs tabs
    → AllTabs (mark_tabs puzzle s tabs)
unfolding mark_tabs
mark_tabs-AllTabs puzzle s [] h = tt
mark_tabs-AllTabs puzzle s (t ∷ tabs) h =
    go (mark_listing puzzle s t.listing) (mark_listing-SelectedOk puzzle s t.listing t.selected h.0)
      (mark_tabs-AllTabs puzzle s tabs h.1)
  where
    go :
        (o : Option Listing)
        → Ensures (λ l. SelectedOk l t.selected) o
        → AllTabs (mark_tabs puzzle s tabs)
        → AllTabs (elim o as (λ _. List Tab) [
          | some listing ↦ record t { listing = listing } ∷ tabs
          | none ↦ t ∷ mark_tabs puzzle s tabs
        ])
    go (some listing) q later = (q, h.1)
    go none q later = (h.0, later)

module _ (source : SourceId) (change : Tab → Tab) (ok : (t : Tab) → TabOk (change t)) where
  pub length-on_source : (tabs : List Tab) → length (on_source source change tabs) ≡ length tabs
  unfolding on_source
  length-on_source [] = refl
  length-on_source (t ∷ tabs) =
      if-cases (λ (x : List Tab). length x ≡ suc (length tabs)) (source_eq t.source source) _ _
        (λ _. refl) (λ _. ap suc (length-on_source tabs))

  pub on_source-AllTabs : (tabs : List Tab) → AllTabs tabs → AllTabs (on_source source change tabs)
  unfolding on_source
  on_source-AllTabs [] h = tt
  on_source-AllTabs (t ∷ tabs) h =
      if-cases AllTabs (source_eq t.source source) _ _ (λ _. (ok t, h.1))
        (λ _. (h.0, on_source-AllTabs tabs h.1))
