-- ===== src/Crossword/Store.antt =====
-- crossword/core/src/store.rs: where the player's progress is kept. The disk is a parameter: what a file
-- reads as may depend on the writes made before, and how a write ends on all that were attempted, the
-- latest first. A write that fails leaves its file as it was.
pub mod Paths
use scratchpad.Common.{
  ℕ, Bool, true, false, Option, none, some, List, [], ◌∷◌, ◌++◌, codes, if◌then◌else◌,
}
use scratchpad.Crossword.Puzzle.Letters.{Text}
use scratchpad.Crossword.Game.{◌>>=◌}
use scratchpad.Crossword.Game.Undo.{Progress, Status, fresh, status}
use scratchpad.Crossword.Sources.{PuzzleRef, slug, is_safe_id}

-- A path is its components below a root.
abbrev pub FilePath : Type 0
FilePath = List Text

pub record Store : Type 0 where
  pub puzzles : FilePath
  pub progress_dir : FilePath

-- One call of `write_json`, and its error when it has one
pub record Attempt : Type 0 where
  pub path : FilePath
  pub saved : Progress
  pub failed : Option Text

-- A write that fails removes its temporary file, and the rename was not made.
abbrev renamed :
    Option Text → FilePath × Progress → List (FilePath × Progress) → List (FilePath × Progress)
renamed none write rest = write ∷ rest
renamed (some e) write rest = rest

-- The writes that were made
abbrev pub writes : List Attempt → List (FilePath × Progress)
writes [] = []
writes (t ∷ log) = renamed t.failed (t.path, t.saved) (writes log)

pub record Disk : Type 0 where
  pub read : List (FilePath × Progress) → FilePath → Option Progress
  pub failure : List Attempt → FilePath → Progress → Option Text

-- `Store::file`
unfoldable pub file : FilePath → PuzzleRef → Option FilePath
file root puzzle =
    if is_safe_id puzzle.id
    then some (root ++ slug puzzle.source ∷ (puzzle.id ++ codes ".json") ∷ [])
    else none

module _ (disk : Disk) (store : Store) where
  unfoldable pub load_progress : List Attempt → PuzzleRef → Option Progress
  load_progress log puzzle = file store.progress_dir puzzle >>= disk.read (writes log)

  -- The attempts made, and the error's text; an id that is not safe is an error before any write.
  unfoldable pub save_progress : List Attempt → PuzzleRef → Progress → List Attempt × Option Text
  save_progress log puzzle saved = elim (file store.progress_dir puzzle) [
    | none ↦ (log, some (codes "unsafe puzzle id"))
    | some path ↦
        let failed = disk.failure log path saved in
        (record { path = path; saved = saved; failed = failed } ∷ log, failed)
  ]

  -- `Store::status`
  unfoldable pub status_of : List Attempt → PuzzleRef → Status
  unfolding load_progress
  status_of log puzzle = elim (load_progress log puzzle) [
    | none ↦ fresh
    | some saved ↦ status saved
  ]
