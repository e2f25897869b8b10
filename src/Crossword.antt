-- ===== src/Crossword.antt =====
-- crossword/core: the puzzle model (puzzle.rs) and the solving state (game.rs).
pub mod Puzzle
pub mod Game
pub mod Keys
pub mod Sources
pub mod Store
pub mod Solve
pub mod App
mod Tests
