-- ===== src/Lib.antt =====
-- Models of the Rust programs of the scratchpad repository, and what is proved of them.
--
-- The programs are modelled each apart from the others.
--
-- tiny_http_server (tiny_http_server/rust/src/http.rs), in Http. A connection is an input, an output
-- and a log: `serve_connection` reads a header block (`read_request`, Http/Read), parses it
-- (`parse_request`, Http/Parse), routes the request (`route`, Http/Respond), writes the response
-- (`write_response`, Http/Serve) and logs sanitized lines (`sanitize`, Http/Sanitize). An input is the
-- list of what each one-byte read gives, a byte or an error, so a loop over it ends; past the end a read
-- gives 0 bytes. An output says how many bytes it takes before it fails. Slices are lists of bytes.
--
-- crossword (crossword/core/src), in Crossword. Crossword/Puzzle is puzzle.rs: `Puzzle::new` is
-- `new_puzzle` (Puzzle/Build), `numbering` keeps its name, `answer_matches` is in Puzzle/Letters.
-- Crossword/Game is game.rs: a `Game` is a record of the struct's fields without the puzzle, which is
-- an argument; Motion moves the cursor, Edit writes, checks, reveals and clears, Undo holds the
-- history and the saved progress. `Game::set` is `put`, `Game::undo` and `Game::redo` are `step_back`
-- and `step_forward`. Commands lists the calls that change a game as one step each; `play` runs a
-- sequence. A call whose `expect` fails is `none`; a read past the squares gives a blank. Sound and
-- its children hold the invariant and the proofs. Crossword/Keys is keys.rs. Crossword/Solve is the solve
-- screen of app.rs: the struct `Solve` and the keys of its modes (`normal_key` in Solve/Normal,
-- `insert_key` and `rebus_key` in Solve/Insert, `command_key` and `run_command` in Solve/Commands); the
-- arms of the `match` of `normal_key` are the data type `Arm`. Crossword/App is the struct `App` and its
-- methods: the saves and the help in App itself, the listings in App/Listings, puzzles that arrive and
-- the solve screen in App/Solving, the keys of the other screens and `handle_key` in App/Input, where an
-- `Event` is one call of a frontend and `session` a sequence of them. Crossword/Store is store.rs and
-- Crossword/Sources the types of sources/mod.rs. What Unicode and the debug format decide is the
-- parameter `Env`; the disk is the parameter `Disk`, which may answer by the attempts made so far, and
-- `attempts` of the application records them with how each ended; a write that fails leaves its file as
-- it was. A signed machine word is a `Delta`, its sign and its size. The `u16` of the help's scroll wraps,
-- as in a build without overflow checks. `run_starts` of Crossword/Puzzle reads a blank past the grid;
-- Crossword/Puzzle/Reads has it with the panics of its indices and subtractions.
--
-- mini_shell (mini_shell/rust/src/lib.rs), in Shell. Words holds `trim`, `split` and the tests of a
-- line, Loop the line reader, `decode_status`, `report_status` and `run`, over the streams of the
-- server's model. The runner is a parameter, whose answers may depend on the calls before. The loop of
-- `run` has fuel for a round for each event of the input and one more: every round but the last takes a
-- byte. `none` is a panic or the end of the fuel. A status code
-- and a signal are natural numbers, as on Unix; a command that reads the shell's own input is not
-- modelled, and the text of an I/O error is a parameter.
--
-- morse_trainer (morse_trainer/src), in Morse: morse.rs in Morse itself, lessons.rs in Morse/Lessons,
-- app.rs in Morse/App. An `App` is the record of the struct's fields; an event is one call of the
-- event loop, and `handle_all` takes a sequence of them.
--
-- text_analyzer (text_analyzer/rust/src/analyzer.rs), in Analyzer: the struct `Accum` with its counters
-- of words and of lines as records of their own, `feed` over the inputs of the server's model, and in
-- Analyzer/Rank `finish`, `quantile`, `top_words` and `top_chars`. The `HashMap` of words is a list of
-- entries and `sort_by` an insertion sort, which is stable. Analyzer/Pieces tells the words of a text
-- without the loop, and Analyzer/Counts and Analyzer/Table relate the loop and the table to them;
-- Analyzer/Ranking has the order of the top words, told without their comparison.
--
-- simple_logger (simple_logger/rust/src/lib.rs), in Logger: the entries and the writers over the streams
-- of the server's model, and in Logger/Clock `resolve_clock`, whose `i64` is a number with its sign. The
-- loop of `write_lines` has fuel for a round for each event of the input and one more: every round but
-- the last takes a byte. What opens the file is an argument of `append_messages` and `append_lines`.
--
-- A `Duration` and an `Instant` are numbers of a clock's smallest step, with no bound; `u32` counts and
-- clue numbers are bounded by the squares of a grid of at most 64 by 64. A text is the list of its
-- characters. `trim` and `to_uppercase` of Rust's `str` follow Unicode's tables, so they are a parameter
-- (`TextOps`) with no law assumed. `alternates` is the list of the map's entries in the order of its
-- keys. `step` is modelled for the four unit moves that its callers make; it scans the squares up to
-- the edge, so no fuel is needed, and the search for an entry with a blank takes as many rounds as
-- there are entries, as the source does.
--
-- Not modelled: sockets, files, terminals and windows, which are calls of other libraries, the other
-- Rust programs of the repository, and the programs in other languages.
mod Common
pub mod Http
pub mod Crossword
pub mod Shell
pub mod Morse
pub mod Analyzer
pub mod Logger
