-- ===== src/Crossword/Sources.antt =====
-- crossword/core/src/sources/mod.rs: the sizes, the sources, and what goes to and comes from the fetch
-- thread. A date is a parameter's text, since its format is of a library.
use scratchpad.Common.{
  ℕ, Bool, true, false, ◌&&◌, ◌||◌, not, Option, none, some, List, [], ◌∷◌, ◌++◌, codes, ◌==◌, leb,
  length, all, bytes_eq,
}
use scratchpad.Common.Io.{Result, err}
use scratchpad.Crossword.Puzzle.Letters.{Text}
use scratchpad.Crossword.Puzzle.{PuzzleData}

pub data Size : Type 0 where
  mini midi crossword : Size

pub data SourceId : Type 0 where
  princetonian_mini nyt_mini guardian_quick nyt_midi universal princetonian nyt_daily : SourceId

-- `Size::ALL`
abbrev pub all_sizes : List Size
all_sizes = mini ∷ midi ∷ crossword ∷ []

unfoldable pub sources : Size → List SourceId
sources mini = princetonian_mini ∷ nyt_mini ∷ []
sources midi = guardian_quick ∷ nyt_midi ∷ []
sources crossword = universal ∷ princetonian ∷ nyt_daily ∷ []

unfoldable pub source_name : SourceId → Text
source_name princetonian_mini = codes "Daily Princetonian Mini"
source_name nyt_mini = codes "NYT Mini"
source_name guardian_quick = codes "Guardian Quick"
source_name nyt_midi = codes "NYT Midi"
source_name universal = codes "Universal"
source_name princetonian = codes "Daily Princetonian"
source_name nyt_daily = codes "NYT Crossword"

-- a name for the paths of files
unfoldable pub slug : SourceId → Text
slug princetonian_mini = codes "princetonian-mini"
slug nyt_mini = codes "nyt-mini"
slug guardian_quick = codes "guardian-quick"
slug nyt_midi = codes "nyt-midi"
slug universal = codes "universal"
slug princetonian = codes "princetonian"
slug nyt_daily = codes "nyt-daily"

-- `{d.format("%a %b %-d, %Y")}` of a date, and its `==` by the same text
pub record PuzzleRef : Type 0 where
  pub source : SourceId
  pub id : Text
  pub date : Option Text
  pub title : Option Text

label_of : Text → Option Text → Option Text → Text
label_of id (some date) (some title) = date ++ (codes " · " ++ title)
label_of id (some date) none = date
label_of id none (some title) = title
label_of id none none = id

unfoldable pub label : PuzzleRef → Text
unfolding label_of
label p = label_of p.id p.date p.title

abbrev pub source_eq : SourceId → SourceId → Bool
source_eq princetonian_mini princetonian_mini = true
source_eq nyt_mini nyt_mini = true
source_eq guardian_quick guardian_quick = true
source_eq nyt_midi nyt_midi = true
source_eq universal universal = true
source_eq princetonian princetonian = true
source_eq nyt_daily nyt_daily = true
source_eq _ _ = false

abbrev pub size_eq : Size → Size → Bool
size_eq mini mini = true
size_eq midi midi = true
size_eq crossword crossword = true
size_eq _ _ = false

abbrev text_option_eq : Option Text → Option Text → Bool
text_option_eq none none = true
text_option_eq (some s) (some t) = bytes_eq s t
text_option_eq _ _ = false

unfoldable pub ref_eq : PuzzleRef → PuzzleRef → Bool
ref_eq a b =
    source_eq a.source b.source
    && bytes_eq a.id b.id
    && text_option_eq a.date b.date
    && text_option_eq a.title b.title

pub data SourceError : Type 0 where
  needs_cookie refused not_found : SourceError
  network : Text → SourceError
  parse : Text → SourceError

-- `Display`
unfoldable pub describe : SourceError → Text
describe needs_cookie =
    codes "NYT puzzles need your subscription cookie. "
    ++ codes "Set NYT_S or write it to ~/.config/crossword/nyt-s (see the README)."
describe refused =
    codes "The publisher refused the request. If this is an NYT puzzle, "
    ++ codes "your NYT-S cookie may have expired."
describe SourceError.not_found = codes "There is no puzzle at that address."
describe (network e) = codes "Network error: " ++ e
describe (parse e) = codes "Unexpected puzzle data: " ++ e

pub data Request : Type 0 where
  list_source : SourceId → Request
  fetch : PuzzleRef → Request

pub data Response : Type 0 where
  listed : SourceId → Result SourceError (List PuzzleRef) → Response
  fetched : PuzzleRef → Result SourceError PuzzleData → Response

unfoldable pub failed : Request → SourceError → Response
failed (list_source source) e = listed source (err e)
failed (fetch puzzle) e = fetched puzzle (err e)

abbrev pub id_char : ℕ → Bool
id_char c =
    leb b'0' c && leb c b'9' || leb b'A' c && leb c b'Z' || leb b'a' c && leb c b'z' || c == b'-'

unfoldable pub is_safe_id : Text → Bool
is_safe_id id = not (bytes_eq id []) && leb (length id) 64 && all id_char id
