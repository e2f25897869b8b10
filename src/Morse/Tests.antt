-- ===== src/Morse/Tests.antt =====
-- morse_trainer: runs, and the theorems at concrete inputs.
use scratchpad.Common.{◌≡◌, refl, true, some, List, [], ◌∷◌, codes, bytes_eq}
use scratchpad.Morse.{dot, dash, char, Sequence, truncated, decode, encode_symbol, seq_eq}
use scratchpad.Morse.RoundTrip.{decode-encode_symbol, encode_symbol-decode}
use scratchpad.Morse.Lessons.{lessons_track, is_keyable, prompt, prompt-keyable}
use scratchpad.Morse.App.{
  new_app, Event, pushing, committing, going_down, selecting, handle, handle_all, push,
  commit_sequence, menu_down, menu_select, select_on, start_prompted, load_prompt, apply_symbol,
  next_prompt,
}
use scratchpad.Morse.App.Valid.{IsValid, handle_all-IsValid}

decode-encode_symbol_example : decode (dash ∷ dash ∷ []) ≡ some (char b'm')
unfolding encode_symbol
decode-encode_symbol_example = decode-encode_symbol (char b'm') (dash ∷ dash ∷ []) found
  where
    found : encode_symbol (char b'm') ≡ some (dash ∷ dash ∷ [])
    found = refl

abbrev six_dots : Sequence
six_dots = dot ∷ dot ∷ dot ∷ dot ∷ dot ∷ dot ∷ []

decodes-six_dots : decode six_dots ≡ some (char b'5')
unfolding decode seq_eq
decodes-six_dots = refl

encode_symbol-decode_example : encode_symbol (char b'5') ≡ some (truncated six_dots)
encode_symbol-decode_example = encode_symbol-decode six_dots (char b'5') decodes-six_dots

prompt-keyable_example : is_keyable (prompt lessons_track 1 20) ≡ true
prompt-keyable_example = prompt-keyable lessons_track 1 20

-- The first lesson, and an `e` keyed: the next prompt is a `t`.
abbrev events : List Event
events = going_down ∷ selecting ∷ going_down ∷ selecting ∷ pushing dot ∷ committing ∷ []

next-prompt : (handle_all events new_app).target ≡ codes "t"
unfolding handle_all handle menu_down menu_select select_on start_prompted load_prompt push
    commit_sequence apply_symbol next_prompt decode seq_eq prompt bytes_eq
next-prompt = refl

handle_all-IsValid_example : IsValid (handle_all events new_app)
handle_all-IsValid_example = handle_all-IsValid events
