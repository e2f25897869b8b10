-- ===== src/Morse/Lessons.antt =====
-- morse_trainer/src/lessons.rs: the lessons, the phrases and the prompts drawn from them.
use scratchpad.Common.{
  ℕ, zero, suc, ◌-◌, ◌%◌, ◌≡◌, refl, Bool, true, false, none, some, List, [], ◌∷◌, arith, Bytes,
  codes, length, get_or, min, all,
}
use scratchpad.Morse.{encode}

pub data Track : Type 0 where
  lessons_track phrases_track : Track

pub record Lesson : Type 0 where
  pub title : Bytes
  pub prompts : List Bytes

abbrev lesson_1 : Lesson
lesson_1 = record {
  title = codes "1. E T";
  prompts =
      codes "e"
      ∷ codes "t"
      ∷ codes "et"
      ∷ codes "te"
      ∷ codes "tee"
      ∷ codes "tet"
      ∷ codes "ette"
      ∷ [];
}

abbrev lesson_2 : Lesson
lesson_2 = record {
  title = codes "2. I A N M";
  prompts =
      codes "in"
      ∷ codes "an"
      ∷ codes "at"
      ∷ codes "am"
      ∷ codes "it"
      ∷ codes "tin"
      ∷ codes "tan"
      ∷ codes "man"
      ∷ codes "ant"
      ∷ codes "aim"
      ∷ codes "main"
      ∷ codes "mint"
      ∷ codes "neat"
      ∷ codes "meat"
      ∷ codes "team"
      ∷ codes "name"
      ∷ codes "mean"
      ∷ [];
}

abbrev lesson_3 : Lesson
lesson_3 = record {
  title = codes "3. S U R W D K G O";
  prompts =
      codes "sun"
      ∷ codes "run"
      ∷ codes "rat"
      ∷ codes "dog"
      ∷ codes "god"
      ∷ codes "word"
      ∷ codes "dark"
      ∷ codes "star"
      ∷ codes "rest"
      ∷ codes "road"
      ∷ codes "under"
      ∷ codes "water"
      ∷ codes "garden"
      ∷ codes "wonder"
      ∷ codes "dinosaur"
      ∷ [];
}

abbrev lesson_4 : Lesson
lesson_4 = record {
  title = codes "4. Full alphabet";
  prompts =
      codes "hello world"
      ∷ codes "morse code is fun"
      ∷ codes "how are you"
      ∷ codes "practice makes perfect"
      ∷ codes "the quick brown fox jumps over the lazy dog"
      ∷ [];
}

abbrev lesson_5 : Lesson
lesson_5 = record {
  title = codes "5. Numbers";
  prompts =
      codes "agent 007"
      ∷ codes "route 66"
      ∷ codes "5 gold rings"
      ∷ codes "channel 9 news"
      ∷ codes "the year 2024"
      ∷ [];
}

abbrev pub lessons : List Lesson
lessons = lesson_1 ∷ lesson_2 ∷ lesson_3 ∷ lesson_4 ∷ lesson_5 ∷ []

abbrev pub phrases : List Bytes
phrases =
    codes "sos"
    ∷ codes "hello world"
    ∷ codes "the eagle has landed"
    ∷ codes "practice every day"
    ∷ codes "morse code is timeless"
    ∷ codes "dot dot dot dash dash dash"
    ∷ codes "keep calm and carry on"
    ∷ codes "the early bird gets the worm"
    ∷ codes "all that glitters is not gold"
    ∷ codes "a journey of a thousand miles begins with a single step"
    ∷ []

abbrev pub lesson_count : ℕ
lesson_count = length lessons

abbrev no_lesson : Lesson
no_lesson = record { title = []; prompts = [] }

abbrev nth_of : List Bytes → ℕ → Bytes
nth_of prompts index = get_or prompts (index % length prompts) []

unfoldable pub prompt : Track → ℕ → ℕ → Bytes
prompt lessons_track lesson index =
    nth_of (get_or lessons (min lesson (lesson_count - 1)) no_lesson).prompts index
prompt phrases_track lesson index = nth_of phrases index

abbrev has_code : ℕ → Bool
has_code c = elim (encode c) [ none ↦ false | some _ ↦ true ]

-- Every character has a code.
abbrev pub is_keyable : Bytes → Bool
is_keyable text = all has_code text

get_or-all :
    {A : Type 0} (t : A → Bool) (xs : List A) (i : ℕ) (d : A)
    → all t xs ≡ true
    → t d ≡ true
    → t (get_or xs i d) ≡ true
get_or-all t [] i d h k = k
get_or-all t (x ∷ xs) zero d h k = ground arith
get_or-all t (x ∷ xs) (suc i) d h k = get_or-all t xs i d (ground arith) k

lessons-keyable : all (λ (l : Lesson). all is_keyable l.prompts) lessons ≡ true
unfolding encode
lessons-keyable = refl

phrases-keyable : all is_keyable phrases ≡ true
unfolding encode
phrases-keyable = refl

-- Each prompt, of any track, lesson and position, can be keyed: every character of it has a code.
pub prompt-keyable :
    (track : Track) (lesson index : ℕ) → is_keyable (prompt track lesson index) ≡ true
unfolding prompt
prompt-keyable lessons_track lesson index =
    let l = get_or lessons (min lesson (lesson_count - 1)) no_lesson in
    get_or-all is_keyable l.prompts (index % length l.prompts) []
      (get_or-all (λ (x : Lesson). all is_keyable x.prompts) lessons (min lesson (lesson_count - 1))
        no_lesson lessons-keyable refl)
      refl
prompt-keyable phrases_track lesson index =
    get_or-all is_keyable phrases (index % length phrases) [] phrases-keyable refl
