-- ===== src/Morse/App/Valid.antt =====
-- The invariant of the application.
use scratchpad.Common.{
  ℕ, zero, suc, ◌+◌, ◌-◌, ◌%◌, ◌<◌, ◌≡◌, refl, subst, Option, none, some, List, [], ◌∷◌, ◌++◌,
  arith, Bytes, bytes_eq, if-cases,
}
use scratchpad.Morse.{InputEvent, Symbol, char, backspace, Sequence, decode}
use scratchpad.Morse.Lessons.{Track, lesson_count, prompt}
use scratchpad.Morse.App.{
  Screen, menu, lesson_picker, practice, Mode, free_text, prompted, App, new_app, menu_len, push_on,
  push, load_prompt, next_prompt, apply_symbol, apply_decoded, commit_sequence, menu_up, menu_down,
  start_free_text, start_prompted, select_on, menu_select, back_from, back, Event, pushing,
  committing, hinting, charting, going_up, going_down, selecting, backing, handle, handle_all,
}

abbrev pub SelectionOk : Screen → ℕ → Type 0
SelectionOk menu s = s < 2
SelectionOk lesson_picker s = s < 1 + lesson_count
SelectionOk practice s = Unit {0}

abbrev pub TargetOk : Mode → Track → ℕ → ℕ → Bytes → Type 0
TargetOk free_text track lesson index target = Unit {0}
TargetOk prompted track lesson index target = target ≡ prompt track lesson index

abbrev pub IdleOk : Screen → Sequence → Type 0
IdleOk practice seq = Unit {0}
IdleOk _ seq = seq ≡ []

pub record IsValid (a : App) : Type 0 where
  pub selection_ok : SelectionOk a.screen a.selection
  pub lesson_ok : a.lesson < lesson_count
  pub target_ok : TargetOk a.mode a.track a.lesson a.prompt_index a.target
  pub idle_ok : IdleOk a.screen a.seq

target_fresh :
    (m : Mode) (track : Track) (lesson index : ℕ)
    → TargetOk m track lesson index (prompt track lesson index)
target_fresh free_text track lesson index = tt
target_fresh prompted track lesson index = refl

idle_nil : (s : Screen) → IdleOk s []
idle_nil menu = refl
idle_nil lesson_picker = refl
idle_nil practice = tt

new_app-IsValid : IsValid new_app
new_app-IsValid = record {
  selection_ok = omega arith;
  lesson_ok = omega arith;
  target_ok = tt;
  idle_ok = refl;
}

wrapped : (s : Screen) (n x : ℕ) → menu_len s ≡ suc n → SelectionOk s (x % suc n)
wrapped menu n x e = subst (λ k. x % k < 2) e (omega arith)
wrapped lesson_picker n x e = subst (λ k. x % k < 6) e (omega arith)
wrapped practice n x e = tt

module _ (a : App) (v : IsValid a) where
  push-IsValid : (e : InputEvent) → IsValid (push e a)
  unfolding push
  push-IsValid e = go a.screen refl
    where
      go : (s : Screen) → a.screen ≡ s → IsValid (push_on s e a)
      go menu h = v
      go lesson_picker h = v
      go practice h = record {
        selection_ok = v.selection_ok;
        lesson_ok = v.lesson_ok;
        target_ok = v.target_ok;
        idle_ok = rw h tt;
      }

  selected-IsValid :
      (f : ℕ → ℕ)
      → IsValid (elim (menu_len a.screen) as (λ _. App) [
        | zero ↦ a
        | suc n ↦ record a { selection = f n % suc n }
      ])
  selected-IsValid f = go (menu_len a.screen) refl
    where
      go :
          (n : ℕ)
          → menu_len a.screen ≡ n
          → IsValid
              (elim n as (λ _. App) [ zero ↦ a | suc n ↦ record a { selection = f n % suc n } ])
      go zero h = v
      go (suc n) h = record {
        selection_ok = wrapped a.screen n (f n) h;
        lesson_ok = v.lesson_ok;
        target_ok = v.target_ok;
        idle_ok = v.idle_ok;
      }

  -- The letters change, and nothing that the invariant reads.
  texts-IsValid : (o t : Bytes) → IsValid (record a { output = o; typed = t })
  texts-IsValid o t = record {
    selection_ok = v.selection_ok;
    lesson_ok = v.lesson_ok;
    target_ok = v.target_ok;
    idle_ok = v.idle_ok;
  }

  apply_symbol-IsValid : (m : Mode) (symbol : Symbol) → IsValid (apply_symbol m symbol a)
  unfolding apply_symbol next_prompt load_prompt
  apply_symbol-IsValid free_text (char c) = texts-IsValid (a.output ++ c ∷ []) a.typed
  apply_symbol-IsValid free_text backspace = texts-IsValid _ a.typed
  apply_symbol-IsValid prompted backspace = texts-IsValid a.output _
  apply_symbol-IsValid prompted (char c) =
      if-cases IsValid (bytes_eq (a.typed ++ c ∷ []) a.target) _ _
        (λ _. record {
          selection_ok = v.selection_ok;
          lesson_ok = v.lesson_ok;
          target_ok = target_fresh a.mode a.track a.lesson (a.prompt_index + 1);
          idle_ok = v.idle_ok;
        })
        (λ _. texts-IsValid a.output (a.typed ++ c ∷ []))

  back-IsValid : IsValid (back a)
  unfolding back
  back-IsValid = go a.screen
    where
      home : IsValid (record a { screen = menu; selection = 0; seq = [] })
      home = record {
        selection_ok = omega arith;
        lesson_ok = v.lesson_ok;
        target_ok = v.target_ok;
        idle_ok = refl;
      }

      go : (s : Screen) → IsValid (back_from s a)
      go menu = record {
        selection_ok = v.selection_ok;
        lesson_ok = v.lesson_ok;
        target_ok = v.target_ok;
        idle_ok = v.idle_ok;
      }
      go lesson_picker = home
      go practice = home

  select_on-IsValid :
      (s : Screen) (n : ℕ) → a.screen ≡ s → SelectionOk s n → IsValid (select_on s n a)
  unfolding select_on start_free_text start_prompted load_prompt
  select_on-IsValid menu zero h k = record {
    selection_ok = tt;
    lesson_ok = v.lesson_ok;
    target_ok = tt;
    idle_ok = tt;
  }
  select_on-IsValid menu (suc n) h k = record {
    selection_ok = omega arith;
    lesson_ok = v.lesson_ok;
    target_ok = v.target_ok;
    idle_ok = rw h at v.idle_ok;
  }
  select_on-IsValid lesson_picker zero h k = record {
    selection_ok = tt;
    lesson_ok = omega arith;
    target_ok = refl;
    idle_ok = tt;
  }
  select_on-IsValid lesson_picker (suc n) h k = record {
    selection_ok = tt;
    lesson_ok = omega (arith, k);
    target_ok = refl;
    idle_ok = tt;
  }
  select_on-IsValid practice n h k = v

handle-IsValid : (e : Event) (a : App) → IsValid a → IsValid (handle e a)
unfolding handle commit_sequence menu_up menu_down menu_select
handle-IsValid (pushing e) a v = push-IsValid a v e
handle-IsValid committing a v = applied (decode a.seq)
  where
    cleared : IsValid (record a { seq = [] })
    cleared = record {
      selection_ok = v.selection_ok;
      lesson_ok = v.lesson_ok;
      target_ok = v.target_ok;
      idle_ok = idle_nil a.screen;
    }

    applied : (o : Option Symbol) → IsValid (apply_decoded o (record a { seq = [] }))
    applied none = cleared
    applied (some symbol) = apply_symbol-IsValid (record a { seq = [] }) cleared a.mode symbol
handle-IsValid hinting a v = record {
  selection_ok = v.selection_ok;
  lesson_ok = v.lesson_ok;
  target_ok = v.target_ok;
  idle_ok = v.idle_ok;
}
handle-IsValid charting a v = record {
  selection_ok = v.selection_ok;
  lesson_ok = v.lesson_ok;
  target_ok = v.target_ok;
  idle_ok = v.idle_ok;
}
handle-IsValid going_up a v = selected-IsValid a v (λ n. a.selection + suc n - 1)
handle-IsValid going_down a v = selected-IsValid a v (λ n. a.selection + 1)
handle-IsValid selecting a v = select_on-IsValid a v a.screen a.selection refl v.selection_ok
handle-IsValid backing a v = back-IsValid a v

kept : (es : List Event) (a : App) → IsValid a → IsValid (handle_all es a)
unfolding handle_all
kept [] a v = v
kept (e ∷ es) a v = kept es (handle e a) (handle-IsValid e a v)

-- Whatever the events, the highlighted item is on the screen's list, the lesson exists, the target of
-- prompted practice is the prompt of its track, lesson and position, and no input is pending off the
-- practice screen.
pub handle_all-IsValid : (es : List Event) → IsValid (handle_all es new_app)
handle_all-IsValid es = kept es new_app new_app-IsValid
