-- ===== src/Examples/Threads/Before.antt =====
-- What a program with its signal thread has done, from the order of the calls of main alone.
use libbaalue.Prelude.{
  Bool, ◌≡◌, sym, ap, ◌∙◌, subst, true, false, List, [], ◌∷◌, ◌++◌, Bool-cases, inl, inr,
}
use libbaalue.Examples.Program.{Event, Run, events, has}
use libbaalue.Examples.Endings.{has-front}
use libbaalue.Examples.Signals.{Signal}
use libbaalue.Examples.Threads.{running, Reach, started}
use libbaalue.Examples.Threads.Shuffle.{
  Shuffle, nothing_left, of_main, of_signals, IsQuiet, main_shows,
}
use libbaalue.Examples.Threads.Order.{events-behind, precedes, precedes-has}
use libbaalue.Examples.Threads.Laws.{started-Comes}

-- `e` is one of the events.
pub data Shows (e : Event) : List Event → Type 0 where
  at_front : {h : List Event} → Shows e (e ∷ h)
  further : {x : Event} {h : List Event} → Shows e h → Shows e (x ∷ h)

pub Shows-append :
    {e : Event} {h : List Event} (more : List Event) → Shows e h → Shows e (h ++ more)
Shows-append more at_front = at_front
Shows-append more (further p) = further (Shows-append more p)

Shuffle-Shows : {e : Event} {g s h : List Event} → Shuffle g s h → Shows e g → Shows e h
Shuffle-Shows nothing_left p = elim p [ ]
Shuffle-Shows (of_main e sh) at_front = at_front
Shuffle-Shows (of_main e sh) (further p) = further (Shuffle-Shows sh p)
Shuffle-Shows (of_signals e sh) p = further (Shuffle-Shows sh p)

-- `e` stands before any event of a kind.
abbrev pub Leads : (Event → Bool) → Event → List Event → Type 0
Leads late e h = (a b : List Event) × (h ≡ a ++ e ∷ b) × (has late a ≡ false)

-- What stands before the first late event has been shown by a start that has a late event.
Shows-before :
    (late : Event → Bool) (a : List Event) (e : Event) (b g rest : List Event)
    → a ++ e ∷ b ≡ g ++ rest
    → has late a ≡ false
    → has late g ≡ true
    → Shows e g
Shows-before late a e b [] rest same none_late on = cc
Shows-before late [] e b (x ∷ g) rest same none_late on =
    let first : e ≡ x = cc in subst (λ y. Shows e (y ∷ g)) first at_front
Shows-before late (y ∷ a) e b (x ∷ g) rest same none_late on =
    let first : y ≡ x = cc in
    let tails : a ++ e ∷ b ≡ g ++ rest = cc in
    elim (Bool-cases (late y)) [
      | inl t ↦ cc (rw t at none_late)
      | inr f ↦
          let f' : late x ≡ false = ap late (sym first) ∙ f in
          further (Shows-before late a e b g rest tails (rw f at none_late) (rw f' at on))
    ]

module _ (final : List Event → List Event) (works : Bool) (m : Run (Unit {0})) {heard : List Signal}
    {h : List Event} {left : Run (Unit {0})}
    (r : Reach final works (started m) (running heard h left)) (q : Event → Bool)
    (q_quiet : IsQuiet q) (on : has q h ≡ true) where
  -- An event that is not one of the signal thread comes from main.
  pub running-events : has q (events m) ≡ true
  running-events =
      let (g, s, run, quiet, sh) = started-Comes final works m r in
      let on_main = sym (main_shows q q_quiet heard (ap events quiet) sh) ∙ on in
      ap (has q) (ap events run ∙ events-behind g left) ∙ has-front q g (events left) on_main

  -- With such an event, the program has done what main does before it.
  pub running-precedes :
      (p : Event → Bool) → IsQuiet p → precedes p q (events m) ≡ true → has p h ≡ true
  running-precedes p p_quiet first =
      let (g, s, run, quiet, sh) = started-Comes final works m r in
      let on_main = sym (main_shows q q_quiet heard (ap events quiet) sh) ∙ on in
      let ordered : precedes p q (g ++ events left) ≡ true =
        sym (ap (precedes p q) (ap events run ∙ events-behind g left)) ∙ first in
      main_shows p p_quiet heard (ap events quiet) sh
      ∙ precedes-has p q g (events left) ordered on_main

  -- An event of main before the first of them has been shown.
  pub running-Shows : (e : Event) → Leads q e (events m) → Shows e h
  running-Shows e (a, b, order, none_late) =
      let (g, s, run, quiet, sh) = started-Comes final works m r in
      let on_main = sym (main_shows q q_quiet heard (ap events quiet) sh) ∙ on in
      Shuffle-Shows sh (
        Shows-before q a e b g (events left) (sym order ∙ ap events run ∙ events-behind g left)
          none_late on_main)
