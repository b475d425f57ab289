-- ===== src/Examples/Threads/Sigterm.antt =====
-- SIGTERM to a program of examples/ that registers its `cleanup` before it starts the signal thread.
use libbaalue.Prelude.{
  Bool, ◌≡◌, refl, sym, ap, ◌∙◌, subst, true, false, List, [], ◌∷◌, ◌++◌, append-nil, pos, eqb_ℤ,
  Bool-cases, inl, inr,
}
use libbaalue.Examples.Program.{
  Event, registered, caught, Run, exits, waits, faults, goes_on, behind, ◌>>=◌, events, has,
  is_registration, is_registered, success, Env, register_cleanup,
}
use libbaalue.Examples.Endings.{has-append, has-front, behind->>=}
use libbaalue.Examples.Signals.{Signal, signal, sigterm, signal_round}
use libbaalue.Examples.Threads.{is_handler, running, ended, Reach, started}
use libbaalue.Examples.Threads.Shuffle.{is_handler-IsQuiet, is_registration-IsQuiet}
use libbaalue.Examples.Threads.Order.{events-behind, precedes}
use libbaalue.Examples.Threads.Laws.{ends_by_signal}
use libbaalue.Examples.Threads.Before.{running-precedes}

-- A run that does not start the signal thread.
abbrev pub Silent : {A : Type 0} → Run A → Type 0
Silent m = has is_handler (events m) ≡ false

-- A run that registers `cleanup` before it starts the signal thread, if it starts it.
abbrev pub Registers : {A : Type 0} → Run A → Type 0
Registers m = precedes is_registration is_handler (events m) ≡ true

Silent-behind :
    {A : Type 0} (h : List Event) (m : Run A)
    → has is_handler h ≡ false
    → Silent m
    → Silent (behind h m)
Silent-behind h m p q =
    ap (has is_handler) (events-behind h m) ∙ has-append is_handler h (events m) p ∙ q

pub Silent->>= :
    {A B : Type 0} (m : Run A) (k : A → Run B)
    → Silent m
    → ((a : A) → Silent (k a))
    → Silent (m >>= k)
Silent->>= (exits s h) k p q = p
Silent->>= (waits h) k p q = p
Silent->>= (faults h) k p q = p
Silent->>= (goes_on a h) k p q = Silent-behind h (k a) p (q a)

precedes-append :
    (g h : List Event)
    → has is_handler g ≡ false
    → precedes is_registration is_handler h ≡ true
    → precedes is_registration is_handler (g ++ h) ≡ true
precedes-append [] h p q = q
precedes-append (e ∷ g) h p q = elim (Bool-cases (is_registration e)) [
  | inl y ↦ rw y
  | inr n ↦ elim (Bool-cases (is_handler e)) [
    | inl y ↦ cc (rw y at p)
    | inr m ↦ rw (n, m) (precedes-append g h (rw m at p) q)
  ]
]

-- A run that starts nothing ends before the thread.
Silent-Registers :
    (h : List Event) → has is_handler h ≡ false → precedes is_registration is_handler h ≡ true
Silent-Registers h p =
    sym (ap (precedes is_registration is_handler) (append-nil h)) ∙ precedes-append h [] p refl

pub Registers->>= :
    {A B : Type 0} (m : Run A) (k : A → Run B)
    → Silent m
    → ((a : A) → Registers (k a))
    → Registers (m >>= k)
Registers->>= (exits s h) k p q = Silent-Registers h p
Registers->>= (waits h) k p q = Silent-Registers h p
Registers->>= (faults h) k p q = Silent-Registers h p
Registers->>= (goes_on a h) k p q =
    ap (precedes is_registration is_handler) (events-behind h (k a))
    ∙ precedes-append h (events (k a)) p (q a)

-- How a run of several parts is nested does not matter.
pub Registers-nested :
    {A B C : Type 0} (m : Run A) (j : A → Run B) (k : B → Run C)
    → Registers (m >>= λ a. j a >>= k)
    → Registers (m >>= j >>= k)
Registers-nested (exits s h) j k p = p
Registers-nested (waits h) j k p = p
Registers-nested (faults h) j k p = p
Registers-nested (goes_on a h) j k p =
    ap (λ l. precedes is_registration is_handler (events l)) (behind->>= h (j a) k) ∙ p

-- Behind the call of atexit.
pub register_cleanup-Registers :
    {B : Type 0} (env : Env) (k : Unit {0} → Run B) → Registers (register_cleanup env >>= k)
unfolding register_cleanup
register_cleanup-Registers env k = elim (Bool-cases (eqb_ℤ env.atexit_ret (pos 0))) [
  | inl y ↦ rw y (ap (precedes is_registration is_handler) (events-behind (registered ∷ []) (k tt)))
  | inr n ↦ rw n
]

-- Whenever such a program has started the signal thread, SIGTERM ends it with EXIT_SUCCESS, and
-- `final` is the last that it does.
pub Registers-sigterm :
    (final : List Event → List Event) (works : Bool) (m : Run (Unit {0})) {heard : List Signal}
    {h : List Event} {left : Run (Unit {0})}
    → works ≡ true
    → Registers m
    → Reach final works (started m) (running heard h left)
    → has is_handler h ≡ true
    → let h' = h ++ caught sigterm ∷ [] in
      Reach final works (started m) (ended success (h' ++ final h'))
unfolding signal_round
Registers-sigterm final works m {heard} {h} {left} w reg r on =
    let h' = h ++ caught sigterm ∷ [] in
    let in_h : is_registered h ≡ true =
      running-precedes final works m r is_handler is_handler-IsQuiet on is_registration
        is_registration-IsQuiet reg in
    let in_h' : is_registered h' ≡ true = has-front is_registration h (caught sigterm ∷ []) in_h in
    let ends =
      ends_by_signal final works m heard h (caught sigterm ∷ []) (signal sigterm) success left w on
        refl r in
    subst (λ l. Reach final works (started m) (ended success l)) (rw in_h') ends
