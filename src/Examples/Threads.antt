-- ===== src/Examples/Threads.antt =====
-- The two threads of a program of examples/ that act by themselves, main and signal_handler, as a step
-- relation: their steps interleave in any order, and exit of either runs `cleanup`, while the other goes
-- on, and ends the program.
pub mod Shuffle
pub mod Order
pub mod Laws
pub mod Before
pub mod Sigterm
use libbaalue.Prelude.{ℕ, ◌≡◌, Bool, true, false, if◌then◌else◌, List, [], ◌∷◌, ◌++◌}
use libbaalue.Examples.Program.{
  Event, create, signal_handler, Run, exits, goes_on, behind, has, is_registered,
}
use libbaalue.Examples.Signals.{Signal, signal_round}

-- The call of main that creates the thread. A call that fails ends the program.
abbrev pub is_handler : Event → Bool
is_handler (create signal_handler) = true
is_handler _ = false

-- A running program: the answers of sigwait so far, what both threads have done, in its order, and what
-- is left of main. A program of which main, or the signal thread, has called exit: its status and what
-- is left of `cleanup`, and what the other thread goes on with. An ended one: its status and what it has
-- done, `cleanup` included.
pub data State : Type 0 where
  running : List Signal → List Event → Run (Unit {0}) → State
  main_exiting : List Signal → ℕ → List Event → List Event → State
  signal_exiting : ℕ → List Event → List Event → Run (Unit {0}) → State
  ended : ℕ → List Event → State

-- What exit does behind `h`, as the state is when it begins.
abbrev pub closing : (List Event → List Event) → List Event → List Event
closing final h = if is_registered h then final h else []

-- `final` is `cleanup`, and `works` says whether pthread_create of signal_handler works. The other
-- thread goes on while `cleanup` runs; a second call of exit, which POSIX leaves undefined, is no step.
pub data Step (final : List Event → List Event) (works : Bool) : State → State → Type 0 where
  main_acts :
      (heard : List Signal) (h : List Event) (e : Event) (m m' : Run (Unit {0}))
      → m ≡ behind (e ∷ []) m'
      → Step final works (running heard h m) (running heard (h ++ e ∷ []) m')
  main_exits :
      (heard : List Signal) (h : List Event) (status : ℕ) (m : Run (Unit {0}))
      → m ≡ exits status []
      → Step final works (running heard h m) (main_exiting heard status (closing final h) h)
  signal_acts :
      (heard : List Signal) (h g : List Event) (s : Signal) (m : Run (Unit {0}))
      → works ≡ true
      → has is_handler h ≡ true
      → signal_round s ≡ goes_on tt g
      → Step final works (running heard h m) (running (heard ++ s ∷ []) (h ++ g) m)
  signal_exits :
      (heard : List Signal) (h g : List Event) (s : Signal) (status : ℕ) (m : Run (Unit {0}))
      → works ≡ true
      → has is_handler h ≡ true
      → signal_round s ≡ exits status g
      → Step final works
          (running heard h m)
          (signal_exiting status (closing final (h ++ g)) (h ++ g) m)
  main_cleans :
      (heard : List Signal) (status : ℕ) (e : Event) (rest h : List Event)
      → Step final works
          (main_exiting heard status (e ∷ rest) h)
          (main_exiting heard status rest (h ++ e ∷ []))
  signal_acts_on :
      (heard : List Signal) (status : ℕ) (rest h g : List Event) (s : Signal)
      → works ≡ true
      → has is_handler h ≡ true
      → signal_round s ≡ goes_on tt g
      → Step final works
          (main_exiting heard status rest h)
          (main_exiting (heard ++ s ∷ []) status rest (h ++ g))
  main_ends :
      (heard : List Signal) (status : ℕ) (h : List Event)
      → Step final works (main_exiting heard status [] h) (ended status h)
  signal_cleans :
      (status : ℕ) (e : Event) (rest h : List Event) (m : Run (Unit {0}))
      → Step final works
          (signal_exiting status (e ∷ rest) h m)
          (signal_exiting status rest (h ++ e ∷ []) m)
  main_acts_on :
      (status : ℕ) (rest h : List Event) (e : Event) (m m' : Run (Unit {0}))
      → m ≡ behind (e ∷ []) m'
      → Step final works
          (signal_exiting status rest h m)
          (signal_exiting status rest (h ++ e ∷ []) m')
  signal_ends :
      (status : ℕ) (h : List Event) (m : Run (Unit {0}))
      → Step final works (signal_exiting status [] h m) (ended status h)

pub data Reach (final : List Event → List Event) (works : Bool) (s : State) : State → Type 0 where
  here : Reach final works s s
  next : {t u : State} → Reach final works s t → Step final works t u → Reach final works s u

-- A program as it starts.
abbrev pub started : Run (Unit {0}) → State
started m = running [] [] m
