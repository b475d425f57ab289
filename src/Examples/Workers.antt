-- ===== src/Examples/Workers.antt =====
-- A program of examples/ with its signal thread and the thread of the library that does its work: all
-- three interleave in any order up to a call of exit; what the worker does while `cleanup` runs is not
-- modelled.
pub mod Laws
pub mod After
pub mod Servers
use libbaalue.Prelude.{◌≡◌, Bool, true, Option, some, List, [], ◌∷◌, ◌++◌, ◌>>=◌}
use libbaalue.Examples.Program.{Event, Run, has}
use libbaalue.Examples.Signals.{Signal}
use libbaalue.Examples.Threads.{State, running, main_exiting, signal_exiting, ended, Step, started}

-- The endless loop of a thread, over what it receives: a round, and the loop over all receptions so
-- far, with what it has done before. `none` is a fault.
pub record Worker (R E : Type 0) : Type 0 where
  pub round : R → List E → Option (List E)
  pub loop : List R → List E → Option (List E)
  pub loop_nil : (h : List E) → loop [] h ≡ some h
  pub loop_cons : (r : R) (rs : List R) (h : List E) → loop (r ∷ rs) h ≡ (round r h >>= loop rs)

-- The program, what the worker has received, and what it has done.
pub record Machine (R E : Type 0) : Type 0 where
  pub program : State
  pub taken : List R
  pub done : List E

abbrev pub machine : {R E : Type 0} → State → List R → List E → Machine R E
machine s rs w = record { program = s; taken = rs; done = w }

-- What a program has done.
abbrev pub history : State → List Event
history (running heard h m) = h
history (main_exiting heard status rest h) = h
history (signal_exiting status rest h m) = h
history (ended status h) = h

module _ {R E : Type 0} (worker : Worker R E) (final : List Event → List Event) (works : Bool)
    (is_start : Event → Bool) (created : Bool) where
  -- `is_start` is the call that creates the worker's thread, and `created` whether it works.
  pub data Moves : Machine R E → Machine R E → Type 0 where
    program_moves :
        (s t : State) (rs : List R) (w : List E)
        → Step final works s t
        → Moves (machine s rs w) (machine t rs w)
    worker_moves :
        (heard : List Signal) (h : List Event) (m : Run (Unit {0})) (r : R) (rs : List R)
        (w w' : List E)
        → created ≡ true
        → has is_start h ≡ true
        → worker.round r w ≡ some w'
        → Moves (machine (running heard h m) rs w) (machine (running heard h m) (rs ++ r ∷ []) w')

  pub data Reaches (s : Machine R E) : Machine R E → Type 0 where
    as_begun : Reaches s s
    moved : {t u : Machine R E} → Reaches s t → Moves t u → Reaches s u

-- A program as it starts, without a worker.
abbrev pub begun : {R E : Type 0} → Run (Unit {0}) → Machine R E
begun m = machine (started m) [] []
