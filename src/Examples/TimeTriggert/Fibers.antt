-- ===== src/Examples/TimeTriggert/Fibers.antt =====
-- A program of examples/ with a table of fibers: main, signal_handler and the threads of baa_fiber up
-- to their loop interleave in any order up to a call of exit.
use libbaalue.Prelude.{
  ℕ, ◌≡◌, refl, sym, ◌∙◌, Bool, true, false, ◌||◌, Option, none, some, List, [], ◌∷◌, append-nil,
  ◌⊎◌, inl, inr, ◌==◌, ◌<◌, ℤ, pos, Bool-cases,
}
use libbaalue.Fiber.Threads
use libbaalue.Fiber.Threads.{ThreadEvent, broadcast}
use libbaalue.Fiber.Barrier
use libbaalue.Fiber.Barrier.Family.{update}
use libbaalue.Fiber.Barrier.{
  Barrier, building, built, fiber_lock, fiber_wait, fiber_wake, fiber_relock, fiber_unlock,
  main_lock, main_broadcast, main_unlock,
}
use libbaalue.Examples.Program.{Event, threads, scheduling, Run, has}
use libbaalue.Examples.Signals.{Signal}
use libbaalue.Examples.Threads.{State, running, Step, Reach, here, next, started}
use libbaalue.Examples.Workers.{history}
use libbaalue.Examples.Workers.Laws.{Extends, Extends-trans, Step-Extends}

-- The program, its mutex and condition variable with the threads that use them, and the fibers that have
-- stored their thread number in the table.
pub record System : Type 0 where
  pub program : State
  pub barrier : Barrier
  pub stored : ℕ → Bool

abbrev pub system : State → Barrier → (ℕ → Bool) → System
system s b stored = record { program = s; barrier = b; stored = stored }

-- The fiber that takes a step; none is the main thread in baa_start_scheduler.
abbrev pub mover :
    {n : ℕ} {spurious : Bool} {b b' : Barrier} → Barrier.Step n spurious b b' → Option ℕ
mover (fiber_lock i l p f) = some i
mover (fiber_wait i l p) = some i
mover (fiber_wake i l p u) = some i
mover (fiber_relock i l p f) = some i
mover (fiber_unlock i l p) = some i
mover (main_lock p f) = none
mover (main_broadcast p) = none
mover (main_unlock p) = none

-- pthread_create was called for the fiber.
abbrev pub creates : ℕ → List ThreadEvent → Bool
creates i [] = false
creates i (Threads.create j ∷ h) = j == i || creates i h
creates i (Threads.join j ∷ h) = creates i h
creates i (Threads.create_failed e ∷ h) = creates i h
creates i (Threads.join_failed e ∷ h) = creates i h
creates i (Threads.sleep ∷ h) = creates i h
creates i (broadcast ∷ h) = creates i h

abbrev pub is_creation : ℕ → Event → Bool
is_creation i (threads h) = creates i h
is_creation i _ = false

-- baa_start_scheduler was called.
abbrev pub is_broadcast : Event → Bool
is_broadcast (threads (broadcast ∷ h)) = true
is_broadcast _ = false

-- baa_set_schedule_props was called.
abbrev pub is_scheduling : Event → Bool
is_scheduling (scheduling p) = true
is_scheduling _ = false

-- What main reads of a field `kernel_tid`, when it is called with `stored` the fibers that have stored
-- theirs: the number, or the 0 of the initialiser if the fiber had not stored it.
abbrev pub Reads : (ℕ → ℤ) → (ℕ → ℤ) → (ℕ → Bool) → ℕ → Type 0
Reads tid number stored i = (tid i ≡ number i) ⊎ ((stored i ≡ false) × (tid i ≡ pos 0))

module _ (create_err : ℕ → ℕ) (tid number : ℕ → ℤ) (n : ℕ) (spurious : Bool)
    (final : List Event → List Event) (works : Bool) where
  -- `create_err` is what pthread_create gives for a fiber, `number` is what gettid gives in its thread,
  -- and `tid` what baa_set_schedule_props in main reads of it; `n` is the number of fibers. A call of
  -- the library is one event of main, so that the steps that the threads take while it runs come behind
  -- it. A fiber stores its number before it comes to the mutex.
  pub data Moves : System → System → Type 0 where
    program_moves :
        (s t : State) (b : Barrier) (stored : ℕ → Bool)
        → Step final works s t
        → (has is_scheduling (history s) ≡ false
            → has is_scheduling (history t) ≡ true
            → (i : ℕ) → i < n
            → Reads tid number stored i)
        → Moves (system s b stored) (system t b stored)
    fiber_stores :
        (heard : List Signal) (h : List Event) (m : Run (Unit {0})) (b : Barrier)
        (stored : ℕ → Bool) (i : ℕ)
        → i < n
        → create_err i ≡ 0
        → has (is_creation i) h ≡ true
        → stored i ≡ false
        → Moves
            (system (running heard h m) b stored)
            (system (running heard h m) b (update stored i true))
    fiber_moves :
        (heard : List Signal) (h : List Event) (m : Run (Unit {0})) (b b' : Barrier)
        (stored : ℕ → Bool) (i : ℕ) (step : Barrier.Step n spurious b b')
        → mover step ≡ some i
        → stored i ≡ true
        → Moves (system (running heard h m) b stored) (system (running heard h m) b' stored)
    main_moves :
        (heard : List Signal) (h : List Event) (m : Run (Unit {0})) (b b' : Barrier)
        (stored : ℕ → Bool) (step : Barrier.Step n spurious b b')
        → mover step ≡ none
        → has is_broadcast h ≡ true
        → Moves (system (running heard h m) b stored) (system (running heard h m) b' stored)

  pub data Reaches (k : System) : System → Type 0 where
    as_begun : Reaches k k
    moved : {j l : System} → Reaches k j → Moves j l → Reaches k l

-- A program as it starts, without threads.
abbrev pub begun : Run (Unit {0}) → System
begun m = system (started m) built (λ i. false)

-- A fiber does not move the main thread.
main_stays :
    {n : ℕ} {spurious : Bool} {b b' : Barrier} (step : Barrier.Step n spurious b b') (i : ℕ)
    → mover step ≡ some i
    → b'.main_pc ≡ b.main_pc
main_stays (fiber_lock i l p f) j e = refl
main_stays (fiber_wait i l p) j e = refl
main_stays (fiber_wake i l p u) j e = refl
main_stays (fiber_relock i l p f) j e = refl
main_stays (fiber_unlock i l p) j e = refl
main_stays (main_lock p f) j e = cc
main_stays (main_broadcast p) j e = cc
main_stays (main_unlock p) j e = cc

module _ (n : ℕ) (spurious : Bool) (final : List Event → List Event) (works : Bool)
    (m : Run (Unit {0})) where
  -- The program comes about without the fibers; they and the main thread's use of their mutex come
  -- about from what baa_build_scheduler leaves; and the main thread uses it only in a program
  -- that has called baa_start_scheduler.
  abbrev pub Runs : System → Type 0
  Runs k =
      Reach final works (started m) k.program
      × Barrier.Reach n spurious built k.barrier
      × ((k.barrier.main_pc ≡ building)
          ⊎ ((heard : List Signal) × (h : List Event) × (left : Run (Unit {0})) × Reach final works
                (started m) (running heard h left)
              × (has is_broadcast h ≡ true)
              × Extends h (history k.program)))

  Moves-Runs :
      {create_err : ℕ → ℕ} {tid number : ℕ → ℤ} {j k : System}
      → Moves create_err tid number n spurious final works j k
      → Runs j
      → Runs k
  Moves-Runs (program_moves s t b stored step reads) (r, fibers, inl yet) =
      (next r step, fibers, inl yet)
  Moves-Runs (program_moves s t b stored step reads) (r, fibers, inr (heard, h, left, q, on, ext)) =
      (
        next r step,
        fibers,
        inr (
          heard,
          h,
          left,
          q,
          on,
          Extends-trans h (history s) (history t) ext (Step-Extends step),
        ),
      )
  Moves-Runs (fiber_stores heard h left b stored i l c on new) (r, fibers, before) =
      (r, fibers, before)
  Moves-Runs (fiber_moves heard h left b b' stored i step by c) (r, fibers, inl yet) =
      (r, Barrier.next fibers step, inl (main_stays step i by ∙ yet))
  Moves-Runs (fiber_moves heard h left b b' stored i step by c) (r, fibers, inr before) =
      (r, Barrier.next fibers step, inr before)
  Moves-Runs (main_moves heard h left b b' stored step by on) (r, fibers, before) =
      (r, Barrier.next fibers step, inr (heard, h, left, r, on, ([], sym (append-nil h))))

  pub begun-Runs :
      {create_err : ℕ → ℕ} {tid number : ℕ → ℤ} {k : System}
      → Reaches create_err tid number n spurious final works (begun m) k
      → Runs k
  begun-Runs as_begun = (here, Barrier.here, inl refl)
  begun-Runs (moved r step) = Moves-Runs step (begun-Runs r)

  -- The states up to the call of baa_set_schedule_props, if it was made, and from there on.
  pub called-Reads :
      {create_err : ℕ → ℕ} {tid number : ℕ → ℤ} {k : System}
      → Reaches create_err tid number n spurious final works (begun m) k
      → has is_scheduling (history k.program) ≡ true
      → (j : System) × Reaches create_err tid number n spurious final works (begun m) j
        × Reaches create_err tid number n spurious final works j k
        × ((i : ℕ) → i < n → Reads tid number j.stored i)
  called-Reads as_begun e = cc
  called-Reads (moved r (program_moves s t b stored step reads)) e =
      elim (Bool-cases (has is_scheduling (history s))) [
        | inl before ↦
            let (j, up_to, on, all) = called-Reads r before in
            (j, up_to, moved on (program_moves s t b stored step reads), all)
        | inr not_yet ↦ (
          system s b stored,
          r,
          moved as_begun (program_moves s t b stored step reads),
          reads not_yet e,
        )
      ]
  called-Reads (moved r (fiber_stores heard h left b stored i l c on new)) e =
      let (j, up_to, from_there, all) = called-Reads r e in
      (j, up_to, moved from_there (fiber_stores heard h left b stored i l c on new), all)
  called-Reads (moved r (fiber_moves heard h left b b' stored i step by c)) e =
      let (j, up_to, on, all) = called-Reads r e in
      (j, up_to, moved on (fiber_moves heard h left b b' stored i step by c), all)
  called-Reads (moved r (main_moves heard h left b b' stored step by on)) e =
      let (j, up_to, from_there, all) = called-Reads r e in
      (j, up_to, moved from_there (main_moves heard h left b b' stored step by on), all)
