-- ===== src/Tests/Releasing.antt =====
-- A run of time_triggert_simple with its fibers, up to the release of the first.
use libbaalue.Prelude.{ℕ, Bool, true, false, List, [], ◌∷◌, ℤ, pos, zero, suc, ◌+◌}
use libbaalue.Fiber
use libbaalue.Fiber.Assigned.{Props}
use libbaalue.Fiber.Barrier.Family.{update}
use libbaalue.Fiber.Barrier.{
  starting, locked, waiting, building, main_locked, main_signalled, free, main_thread, fiber,
  Barrier, wake,
}
use libbaalue.Examples.Program.{Event, registered, kernel, sigmask, create, signal_handler, waits}
use libbaalue.Examples.Threads.{running}
use libbaalue.Examples.TimeTriggert.{ThreadOs}
use libbaalue.Examples.TimeTriggert.Started.{kernel_of, table_events}
use libbaalue.Examples.TimeTriggert.Fibers.{System, system}
use libbaalue.Examples.TimeTriggert.Released.{table_set}
use libbaalue.Tests.Programs.{threads_os}

-- The threads of the fibers, of which main reads the first only.
abbrev numbers : ℕ → ℤ
numbers i = pos (100 + i)

abbrev read_first : ℕ → ℤ
read_first zero = pos 100
read_first (suc i) = pos 0

abbrev late_os : ThreadOs
late_os = record threads_os { tid = read_first }

-- The program that has called baa_start_scheduler.
abbrev up : List Event
up =
    registered
    ∷ kernel (kernel_of late_os)
    ∷ sigmask
    ∷ create signal_handler
    ∷ table_events (table_set late_os)

abbrev with_fibers : Barrier → (ℕ → Bool) → System
with_fibers b stored = system (running [] up (waits [])) b stored

abbrev held : Barrier
held = record { owner = fiber 1; main_pc = building; pc = update (λ i. starting) 1 locked }

abbrev waiting_1 : Barrier
waiting_1 = record {
  owner = free;
  main_pc = building;
  pc = update (update (λ i. starting) 1 locked) 1 waiting;
}

abbrev main_in : Barrier
main_in = record { owner = main_thread; main_pc = main_locked; pc = waiting_1.pc }

abbrev woken_1 : Barrier
woken_1 = record { owner = main_thread; main_pc = main_signalled; pc = λ i. wake (waiting_1.pc i) }

-- The second fiber stores its number after main has read it, and comes to its wait in time.
abbrev stored_1 : ℕ → Bool
stored_1 = update (λ i. false) 1 true
