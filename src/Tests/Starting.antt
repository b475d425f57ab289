-- ===== src/Tests/Starting.antt =====
-- Tests of Fiber.Barrier: the start of the fibers in src/fiber.c.
use libbaalue.Prelude.{ℕ, zero, suc, ◌<◌, ◌≡◌, refl, Bool, true, false, arith}
use libbaalue.Fiber.Barrier.Family.{update}
use libbaalue.Fiber.Barrier.{
  starting, locked, waiting, woken, relocked, running, building, main_locked, joining, free,
  main_thread, fiber, Barrier, fiber_lock, fiber_wait, fiber_wake, fiber_relock, fiber_unlock,
  main_lock, main_broadcast, main_unlock, built, Reach, here, next,
}
use libbaalue.Fiber.Barrier.Safety.{released, late_fiber_waits}
use libbaalue.Fiber.Barrier.Liveness.{Runs, Inevitably, Reach-Inevitably}

-- Fiber 0 of one holds the mutex.
abbrev holding : Barrier
holding = record { owner = fiber 0; main_pc = building; pc = update (λ i. starting) 0 locked }

to_holding : (b : Bool) → Reach 1 b built holding
to_holding b = next here (fiber_lock 0 (omega arith) refl refl)

-- Fiber 0 of one waits, and baa_start_scheduler holds the mutex.
abbrev all_wait : Barrier
all_wait = record {
  owner = main_thread;
  main_pc = main_locked;
  pc = update (update (λ i. starting) 0 locked) 0 waiting;
}

to_all_wait : Reach 1 false built all_wait
to_all_wait = next (next (to_holding false) (fiber_wait 0 (omega arith) refl)) (main_lock refl refl)

waits : (i : ℕ) → i < 1 → all_wait.pc i ≡ waiting
waits zero h = refl
waits (suc i) h = absurd (omega arith)

Reach-Inevitably_example : Inevitably 1 false (Runs 1) all_wait
Reach-Inevitably_example = Reach-Inevitably to_all_wait refl waits

-- The main thread is through before fiber 0 of one starts; the fiber then comes to its wait.
abbrev late : Barrier
late = record { owner = free; main_pc = joining; pc = λ i. starting }

abbrev stuck : Barrier
stuck = record {
  owner = free;
  main_pc = joining;
  pc = update (update (λ i. starting) 0 locked) 0 waiting;
}

late_is_reached : Reach 1 false built late
late_is_reached =
    next (next (next here (main_lock refl refl)) (main_broadcast refl)) (main_unlock refl)

late_is_stuck : Reach 1 false late stuck
late_is_stuck =
    next (next here (fiber_lock 0 (omega arith) refl refl)) (fiber_wait 0 (omega arith) refl)

late_fiber_waits_example : (stuck.main_pc ≡ joining) × (released (stuck.pc 0) ≡ false)
late_fiber_waits_example = late_fiber_waits late_is_stuck 0 refl refl

-- A wake without a broadcast lets fiber 0 run before baa_start_scheduler.
abbrev early : Barrier
early = record {
  owner = free;
  main_pc = building;
  pc =
      update
        (update (update (update (update (λ i. starting) 0 locked) 0 waiting) 0 woken) 0 relocked) 0
        running;
}

early_is_reached : Reach 1 true built early
early_is_reached =
    next
      (next
        (next (next (to_holding true) (fiber_wait 0 (omega arith) refl))
          (fiber_wake 0 (omega arith) refl refl))
        (fiber_relock 0 (omega arith) refl refl))
      (fiber_unlock 0 (omega arith) refl)
