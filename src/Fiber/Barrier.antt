-- ===== src/Fiber/Barrier.antt =====
-- The start of the fibers in src/fiber.c, as a step relation: `mutex` and `cond`, which each thread
-- of baa_fiber waits on, and which baa_start_scheduler broadcasts. The threads have been created;
-- their steps and those of the main thread interleave in any order.
pub mod Family
pub mod Safety
pub mod Liveness
use libbaalue.Prelude.{ℕ, ◌≡◌, Bool, true, false, ◌<◌, if◌then◌else◌, ◌==◌}
use libbaalue.Fiber.Barrier.Family.{update}

-- Where a fiber stands: before pthread_mutex_lock; before pthread_cond_wait; in it, without the mutex,
-- not woken and woken; before pthread_mutex_unlock; behind it, where its loop calls the function.
pub data Pc : Type 0 where
  starting locked waiting woken relocked running : Pc

-- Where the main thread stands: before the lock of baa_start_scheduler, before the broadcast, before
-- the unlock, behind it.
pub data MainPc : Type 0 where
  building main_locked main_signalled joining : MainPc

pub data Owner : Type 0 where
  free main_thread : Owner
  fiber : ℕ → Owner

-- The owner of `mutex`, and where the threads stand. Only the fibers below the number of fibers exist.
pub record Barrier : Type 0 where
  pub owner : Owner
  pub main_pc : MainPc
  pub pc : ℕ → Pc

-- pthread_cond_broadcast wakes the fibers that wait.
abbrev pub wake : Pc → Pc
wake starting = starting
wake locked = locked
wake waiting = woken
wake woken = woken
wake relocked = relocked
wake running = running

-- `spurious` is whether pthread_cond_wait may return without a broadcast, as POSIX lets it.
pub data Step (n : ℕ) (spurious : Bool) (s : Barrier) : Barrier → Type 0 where
  fiber_lock :
      (i : ℕ)
      → i < n
      → s.pc i ≡ starting
      → s.owner ≡ free
      → Step n spurious s (record s { owner = fiber i; pc = update s.pc i locked })
  fiber_wait :
      (i : ℕ)
      → i < n
      → s.pc i ≡ locked
      → Step n spurious s (record s { owner = free; pc = update s.pc i waiting })
  fiber_wake :
      (i : ℕ)
      → i < n
      → s.pc i ≡ waiting
      → spurious ≡ true
      → Step n spurious s (record s { pc = update s.pc i woken })
  fiber_relock :
      (i : ℕ)
      → i < n
      → s.pc i ≡ woken
      → s.owner ≡ free
      → Step n spurious s (record s { owner = fiber i; pc = update s.pc i relocked })
  fiber_unlock :
      (i : ℕ)
      → i < n
      → s.pc i ≡ relocked
      → Step n spurious s (record s { owner = free; pc = update s.pc i running })
  main_lock :
      s.main_pc ≡ building
      → s.owner ≡ free
      → Step n spurious s (record s { owner = main_thread; main_pc = main_locked })
  main_broadcast :
      s.main_pc ≡ main_locked
      → Step n spurious s (record s { main_pc = main_signalled; pc = λ i. wake (s.pc i) })
  main_unlock :
      s.main_pc ≡ main_signalled → Step n spurious s (record s { owner = free; main_pc = joining })

-- Behind baa_build_scheduler.
abbrev pub built : Barrier
built = record { owner = free; main_pc = building; pc = λ i. starting }

pub data Reach (n : ℕ) (spurious : Bool) (s : Barrier) : Barrier → Type 0 where
  here : Reach n spurious s s
  next : {t u : Barrier} → Reach n spurious s t → Step n spurious t u → Reach n spurious s u
