-- ===== src/Examples/TimeTriggert.antt =====
-- The tables of examples/time_triggert_simple.c and examples/time_triggert_uds.c, and what the two
-- programs have in common.
pub mod Simple
pub mod UdsClient
pub mod Rejected
pub mod Started
pub mod Fibers
pub mod Released
use libbaalue.Prelude.{Bool, Option, ℕ, ◌*◌, List, [], ◌∷◌, ◌++◌, ℤ, pos}
use libbaalue.Fiber.{FiberElement}
use libbaalue.Fiber.Config.{Limits, sched_fifo, sched_rr, sched_batch}
use libbaalue.Fiber.Time.{timespec}
use libbaalue.Fiber

-- MS_TO_NS.
abbrev pub ms_to_ns : ℕ → ℤ
ms_to_ns ms = pos (ms * 1_000_000)

-- The fibers of the two programs, as the numbers of the functions that they call. Each function
-- prints where it is.
abbrev pub simple_fiber_0 : List ℕ
simple_fiber_0 = 0 ∷ []

abbrev pub simple_fiber_1 : List ℕ
simple_fiber_1 = 1 ∷ 2 ∷ 3 ∷ 4 ∷ []

abbrev pub uds_fiber_0 : List ℕ
uds_fiber_0 = 0 ∷ []

abbrev pub uds_fiber_1 : List ℕ
uds_fiber_1 = 1 ∷ []

abbrev pub uds_fiber_2 : List ℕ
uds_fiber_2 = 2 ∷ []

abbrev pub uds_fiber_3 : List ℕ
uds_fiber_3 = 8 ∷ 9 ∷ []

abbrev pub uds_fiber_4 : List ℕ
uds_fiber_4 = 3 ∷ 4 ∷ 5 ∷ 6 ∷ 7 ∷ []

-- An element of `fiber_array`; fields that the initialiser leaves out are 0.
abbrev pub entry : ℤ → ℕ → ℤ → ℕ → ℕ → ℕ → FiberElement
entry tid priority policy cpu ms stack = record {
  kernel_tid = tid;
  priority = pos priority;
  t = timespec (pos 0) (pos 0);
  policy = policy;
  cpu = pos cpu;
  dt = ms_to_ns ms;
  dt_sec = pos 0;
  safe_stack_fac = stack;
  safe_heap_fac = 0;
}

-- `fiber_array`, as main reads it: with the thread numbers that the fibers have stored by then.
abbrev pub simple_array : (ℕ → ℤ) → List FiberElement
simple_array tid = entry (tid 0) 89 sched_fifo 0 10 0 ∷ entry (tid 1) 90 sched_rr 1 100 0 ∷ []

abbrev pub uds_array : (ℕ → ℤ) → List FiberElement
uds_array tid =
    entry (tid 0) 90 sched_fifo 1 1 0
    ∷ entry (tid 1) 89 sched_rr 0 10 0
    ∷ entry (tid 2) 88 sched_fifo 1 50 0
    ∷ entry (tid 3) 87 sched_rr 0 100 8
    ∷ entry (tid 4) 86 sched_batch 1 999 0
    ∷ []

-- The answers about threads and scheduling: what main reads of the fields `kernel_tid`, the errors of
-- pthread_create and pthread_join by fiber, the limits and the kernel; whether uname's version says
-- PREEMPT, and the content of /sys/kernel/realtime.
pub record ThreadOs : Type 0 where
  pub tid : ℕ → ℤ
  pub create_err : ℕ → ℕ
  pub join_err : ℕ → ℕ
  pub limits : Limits
  pub os : Fiber.Os
  pub has_preempt : Bool
  pub realtime : Option (Option ℤ)
