-- ===== src/Fiber.antt =====
-- src/fiber.c: fibers, their scheduling properties, and the client and server that set these
-- through a socket. This file has the data: fiber_element_t, the history of what the functions do,
-- and the answers of the kernel and the C library, which are a parameter.
pub mod Barrier
pub mod Threads
pub mod Props
pub mod Assigned
pub mod Assignment
pub mod Config
pub mod Time
pub mod Memory
pub mod Decode
pub mod Client
pub mod Server
pub mod Session
pub mod ViaServer
pub mod Answers
pub mod AnyDatagram
use libbaalue.Prelude.{ℕ, ◌≡◌, List, Bool, Option, ℤ, IsInt}

-- `struct timespec`: seconds and nanoseconds.
pub record Timespec : Type 0 where
  pub tv_sec : ℤ
  pub tv_nsec : ℤ

-- fiber_element_t without `tid` and `func`, which are handles of the thread library and the
-- application. `priority` is sched_param.sched_priority.
pub record FiberElement : Type 0 where
  pub kernel_tid : ℤ
  pub priority : ℤ
  pub t : Timespec
  pub policy : ℤ
  pub cpu : ℤ
  pub dt : ℤ
  pub dt_sec : ℤ
  pub safe_stack_fac : ℕ
  pub safe_heap_fac : ℕ

-- The fields that a message carries are values of an `int`.
pub record HasInts (f : FiberElement) : Type 0 where
  pub kernel_tid : IsInt f.kernel_tid
  pub policy : IsInt f.policy
  pub cpu : IsInt f.cpu
  pub priority : IsInt f.priority

-- What a message to the user says.
pub data Report : Type 0 where
  cpu_not_set no_physical_cpu : ℤ → Report
  affinity_failed : Report
  policy_failed : ℤ → Report
  message_too_long : ℤ → Report
  send_failed schedule_failed : Report
  ptype_not_supported : ℕ → Report

-- What a function does outside its own memory, in order. `set_affinity tid cpu` passes the mask
-- that CPU_ZERO and CPU_SET build for `cpu`.
pub data Event : Type 0 where
  set_affinity : ℤ → ℤ → Event
  set_scheduler : ℤ → ℤ → ℤ → Event
  send : ℕ → Event
  print_configured : ℤ → Event
  report : Report → Event

-- The answers of the kernel and of the C library's CPU_ISSET. Each may depend on all that happened
-- before the call and on the call itself, which ends the history.
pub record Os : Type 0 where
  pub cpu_isset : ℤ → Bool
  pub affinity_errno : List Event → Option ℕ
  pub scheduler_fails : List Event → Bool
  pub sendto_fails : List Event → Bool
