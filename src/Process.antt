-- ===== src/Process.antt =====
-- src/process.c: what the kernel says of a process's scheduling, and the reports of it.
use libbaalue.Prelude.{
  ℕ, zero, suc, ◌+◌, ◌/◌, ◌%◌, ◌≡◌, Bool, Option, none, some, List, [], ◌∷◌, ◌>>=◌, if◌then◌else◌,
  ℤ, pos, negsuc, eqb_ℤ,
}
use libbaalue.Fiber.{Timespec}
use libbaalue.Fiber.Config.{sched_other, sched_fifo, sched_rr, sched_batch, sched_idle}
use libbaalue.Fiber.Time.{timespec, baa_ts_norm, Fits, baa_ts_norm_lem}

-- The numbers of configured and of online CPUs.
unfoldable pub baa_get_num_cpu : ℤ → ℤ → ℤ × ℤ
baa_get_num_cpu nprocs_conf nprocs = (nprocs_conf, nprocs)

-- sched_getscheduler is asked for the policy; sched_getparam gives a priority or fails.
unfoldable pub baa_get_sched_policy : (ℤ → ℤ) → ℤ → ℤ
baa_get_sched_policy sched_getscheduler pid = sched_getscheduler pid

unfoldable pub baa_get_sched_priority : (ℤ → Option ℤ) → ℤ → ℤ
baa_get_sched_priority sched_getparam pid = elim (sched_getparam pid) [
  | none ↦ negsuc 0
  | some prio ↦ prio
]

-- Division of a `long` by 1000000, towards 0.
abbrev pub ns_to_ms : ℤ → ℤ
ns_to_ms (pos n) = pos (n / 1_000_000)
ns_to_ms (negsuc n) = let q = (n + 1) / 1_000_000 in elim q [ zero ↦ pos 0 | suc m ↦ negsuc m ]

-- The loop is the one of baa_ts_norm.
unfoldable pub baa_get_sched_time_slice_ms : (ℤ → Option Timespec) → ℤ → Option ℤ
unfolding baa_ts_norm
baa_get_sched_time_slice_ms sched_rr_get_interval pid = elim (sched_rr_get_interval pid) [
  | none ↦ some (negsuc 0)
  | some t ↦ (baa_ts_norm t >>= λ t. some (ns_to_ms t.tv_nsec))
]

-- The messages.
pub data Message : Type 0 where
  no_affinity no_policy : ℤ → Message
  cpu_is : ℤ → ℕ → Bool → Message
  fifo rr other idle batch : ℤ → Message
  unknown_policy : ℤ → ℤ → Message
  priority_is : ℤ → ℤ → Message
  fifo_range rr_range : ℤ → ℤ → Message
  no_range : ℤ → Message
  time_slice : ℤ → ℤ → Message
  configured online : ℤ → Message

-- The CPUs from `i` on, `n` of them.
unfoldable pub affinity_loop : (ℕ → Bool) → ℤ → ℕ → ℕ → List Message
affinity_loop isset pid i zero = []
affinity_loop isset pid i (suc n) = cpu_is pid i (isset i) ∷ affinity_loop isset pid (i + 1) n

-- sched_getaffinity gives a set or fails.
unfoldable pub baa_print_cpu_affinity : Option (ℕ → Bool) → ℤ → ℕ → List Message
unfolding affinity_loop
baa_print_cpu_affinity none pid max = no_affinity pid ∷ []
baa_print_cpu_affinity (some isset) pid max = affinity_loop isset pid 0 max

unfoldable pub baa_print_sched_policy : (ℤ → ℤ) → ℤ → Message
unfolding baa_get_sched_policy
baa_print_sched_policy sched_getscheduler pid =
    let policy = baa_get_sched_policy sched_getscheduler pid in
    if eqb_ℤ policy (negsuc 0)
    then no_policy pid
    else if eqb_ℤ policy sched_fifo
    then fifo pid
    else if eqb_ℤ policy sched_rr
    then rr pid
    else if eqb_ℤ policy sched_other
    then other pid
    else if eqb_ℤ policy sched_idle
    then idle pid
    else if eqb_ℤ policy sched_batch
    then batch pid
    else unknown_policy policy pid

unfoldable pub baa_print_sched_priority : (ℤ → Option ℤ) → ℤ → Message
unfolding baa_get_sched_priority
baa_print_sched_priority sched_getparam pid =
    priority_is pid (baa_get_sched_priority sched_getparam pid)

unfoldable pub baa_print_priority_range : (ℤ → ℤ) → (ℤ → ℤ) → ℤ → Message
baa_print_priority_range prio_min prio_max policy =
    if eqb_ℤ policy sched_fifo
    then fifo_range (prio_min policy) (prio_max policy)
    else if eqb_ℤ policy sched_rr
    then rr_range (prio_min policy) (prio_max policy)
    else no_range policy

unfoldable pub baa_print_sched_time_slice_ms : (ℤ → Option Timespec) → ℤ → Option Message
unfolding baa_get_sched_time_slice_ms
baa_print_sched_time_slice_ms sched_rr_get_interval pid =
    baa_get_sched_time_slice_ms sched_rr_get_interval pid >>= λ ms. some (time_slice pid ms)

unfoldable pub baa_print_num_cpu : ℤ → ℤ → List Message
unfolding baa_get_num_cpu
baa_print_num_cpu nprocs_conf nprocs =
    let (conf, onln) = baa_get_num_cpu nprocs_conf nprocs in configured conf ∷ online onln ∷ []

-- For a time slice of `s` seconds and `ns` nanoseconds, not negative, that fit the seconds, baa_get_sched_time_slice_ms
-- ends, and returns the milliseconds of the nanoseconds below one second: the seconds, those in `ns` too,
-- are dropped.
pub time_slice_lem :
    (sched_rr_get_interval : ℤ → Option Timespec) (pid s : ℤ) (ns : ℕ)
    → sched_rr_get_interval pid ≡ some (timespec s (pos ns))
    → Fits s (pos ns)
    → baa_get_sched_time_slice_ms sched_rr_get_interval pid
      ≡ some (pos (ns % 1_000_000_000 / 1_000_000))
unfolding baa_get_sched_time_slice_ms
time_slice_lem sched_rr_get_interval pid s ns h fits =
    rw (baa_get_sched_time_slice_ms, h, baa_ts_norm_lem s (pos ns) fits)
