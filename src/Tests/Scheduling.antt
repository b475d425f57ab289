-- ===== src/Tests/Scheduling.antt =====
-- Tests of Fiber: src/fiber.c.
use libbaalue.Prelude.{
  ℕ, ◌≡◌, ◌≢◌, ◌↔◌, ◌⊎◌, refl, Bool, true, false, none, some, List, [], ◌∷◌, ◌++◌, arith, All, take,
  ℤ, pos, negsuc,
}
use libbaalue.Protocol.{ptype_sched_props, ptype_cmd_ack, ptype_rcv_ack}
use libbaalue.Fiber.{
  FiberElement, HasInts, Event, set_affinity, set_scheduler, send, print_configured, report,
  ptype_not_supported, Os,
}
use libbaalue.Fiber.Props.{
  calls, calls_for, sent, baa_set_schedule_props, set_all, set_one, report_if, report_affinity,
}
use libbaalue.Fiber.Config.{
  Limits, element_valid, sched_fifo, IsConfigured, baa_is_fiber_config_valid,
  baa_is_fiber_config_valid_iff,
}
use libbaalue.Fiber.Time.{
  timespec, baa_ts_norm, baa_ts_norm_lem, prefault_stack, prefault_heap, wait_for_start,
  sleep_until, call, malloc_failed, interrupted, baa_fiber, baa_fiber-periodic,
}
use libbaalue.Fiber.Server.{
  datagram, serve, send_byte, unpack_and_serve, schedule_server_round, baa_schedule_server_th,
}
use libbaalue.Serialize.Reader.{baa_unpack}
use libbaalue.Fiber.Memory.{run_stores, element_of}
use libbaalue.Fiber.Client.{Client, unix_addr, returned, baa_set_schedule_props_via_server}
use libbaalue.Fiber.ViaServer.{datagrams, messages, replies, bound_to, delivered, via_server-local}
use libbaalue.Fiber.AnyDatagram.{ptype_of, schedule_server_round_total}

-- A kernel with CPUs 0 and 1, on which every call works, or sched_setaffinity gives EINVAL.
abbrev pub good_os : Os
good_os = record {
  cpu_isset = λ cpu. true;
  affinity_errno = λ h. none;
  scheduler_fails = λ h. false;
  sendto_fails = λ h. false;
}

abbrev pub bad_os : Os
bad_os = record {
  cpu_isset = λ cpu. true;
  affinity_errno = λ h. some 22;
  scheduler_fails = λ h. true;
  sendto_fails = λ h. true;
}

abbrev pub fiber_at : ℤ → ℤ → ℤ → FiberElement
fiber_at tid cpu dt = record {
  kernel_tid = tid;
  priority = pos 80;
  t = timespec (pos 0) (pos 0);
  policy = sched_fifo;
  cpu = cpu;
  dt = dt;
  dt_sec = pos 0;
  safe_stack_fac = 0;
  safe_heap_fac = 4;
}

abbrev pub fibers : List FiberElement
fibers = fiber_at (pos 1200) (pos 0) (pos 1000) ∷ fiber_at (pos 1201) (negsuc 0) (pos 2000) ∷ []

-- An empty datagram is served as PTYPE_SCHED_PROPS for thread 0.
pub empty_datagram :
    schedule_server_round good_os (datagram []) []
    ≡ some (
        send ptype_rcv_ack
        ∷ set_affinity (pos 0) (pos 0)
        ∷ set_scheduler (pos 0) (pos 0) (pos 0)
        ∷ send ptype_cmd_ack
        ∷ print_configured (pos 0)
        ∷ [])
unfolding schedule_server_round unpack_and_serve serve send_byte baa_set_schedule_props set_all
    set_one report_if report_affinity baa_unpack run_stores element_of
empty_datagram = refl

ping_not_supported :
    schedule_server_round good_os (datagram (4 ∷ [])) []
    ≡ some (report (ptype_not_supported 4) ∷ [])
unfolding schedule_server_round
ping_not_supported = refl

pub fibers-HasInts : All HasInts fibers
fibers-HasInts = (omega arith, (omega arith, tt))

-- A kernel that refuses the scheduling calls.
abbrev refusing_os : Os
refusing_os = record {
  cpu_isset = λ cpu. true;
  affinity_errno = λ h. some 22;
  scheduler_fails = λ h. true;
  sendto_fails = λ h. false;
}

-- "/a"
abbrev pub kdo_path : List ℕ
kdo_path = 47 ∷ 97 ∷ []

via_server-local_example :
    (h : List Event) × (c : Client) × (baa_schedule_server_th refusing_os
        (datagrams (λ f i. i) fibers)
        []
      ≡ some h)
    × (calls h ≡ calls (baa_set_schedule_props good_os fibers []).1)
    × (baa_set_schedule_props_via_server
          (λ f i. i)
          (λ s. pos 17)
          fibers
          kdo_path
          170
          (replies (bound_to kdo_path) (delivered refusing_os [] h))
        ≡ some (returned (pos 0) c))
    × (c.sent ≡ messages (λ f i. i) (unix_addr kdo_path) fibers)
    × (c.queue ≡ [])
via_server-local_example =
    via_server-local refusing_os good_os (λ f i. i) (λ s. pos 17) fibers kdo_path 170 fibers-HasInts
      (λ s. refl) (λ h. refl)

schedule_server_round_total_example :
    (h' : List Event) × (schedule_server_round bad_os (datagram (0 ∷ 1 ∷ [])) [] ≡ some h')
    × (((ptype_of (0 ∷ 1 ∷ []) ≡ ptype_sched_props)
          × ((f : FiberElement) × (calls h' ≡ [] ++ calls_for (f ∷ []))
              × (sent h' ≡ [] ++ ptype_rcv_ack ∷ ptype_cmd_ack ∷ [])))
        ⊎ ((ptype_of (0 ∷ 1 ∷ []) ≢ ptype_sched_props) × (calls h' ≡ []) × (sent h' ≡ [])))
schedule_server_round_total_example = schedule_server_round_total bad_os (0 ∷ 1 ∷ []) []

abbrev pub limits : Limits
limits = record { prio_min = λ p. pos 1; prio_max = λ p. pos 99; cpu_conf = pos 2 }

-- CPU 2 of the CPUs 0 and 1 is accepted.
last_cpu_accepted :
    baa_is_fiber_config_valid limits (some (fiber_at (pos 1) (pos 2) (pos 5) ∷ [])) (pos 1)
    ≡ some true
unfolding baa_is_fiber_config_valid element_valid
last_cpu_accepted = refl

baa_is_fiber_config_valid_iff_example :
    (baa_is_fiber_config_valid limits none (pos 2) ≡ some false)
    × (baa_is_fiber_config_valid limits (some fibers) (pos 0) ≡ some false)
    × ((b : Bool) × (baa_is_fiber_config_valid limits (some fibers) (pos 2) ≡ some b)
        × ((b ≡ true) ↔ All (IsConfigured limits) (take 2 fibers)))
baa_is_fiber_config_valid_iff_example =
    baa_is_fiber_config_valid_iff limits fibers 2 (pos 2) (omega arith) (omega arith)

baa_ts_norm_lem_example :
    baa_ts_norm (timespec (pos 5) (pos 3_000_000_007)) ≡ some (timespec (pos 8) (pos 7))
baa_ts_norm_lem_example = baa_ts_norm_lem (pos 5) (pos 3_000_000_007) (omega arith)

-- malloc fails, and a signal interrupts the second sleep.
baa_fiber-periodic_example :
    baa_fiber
      (pos 1200)
      true
      (timespec (pos 41) (pos 17))
      (0 ∷ 4 ∷ [])
      (fiber_at (pos 0) (pos 0) (pos 600_000_000))
    ≡ some (
      record {
        kernel_tid = pos 1200;
        priority = pos 80;
        t = timespec (pos 43) (pos 200_000_000);
        policy = sched_fifo;
        cpu = pos 0;
        dt = pos 600_000_000;
        dt_sec = pos 0;
        safe_stack_fac = 0;
        safe_heap_fac = 4;
      },
      prefault_stack 1024
          ∷ prefault_heap 4096
          ∷ malloc_failed
          ∷ wait_for_start
          ∷ sleep_until (timespec (pos 42) (pos 0))
          ∷ call
          ∷ sleep_until (timespec (pos 42) (pos 600_000_000))
          ∷ interrupted
          ∷ call
          ∷ [],
    )
baa_fiber-periodic_example =
    baa_fiber-periodic (pos 1200) true (timespec (pos 41) (pos 17)) (0 ∷ 4 ∷ []) 600_000_000
      (fiber_at (pos 0) (pos 0) (pos 600_000_000)) refl (omega arith) (omega arith)
