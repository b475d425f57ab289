-- ===== src/Examples/TimeTriggert/Started.antt =====
-- The start of the fibers of examples/time_triggert_simple.c.
use libbaalue.Prelude.{
  ◌≡◌, refl, ◌∙◌, ap, true, Option, none, some, List, [], ◌∷◌, All, arith, ℤ, pos,
}
use libbaalue.Fiber
use libbaalue.Fiber.Config.{IsConfigured, baa_is_fiber_config_valid, baa_is_fiber_config_valid_iff}
use libbaalue.Fiber.Props.{baa_set_schedule_props, baa_set_schedule_props_lem, calls, calls_for}
use libbaalue.Fiber.Threads.{ThreadEvent, Works, schedulers_succeed}
use libbaalue.Helper.System.{Kernel, baa_check_for_rtpreempt, baa_drop_capability}
use libbaalue.Examples.Program.{
  Event, registered, kernel, sigmask, create, signal_handler, capability, threads, scheduling,
  waits, goes_on, Env, Ready, register_cleanup,
}
use libbaalue.Examples.Endings.{handle_signals_lem}
use libbaalue.Examples.TimeTriggert.{ThreadOs, simple_array}
use libbaalue.Examples.TimeTriggert.Simple.{simple_options, check_kernel, simple_table, simple_main}

preempt_passes : (realtime : Option (Option ℤ)) → (baa_check_for_rtpreempt true realtime).0 ≡ true
unfolding baa_check_for_rtpreempt
preempt_passes none = refl
preempt_passes (some none) = refl
preempt_passes (some (some flag)) = refl

-- What baa_check_for_rtpreempt says.
abbrev pub kernel_of : ThreadOs → Kernel
kernel_of th = (baa_check_for_rtpreempt th.has_preempt th.realtime).1

check_kernel_lem :
    (env : Env) (th : ThreadOs)
    → th.has_preempt ≡ true
    → check_kernel env th ≡ goes_on tt (kernel (kernel_of th) ∷ [])
unfolding check_kernel
check_kernel_lem env th preempt =
    let passes : (baa_check_for_rtpreempt th.has_preempt th.realtime).0 ≡ true =
      rw preempt (preempt_passes th.realtime) in
    rw passes

config_passes :
    (th : ThreadOs)
    → All (IsConfigured th.limits) (simple_array th.tid)
    → baa_is_fiber_config_valid th.limits (some (simple_array th.tid)) (pos 2) ≡ some true
config_passes th all =
    let (_, _, (b, run, iff)) =
      baa_is_fiber_config_valid_iff th.limits (simple_array th.tid) 2 (pos 0) (omega arith)
        (omega arith) in
    run ∙ ap some (iff.1 all)

-- The events from the start of the fibers' threads on, with the history `p` of baa_set_schedule_props.
abbrev pub table_events : List Fiber.Event → List Event
table_events p =
    capability true
    ∷ threads (ThreadEvent.create 0 ∷ ThreadEvent.create 1 ∷ ThreadEvent.sleep ∷ [])
    ∷ scheduling p
    ∷ threads (ThreadEvent.broadcast ∷ ThreadEvent.join 0 ∷ ThreadEvent.join 1 ∷ [])
    ∷ []

simple_table_lem :
    (th : ThreadOs)
    → Works th.create_err 2 0
    → Works th.join_err 2 0
    → All (IsConfigured th.limits) (simple_array th.tid)
    → simple_table th (pos 0)
      ≡ waits (table_events (baa_set_schedule_props th.os (simple_array th.tid) []).1)
unfolding simple_table baa_drop_capability
simple_table_lem th creates joins configured =
    let (built, started) = schedulers_succeed th.create_err th.join_err 2 creates joins in
    let set = (baa_set_schedule_props_lem th.os (simple_array th.tid) []).0 in
    rw (built, config_passes th configured, set, started)

-- On a kernel with PREEMPT, when the start of the program, the calls for the threads of both fibers
-- and the check of their table succeed, the program without options waits for ever. It has then
-- dropped its capabilities, created both threads, set affinity and policy of both fibers, whatever
-- the kernel answers to that, and only then released the fibers to wait for their threads.
pub simple_main_lem :
    (env : Env) (th : ThreadOs)
    → Ready env
    → th.has_preempt ≡ true
    → Works th.create_err 2 0
    → Works th.join_err 2 0
    → All (IsConfigured th.limits) (simple_array th.tid)
    → (p : List Fiber.Event) × (simple_main env th (pos 0) []
        ≡ waits
            (registered ∷ kernel (kernel_of th) ∷ sigmask ∷ create signal_handler ∷ table_events p))
      × (calls p ≡ calls_for (simple_array th.tid))
unfolding simple_main simple_options register_cleanup
simple_main_lem env th ready preempt creates joins configured =
    let table = simple_table_lem th creates joins configured in
    let (_, made, _) = baa_set_schedule_props_lem th.os (simple_array th.tid) [] in
    (
      (baa_set_schedule_props th.os (simple_array th.tid) []).1,
      rw (check_kernel_lem env th preempt, handle_signals_lem env ready, table, ready.atexit_works),
      made,
    )
