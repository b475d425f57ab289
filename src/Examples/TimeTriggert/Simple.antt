-- ===== src/Examples/TimeTriggert/Simple.antt =====
-- examples/time_triggert_simple.c.
use libbaalue.Prelude.{
  Bool, not, Option, none, some, List, [], ◌∷◌, ◌==◌, if◌then◌else◌, ℤ, pos, negsuc, eqb_ℤ,
}
use libbaalue.Fiber.Threads.{baa_build_scheduler, baa_start_scheduler}
use libbaalue.Fiber.Config.{baa_is_fiber_config_valid}
use libbaalue.Fiber.Props.{baa_set_schedule_props}
use libbaalue.Helper.System.{baa_check_for_rtpreempt, baa_drop_capability}
use libbaalue.Examples.Program.{
  HelpLine, blank, text, with_name, message, cheers, kernel, capability, threads, scheduling, Run,
  waits, faults, ◌>>◌, nothing, emit, exit, when, failure, success, error_exit, Opt, Env, usage,
  register_cleanup, handle_signals, with_cleanup,
}
use libbaalue.Examples.TimeTriggert.{ThreadOs, simple_array}

-- The help of usage.
abbrev pub simple_help : List HelpLine
simple_help =
    blank
    ∷ with_name "Usage: %s [options]              "
    ∷ text "Options:                                       "
    ∷ text "        -h                       show help     "
    ∷ blank
    ∷ text "Notes: The kernel must support at least PREEMPT"
    ∷ text "       For realtime RT-PREEMPT is mandatory    "
    ∷ text "       See \"uname -a\"                        "
    ∷ blank
    ∷ []

-- The loop over getopt with "h": each option ends the program.
unfoldable pub simple_options : Env → List Opt → Run (Unit {0})
unfolding usage
simple_options env [] = nothing
simple_options env (o ∷ rest) =
    if o.opt == b'h'
    then usage env simple_help success
    else (do emit message; usage env simple_help failure)

-- `if (!baa_check_for_rtpreempt()) usage(EXIT_FAILURE)`.
unfoldable pub check_kernel : Env → ThreadOs → Run (Unit {0})
unfolding usage baa_check_for_rtpreempt
check_kernel env th =
    let (ok, k) = baa_check_for_rtpreempt th.has_preempt th.realtime in
    do emit (kernel k); when (not ok) (usage env simple_help failure)

-- `err` is not 0 and ends the program.
abbrev pub check_err : ℤ → Run (Unit {0})
check_err err = when (not (eqb_ℤ err (pos 0))) error_exit

-- `if (!baa_is_fiber_config_valid(...)) baa_error_exit(...)`.
abbrev pub check_valid : Option Bool → Run (Unit {0})
check_valid none = faults []
check_valid (some valid) = when (not valid) error_exit

-- From baa_drop_capability on; `ret` is the value of capng_update. When pthread_join gives no error,
-- the main thread waits for threads that never return.
unfoldable pub simple_table : ThreadOs → ℤ → Run (Unit {0})
simple_table th ret =
    let fs = simple_array th.tid in
    let (dropped, applied) = baa_drop_capability ret in
    let (built, b) = baa_build_scheduler th.create_err (pos 2) in
    let (set, p) = baa_set_schedule_props th.os fs [] in
    let (started, s) = baa_start_scheduler th.join_err (pos 2) in
    do
      emit (capability applied)
      when (eqb_ℤ dropped (negsuc 0)) (exit failure)
      emit (threads b)
      check_err built
      check_valid (baa_is_fiber_config_valid th.limits (some fs) (pos 2))
      emit (scheduling p)
      check_err set
      emit (threads s)
      check_err started
      waits []

unfoldable pub simple_run : Env → ThreadOs → ℤ → List Opt → Run (Unit {0})
simple_run env th ret opts = do
  simple_options env opts
  register_cleanup env
  check_kernel env th
  handle_signals env
  simple_table th ret

unfoldable pub simple_main : Env → ThreadOs → ℤ → List Opt → Run (Unit {0})
unfolding simple_run
simple_main env th ret opts = with_cleanup cheers (simple_run env th ret opts)
