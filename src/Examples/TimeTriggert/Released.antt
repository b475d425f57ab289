-- ===== src/Examples/TimeTriggert/Released.antt =====
-- The fibers of examples/time_triggert_simple.c are released with their table checked and set.
use libbaalue.Prelude.{ℕ, Bool, false, Option, some, List, [], ℤ, pos, ◌==◌}
use libbaalue.Fiber
use libbaalue.Fiber.Config.{baa_is_fiber_config_valid}
use libbaalue.Fiber.Props.{baa_set_schedule_props}
use libbaalue.Fiber.Assigned.{Props}
use libbaalue.Examples.Program.{Event, scheduling, signal_handler, Env, Opt, cheers}
use libbaalue.Examples.Threads.Before.{Leads}
use libbaalue.Examples.TimeTriggert.{ThreadOs, simple_array}
use libbaalue.Examples.TimeTriggert.Simple.{simple_run}
use libbaalue.Examples.TimeTriggert.Fibers.{System, Reaches, begun, is_broadcast}

-- What baa_set_schedule_props does to the table.
abbrev pub table_set : ThreadOs → List Fiber.Event
table_set th = (baa_set_schedule_props th.os (simple_array th.tid) []).1

abbrev pub table_valid : ThreadOs → Option Bool
table_valid th = baa_is_fiber_config_valid th.limits (some (simple_array th.tid)) (pos 2)

-- Events of main with the table set before a broadcast.
abbrev IsOrdered : ThreadOs → List Event → Type 0
IsOrdered th h = Leads is_broadcast (scheduling (table_set th)) h

-- The states that time_triggert_simple and its fibers come to from a state, with no wait that ends
-- without a broadcast. The threads of the fibers have the numbers `number`.
abbrev pub Follows : Env → ThreadOs → (ℕ → ℤ) → System → System → Type 0
Follows env th number =
    Reaches th.create_err th.tid number 2 false cheers (env.create_err signal_handler == 0)

abbrev pub Comes : Env → ThreadOs → (ℕ → ℤ) → ℤ → List Opt → System → Type 0
Comes env th number ret opts = Follows env th number (begun (simple_run env th ret opts))
