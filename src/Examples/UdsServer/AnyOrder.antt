-- ===== src/Examples/UdsServer/AnyOrder.antt =====
-- The scheduling server of examples/time_triggert_uds_server.c with its three threads: what the fibers
-- of its clients get.
use libbaalue.Prelude.{ℕ, ◌≡◌, ◌≢◌, sym, ap, ◌∙◌, Bool, some, List, [], All, All-map, ℤ, pos, ◌⊎◌}
use mathlib.Core.List.{Perm}
use libbaalue.Helper.PidFile
use libbaalue.Fiber
use libbaalue.Fiber.{FiberElement, HasInts}
use libbaalue.Fiber.Assigned.{Props, assigned, own, Distinct}
use libbaalue.Fiber.Assignment.{baa_set_schedule_props-own, schedule_server-any_order}
use libbaalue.Fiber.Props.{calls, baa_set_schedule_props}
use libbaalue.Fiber.Server.{Received}
use libbaalue.Fiber.ViaServer.{datagrams}
use libbaalue.Examples.Program.{Env, Ready}
use libbaalue.Examples.Workers.{Machine, history}
use libbaalue.Examples.UdsServer.{ServerOs, made}
use libbaalue.Examples.UdsServer.Access.{Serves, IsRestricted, served_lem}

-- In the child of both forks, after a start that succeeds and with the PID file made, in every
-- interleaving of the three threads and after the end of the program too: when the server has
-- received the datagrams of fibers with `int` fields and distinct kernel_tids, in whatever order,
-- the thread of each fiber has the properties of that fiber, as far as the kernel accepts the calls,
-- on a kernel that answers a call by its arguments; every other thread has been left alone; and the
-- file of the server's socket has the mode 0660 and the group "users", unless there was no fiber.
pub served-any_order :
    (env : Env) (os : ServerOs) (path : List ℕ) (pid_calls : List PidFile.Call)
    → Ready env
    → os.capng_ret ≡ pos 0
    → made env os ≡ some (PidFile.returned (some path) pid_calls)
    → (fos : Fiber.Os) (takes : Fiber.Event → Bool) (junk : FiberElement → ℕ → ℕ)
      (fs gs : List FiberElement) {k : Machine Received Fiber.Event}
    → Serves env os fos k
    → k.taken ≡ datagrams junk gs
    → Perm fs gs
    → Distinct fs
    → All HasInts gs
    → All (λ f. (p : Props) → assigned takes f.kernel_tid (calls k.done) p ≡ own takes f p) fs
      × ((tid : ℤ) (p : Props)
          → All (λ f. tid ≢ f.kernel_tid) fs
          → assigned takes tid (calls k.done) p ≡ p)
      × ((k.taken ≡ []) ⊎ IsRestricted env os (history k.program))
served-any_order env os path pid_calls ready caps named fos takes junk fs gs {k} r received order
      apart ints =
    let (run, restricted) = served_lem env os path pid_calls ready caps named fos r in
    let (h, run', local) = schedule_server-any_order takes fos fos junk fs gs order apart ints in
    let (each, others) = baa_set_schedule_props-own takes fos fos fs apart in
    let same : h ≡ k.done = cc in
    let as_local : (tid : ℤ) (p : Props)
        → assigned takes tid (calls k.done) p
          ≡ assigned takes tid (calls (baa_set_schedule_props fos fs []).1) p =
      λ tid p. ap (λ l. assigned takes tid (calls l) p) (sym same) ∙ local tid p in
    (
      All-map (λ f e p. as_local f.kernel_tid p ∙ e p) fs each,
      λ tid p a. as_local tid p ∙ others tid p a,
      restricted,
    )
