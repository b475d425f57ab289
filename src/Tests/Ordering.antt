-- ===== src/Tests/Ordering.antt =====
-- The scheduling server that has received the datagrams of two fibers, the second first.
use libbaalue.Prelude.{
  ℕ, ◌≡◌, ◌≢◌, refl, sym, ◌∙◌, subst, Bool, true, some, List, [], ◌∷◌, ◌++◌, append-nil,
  append_assoc, All, ℤ, pos, ◌⊎◌, inl, inr, Option-cases,
}
use mathlib.Core.List.{Permᴰ}
use libbaalue.Fiber
use libbaalue.Fiber.Assigned.{Props, assigned, own}
use libbaalue.Fiber.Assignment.{schedule_server-any_order}
use libbaalue.Fiber.Props.{calls}
use libbaalue.Fiber.Server.{baa_schedule_server_th}
use libbaalue.Fiber.ViaServer.{datagrams}
use libbaalue.Examples.Program.{Event, Run, waits, has}
use libbaalue.Examples.Threads.{running}
use libbaalue.Examples.Threads.Laws.{main_runs}
use libbaalue.Examples.Workers.{Worker, machine, Reaches, moved, worker_moves, begun}
use libbaalue.Examples.Workers.Servers.{schedule_worker}
use libbaalue.Examples.UdsServer.{server_run, server_cleanup, opened, made}
use libbaalue.Examples.UdsServer.Access.{Serves, is_server, IsRestricted}
use libbaalue.Examples.UdsServer.AnyOrder.{served-any_order}
use libbaalue.Tests.Scheduling.{good_os, fibers, fibers-HasInts}
use libbaalue.Tests.Assigning.{one_cpu, fibers-Distinct, turned}
use libbaalue.Tests.Programs.{env, env-Ready}
use libbaalue.Tests.Buses.{pid_file_made}
use libbaalue.Tests.Terminating
use libbaalue.Tests.Terminating.{path}
use libbaalue.Tests.Serving.{alone, working_os, up, server_up}

-- A worker may receive all of a list while the program waits.
works_through :
    {R E : Type 0} (worker : Worker R E) {final : List Event → List Event} {works : Bool}
    (is_start : Event → Bool) {m : Run (Unit {0})} (h : List Event) (left : Run (Unit {0}))
    (rs taken : List R) (w w' : List E)
    → has is_start h ≡ true
    → worker.loop rs w ≡ some w'
    → Reaches worker final works is_start true (begun m) (machine (running [] h left) taken w)
    → Reaches worker final works is_start true
        (begun m)
        (machine (running [] h left) (taken ++ rs) w')
works_through worker {final} {works} is_start {m} h left [] taken w w' on run r =
    let done : w ≡ w' = let e = worker.loop_nil w in cc in
    subst
      (λ l. Reaches worker final works is_start true (begun m) (machine (running [] h left) l w'))
      (sym (append-nil taken))
      (subst
        (λ l.
          Reaches worker final works is_start true (begun m) (machine (running [] h left) taken l))
        done r)
works_through worker {final} {works} is_start {m} h left (x ∷ rs) taken w w' on run r =
    let split = worker.loop_cons x rs w in
    elim (Option-cases (worker.round x w)) [
      | inl n ↦ let stuck = rw n at split in cc
      | inr (v, y) ↦
          let rest : worker.loop rs v ≡ some w' = sym (rw y at split) ∙ run in
          subst
            (λ l.
              Reaches worker final works is_start true (begun m) (machine (running [] h left) l w'))
            (append_assoc taken (x ∷ []) rs)
            (works_through worker is_start h left rs (taken ++ x ∷ []) v w' on rest
              (moved r (worker_moves [] h left x taken w v refl on y)))
    ]

abbrev junk : Fiber.FiberElement → ℕ → ℕ
junk f i = i

abbrev both :
    (h : List Fiber.Event) × (baa_schedule_server_th good_os (datagrams junk turned) [] ≡ some h)
both =
    let (h, run, same) =
      schedule_server-any_order one_cpu good_os good_os junk fibers turned ∣ Permᴰ.swap refl refl ∣₁
        fibers-Distinct (fibers-HasInts.1.0, (fibers-HasInts.0, tt)) in
    (h, run)

Serves-both :
    Serves env working_os good_os
      (machine (running [] up (waits [])) (datagrams junk turned) both.0)
Serves-both =
    works_through (schedule_worker good_os) is_server up (waits []) (datagrams junk turned) [] []
      both.0 refl both.1
      (alone (schedule_worker good_os) is_server true (
        main_runs (server_cleanup working_os (opened env working_os) (made env working_os)) true
          (server_run env working_os (pos 0)) up (waits []) server_up))

served-any_order_example :
    All (λ f. (p : Props) → assigned one_cpu f.kernel_tid (calls both.0) p ≡ own one_cpu f p) fibers
    × ((tid : ℤ) (p : Props)
        → All (λ f. tid ≢ f.kernel_tid) fibers
        → assigned one_cpu tid (calls both.0) p ≡ p)
    × ((datagrams junk turned ≡ []) ⊎ IsRestricted env working_os up)
served-any_order_example =
    served-any_order env working_os path Terminating.calls env-Ready refl pid_file_made good_os
      one_cpu junk fibers turned
      {k = machine (running [] up (waits [])) (datagrams junk turned) both.0} Serves-both refl
      ∣ Permᴰ.swap refl refl ∣₁ fibers-Distinct (fibers-HasInts.1.0, (fibers-HasInts.0, tt))
