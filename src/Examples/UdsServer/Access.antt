-- ===== src/Examples/UdsServer/Access.antt =====
-- The scheduling server of examples/time_triggert_uds_server.c with its three threads: whom it serves.
use libbaalue.Prelude.{
  ℕ, ◌≡◌, refl, sym, ap, subst, ◌∙◌, ◌∷◌, Bool, true, false, some, List, [], ◌++◌, pos, negsuc, ◌⊎◌,
  inl, inr, Bool-cases, Option-cases, ◌==◌, eqb_ℤ,
}
use libbaalue.Users.{Group}
use libbaalue.Helper.PidFile
use libbaalue.Fiber
use libbaalue.Fiber.Server.{Received, baa_schedule_server_th}
use libbaalue.Network.Uds.{Opened}
use libbaalue.Examples.Program.{
  Event, create, chmod, chown, uds, message, schedule_server, events, has, Env, Ready, start_thread,
}
use libbaalue.Examples.Threads.Shuffle.{IsQuiet}
use libbaalue.Examples.Threads.Order.{events-behind}
use libbaalue.Examples.Threads.Before.{Shows, Leads}
use libbaalue.Examples.Workers.{Machine, history, Reaches, begun}
use libbaalue.Examples.Workers.Servers.{schedule_worker}
use libbaalue.Examples.Workers.After.{begun-Follows}
use libbaalue.Examples.UdsServer.{
  ServerOs, group_mode, group_or_exit, serve_socket, server_cleanup, server_run, opened, made,
}
use libbaalue.Examples.UdsServer.Terminated.{before_signals, server_run_lem}

abbrev pub is_server : Event → Bool
is_server (create schedule_server) = true
is_server _ = false

-- When main starts the server, the calls for the mode and the group have been made and have worked.
record Guarded (os : ServerOs) (o : Opened) (h : List Event) : Type 0 where
  grp : Group
  known : os.grp_users ≡ some grp
  mode_set : os.chmod_fails ≡ false
  group_set : os.chown_fails ≡ false
  mode_first : Leads is_server (chmod o.socket_f group_mode) h
  group_first : Leads is_server (chown o.socket_f grp.gr_gid) h

serve_socket-Guarded :
    (env : Env) (os : ServerOs) (o : Opened) (calls : List PidFile.Call)
    → has is_server (events (serve_socket env os o)) ≡ true
    → Guarded os o (before_signals env os calls ++ events (serve_socket env os o))
unfolding serve_socket start_thread group_or_exit
serve_socket-Guarded env os o calls e = elim (Bool-cases (eqb_ℤ o.ret (negsuc 0))) [
  | inl f ↦ cc (rw f at e)
  | inr f ↦ elim (Bool-cases os.chmod_fails) [
    | inl m ↦ cc (rw (f, m) at e)
    | inr m ↦ elim (Option-cases os.grp_users) [
      | inl n ↦ cc (rw (f, m, n) at e)
      | inr (grp, known) ↦ elim (Bool-cases os.chown_fails) [
        | inl c ↦ cc (rw (f, m, known, c) at e)
        | inr c ↦ elim (Bool-cases (env.create_err schedule_server == 0)) [
          | inl t ↦
              let front = before_signals env os calls ++ uds o.calls ∷ [] in
              let mode = chmod o.socket_f group_mode in
              let owner = chown o.socket_f grp.gr_gid in
              let rest = create schedule_server ∷ [] in
              record {
                grp = grp;
                known = known;
                mode_set = m;
                group_set = c;
                mode_first = (front, owner ∷ rest, rw (f, m, known, c, t), refl);
                group_first = (front ++ mode ∷ [], rest, rw (f, m, known, c, t), refl);
              }
          | inr t ↦
              let front = before_signals env os calls ++ uds o.calls ∷ [] in
              let mode = chmod o.socket_f group_mode in
              let owner = chown o.socket_f grp.gr_gid in
              let rest = create schedule_server ∷ message ∷ [] in
              record {
                grp = grp;
                known = known;
                mode_set = m;
                group_set = c;
                mode_first = (front, owner ∷ rest, rw (f, m, known, c, t), refl);
                group_first = (front ++ mode ∷ [], rest, rw (f, m, known, c, t), refl);
              }
        ]
      ]
    ]
  ]
]

is_server-IsQuiet : IsQuiet is_server
is_server-IsQuiet = record {
  no_message = refl;
  no_caught = λ n. refl;
  no_ignored = λ n. refl;
  no_unhandled = λ n. refl;
}

-- The states that the server, its signal thread and baa_schedule_server_th come to.
abbrev pub Serves : Env → ServerOs → Fiber.Os → Machine Received Fiber.Event → Type 0
Serves env os fos =
    Reaches (schedule_worker fos) (server_cleanup os (opened env os) (made env os)) true is_server
      (env.create_err schedule_server == 0) (begun (server_run env os (pos 0)))

-- The file that baa_uds_dgram_server has named has got the mode 0660 and the group "users".
abbrev pub IsRestricted : Env → ServerOs → List Event → Type 0
IsRestricted env os h =
    (grp : Group) × (os.grp_users ≡ some grp)
    × (os.chmod_fails ≡ false)
    × (os.chown_fails ≡ false)
    × Shows (chmod (opened env os).socket_f group_mode) h
    × Shows (chown (opened env os).socket_f grp.gr_gid) h

module _ (env : Env) (os : ServerOs) (path : List ℕ) (calls : List PidFile.Call) (ready : Ready env)
    (caps : os.capng_ret ≡ pos 0)
    (named : made env os ≡ some (PidFile.returned (some path) calls)) where
  -- In the child of both forks, after a start that succeeds and with the PID file made, in every
  -- interleaving of the three threads and after the end of the program too: the server has done
  -- what baa_schedule_server_th does by itself on the datagrams that it has received; and it has
  -- received none before the file of the socket has got the mode 0660 and the group "users", both
  -- calls having worked.
  pub served_lem :
      (fos : Fiber.Os) {k : Machine Received Fiber.Event}
      → Serves env os fos k
      → (baa_schedule_server_th fos k.taken [] ≡ some k.done)
        × ((k.taken ≡ []) ⊎ IsRestricted env os (history k.program))
  served_lem fos {k} r =
      let m = server_run env os (pos 0) in
      let e : events m
          ≡ before_signals env os calls ++ events (serve_socket env os (opened env os)) =
        ap events (server_run_lem env os path calls ready caps named)
        ∙ events-behind (before_signals env os calls) (serve_socket env os (opened env os)) in
      let (run, before) =
        begun-Follows (schedule_worker fos) (server_cleanup os (opened env os) (made env os)) true
          is_server (env.create_err schedule_server == 0) m is_server-IsQuiet r in
      (
        run,
        elim before [
          | inl none_taken ↦ inl none_taken
          | inr f ↦
              let guarded =
                serve_socket-Guarded env os (opened env os) calls
                  (sym (ap (has is_server) e) ∙ f.by_main) in
              let grp = guarded.grp in
              inr (
                grp,
                guarded.known,
                guarded.mode_set,
                guarded.group_set,
                f.shows (chmod (opened env os).socket_f group_mode) (
                    subst (Leads is_server (chmod (opened env os).socket_f group_mode)) (sym e)
                      guarded.mode_first),
                f.shows (chown (opened env os).socket_f grp.gr_gid) (
                    subst (Leads is_server (chown (opened env os).socket_f grp.gr_gid)) (sym e)
                      guarded.group_first),
              )
        ],
      )
