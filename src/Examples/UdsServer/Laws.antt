-- ===== src/Examples/UdsServer/Laws.antt =====
-- The order of the steps of examples/time_triggert_uds_server.c, and what it leaves behind.
use libbaalue.Prelude.{
  ℕ, Bool, true, false, not, ◌&&◌, ◌≢◌, Option, some, List, [], ◌∷◌, ◌++◌, ◌==◌, if◌then◌else◌, pos,
  negsuc, eqb_ℤ_ne, Bool-cases, inl, inr, ◌≡◌, refl,
}
use libbaalue.Users.{Group}
use libbaalue.Helper.Info.{baa_show_package_name, baa_show_version_info}
use libbaalue.Helper.Names.{baa_set_program_name}
use libbaalue.Helper.PidFile
use libbaalue.Helper.System.{returns, baa_become_daemon, baa_drop_capability}
use libbaalue.Network.Uds.{Opened}
use libbaalue.Examples.Program.{
  Event, message, registered, info, capability, daemon, syslog, pid_file, sigmask, create, uds,
  chmod, chown, close, unlink, cleanup, signal_handler, schedule_server, goes_on, exits, waits,
  failure, Env, Ready, show_some_infos, register_cleanup, start_thread, has_uds,
}
use libbaalue.Examples.Endings.{handle_signals_lem}
use libbaalue.Examples.UdsServer.{
  ServerOs, pid_file_or_exit, group_mode, group_or_exit, serve_socket, has_pid_file, pid_file_of,
  server_cleanup, server_start, opened, made, server_child, server_main,
}

abbrev pub all_work : Env → ServerOs → Bool
all_work env os = not os.chmod_fails && not os.chown_fails && (env.create_err schedule_server == 0)

serve_socket_lem :
    (env : Env) (os : ServerOs) (o : Opened) (grp : Group)
    → o.ret ≢ negsuc 0
    → os.grp_users ≡ some grp
    → (h : List Event) × (serve_socket env os o ≡ (
        if all_work env os
        then waits (
            uds o.calls
            ∷ chmod o.socket_f group_mode
            ∷ chown o.socket_f grp.gr_gid
            ∷ create schedule_server
            ∷ [])
        else exits failure (uds o.calls ∷ h)))
unfolding serve_socket start_thread group_or_exit
serve_socket_lem env os o grp open_fd known =
    let fd = eqb_ℤ_ne _ _ open_fd in
    elim (Bool-cases os.chmod_fails) [
      | inl m ↦ (chmod o.socket_f group_mode ∷ message ∷ [], rw (fd, m))
      | inr m ↦ elim (Bool-cases os.chown_fails) [
        | inl c ↦ (
          chmod o.socket_f group_mode ∷ chown o.socket_f grp.gr_gid ∷ message ∷ [],
          rw (fd, m, known, c),
        )
        | inr c ↦ elim (Bool-cases (env.create_err schedule_server == 0)) [
          | inl t ↦ ([], rw (fd, m, known, c, t))
          | inr t ↦ (
            chmod o.socket_f group_mode
                ∷ chown o.socket_f grp.gr_gid
                ∷ create schedule_server
                ∷ message
                ∷ [],
            rw (fd, m, known, c, t),
          )
        ]
      ]
    ]

pub server_start_lem :
    (env : Env) (os : ServerOs)
    → Ready env
    → os.capng_ret ≡ pos 0
    → server_start env os
      ≡ goes_on tt (
          registered
          ∷ capability true
          ∷ info baa_show_package_name
          ∷ info (baa_show_version_info env.uname)
          ∷ daemon (baa_become_daemon os.daemon_os).1
          ∷ [])
unfolding server_start register_cleanup baa_drop_capability show_some_infos
server_start_lem env os ready caps = rw (ready.atexit_works, caps)

server_cleanup_lem :
    (os : ServerOs) (o : Opened) (outcome : Option PidFile.Outcome) (h : List Event)
    (path kdo_file : List ℕ)
    → has_uds h ≡ true
    → has_pid_file h ≡ true
    → o.ret ≢ negsuc 0
    → o.socket_f ≡ some kdo_file
    → pid_file_of outcome ≡ some path
    → os.unlink_fails kdo_file ≡ false
    → os.unlink_fails path ≡ false
    → server_cleanup os o outcome h ≡ close o.ret ∷ unlink kdo_file ∷ unlink path ∷ cleanup ∷ []
unfolding server_cleanup
server_cleanup_lem os o outcome h path kdo_file has_socket has_file open_fd kdo named removes_kdo
      removes =
    rw (has_socket, has_file, eqb_ℤ_ne _ _ open_fd, kdo, named, removes_kdo, removes)

-- In the child of both forks, after a start that succeeds, with the group "users" known and the PID
-- file and the socket made: the server sets the mode 0660 and the group of the socket's file before
-- it starts its thread, and waits for ever exactly when chmod, chown and pthread_create all work. Else it
-- exits with EXIT_FAILURE, and it then closes the socket and removes the socket's file and the PID
-- file, if unlink works.
pub server_main_lem :
    (env : Env) (os : ServerOs) (grp : Group) (path kdo_file : List ℕ) (calls : List PidFile.Call)
    → Ready env
    → os.capng_ret ≡ pos 0
    → (baa_become_daemon os.daemon_os).0 ≡ returns (pos 0)
    → made env os ≡ some (PidFile.returned (some path) calls)
    → (opened env os).ret ≢ negsuc 0
    → (opened env os).socket_f ≡ some kdo_file
    → os.grp_users ≡ some grp
    → os.unlink_fails kdo_file ≡ false
    → os.unlink_fails path ≡ false
    → (before : List Event) × (h : List Event) × (server_main env os ≡ (
        if all_work env os
        then waits (
            before
            ++ chmod (some kdo_file) group_mode
              ∷ chown (some kdo_file) grp.gr_gid
              ∷ create schedule_server
              ∷ [])
        else exits failure (
            before
            ++ h
            ++ close (opened env os).ret ∷ unlink kdo_file ∷ unlink path ∷ cleanup ∷ [])))
unfolding server_main server_child pid_file_or_exit
server_main_lem env os grp path kdo_file calls ready caps child named open_fd kdo known removes_kdo
      removes =
    let o = opened env os in
    let (h, run) = serve_socket_lem env os o grp open_fd known in
    let before =
      registered
      ∷ capability true
      ∷ info baa_show_package_name
      ∷ info (baa_show_version_info env.uname)
      ∷ daemon (baa_become_daemon os.daemon_os).1
      ∷ syslog (baa_set_program_name (some env.argv0))
      ∷ pid_file calls
      ∷ sigmask
      ∷ create signal_handler
      ∷ uds o.calls
      ∷ [] in
    let is_child : server_main env os ≡ server_child env os (pos 0) = rw (server_main, child) in
    elim (Bool-cases (all_work env os)) [
      | inl w ↦
          let serves = rw w at run in
          (
            before,
            [],
            rw (
              w,
              is_child,
              server_child,
              server_start_lem env os ready caps,
              named,
              handle_signals_lem env ready,
              serves,
              kdo,
            ),
          )
      | inr w ↦
          let fails = rw w at run in
          let cleans =
            server_cleanup_lem os o (some (PidFile.returned (some path) calls)) (before ++ h) path
              kdo_file refl refl open_fd kdo refl removes_kdo removes in
          (
            before,
            h,
            rw
                (
                  w,
                  is_child,
                  server_child,
                  server_start_lem env os ready caps,
                  named,
                  handle_signals_lem env ready,
                  fails,
                )
                (rw cleans),
          )
    ]
