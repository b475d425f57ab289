-- ===== src/Examples/UdsServer.antt =====
-- examples/time_triggert_uds_server.c.
pub mod Laws
pub mod Terminated
pub mod Access
pub mod AnyOrder
use libbaalue.Prelude.{
  ℕ, Bool, true, false, not, ◌&&◌, ◌≢◌, Option, none, some, List, [], ◌∷◌, ◌++◌, ◌==◌,
  if◌then◌else◌, ℤ, pos, negsuc, eqb_ℤ, Bool-cases, inl, inr, ◌≡◌, refl, eqb_ℤ_ne,
}
use libbaalue.Users.{Group, baa_get_groupid}
use libbaalue.Helper.Names.{baa_set_program_name}
use libbaalue.Helper.PidFile
use libbaalue.Helper.PidFile.{PidOs, Outcome, baa_create_file_with_pid}
use libbaalue.Helper.System
use libbaalue.Helper.System.{DaemonOs, End, returns, baa_become_daemon, baa_drop_capability}
use libbaalue.Network.Uds.{UdsOs, Opened, baa_uds_dgram_server}
use libbaalue.Examples.Program.{
  Event, message, capability, daemon, syslog, pid_file, uds, chmod, chown, close, unlink, cleanup,
  schedule_server, Run, exits, waits, faults, goes_on, ◌>>=◌, ◌>>◌, nothing, emit, exit, when,
  success, failure, error_exit, Env, show_some_infos, register_cleanup, start_thread,
  handle_signals, with_cleanup, has, has_uds, var_run_dir, Ready, create,
}

-- The answers: capng_update, the daemon, the PID file, the socket, chmod, getgrnam("users"), chown, and
-- for which files unlink fails when the program ends.
pub record ServerOs : Type 0 where
  pub capng_ret : ℤ
  pub daemon_os : DaemonOs
  pub pid_os : PidOs
  pub uds_os : UdsOs
  pub chmod_fails : Bool
  pub grp_users : Option Group
  pub chown_fails : Bool
  pub unlink_fails : List ℕ → Bool

-- `pid_file`; with no name the program ends by baa_error_exit.
unfoldable pub pid_file_or_exit : Option Outcome → Run (List ℕ)
pid_file_or_exit none = faults []
pid_file_or_exit (some (PidFile.hangs calls)) = emit (pid_file calls) >>= λ u. waits []
pid_file_or_exit (some (PidFile.returned none calls)) =
    emit (pid_file calls) >>= λ u. error_exit >>= λ u. goes_on [] []
pid_file_or_exit (some (PidFile.returned (some name) calls)) = goes_on name (pid_file calls ∷ [])

-- S_IRUSR | S_IWUSR | S_IRGRP | S_IWGRP.
abbrev pub group_mode : ℕ
group_mode = 0x1b0

-- `getgrnam("users")` and the test of its result.
unfoldable pub group_or_exit : Option Group → Run ℕ
group_or_exit none = error_exit >>= λ u. goes_on 0 []
group_or_exit (some grp) = goes_on grp.gr_gid []

-- From baa_uds_dgram_server on.
unfoldable pub serve_socket : Env → ServerOs → Opened → Run (Unit {0})
unfolding group_or_exit
serve_socket env os o = do
  emit (uds o.calls)
  when (eqb_ℤ o.ret (negsuc 0)) error_exit
  emit (chmod o.socket_f group_mode)
  when os.chmod_fails error_exit
  gid ← group_or_exit os.grp_users
  emit (chown o.socket_f gid)
  when os.chown_fails error_exit
  start_thread env schedule_server
  waits []

-- The static variables when the program ends: `pid_file` and those of the socket are set behind their
-- calls.
abbrev pub pid_file_of : Option Outcome → Option (List ℕ)
pid_file_of (some (PidFile.returned name calls)) = name
pid_file_of _ = none

abbrev pub is_pid_file : Event → Bool
is_pid_file (pid_file calls) = true
is_pid_file _ = false

abbrev pub has_pid_file : List Event → Bool
has_pid_file = has is_pid_file

-- unlink of NULL fails.
abbrev pub remove : Option (List ℕ) → (List ℕ → Bool) → List Event
remove none fails = message ∷ []
remove (some path) fails = unlink path ∷ (if fails path then message ∷ [] else [])

unfoldable pub server_cleanup : ServerOs → Opened → Option Outcome → List Event → List Event
server_cleanup os o made h =
    let sock = if has_uds h then o.ret else negsuc 0 in
    let kdo_file = if has_uds h then o.socket_f else none in
    let named = if has_pid_file h then pid_file_of made else none in
    (if eqb_ℤ sock (negsuc 0) then [] else close sock ∷ [])
    ++ remove kdo_file os.unlink_fails
    ++ remove named os.unlink_fails
    ++ cleanup ∷ []

-- The start up to baa_become_daemon.
unfoldable pub server_start : Env → ServerOs → Run (Unit {0})
unfolding baa_drop_capability
server_start env os =
    let (dropped, applied) = baa_drop_capability os.capng_ret in
    do
      register_cleanup env
      emit (capability applied)
      when (eqb_ℤ dropped (negsuc 0)) (exit failure)
      show_some_infos env
      emit (daemon (baa_become_daemon os.daemon_os).1)

-- What baa_uds_dgram_server and baa_create_file_with_pid give.
abbrev pub opened : Env → ServerOs → Opened
opened env os =
    baa_uds_dgram_server os.uds_os (some (baa_set_program_name (some env.argv0))) (some var_run_dir)

abbrev pub made : Env → ServerOs → Option Outcome
made env os =
    baa_create_file_with_pid os.pid_os (some (baa_set_program_name (some env.argv0)))
      (some var_run_dir)

-- main in the child of both forks, with the value `err` of baa_become_daemon, up to its end.
unfoldable pub server_run : Env → ServerOs → ℤ → Run (Unit {0})
server_run env os err = do
  server_start env os
  when (not (eqb_ℤ err (pos 0))) error_exit
  emit (syslog (baa_set_program_name (some env.argv0)))
  path ← pid_file_or_exit (made env os)
  handle_signals env
  serve_socket env os (opened env os)

unfoldable pub server_child : Env → ServerOs → ℤ → Run (Unit {0})
unfolding server_run
server_child env os err =
    with_cleanup (server_cleanup os (opened env os) (made env os)) (server_run env os err)

-- A parent ends in baa_become_daemon by _exit, which does not call `cleanup`.
unfoldable pub server_parent : Env → ServerOs → Run (Unit {0})
server_parent env os =
    with_cleanup (server_cleanup os (opened env os) (made env os)) (server_start env os)
    >> exit success

-- main; the program is the child of both forks, or a parent.
unfoldable pub server_main : Env → ServerOs → Run (Unit {0})
server_main env os = elim (baa_become_daemon os.daemon_os).0 [
  | System.exits ↦ server_parent env os
  | returns err ↦ server_child env os err
]
