-- ===== src/Tests/Serving.antt =====
-- Inputs for the theorems on the programs with a thread of the library, and on SIGTERM to them.
use libbaalue.Prelude.{
  ◌≡◌, refl, ◌∙◌, ap, sym, Bool, true, false, none, some, List, [], ◌∷◌, ◌++◌, pos, negsuc, ◌⊎◌,
  append-nil, eqb_ℤ,
}
use libbaalue.Fiber
use libbaalue.Fiber.{send, set_affinity, set_scheduler, print_configured}
use libbaalue.Fiber.Server.{datagram, baa_schedule_server_th}
use libbaalue.Protocol.{ptype_cmd_ack, ptype_rcv_ack}
use libbaalue.DeviceMgmt
use libbaalue.DeviceMgmt.{device_mgmt_round, handle, send_rcv_ack, baa_halt}
use libbaalue.Network.Uds.{baa_uds_dgram_server}
use libbaalue.Helper.Names.{baa_set_program_name}
use libbaalue.Network.Inet.{baa_inet_dgram_server, baa_inet_stream_server, bind_inet_socket}
use libbaalue.Helper.Info.{baa_show_package_name, baa_show_version_info}
use libbaalue.DeviceMgmt.Laws.{sent, commands}
use libbaalue.Network.Daytime.{
  Event as DaytimeEvent, daytime_round, Turn, writes, accepted_fds, closed_fds,
}
use libbaalue.Examples.Program.{
  Event, registered, create, caught, cleanup, sigmask, signal_handler, Run, waits, behind, cheers,
  success, uds, chmod, chown, schedule_server, device_mgmt, daytime_server, inet, info,
  start_thread, register_cleanup, show_some_infos, handle_signals, is_registered, Opt,
}
use libbaalue.Examples.Signals.{sigterm}
use libbaalue.Examples.Threads.{State, running, ended, Reach, here, next, started}
use libbaalue.Examples.Threads.Laws.{main_runs}
use libbaalue.Examples.Workers.{
  Worker, machine, Reaches, as_begun, moved, program_moves, worker_moves, begun,
}
use libbaalue.Examples.Workers.Servers.{schedule_worker, device_worker, daytime_worker}
use libbaalue.Examples.UdsServer.{
  ServerOs, server_run, server_cleanup, serve_socket, group_or_exit, opened, made,
}
use libbaalue.Examples.UdsServer.Terminated.{before_signals, server_run_lem}
use libbaalue.Examples.UdsServer.Access.{is_server, IsRestricted, served_lem}
use libbaalue.Examples.Mgmt
use libbaalue.Examples.Mgmt.{connected}
use libbaalue.Examples.Mgmt.Managed
use libbaalue.Examples.Mgmt.Managed.{Manages, is_device, managed_lem}
use libbaalue.Examples.Daytime
use libbaalue.Examples.Daytime.{server_options}
use libbaalue.Examples.Daytime.Served
use libbaalue.Examples.Daytime.Served.{is_daytime, timed_lem}
use libbaalue.Examples.Stopped.{udp_mgmt_server, IsProgram-sigterm}
use libbaalue.Tests.Scheduling.{good_os, empty_datagram}
use libbaalue.Tests.Programs.{env, env-Ready, inet_os}
use libbaalue.Tests.Buses.{server_os, pid_file_made}
use libbaalue.Tests.Terminating.{path, calls}

-- A program may go on while its worker receives nothing.
pub alone :
    {R E : Type 0} (worker : Worker R E) {final : List Event → List Event} {works : Bool}
    (is_start : Event → Bool) (created : Bool) {m : Run (Unit {0})} {s : State}
    → Reach final works (started m) s
    → Reaches worker final works is_start created (begun m) (machine s [] [])
alone worker is_start created here = as_begun
alone worker is_start created (next {t} {u} r step) =
    moved (alone worker is_start created r) (program_moves _ _ [] [] step)

-- The server on which chown works.
abbrev pub working_os : ServerOs
working_os = record {
  capng_ret = server_os.capng_ret;
  daemon_os = server_os.daemon_os;
  pid_os = server_os.pid_os;
  uds_os = server_os.uds_os;
  chmod_fails = false;
  grp_users = server_os.grp_users;
  chown_fails = false;
  unlink_fails = server_os.unlink_fails;
}

abbrev socket_ready : List Event
socket_ready =
    uds (opened env working_os).calls
    ∷ chmod (opened env working_os).socket_f 0x1b0
    ∷ chown (opened env working_os).socket_f 100
    ∷ create schedule_server
    ∷ []

serves_socket : serve_socket env working_os (opened env working_os) ≡ waits socket_ready
unfolding serve_socket group_or_exit start_thread baa_uds_dgram_server baa_set_program_name
serves_socket = refl

abbrev pub up : List Event
up = before_signals env working_os calls ++ socket_ready

pub server_up : server_run env working_os (pos 0) ≡ behind up (waits [])
server_up =
    server_run_lem env working_os path calls env-Ready refl pid_file_made
    ∙ ap (behind (before_signals env working_os calls)) serves_socket
    ∙ sym (ap waits (append-nil up))

-- What the server does on an empty datagram.
abbrev thread_0 : List Fiber.Event
thread_0 =
    send ptype_rcv_ack
    ∷ set_affinity (pos 0) (pos 0)
    ∷ set_scheduler (pos 0) (pos 0) (pos 0)
    ∷ send ptype_cmd_ack
    ∷ print_configured (pos 0)
    ∷ []

served_lem_example :
    (baa_schedule_server_th good_os (datagram [] ∷ []) [] ≡ some thread_0)
    × ((datagram [] ∷ [] ≡ []) ⊎ IsRestricted env working_os up)
served_lem_example =
    served_lem env working_os path calls env-Ready refl pid_file_made good_os
      {k = machine (running [] up (waits [])) (datagram [] ∷ []) thread_0}
      (moved
        (alone (schedule_worker good_os) is_server true (
          main_runs (server_cleanup working_os (opened env working_os) (made env working_os)) true
            (server_run env working_os (pos 0)) up (waits []) server_up))
        (worker_moves [] up (waits []) (datagram []) [] [] thread_0 refl refl empty_datagram))

-- The calls that open a socket, on which everything works.
abbrev dgram_up : List Event
dgram_up =
    registered
    ∷ info baa_show_package_name
    ∷ info (baa_show_version_info none)
    ∷ sigmask
    ∷ create signal_handler
    ∷ []

abbrev dgram_served : List Event
dgram_served =
    dgram_up
    ++ inet (baa_inet_dgram_server inet_os.socket_ret inet_os.fails (inet_os.getaddrinfo [])).1
      ∷ create device_mgmt
      ∷ []

manager_up : Mgmt.server_run env inet_os ≡ behind dgram_served (waits [])
unfolding Mgmt.server_run register_cleanup show_some_infos handle_signals start_thread
    baa_inet_dgram_server bind_inet_socket
manager_up = refl

-- A HALT to the server.
halts :
    device_mgmt_round (λ h. false) (DeviceMgmt.message (2 ∷ [])) []
    ≡ some (DeviceMgmt.send 0xff ∷ DeviceMgmt.system "init 0" ∷ [])
unfolding device_mgmt_round handle send_rcv_ack baa_halt
halts = refl

abbrev halted : List DeviceMgmt.Event
halted = DeviceMgmt.send 0xff ∷ DeviceMgmt.system "init 0" ∷ []

managed_lem_example :
    (sent halted ≡ 0xff ∷ [])
    × (commands halted ≡ "init 0" ∷ [])
    × ((DeviceMgmt.message (2 ∷ []) ∷ [] ≡ [])
        ⊎ ((eqb_ℤ (Managed.server_socket inet_os) (negsuc 0) ≡ false)
            × (is_registered dgram_served ≡ true)))
managed_lem_example =
    managed_lem env inet_os (λ h. false)
      {k = machine (running [] dgram_served (waits [])) (DeviceMgmt.message (2 ∷ []) ∷ []) halted}
      (moved
        (alone (device_worker (λ h. false)) is_device true
          (main_runs cheers true (Mgmt.server_run env inet_os) dgram_served (waits []) manager_up))
        (worker_moves [] dgram_served (waits []) (DeviceMgmt.message (2 ∷ [])) [] [] halted refl
          refl halts))

abbrev stream_served : List Event
stream_served =
    registered
    ∷ sigmask
    ∷ create signal_handler
    ∷ inet (baa_inet_stream_server inet_os.socket_ret inet_os.fails (inet_os.getaddrinfo [])).1
    ∷ create daytime_server
    ∷ []

daytime_up : Daytime.server_run env inet_os [] ≡ behind stream_served (waits [])
unfolding Daytime.server_run server_options connected register_cleanup handle_signals start_thread
    baa_inet_stream_server bind_inet_socket
daytime_up = refl

abbrev no_opts : List Opt
no_opts = []

abbrev monday : Turn
monday = record { confd = pos 7; ctime = b'M' ∷ b'o' ∷ b'n' ∷ []; written = pos 5 }

abbrev told : List DaytimeEvent
told = daytime_round monday []

timed_lem_example :
    (writes told ≡ (pos 7, b'M' ∷ b'o' ∷ b'n' ∷ 13 ∷ 10 ∷ []) ∷ [])
    × (accepted_fds told ≡ pos 7 ∷ [])
    × (closed_fds told ≡ [])
    × ((monday ∷ [] ≡ [])
        ⊎ ((no_opts ≡ [])
            × (eqb_ℤ (Served.server_socket inet_os) (negsuc 0) ≡ false)
            × (is_registered stream_served ≡ true)))
timed_lem_example =
    timed_lem env inet_os [] {k = machine (running [] stream_served (waits [])) (monday ∷ []) told}
      (moved
        (alone daytime_worker is_daytime true (
          main_runs cheers true (Daytime.server_run env inet_os []) stream_served (waits [])
            daytime_up))
        (worker_moves [] stream_served (waits []) monday [] [] told refl refl refl))

-- SIGTERM to the server for device management that waits.
IsProgram-sigterm_example :
    Reach cheers true
      (started (Mgmt.server_run env inet_os))
      (ended success (dgram_served ++ caught sigterm ∷ cleanup ∷ []))
IsProgram-sigterm_example =
    IsProgram-sigterm {left = waits []} (udp_mgmt_server inet_os) refl
      (main_runs cheers true (Mgmt.server_run env inet_os) dgram_served (waits []) manager_up) refl
