-- ===== src/Tests/Buses.antt =====
-- Tests of Examples.CanBus and Examples.UdsServer.
use libbaalue.Prelude.{
  ℕ, ◌==◌, if◌then◌else◌, ◌≡◌, ◌≢◌, refl, true, false, Option, none, some, List, [], ◌∷◌, ◌++◌, map,
  arith, pos, negsuc,
}
use libbaalue.Can
use libbaalue.Can.{CanSocket, baa_can_raw_socket}
use libbaalue.Fiber.Time.{timespec}
use libbaalue.Helper.PidFile
use libbaalue.Helper.PidFile.{baa_create_file_with_pid}
use libbaalue.Helper.System.{returns, baa_become_daemon}
use libbaalue.Helper.Names.{baa_set_program_name}
use libbaalue.Network.Uds.{baa_uds_dgram_server}
use libbaalue.Users.{Group}
use libbaalue.Tests.Sockets.{uds_os, can_os, vcan0}
use libbaalue.Tests.System.{pid_os, daemon_os}
use libbaalue.Tests.Programs.{env, env-Ready}
use libbaalue.Helper.Info.{baa_show_package_name, baa_show_version_info}
use libbaalue.Examples.Program.{
  info, message, registered, sigmask, create, signal_handler, can, Thread, show_some_infos,
  register_cleanup, handle_signals, start_thread, Event, number, frame_info, byte_info, close,
  unlink, cleanup, exits, waits, failure, success, help, usage,
}
use libbaalue.Examples.CanBus.Send.{send_main, telegram, given_ifname}
use libbaalue.Examples.CanBus.{show_frame}
use libbaalue.Examples.CanBus.Recv.{
  recv_help, recv_loop, recv_main, recv_options, set_filters, recv_frame_raw, recv_on,
}
use libbaalue.Examples.CanBus.Traffic.{on_bus, pauses, arrived, send_opts, send_main-recv_loop}
use libbaalue.Examples.UdsServer.{ServerOs, made, opened, pid_file_of, server_main}
use libbaalue.Examples.UdsServer.Laws.{server_main_lem}

abbrev can_node : CanSocket
can_node = record {
  ret = pos 4;
  can_ifindex = some 3;
  calls = Can.socket 1 ∷ Can.ioctl vcan0 ∷ Can.bind (pos 4) 3 ∷ [];
}

can_opens : baa_can_raw_socket can_os vcan0 0 ≡ some can_node
unfolding baa_can_raw_socket
can_opens = refl

abbrev numbers : ℕ → List ℕ → ℕ
numbers base text = if base == 16 then 0x123 else 1500

-- Three writes, of which the second fails.
send_main-recv_loop_example :
    (h : List Event) × (send_main numbers env can_os
        (pos 16 ∷ negsuc 0 ∷ pos 16 ∷ [])
        (send_opts vcan0 (b'a' ∷ []) (b'm' ∷ []))
      ≡ waits h)
    × (recv_loop (map arrived (on_bus h))
        ≡ waits (
            number 16
            ∷ frame_info 0x123 2
            ∷ byte_info 0 0
            ∷ byte_info 1 0
            ∷ number 16
            ∷ frame_info 0x123 2
            ∷ byte_info 0 0
            ∷ byte_info 1 1
            ∷ []))
    × (pauses h ≡ timespec (pos 1) (pos 500_000_000) ∷ timespec (pos 1) (pos 500_000_000) ∷ [])
send_main-recv_loop_example =
    send_main-recv_loop numbers env can_os can_node (pos 16 ∷ negsuc 0 ∷ pos 16 ∷ []) vcan0
      (b'a' ∷ []) (b'm' ∷ []) 0x123 1500 env-Ready refl refl refl (omega arith) (omega arith)
      (omega arith) (omega arith) can_opens (λ e. cc)

-- A receiver without a filter that gets one frame.
one_frame :
    recv_main
      (λ list. [])
      env
      can_os
      (record { can_id = 0; can_mask = 0 })
      (λ i. false)
      false
      (arrived (telegram 0x123 7) ∷ [])
      (record { opt = b'i'; optarg = vcan0 } ∷ [])
    ≡ waits (
        info baa_show_package_name
        ∷ info (baa_show_version_info none)
        ∷ message
        ∷ message
        ∷ registered
        ∷ sigmask
        ∷ create signal_handler
        ∷ create Thread.print_error_frames
        ∷ can can_node.calls
        ∷ number 16
        ∷ frame_info 0x123 2
        ∷ byte_info 0 0
        ∷ byte_info 1 7
        ∷ [])
unfolding recv_main recv_options given_ifname show_some_infos register_cleanup handle_signals
    start_thread set_filters recv_frame_raw recv_on recv_loop show_frame
one_frame = refl

-- `can_recv -i vcan0 -h` prints its help and ends before `cleanup` is registered.
asks_for_help :
    recv_main
      (λ list. [])
      env
      can_os
      (record { can_id = 0; can_mask = 0 })
      (λ i. false)
      false
      []
      ((record { opt = b'i'; optarg = vcan0 }) ∷ (record { opt = b'h'; optarg = [] }) ∷ [])
    ≡ exits success
        (help recv_help ∷ info baa_show_package_name ∷ info (baa_show_version_info none) ∷ [])
unfolding recv_main recv_options usage show_some_infos
asks_for_help = refl

abbrev users : Group
users = record { gr_name = b'u' ∷ []; gr_gid = 100 }

-- A system on which chown fails.
abbrev pub server_os : ServerOs
server_os = record {
  capng_ret = pos 0;
  daemon_os = daemon_os;
  pid_os = pid_os;
  uds_os = uds_os;
  chmod_fails = false;
  grp_users = some users;
  chown_fails = true;
  unlink_fails = λ path. false;
}

abbrev pub outcome_calls : Option PidFile.Outcome → List PidFile.Call
outcome_calls (some (PidFile.returned name calls)) = calls
outcome_calls (some (PidFile.hangs calls)) = calls
outcome_calls none = []

abbrev pub or_empty : Option (List ℕ) → List ℕ
or_empty none = []
or_empty (some text) = text

becomes_daemon : (baa_become_daemon server_os.daemon_os).0 ≡ returns (pos 0)
unfolding baa_become_daemon
becomes_daemon = refl

pub pid_file_made :
    made env server_os
    ≡ some (
        PidFile.returned
          (some (or_empty (pid_file_of (made env server_os))))
          (outcome_calls (made env server_os)))
unfolding baa_create_file_with_pid
pid_file_made = refl

pub socket_made : (opened env server_os).ret ≢ negsuc 0
unfolding baa_uds_dgram_server baa_set_program_name
socket_made e = let fd : (opened env server_os).ret ≡ pos 5 = refl in cc

pub socket_named : (opened env server_os).socket_f ≡ some (or_empty (opened env server_os).socket_f)
unfolding baa_uds_dgram_server baa_set_program_name
socket_named = refl

server_main_lem_example :
    (before : List Event) × (h : List Event) × (server_main env server_os
      ≡ exits failure (
          before
          ++ h
          ++ close (opened env server_os).ret
            ∷ unlink (or_empty (opened env server_os).socket_f)
            ∷ unlink (or_empty (pid_file_of (made env server_os)))
            ∷ cleanup
            ∷ []))
server_main_lem_example =
    server_main_lem env server_os users (or_empty (pid_file_of (made env server_os)))
      (or_empty (opened env server_os).socket_f) (outcome_calls (made env server_os)) env-Ready refl
      becomes_daemon pid_file_made socket_made socket_named refl refl refl
