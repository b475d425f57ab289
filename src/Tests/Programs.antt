-- ===== src/Tests/Programs.antt =====
-- Tests of Examples: the programs of examples/.
use libbaalue.Prelude.{
  Bool, true, ℕ, ◌+◌, ◌≡◌, ◌≢◌, refl, false, none, some, List, [], ◌∷◌, ◌++◌, All, arith, inl, pos,
  negsuc,
}
use libbaalue.DeviceMgmt
use libbaalue.DeviceMgmt.{
  Received, baa_ping_device, baa_reboot_device, baa_device_mgmt_th, send_rcv_ack,
}
use libbaalue.Helper.ReadLine.{eof}
use libbaalue.Network.Inet.{AddrInfo, connect_inet_socket}
use libbaalue.Tests.Scheduling.{limits, good_os}
use libbaalue.Tests.Sockets.{uds_os}
use libbaalue.Examples.Program.{
  Event, message, cleanup, inet, exits, waits, faults, success, failure, Opt, Env, Ready,
}
use libbaalue.Fiber
use libbaalue.Fiber.{set_affinity, set_scheduler}
use libbaalue.Examples.TimeTriggert.{ThreadOs}
use libbaalue.Examples.TimeTriggert.UdsClient.{SocketOs, uds_main}
use libbaalue.Examples.TimeTriggert.Rejected.{Idle, uds_main-fails}
use libbaalue.Examples.Mgmt.{InetOs, dgram_client, Answer, ping_main}
use libbaalue.Examples.Mgmt.Laws.{start, pings, Served, ping_main_lem}
use libbaalue.Examples.Mgmt.Reboot.{
  reboot_main, connections, closes, opens, closings, reboot_main-leaks,
}
use libbaalue.Examples.Daytime.{stream_client, client_loop}
use libbaalue.Examples.Daytime.Laws.{turn, done, client_loop_lem}

abbrev pub env : Env
env = record {
  argv0 = b'/' ∷ b'p' ∷ [];
  uname = none;
  atexit_ret = pos 0;
  sigmask_err = 0;
  create_err = λ t. 0;
}

pub env-Ready : Ready env
env-Ready = record { atexit_works = refl; sigmask_works = refl; signals_created = refl }

abbrev pub threads_os : ThreadOs
threads_os = record {
  tid = λ i. pos (100 + i);
  create_err = λ i. 0;
  join_err = λ i. 0;
  limits = limits;
  os = good_os;
  has_preempt = true;
  realtime = none;
}

abbrev pub any_call : Fiber.Event → Bool
any_call e = true

abbrev sockets_os : SocketOs
sockets_os = record {
  uds_os = uds_os;
  malloc_fails = false;
  junk = λ f i. 0;
  sendto = λ h. pos 0;
  garbage = 0;
  incoming = [];
  unlink_fails = false;
}

abbrev option : ℕ → List ℕ → Opt
option c arg = record { opt = c; optarg = arg }

abbrev file_and_dir : List Opt
file_and_dir = option b'f' (b's' ∷ []) ∷ option b'd' (b'd' ∷ []) ∷ []

uds_main-fails_example :
    (h : List Event) × (uds_main env threads_os sockets_os 5 file_and_dir ≡ exits failure h)
    × All Idle h
uds_main-fails_example = uds_main-fails env threads_os sockets_os 5 file_and_dir (omega arith)

abbrev addr : AddrInfo
addr = record { ai_family = 2; ai_socktype = 2; ai_protocol = 17; ai_addr = 127 ∷ 0 ∷ 0 ∷ 1 ∷ [] }

abbrev pub inet_os : InetOs
inet_os = record {
  socket_ret = λ h. pos 3;
  fails = λ h. false;
  getaddrinfo = λ name type. some (addr ∷ []);
}

abbrev host : List ℕ
host = b'h' ∷ []

dgram_connects : (dgram_client inet_os host).0 ≢ negsuc 0
unfolding dgram_client connect_inet_socket
dgram_connects e = let fd : (dgram_client inet_os host).0 ≡ pos 3 = refl in cc

stream_connects : (stream_client inet_os host).0 ≢ negsuc 0
unfolding stream_client connect_inet_socket
stream_connects e = let fd : (stream_client inet_os host).0 ≡ pos 3 = refl in cc

-- The server's acknowledgement.
abbrev acknowledged : Answer
acknowledged = (pos 1, Received.message (0xff ∷ []))

ping-Served : Served (λ h. false) acknowledged
unfolding baa_device_mgmt_th send_rcv_ack
ping-Served = (DeviceMgmt.send 0xff ∷ [], refl, refl)

ping_main_lem_example :
    ping_main env inet_os (λ i. acknowledged) (option b's' host ∷ [])
    ≡ exits success (start (dgram_client inet_os host).1 ++ pings 10 ++ cleanup ∷ [])
ping_main_lem_example =
    ping_main_lem env inet_os (λ h. false) (λ i. acknowledged) host 10 env-Ready dgram_connects
      (λ i h. ping-Served) (inl refl)

reboots : (baa_reboot_device (pos 1) (Received.message (0xff ∷ []))).0 ≡ pos 0
unfolding baa_reboot_device
reboots = refl

pings_back : (baa_ping_device (pos 1) (Received.message (0xff ∷ []))).0 ≡ pos 0
unfolding baa_ping_device
pings_back = refl

reboot_main-leaks_example :
    (h : List Event) × (reboot_main env inet_os
        (λ i. inet_os)
        acknowledged
        acknowledged
        (option b's' host ∷ [])
      ≡ exits success h)
    × (connections h ≡ 11)
    × (closes h ≡ (dgram_client inet_os host).0 ∷ [])
    × (opens h ≡ closings h + 10)
reboot_main-leaks_example =
    reboot_main-leaks env inet_os (λ i. inet_os) acknowledged acknowledged host env-Ready
      dgram_connects reboots (λ i h. dgram_connects) pings_back

-- A server whose ctime gives two bytes.
client_loop_lem_example :
    (client_loop env host (turn (inet_os, b'4' ∷ b'2' ∷ []) ∷ [])
      ≡ waits (done host ((inet_os, b'4' ∷ b'2' ∷ []) ∷ [])))
    × (client_loop env host (turn (inet_os, b'4' ∷ b'2' ∷ []) ∷ (inet_os, eof ∷ []) ∷ [])
        ≡ faults (
            done host ((inet_os, b'4' ∷ b'2' ∷ []) ∷ [])
            ++ message ∷ inet (stream_client inet_os host).1 ∷ []))
client_loop_lem_example =
    client_loop_lem env host ((inet_os, b'4' ∷ b'2' ∷ []) ∷ []) inet_os [] []
      ((stream_connects, ((λ e. cc), ((λ e. cc), tt)), ((λ e. cc), ((λ e. cc), tt))), tt)
      stream_connects
