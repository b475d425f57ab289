-- ===== src/Examples/Mgmt.antt =====
-- The programs for device management, examples/udp_mgmt_ping_client.c and udp_mgmt_server.c, and what
-- the clients have in common; examples/udp_mgmt_reboot_client.c is in the child Reboot.
pub mod Laws
pub mod Reboot
pub mod Managed
use libbaalue.Prelude.{
  ℕ, zero, suc, ◌+◌, Bool, not, Option, none, some, List, [], ◌∷◌, ◌==◌, if◌then◌else◌, ℤ, pos,
  negsuc, eqb_ℤ,
}
use libbaalue.DeviceMgmt.{Received, baa_ping_device}
use libbaalue.Network.Inet
use libbaalue.Network.Inet.{AddrInfo, baa_inet_dgram_client, baa_inet_dgram_server}
use libbaalue.Examples.Program.{
  HelpLine, blank, text, with_name, Event, message, sleep, send, inet, Thread, device_mgmt, Run,
  exits, waits, goes_on, ◌>>=◌, ◌>>◌, nothing, emit, exit, when, success, failure, error_exit, Opt,
  Env, usage, show_some_infos, register_cleanup, start_thread, handle_signals, with_cleanup, cheers,
}

-- The help of usage.
abbrev pub ping_help : List HelpLine
ping_help =
    blank
    ∷ with_name "Usage: %s [options]              "
    ∷ text "Options:                                       "
    ∷ text "        -h                       show help     "
    ∷ text "        -s [server name]                       "
    ∷ blank
    ∷ text "Examples:                                      "
    ∷ with_name "%s -s baalue_master                            "
    ∷ blank
    ∷ []

-- The loop over getopt with "h" and the letter of the option for the server's name.
unfoldable pub name_options :
    Env → List HelpLine → ℕ → List Opt → Option (List ℕ) → Run (Option (List ℕ))
unfolding usage
name_options env lines letter [] server_name = goes_on server_name []
name_options env lines letter (o ∷ rest) server_name =
    let named = name_options env lines letter rest (some o.optarg) in
    let back = λ (u : Unit {0}). goes_on server_name [] in
    if o.opt == letter
    then named
    else if o.opt == b'h'
    then (usage env lines success >>= back)
    else (emit message >>= λ u. usage env lines failure >>= back)

-- `if (server_name == NULL)`, and the line with the name.
unfoldable pub given_name : Env → List HelpLine → Option (List ℕ) → Run (List ℕ)
unfolding usage
given_name env lines none = emit message >>= λ u. usage env lines failure >>= λ u. goes_on [] []
given_name env lines (some name) = goes_on name (message ∷ [])

-- The answers to one call that opens a socket; `getaddrinfo` answers for a name and a type.
pub record InetOs : Type 0 where
  pub socket_ret : List Inet.Call → ℤ
  pub fails : List Inet.Call → Bool
  pub getaddrinfo : List ℕ → ℕ → Option (List AddrInfo)

unfoldable pub dgram_client : InetOs → List ℕ → ℤ × List Inet.Call
unfolding baa_inet_dgram_client
dgram_client os name = baa_inet_dgram_client os.socket_ret os.fails (os.getaddrinfo name)

-- `if (fds == -1)` behind baa_inet_dgram_client.
unfoldable pub connected : Env → List HelpLine → ℤ → Run (Unit {0})
unfolding usage
connected env lines fds = when (eqb_ℤ fds (negsuc 0)) (do emit message; usage env lines failure)

-- `if (err == -1)` behind a call for a device.
abbrev pub obeyed : ℤ → Run (Unit {0})
obeyed err = when (eqb_ℤ err (negsuc 0)) (do emit message; exit failure)

-- What send and recv give for a ping or a reboot.
abbrev pub Answer : Type 0
Answer = ℤ × Received

-- The round `i` and `n - 1` more.
unfoldable pub ping_loop : (ℕ → Answer) → ℕ → ℕ → Run (Unit {0})
unfolding baa_ping_device
ping_loop answers zero i = nothing
ping_loop answers (suc n) i =
    let (err, sent) = baa_ping_device (answers i).0 (answers i).1 in
    do emit (send sent); obeyed err; emit (sleep 5); ping_loop answers n (i + 1)

abbrev pub max_num_ping : ℕ
max_num_ping = 10

-- main up to its end of the ping client.
unfoldable pub ping_run : Env → InetOs → (ℕ → Answer) → List Opt → Run (Unit {0})
ping_run env os answers opts = do
  server_name ← name_options env ping_help b's' opts none
  name ← given_name env ping_help server_name
  register_cleanup env
  handle_signals env
  emit message
  emit (inet (dgram_client os name).1)
  connected env ping_help (dgram_client os name).0
  emit message
  ping_loop answers max_num_ping 0
  exit success

unfoldable pub ping_main : Env → InetOs → (ℕ → Answer) → List Opt → Run (Unit {0})
unfolding ping_run
ping_main env os answers opts = with_cleanup cheers (ping_run env os answers opts)

-- main up to its end of the server; its thread is baa_device_mgmt_th, which never returns.
unfoldable pub server_run : Env → InetOs → Run (Unit {0})
server_run env os =
    let (fds, calls) = baa_inet_dgram_server os.socket_ret os.fails (os.getaddrinfo []) in
    do
      register_cleanup env
      show_some_infos env
      handle_signals env
      emit (inet calls)
      when (eqb_ℤ fds (negsuc 0)) error_exit
      start_thread env device_mgmt
      waits []

unfoldable pub server_main : Env → InetOs → Run (Unit {0})
unfolding server_run
server_main env os = with_cleanup cheers (server_run env os)
