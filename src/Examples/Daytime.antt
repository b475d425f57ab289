-- ===== src/Examples/Daytime.antt =====
-- examples/inet_daytime_client.c and examples/inet_daytime_server.c.
pub mod Laws
pub mod Served
use libbaalue.Prelude.{
  ℕ, zero, suc, ◌+◌, Bool, Option, none, some, List, [], ◌∷◌, ◌==◌, if◌then◌else◌, replicate, write,
  ℤ, pos, negsuc, eqb_ℤ,
}
use libbaalue.Protocol.{baa_maxline}
use libbaalue.Helper.ReadLine
use libbaalue.Helper.ReadLine.{Read, Line, baa_read_line}
use libbaalue.Network.Inet
use libbaalue.Network.Inet.{baa_inet_stream_client, baa_inet_stream_server}
use libbaalue.Examples.Mgmt.{InetOs, name_options, given_name, connected}
use libbaalue.Examples.Program.{
  HelpLine, blank, text, with_name, c_string, Event, message, number, line, close, sleep, inet,
  daytime_server, Run, exits, waits, faults, goes_on, ◌>>=◌, ◌>>◌, nothing, emit, exit, when,
  success, failure, error_exit, Opt, Env, usage, register_cleanup, start_thread, handle_signals,
  with_cleanup, cheers,
}

-- The help of usage.
abbrev pub client_help : List HelpLine
client_help =
    blank
    ∷ with_name "Usage: %s [options]              "
    ∷ text "Options:                                       "
    ∷ text "        -h                       show help     "
    ∷ text "        -f [server name]                       "
    ∷ blank
    ∷ text "Examples:                                      "
    ∷ with_name "%s -f baalue_master                            "
    ∷ blank
    ∷ []

unfoldable pub stream_client : InetOs → List ℕ → ℤ × List Inet.Call
unfolding baa_inet_stream_client
stream_client os name = baa_inet_stream_client os.socket_ret os.fails (os.getaddrinfo name)

-- `recvline[num_read - 1] = '\0'`; `none` is a write in front of the array or behind it.
unfoldable pub terminate : ℤ → List ℕ → Option (List ℕ)
terminate (pos zero) recvline = none
terminate (pos (suc n)) recvline = write recvline n 0
terminate (negsuc n) recvline = none

-- Behind baa_read_line: `number` and `line` stand for the message with the two.
unfoldable pub show_line : Line → Run (Unit {0})
unfolding terminate
show_line (ReadLine.waits recvline) = waits []
show_line (ReadLine.returned num_read recvline) =
    let shown : Run (Unit {0}) = elim (terminate num_read recvline) [
      | none ↦ faults []
      | some shown_line ↦
          goes_on tt
            (number (elim num_read [ pos n ↦ n | negsuc n ↦ 0 ]) ∷ line (c_string shown_line) ∷ [])
    ] in
    when (eqb_ℤ num_read (negsuc 0)) error_exit >> shown

unfoldable pub read_time : List Read → Run (Unit {0})
unfolding show_line
read_time reads = elim (baa_read_line reads (replicate (baa_maxline + 1) 0) baa_maxline) [
  | none ↦ faults []
  | some l ↦ show_line l
]

-- The endless loop of the client, over the answers for each connection and the results of its reads.
unfoldable pub client_loop : Env → List ℕ → List (InetOs × List Read) → Run (Unit {0})
client_loop env name [] = waits []
client_loop env name ((os, reads) ∷ turns) = do
  emit message
  emit (inet (stream_client os name).1)
  connected env client_help (stream_client os name).0
  read_time reads
  emit (close (stream_client os name).0)
  emit (sleep 2)
  client_loop env name turns

-- main up to its end of the client.
unfoldable pub client_run : Env → List (InetOs × List Read) → List Opt → Run (Unit {0})
client_run env turns opts = do
  server_name ← name_options env client_help b'f' opts none
  name ← given_name env client_help server_name
  register_cleanup env
  handle_signals env
  client_loop env name turns

unfoldable pub client_main : Env → List (InetOs × List Read) → List Opt → Run (Unit {0})
unfolding client_run
client_main env turns opts = with_cleanup cheers (client_run env turns opts)

-- The help of usage.
abbrev pub server_help : List HelpLine
server_help =
    blank
    ∷ with_name "Usage: %s [options]              "
    ∷ text "Options:                                       "
    ∷ text "        -h                       show help     "
    ∷ blank
    ∷ []

-- The loop over getopt with "h" of the server.
unfoldable pub server_options : Env → List Opt → Run (Unit {0})
unfolding usage
server_options env [] = nothing
server_options env (o ∷ rest) =
    if o.opt == b'h'
    then usage env server_help success
    else (do emit message; usage env server_help failure)

-- main up to its end of the server; its thread is baa_daytime_server_th, which never returns.
unfoldable pub server_run : Env → InetOs → List Opt → Run (Unit {0})
server_run env os opts =
    let (fds, calls) = baa_inet_stream_server os.socket_ret os.fails (os.getaddrinfo []) in
    do
      server_options env opts
      register_cleanup env
      handle_signals env
      emit (inet calls)
      connected env server_help fds
      start_thread env daytime_server
      waits []

unfoldable pub server_main : Env → InetOs → List Opt → Run (Unit {0})
unfolding server_run
server_main env os opts = with_cleanup cheers (server_run env os opts)
