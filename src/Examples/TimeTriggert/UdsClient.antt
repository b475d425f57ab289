-- ===== src/Examples/TimeTriggert/UdsClient.antt =====
-- examples/time_triggert_uds.c.
use libbaalue.Prelude.{
  ℕ, Bool, not, Option, none, some, List, [], ◌∷◌, ◌++◌, ◌==◌, if◌then◌else◌, ℤ, pos, negsuc, eqb_ℤ,
}
use libbaalue.Fiber.{FiberElement}
use libbaalue.Fiber.Threads.{baa_build_scheduler, baa_start_scheduler}
use libbaalue.Fiber.Config.{baa_is_fiber_config_valid}
use libbaalue.Fiber.Client
use libbaalue.Fiber.Client.{Incoming, Outgoing, baa_set_schedule_props_via_server}
use libbaalue.Helper.Names.{baa_set_program_name}
use libbaalue.Network.Uds.{UdsOs, Opened, baa_uds_dgram_client, baa_create_uds_name_string}
use libbaalue.Examples.Program.{
  HelpLine, blank, text, with_name, Event, message, cleanup, threads, datagrams, close, unlink, uds,
  Run, waits, faults, goes_on, ◌>>=◌, ◌>>◌, emit, when, failure, success, error_exit, Opt, Env,
  usage, register_cleanup, handle_signals, with_cleanup, has_uds, var_run_dir,
}
use libbaalue.Examples.TimeTriggert.{ThreadOs, uds_array}
use libbaalue.Examples.TimeTriggert.Simple.{check_kernel, check_err, check_valid}

-- `file` and `dir`; NULL is `none`.
abbrev pub Names : Type 0
Names = Option (List ℕ) × Option (List ℕ)

-- The help of usage.
abbrev pub uds_help : List HelpLine
uds_help =
    blank
    ∷ with_name "Usage: %s [options]              "
    ∷ text "Options:                                       "
    ∷ text "        -h                       show help     "
    ∷ text "        -f [server socket]                     "
    ∷ text "        -d [socket dir]                        "
    ∷ blank
    ∷ text "Examples:                                      "
    ∷ with_name "%s -d /var/tmp -f time_triggert_uds_server.socket"
    ∷ with_name "%s -d /tmp -f time_triggert_uds_server.unix    "
    ∷ blank
    ∷ text "Notes: The kernel must support at least PREEMPT"
    ∷ text "       For realtime RT-PREEMPT is mandatory    "
    ∷ text "       See \"uname -a\"                        "
    ∷ blank
    ∷ []

-- The loop over getopt with "hf:d:".
unfoldable pub uds_options : Env → List Opt → Names → Run Names
unfolding usage
uds_options env [] names = goes_on names []
uds_options env (o ∷ rest) (file, dir) =
    let with_file = uds_options env rest (some o.optarg, dir) in
    let with_dir = uds_options env rest (file, some o.optarg) in
    let back = λ (u : Unit {0}). goes_on (file, dir) [] in
    if o.opt == b'f'
    then with_file
    else if o.opt == b'd'
    then with_dir
    else if o.opt == b'h'
    then (usage env uds_help success >>= back)
    else (emit message >>= λ u. usage env uds_help failure >>= back)

-- The answers about the sockets: those of baa_uds_dgram_client, whether malloc fails for the name
-- of the server, and what baa_set_schedule_props_via_server gets.
pub record SocketOs : Type 0 where
  pub uds_os : UdsOs
  pub malloc_fails : Bool
  pub junk : FiberElement → ℕ → ℕ
  pub sendto : List Outgoing → ℤ
  pub garbage : ℕ
  pub incoming : List Incoming
  pub unlink_fails : Bool

-- `kdo_file`.
unfoldable pub server_name : Env → SocketOs → Names → Run (List ℕ)
unfolding usage baa_create_uds_name_string
server_name env so (file, dir) = elim (baa_create_uds_name_string so.malloc_fails file dir) [
  | none ↦ (usage env uds_help failure >>= λ u. goes_on [] [])
  | some path ↦ goes_on path []
]

-- The result of the call and the datagrams that it sends.
unfoldable pub set_via_server : SocketOs → List FiberElement → List ℕ → Run (Unit {0})
unfolding baa_set_schedule_props_via_server
set_via_server so fs path =
    elim (baa_set_schedule_props_via_server so.junk so.sendto fs path so.garbage so.incoming) [
      | none ↦ faults []
      | some (Client.waits c) ↦ (do emit (datagrams c.sent); waits [])
      | some (Client.returned err c) ↦ (do emit (datagrams c.sent); check_err err)
    ]

-- From baa_build_scheduler on.
unfoldable pub uds_table : ThreadOs → SocketOs → List ℕ → Run (Unit {0})
uds_table th so path =
    let fs = uds_array th.tid in
    let (built, b) = baa_build_scheduler th.create_err (pos 5) in
    let (started, s) = baa_start_scheduler th.join_err (pos 5) in
    do
      emit (threads b)
      check_err built
      check_valid (baa_is_fiber_config_valid th.limits (some fs) (pos 5))
      set_via_server so fs path
      emit (threads s)
      check_err started
      waits []

-- `kdo_socket` and `kdo_ret_file` when the program ends: as initialised, or as the client's socket has left them.
abbrev pub close_and_unlink : ℤ → Option (List ℕ) → Bool → List Event
close_and_unlink sock file fails =
    let closing = if eqb_ℤ sock (negsuc 0) then [] else close sock ∷ [] in
    let warned = if fails then message ∷ [] else [] in
    let removing : List Event = elim file [
      | none ↦ message ∷ []
      | some path ↦ unlink path ∷ warned
    ] in
    closing ++ removing

abbrev pub uds_cleanup : SocketOs → Opened → List Event → List Event
uds_cleanup so o h =
    let sock = if has_uds h then o.ret else negsuc 0 in
    let file = if has_uds h then o.socket_f else none in
    close_and_unlink sock file so.unlink_fails ++ cleanup ∷ []

-- What baa_uds_dgram_client gives.
abbrev pub uds_opened : Env → SocketOs → Opened
uds_opened env so =
    let name = baa_set_program_name (some env.argv0) in
    baa_uds_dgram_client so.uds_os (some name) (some var_run_dir)

-- main up to its end; `argc` is passed too.
unfoldable pub uds_run : Env → ThreadOs → SocketOs → ℕ → List Opt → Run (Unit {0})
uds_run env th so argc opts =
    let o = uds_opened env so in
    do
      names ← uds_options env opts (none, none)
      when (not (argc == 5)) (do emit message; usage env uds_help failure)
      register_cleanup env
      check_kernel env th
      handle_signals env
      path ← server_name env so names
      emit (uds o.calls)
      when (eqb_ℤ o.ret (negsuc 0)) error_exit
      uds_table th so path

unfoldable pub uds_main : Env → ThreadOs → SocketOs → ℕ → List Opt → Run (Unit {0})
unfolding uds_run
uds_main env th so argc opts =
    with_cleanup (uds_cleanup so (uds_opened env so)) (uds_run env th so argc opts)
