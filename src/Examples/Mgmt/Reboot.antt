-- ===== src/Examples/Mgmt/Reboot.antt =====
-- examples/udp_mgmt_reboot_client.c.
use libbaalue.Prelude.{
  ℕ, zero, suc, ◌+◌, ◌<◌, none, List, [], ◌∷◌, ◌++◌, ℤ, pos, negsuc, eqb_ℤ, ◌≡◌, ◌≢◌, arith, ap,
  eqb_ℤ_ne, refl, length, length-append, Option-cases, Bool-cases, inl, inr,
}
use libbaalue.Network.Uds.{sock_dgram}
use libbaalue.Network.Inet.{baa_inet_dgram_client, connect_inet_socket}
use libbaalue.Network.Inet.Calls.{opened, closed}
use libbaalue.Network.Inet.Laws.{Leaves, inet_sockets_lem}
use libbaalue.DeviceMgmt.{baa_ping_device, baa_reboot_device}
use libbaalue.Examples.Program.{
  HelpLine, blank, text, with_name, Event, message, sleep, send, close, inet, Run, goes_on, ◌>>=◌,
  ◌>>◌, emit, exit, when, success, Opt, Env, register_cleanup, handle_signals, start_thread,
  with_cleanup, cheers, Ready, registered, sigmask, create, cleanup, signal_handler, exits,
}
use libbaalue.Examples.Endings.{run_laws}
use libbaalue.Examples.Mgmt.{
  name_options, given_name, InetOs, dgram_client, connected, obeyed, Answer,
}

-- The help of usage.
abbrev pub reboot_help : List HelpLine
reboot_help =
    blank
    ∷ with_name "Usage: %s [options]              "
    ∷ text "Options:                                       "
    ∷ text "        -h                       show help     "
    ∷ text "        -s [server name]                       "
    ∷ blank
    ∷ text "Examples:                                      "
    ∷ with_name "%s -s baalue_master                            "
    ∷ blank
    ∷ []

-- The loop that connects again, for the round `i` and `n - 1` more, with `fds` as the rounds before
-- have left it. No round ends the loop.
unfoldable pub reconnect_loop : (ℕ → InetOs) → List ℕ → ℕ → ℕ → ℤ → Run ℤ
reconnect_loop os name zero i fds = goes_on fds []
reconnect_loop os name (suc n) i fds =
    let (fds, calls) = dgram_client (os i) name in
    do
      emit (inet calls)
      when (eqb_ℤ fds (negsuc 0)) (emit message)
      emit (sleep 1)
      reconnect_loop os name n (i + 1) fds

-- `os` answers for the first connection, and `again` for the later ones. baa_wrap_close is told to
-- close the first descriptor.
unfoldable pub reboot_run :
    Env → InetOs → (ℕ → InetOs) → Answer → Answer → List Opt → Run (Unit {0})
unfolding baa_ping_device baa_reboot_device
reboot_run env os again rebooted pinged opts =
    let (err, sent) = baa_reboot_device rebooted.0 rebooted.1 in
    let (err', sent') = baa_ping_device pinged.0 pinged.1 in
    do
      server_name ← name_options env reboot_help b's' opts none
      name ← given_name env reboot_help server_name
      register_cleanup env
      handle_signals env
      emit message
      emit (inet (dgram_client os name).1)
      connected env reboot_help (dgram_client os name).0
      emit message
      emit (send sent)
      obeyed err
      emit (close (dgram_client os name).0)
      emit message
      emit (sleep 20)
      fds ← reconnect_loop again name 10 0 (dgram_client os name).0
      connected env reboot_help fds
      emit (send sent')
      obeyed err'
      exit success

unfoldable pub reboot_main :
    Env → InetOs → (ℕ → InetOs) → Answer → Answer → List Opt → Run (Unit {0})
unfolding reboot_run
reboot_main env os again rebooted pinged opts =
    with_cleanup cheers (reboot_run env os again rebooted pinged opts)

-- What the rounds leave in `fds`: the result of the last.
abbrev pub last_fds : (ℕ → InetOs) → List ℕ → ℕ → ℕ → ℤ → ℤ
last_fds os name zero i fds = fds
last_fds os name (suc n) i fds = last_fds os name n (i + 1) (dgram_client (os i) name).0

-- How often a history calls baa_inet_dgram_client, and the descriptors that it closes.
abbrev pub connections : List Event → ℕ
connections [] = 0
connections (inet calls ∷ h) = suc (connections h)
connections (_ ∷ h) = connections h

abbrev pub closes : List Event → List ℤ
closes [] = []
closes (close fd ∷ h) = fd ∷ closes h
closes (_ ∷ h) = closes h

-- How many descriptors socket has given, and how many were closed, within the library or by main.
abbrev pub opens : List Event → ℕ
opens [] = 0
opens (inet calls ∷ h) = length (opened calls) + opens h
opens (_ ∷ h) = opens h

abbrev pub closings : List Event → ℕ
closings [] = 0
closings (inet calls ∷ h) = length (closed calls) + closings h
closings (close fd ∷ h) = suc (closings h)
closings (_ ∷ h) = closings h

-- A connection that succeeds leaves one descriptor open.
dgram_client-opened :
    (os : InetOs) (name : List ℕ)
    → (dgram_client os name).0 ≢ negsuc 0
    → length (opened (dgram_client os name).1) ≡ suc (length (closed (dgram_client os name).1))
unfolding dgram_client baa_inet_dgram_client connect_inet_socket
dgram_client-opened os name open_fd = elim (Option-cases (os.getaddrinfo name sock_dgram)) [
  | inl e ↦ absurd (open_fd (rw e))
  | inr ([], e) ↦ absurd (open_fd (rw e))
  | inr (result ∷ more, e) ↦
      let left : Leaves (dgram_client os name) =
        rw e (inet_sockets_lem os.socket_ret os.fails 0 result more).0 in
      let one = eqb_ℤ_ne _ _ open_fd in
      let same : length (opened (dgram_client os name).1)
          ≡ length (closed (dgram_client os name).1 ++ (dgram_client os name).0 ∷ []) =
        ap length (rw one at left) in
      let sum = length-append (closed (dgram_client os name).1) ((dgram_client os name).0 ∷ []) in
      omega (arith, same, sum)
]

-- `h` is the history of the loop, with its connections and without a close of main; each of them leaves
-- a descriptor open.
abbrev Reconnects : (ℕ → InetOs) → List ℕ → ℕ → ℕ → ℤ → List Event → Type 0
Reconnects os name n i fds h =
    (reconnect_loop os name n i fds ≡ goes_on (last_fds os name n i fds) h)
    × ((rest : List Event)
        → (connections (h ++ rest) ≡ n + connections rest)
          × (closes (h ++ rest) ≡ closes rest)
          × (opens (h ++ rest) + closings rest ≡ closings (h ++ rest) + opens rest + n))

reconnect_loop_lem :
    (os : ℕ → InetOs) (name : List ℕ) (n i : ℕ) (fds : ℤ)
    → ((j : ℕ) → j < i + n → (dgram_client (os j) name).0 ≢ negsuc 0)
    → (h : List Event) × Reconnects os name n i fds h
unfolding reconnect_loop
reconnect_loop_lem os name zero i fds open_fds =
    ([], (refl, λ rest. (omega arith, refl, omega arith)))
reconnect_loop_lem os name (suc n) i fds open_fds =
    let (fds', calls) = dgram_client (os i) name in
    let (h, (run, counts)) =
      reconnect_loop_lem os name n (i + 1) fds' (λ j below. open_fds j (omega (arith, below))) in
    let one = dgram_client-opened (os i) name (open_fds i (omega arith)) in
    let more : (rest : List Event)
        → (suc (connections (h ++ rest)) ≡ suc n + connections rest)
          × (closes (h ++ rest) ≡ closes rest)
          × (length (opened calls) + opens (h ++ rest) + closings rest
              ≡ length (closed calls) + closings (h ++ rest) + opens rest + suc n) =
      λ rest. (
        let c = (counts rest).0 in
            let c' : suc (connections (h ++ rest)) ≡ suc n + connections rest = omega arith in c',
        (counts rest).1,
        let c = (counts rest).2 in omega (arith, c, one),
      ) in
    elim (Bool-cases (eqb_ℤ fds' (negsuc 0))) [
      | inl e ↦ (inet calls ∷ message ∷ sleep 1 ∷ h, (rw (e, run), more))
      | inr e ↦ (inet calls ∷ sleep 1 ∷ h, (rw (e, run), more))
    ]

-- When all works, each connection included, the reboot client connects 11 times, once in each of the 10
-- rounds behind the first, and itself closes the first descriptor only: up to its exit with EXIT_SUCCESS
-- socket has given 10 descriptors more than are closed, by itself or by the library.
pub reboot_main-leaks :
    (env : Env) (os : InetOs) (again : ℕ → InetOs) (rebooted pinged : Answer) (name : List ℕ)
    → Ready env
    → (dgram_client os name).0 ≢ negsuc 0
    → (baa_reboot_device rebooted.0 rebooted.1).0 ≡ pos 0
    → ((i : ℕ) → i < 10 → (dgram_client (again i) name).0 ≢ negsuc 0)
    → (baa_ping_device pinged.0 pinged.1).0 ≡ pos 0
    → (h : List Event) × (reboot_main env os again rebooted pinged
          (record { opt = b's'; optarg = name } ∷ [])
        ≡ exits success h)
      × (connections h ≡ 11)
      × (closes h ≡ (dgram_client os name).0 ∷ [])
      × (opens h ≡ closings h + 10)
unfolding reboot_main reboot_run name_options given_name register_cleanup handle_signals
    start_thread connected
reboot_main-leaks env os again rebooted pinged name ready open_fd reboots reopen_fd pings =
    let (h, (run, counts)) =
      reconnect_loop_lem again name 10 0 (dgram_client os name).0 reopen_fd in
    let one = dgram_client-opened os name open_fd in
    let fd = eqb_ℤ_ne _ _ open_fd in
    let fd' = eqb_ℤ_ne _ _ (reopen_fd 9 (omega arith)) in
    let rest = send (baa_ping_device pinged.0 pinged.1).1 ∷ cleanup ∷ [] in
    (
      message
          ∷ registered
          ∷ sigmask
          ∷ create signal_handler
          ∷ message
          ∷ inet (dgram_client os name).1
          ∷ message
          ∷ send (baa_reboot_device rebooted.0 rebooted.1).1
          ∷ close (dgram_client os name).0
          ∷ message
          ∷ sleep 20
          ∷ (h ++ rest),
      rw (ready.atexit_works, ready.sigmask_works, ready.signals_created, fd, reboots, run)
          (rw (fd', pings) (simp run_laws)),
      rw ((counts rest).0),
      (rw (counts rest).1),
      let c = (counts rest).2 in omega (arith, c, one),
    )
