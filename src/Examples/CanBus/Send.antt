-- ===== src/Examples/CanBus/Send.antt =====
-- examples/can_send.c.
use libbaalue.Prelude.{
  ℕ, ◌+◌, ◌-◌, ◌*◌, ◌%◌, ◌^◌, Bool, Option, none, some, List, [], ◌∷◌, ◌==◌, ltb, if◌then◌else◌, ℤ,
  pos, negsuc, eqb_ℤ,
}
use libbaalue.Can.{CanOs, CanSocket, baa_can_raw_socket}
use libbaalue.Fiber.{Timespec}
use libbaalue.Fiber.Time.{timespec, baa_ts_norm}
use libbaalue.Examples.Program.{
  HelpLine, blank, text, with_name, message, can, write_frame, nanosleep, sleep, CanFrame,
  print_error_frames, Run, waits, faults, goes_on, ◌>>=◌, ◌>>◌, emit, exit, when, success, failure,
  Opt, Env, usage, register_cleanup, start_thread, handle_signals, with_cleanup, cheers,
}

-- `frame.data[1]` after a frame that was sent.
abbrev pub next_count : ℕ → ℕ
next_count d = if d == 0xfe then 0 else (d + 1) % 256

-- `frame`, whose data bytes but `data[1]` are always 0.
abbrev pub telegram : ℕ → ℕ → CanFrame
telegram can_id d = record {
  can_id = can_id;
  can_dlc = 2;
  bytes = 0 ∷ d ∷ 0 ∷ 0 ∷ 0 ∷ 0 ∷ 0 ∷ 0 ∷ [];
}

abbrev pub send_failed : ℤ → Bool
send_failed r = eqb_ℤ r (negsuc 0)

-- The endless loop, over the results of write, with `data[1]` as it stands.
unfoldable pub send_loop : Timespec → ℕ → List ℤ → ℕ → Run (Unit {0})
send_loop t can_id [] d = waits []
send_loop t can_id (r ∷ results) d =
    let rest = send_loop t can_id results (if send_failed r then d else next_count d) in
    do
      emit (write_frame (telegram can_id d))
      if send_failed r
          then (do emit message; emit (sleep 4); rest)
          else (do emit (nanosleep t); rest)

-- An `unsigned long` as a `long`.
abbrev pub signed64 : ℕ → ℤ
signed64 n = if ltb n (2 ^ 63) then pos n else negsuc (2 ^ 64 - 1 - n)

-- `t`, with the default of 100 ms for 0.
unfoldable pub cycle_time : ℕ → Option Timespec
unfolding baa_ts_norm
cycle_time cycle_time_ms =
    if cycle_time_ms == 0
    then some (timespec (pos 0) (pos 100_000_000))
    else baa_ts_norm (timespec (pos 0) (signed64 (cycle_time_ms * 1_000_000 % 2 ^ 64)))

-- Behind baa_can_raw_socket. `frame.can_id` has 32 bits.
unfoldable pub send_on : CanSocket → ℕ → ℕ → List ℤ → Run (Unit {0})
send_on s can_addr cycle_time_ms results =
    let send_all : Run (Unit {0}) = elim (cycle_time cycle_time_ms) [
      | none ↦ faults []
      | some t ↦ send_loop t (can_addr % 2 ^ 32) results 0
    ] in
    do
      emit (can s.calls)
      when (eqb_ℤ s.ret (negsuc 0)) (do emit message; exit failure)
      when (cycle_time_ms == 0) (emit message)
      send_all

unfoldable pub send_cyclic_telegram : CanOs → List ℕ → ℕ → ℕ → List ℤ → Run (Unit {0})
unfolding baa_can_raw_socket
send_cyclic_telegram os ifname can_addr cycle_time_ms results =
    elim (baa_can_raw_socket os ifname 0) [
      | none ↦ faults []
      | some s ↦ send_on s can_addr cycle_time_ms results
    ]

-- `ifname`, `can_addr` and `cycle_time_ms`.
pub record Settings : Type 0 where
  pub ifname : Option (List ℕ)
  pub can_addr : ℕ
  pub cycle_time_ms : ℕ

-- The help of usage.
abbrev pub send_help : List HelpLine
send_help =
    blank
    ∷ with_name "Usage: %s [options]              "
    ∷ text "Options:                                       "
    ∷ text "       -i vcan0     -> interface               "
    ∷ text "       -a 0x123     -> can addr                "
    ∷ text "       -t 100       -> cylic time 100ms        "
    ∷ text "       -h           -> show this help          "
    ∷ blank
    ∷ []

-- The loop over getopt with "hei:a:t:"; `strtoul` reads a number in a base.
unfoldable pub send_options : (ℕ → List ℕ → ℕ) → Env → List Opt → Settings → Run Settings
unfolding usage
send_options strtoul env [] s = goes_on s []
send_options strtoul env (o ∷ rest) s =
    let s' =
      if o.opt == b'i'
      then record s { ifname = some o.optarg }
      else if o.opt == b'a'
      then record s { can_addr = strtoul 16 o.optarg }
      else if o.opt == b't'
      then record s { cycle_time_ms = strtoul 10 o.optarg }
      else s in
    let go_on = send_options strtoul env rest s' in
    let back = λ (u : Unit {0}). goes_on s [] in
    if o.opt == b'i'
    then go_on
    else if o.opt == b'a'
    then go_on
    else if o.opt == b't'
    then go_on
    else if o.opt == b'h'
    then (usage env send_help success >>= back)
    else (emit message >>= λ u. usage env send_help failure >>= back)

-- `if (ifname == NULL)`.
unfoldable pub given_ifname : Env → List HelpLine → Option (List ℕ) → Run (List ℕ)
unfolding usage
given_ifname env lines none = usage env lines failure >>= λ u. goes_on [] []
given_ifname env lines (some ifname) = goes_on ifname (message ∷ [])

unfoldable pub send_run : (ℕ → List ℕ → ℕ) → Env → CanOs → List ℤ → List Opt → Run (Unit {0})
send_run strtoul env os results opts = do
  s ← send_options strtoul env opts (record { ifname = none; can_addr = 0; cycle_time_ms = 0 })
  ifname ← given_ifname env send_help s.ifname
  when (s.can_addr == 0) (usage env send_help failure)
  emit message
  register_cleanup env
  handle_signals env
  start_thread env print_error_frames
  send_cyclic_telegram os ifname s.can_addr s.cycle_time_ms results

unfoldable pub send_main : (ℕ → List ℕ → ℕ) → Env → CanOs → List ℤ → List Opt → Run (Unit {0})
unfolding send_run
send_main strtoul env os results opts = with_cleanup cheers (send_run strtoul env os results opts)
