-- ===== src/Examples/CanBus/Traffic.antt =====
-- examples/can_send.c and examples/can_recv.c on one bus.
use libbaalue.Prelude.{
  ℕ, zero, suc, ◌+◌, ◌*◌, ◌/◌, ◌%◌, ◌^◌, ◌<◌, ◌≡◌, ◌≢◌, refl, true, false, Bool-cases, inl, inr,
  some, List, [], ◌∷◌, map, replicate, arith, ◌==◌, ltb, lt→ltb, if◌then◌else◌, ℤ, pos, negsuc,
  eqb_ℤ_ne, ◌+ℤ◌,
}
use libbaalue.Can.{CanOs, CanSocket, baa_can_raw_socket}
use libbaalue.Fiber.{Timespec}
use libbaalue.Fiber.Time.{timespec, baa_ts_norm_lem}
use libbaalue.Examples.Program.{
  Event, message, can, number, frame_info, byte_info, write_frame, nanosleep, sleep, signal_handler,
  print_error_frames, registered, sigmask, create, CanFrame, waits, Opt, Env, Ready,
  register_cleanup, start_thread, handle_signals,
}
use libbaalue.Examples.CanBus.{FrameRead, frame, show_frame, data_loop}
use libbaalue.Examples.CanBus.Send.{
  next_count, telegram, send_failed, send_loop, cycle_time, send_on, send_cyclic_telegram,
  send_options, given_ifname, send_main,
}
use libbaalue.Examples.CanBus.Recv.{recv_loop}

-- The frames whose write succeeds, and the pauses.
abbrev pub on_bus : List Event → List CanFrame
on_bus [] = []
on_bus (write_frame f ∷ nanosleep t ∷ h) = f ∷ on_bus h
on_bus (_ ∷ h) = on_bus h

abbrev pub pauses : List Event → List Timespec
pauses [] = []
pauses (nanosleep t ∷ h) = t ∷ pauses h
pauses (_ ∷ h) = pauses h

abbrev pub successes : List ℤ → ℕ
successes [] = 0
successes (r ∷ results) = let n = successes results in if send_failed r then n else suc n

-- The frames number `k` to `k + n - 1`.
abbrev pub numbered : ℕ → ℕ → ℕ → List CanFrame
numbered can_id k zero = []
numbered can_id k (suc n) = telegram can_id (k % 255) ∷ numbered can_id (k + 1) n

-- What the receiver prints of them.
abbrev pub shown : ℕ → ℕ → ℕ → List Event
shown can_id k zero = []
shown can_id k (suc n) =
    number 16 ∷ frame_info can_id 2 ∷ byte_info 0 0 ∷ byte_info 1 (k % 255) ∷ shown can_id (k + 1) n

-- A frame that arrives whole and with its time.
abbrev pub arrived : CanFrame → FrameRead
arrived f = frame 16 f false

counts_up : (k : ℕ) → next_count (k % 255) ≡ (k + 1) % 255
counts_up k = ground arith

send_loop_lem :
    (t : Timespec) (can_id : ℕ) (results : List ℤ) (k : ℕ)
    → (h : List Event) × (send_loop t can_id results (k % 255) ≡ waits h)
      × (on_bus h ≡ numbered can_id k (successes results))
      × (pauses h ≡ replicate (successes results) t)
unfolding send_loop
send_loop_lem t can_id [] k = ([], refl, refl, refl)
send_loop_lem t can_id (r ∷ results) k = elim (Bool-cases (send_failed r)) [
  | inl e ↦
      let (h, run, bus, slept) = send_loop_lem t can_id results k in
      (
        write_frame (telegram can_id (k % 255)) ∷ message ∷ sleep 4 ∷ h,
        rw (e, run),
        rw (e, bus),
        rw (e, slept),
      )
  | inr e ↦
      let (h, run, bus, slept) = send_loop_lem t can_id results (k + 1) in
      (
        write_frame (telegram can_id (k % 255)) ∷ nanosleep t ∷ h,
        rw (e, counts_up k, run),
        rw (e, bus),
        rw (e, slept),
      )
]

recv_loop_lem :
    (can_id k n : ℕ)
    → can_id < 2 ^ 29
    → recv_loop (map arrived (numbered can_id k n)) ≡ waits (shown can_id k n)
unfolding recv_loop show_frame data_loop
recv_loop_lem can_id k zero h = refl
recv_loop_lem can_id k (suc n) h =
    let data_frame : (can_id / 2 ^ 29 % 2 == 1) ≡ false = ground arith in
    rw (data_frame, recv_loop_lem can_id (k + 1) n h)

zero_plus : (n : ℕ) → pos 0 +ℤ pos n ≡ pos n
zero_plus n = ground arith

cycle_time_lem :
    (ms : ℕ)
    → 0 < ms
    → ms * 1_000_000 < 2 ^ 63
    → cycle_time ms ≡ some (timespec (pos (ms / 1000)) (pos (ms % 1000 * 1_000_000)))
unfolding cycle_time
cycle_time_lem ms positive small =
    let given : (ms == 0) ≡ false = ground arith in
    let whole : ms * 1_000_000 % 2 ^ 64 ≡ ms * 1_000_000 = omega arith in
    let long : ltb (ms * 1_000_000) (2 ^ 63) ≡ true = lt→ltb _ _ small in
    let sec : ms * 1_000_000 / 1_000_000_000 ≡ ms / 1000 = omega arith in
    let nsec : ms * 1_000_000 % 1_000_000_000 ≡ ms % 1000 * 1_000_000 = omega arith in
    rw (
      given,
      whole,
      long,
      baa_ts_norm_lem (pos 0) (pos (ms * 1_000_000)) (omega arith),
      zero_plus (ms * 1_000_000 / 1_000_000_000),
      sec,
      nsec,
    )

abbrev pub send_opts : List ℕ → List ℕ → List ℕ → List Opt
send_opts ifname addr ms =
    record { opt = b'i'; optarg = ifname }
    ∷ record { opt = b'a'; optarg = addr }
    ∷ record { opt = b't'; optarg = ms }
    ∷ []

-- can_send with an interface, an identifier of at most 29 bits that is not 0, and a cycle of `cycle` ms,
-- after a start in which all works, sends for ever, whatever each write gives. A receiver in
-- recv_frame_raw prints of the frames that were written, in order, that identifier, the bytes 0 and the
-- number of the frame modulo 255: 254 is followed by 0, and a frame whose write fails is sent again. The
-- sender sleeps the cycle, with the nanoseconds below a second, after each frame that was written.
pub send_main-recv_loop :
    (strtoul : ℕ → List ℕ → ℕ) (env : Env) (os : CanOs) (s : CanSocket) (results : List ℤ)
    (ifname addr ms : List ℕ) (can_addr cycle : ℕ)
    → Ready env
    → env.create_err print_error_frames ≡ 0
    → strtoul 16 addr ≡ can_addr
    → strtoul 10 ms ≡ cycle
    → 0 < can_addr
    → can_addr < 2 ^ 29
    → 0 < cycle
    → cycle * 1_000_000 < 2 ^ 63
    → baa_can_raw_socket os ifname 0 ≡ some s
    → s.ret ≢ negsuc 0
    → (h : List Event) × (send_main strtoul env os results (send_opts ifname addr ms) ≡ waits h)
      × (recv_loop (map arrived (on_bus h)) ≡ waits (shown can_addr 0 (successes results)))
      × (pauses h
          ≡ replicate
              (successes results)
              (timespec (pos (cycle / 1000)) (pos (cycle % 1000 * 1_000_000))))
unfolding send_main send_options given_ifname register_cleanup handle_signals start_thread
    send_cyclic_telegram send_on
send_main-recv_loop strtoul env os s results ifname addr ms can_addr cycle ready created e_addr e_ms
      positive small cyclic fits socket open_fd =
    let t = timespec (pos (cycle / 1000)) (pos (cycle % 1000 * 1_000_000)) in
    let (h, run, bus, slept) = send_loop_lem t can_addr results 0 in
    let given : (can_addr == 0) ≡ false = ground arith in
    let open_ok = eqb_ℤ_ne _ _ open_fd in
    let timed : (cycle == 0) ≡ false = ground arith in
    let word : can_addr % 2 ^ 32 ≡ can_addr = omega arith in
    let sends : send_cyclic_telegram os ifname can_addr cycle results ≡ waits (can s.calls ∷ h) =
      rw (
        send_cyclic_telegram,
        socket,
        send_on,
        open_ok,
        timed,
        cycle_time_lem cycle cyclic fits,
        word,
        run,
      ) in
    (
      message
          ∷ message
          ∷ registered
          ∷ sigmask
          ∷ create signal_handler
          ∷ create print_error_frames
          ∷ can s.calls
          ∷ h,
      rw (
        e_addr, e_ms, given, ready.atexit_works, ready.sigmask_works, ready.signals_created,
        created, sends,
      ),
      rw bus (recv_loop_lem can_addr 0 (successes results) small),
      slept,
    )
