-- ===== src/Examples/CanBus/Recv.antt =====
-- examples/can_recv.c.
use libbaalue.Prelude.{
  ℕ, Bool, true, false, Option, none, some, List, [], ◌∷◌, ◌==◌, ltb, if◌then◌else◌, negsuc, eqb_ℤ,
}
use libbaalue.Can.{
  baa_set_hw_error_mask, can_sff_mask, CanOs, CanSocket, CanFilter, baa_can_raw_socket,
  baa_set_flist,
}
use libbaalue.Examples.Program.{
  HelpLine, blank, text, with_name, error_mask, message, can, can_filter, number,
  print_error_frames, Run, waits, faults, goes_on, ◌>>=◌, ◌>>◌, nothing, emit, exit, when, success,
  failure, Opt, Env, usage, show_some_infos, register_cleanup, start_thread, handle_signals,
  with_cleanup, cheers,
}
use libbaalue.Examples.CanBus.{error_loop, FrameRead, failed, frame, show_frame, is_error}
use libbaalue.Examples.CanBus.Send.{given_ifname}

-- sizeof(struct can_frame).
abbrev pub frame_size : ℕ
frame_size = 16

-- The endless loop of recv_frame_raw. `number` is the line with the bytes received.
unfoldable pub recv_loop : List FrameRead → Run (Unit {0})
recv_loop [] = waits []
recv_loop (failed ∷ reads) = do emit message; recv_loop reads
recv_loop (frame n f no_stamp ∷ reads) = do
  when (ltb n frame_size) (emit message)
  emit (number n)
  when (is_error f.can_id) (emit message)
  show_frame f
  recv_loop reads

-- baa_set_flist and the message if it fails; `none` for the list is NULL, which sets no filter.
unfoldable pub set_filters : CanFilter → (ℕ → Bool) → Bool → Option (List ℕ) → Run (Unit {0})
unfolding baa_set_flist
set_filters fresh realloc_fails fails none = nothing
set_filters fresh realloc_fails fails (some ids) =
    elim (baa_set_flist fresh realloc_fails fails (some ids)) [
      | none ↦ faults []
      | some r ↦ (do emit (can_filter r.1); when (eqb_ℤ r.0 (negsuc 0)) (emit message))
    ]

-- Behind baa_can_raw_socket. The identifiers that strtok_r and strtoul find in the list are given, as
-- is what realloc's memory holds, and whether setsockopt fails.
unfoldable pub recv_on :
    CanSocket → CanFilter → (ℕ → Bool) → Bool → Option (List ℕ) → List FrameRead → Run (Unit {0})
recv_on s fresh realloc_fails fails flist reads = do
  emit (can s.calls)
  when (eqb_ℤ s.ret (negsuc 0)) (do emit message; exit failure)
  set_filters fresh realloc_fails fails flist
  recv_loop reads

unfoldable pub recv_frame_raw :
    CanOs
    → CanFilter
    → (ℕ → Bool)
    → Bool
    → List ℕ
    → Option (List ℕ)
    → List FrameRead
    → Run (Unit {0})
unfolding baa_can_raw_socket
recv_frame_raw os fresh realloc_fails fails ifname flist reads =
    elim (baa_can_raw_socket os ifname 0) [
      | none ↦ faults []
      | some s ↦ recv_on s fresh realloc_fails fails flist reads
    ]

-- The thread for error frames, behind baa_can_raw_socket: here the result of setsockopt for the filter
-- is tested too.
unfoldable pub recv_error_frames_on : CanSocket → Bool → Bool → List FrameRead → Run (Unit {0})
recv_error_frames_on s filter_fails mask_fails reads =
    let (err, mask) = baa_set_hw_error_mask mask_fails in
    let loop = if eqb_ℤ err (negsuc 0) then emit message else error_loop reads in
    let filters = can_filter (record { can_id = 0; can_mask = can_sff_mask } ∷ []) in
    let with_filter = if filter_fails then emit message else (emit (error_mask mask) >> loop) in
    let run = emit filters >> with_filter in
    emit (can s.calls) >> (if eqb_ℤ s.ret (negsuc 0) then emit message else run)

unfoldable pub recv_print_error_frames :
    CanOs → List ℕ → Bool → Bool → List FrameRead → Run (Unit {0})
unfolding recv_error_frames_on baa_can_raw_socket
recv_print_error_frames os ifname filter_fails mask_fails reads =
    elim (baa_can_raw_socket os ifname 0) [
      | none ↦ faults []
      | some s ↦ recv_error_frames_on s filter_fails mask_fails reads
    ]

-- The help of usage.
abbrev pub recv_help : List HelpLine
recv_help =
    blank
    ∷ with_name "Usage: %s [options]              "
    ∷ text "Options:                                       "
    ∷ text "       -i vcan0     -> interface           "
    ∷ text "       -f 0x00F,0x10A -> recv 0x00F and 0x10A  "
    ∷ text "       -h           -> show this help          "
    ∷ blank
    ∷ []

-- The loop over getopt with "hi:f:", for `ifname` and `flist`.
unfoldable pub recv_options :
    Env → List Opt → Option (List ℕ) → Option (List ℕ) → Run (Option (List ℕ) × Option (List ℕ))
unfolding usage
recv_options env [] ifname flist = goes_on (ifname, flist) []
recv_options env (o ∷ rest) ifname flist =
    let with_ifname = recv_options env rest (some o.optarg) flist in
    let with_flist = recv_options env rest ifname (some o.optarg) in
    let back = λ (u : Unit {0}). goes_on (ifname, flist) [] in
    if o.opt == b'i'
    then with_ifname
    else if o.opt == b'f'
    then with_flist
    else if o.opt == b'h'
    then (usage env recv_help success >>= back)
    else (emit message >>= λ u. usage env recv_help failure >>= back)

unfoldable pub recv_run :
    (List ℕ → List ℕ)
    → Env
    → CanOs
    → CanFilter
    → (ℕ → Bool)
    → Bool
    → List FrameRead
    → List Opt
    → Run (Unit {0})
recv_run ids env os fresh realloc_fails fails reads opts = do
  (ifname, flist) ← recv_options env opts none none
  show_some_infos env
  ifname ← given_ifname env recv_help ifname
  when (elim flist [ none ↦ true | some list ↦ false ]) (emit message)
  register_cleanup env
  handle_signals env
  start_thread env print_error_frames
  recv_frame_raw os fresh realloc_fails fails ifname
      (elim flist [ none ↦ none | some list ↦ some (ids list) ]) reads

unfoldable pub recv_main :
    (List ℕ → List ℕ)
    → Env
    → CanOs
    → CanFilter
    → (ℕ → Bool)
    → Bool
    → List FrameRead
    → List Opt
    → Run (Unit {0})
unfolding recv_run
recv_main ids env os fresh realloc_fails fails reads opts =
    with_cleanup cheers (recv_run ids env os fresh realloc_fails fails reads opts)
