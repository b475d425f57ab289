-- ===== src/Fiber/Server.antt =====
-- baa_schedule_server_th of src/fiber.c: one round of its loop, for one answer of recvfrom.
use libbaalue.Prelude.{
  ◌▷◌, ℕ, ◌-◌, Option, some, List, [], ◌∷◌, ◌++◌, ◌>>=◌, ◌==◌, if◌then◌else◌, length, get_elem?,
  take, replicate, pos, ltb_ℤ, eqb_ℤ, not,
}
use libbaalue.Protocol.{
  baa_max_len_msg, ptype_sched_props, ptype_error, ptype_cmd_ack, ptype_rcv_ack,
}
use libbaalue.Serialize.Reader.{baa_unpack}
use libbaalue.Fiber.{
  FiberElement, message_too_long, send_failed, schedule_failed, ptype_not_supported, Event, send,
  print_configured, report, Os,
}
use libbaalue.Fiber.Props.{report_if, baa_set_schedule_props}
use libbaalue.Fiber.Memory.{
  kernel_tid_at, sched_priority_at, policy_at, cpu_at, protocol_type_at, cleared, run_stores,
  element_of,
}

-- What recvfrom gives: an error, or the bytes of a datagram.
pub data Received : Type 0 where
  failed : Received
  datagram : List ℕ → Received

-- The cleared buffer after a datagram, of which recvfrom keeps what fits.
abbrev pub fill : List ℕ → List ℕ
fill bytes =
    let kept = take baa_max_len_msg bytes in kept ++ replicate (baa_max_len_msg - length kept) 0

-- "cLLLL", and the pointers passed with it.
abbrev pub sched_format : List ℕ
sched_format = b'c' ∷ b'L' ∷ b'L' ∷ b'L' ∷ b'L' ∷ []

abbrev pub sched_pointers : List ℕ
sched_pointers = protocol_type_at ∷ kernel_tid_at ∷ policy_at ∷ cpu_at ∷ sched_priority_at ∷ []

module _ (os : Os) where
  -- SEND_RCV_ACK, SEND_CMD_ACK and SEND_ERROR, by their byte.
  unfoldable pub send_byte : ℕ → List Event → List Event
  send_byte b h = let h = h ▷ send b in report_if (os.sendto_fails h) send_failed h

  -- From SEND_RCV_ACK on.
  unfoldable pub serve : FiberElement → List Event → List Event
  serve f h =
      let h = send_byte ptype_rcv_ack h in
      let (err, h') = baa_set_schedule_props os (f ∷ []) h in
      if not (eqb_ℤ err (pos 0))
      then send_byte ptype_error (h' ▷ report schedule_failed)
      else (send_byte ptype_cmd_ack h' ▷ print_configured f.kernel_tid)

  unfoldable pub unpack_and_serve : List ℕ → List Event → Option (List Event)
  unpack_and_serve buf h = do
    u ← baa_unpack buf sched_format sched_pointers
    mem ← run_stores u.stores cleared
    f ← element_of mem
    some (
        if ltb_ℤ (pos baa_max_len_msg) u.result
        then send_byte ptype_error (h ▷ report (message_too_long u.result))
        else serve f h)

  unfoldable pub schedule_server_round : Received → List Event → Option (List Event)
  schedule_server_round failed h = some h
  schedule_server_round (datagram bytes) h = do
    ptype ← get_elem? (fill bytes) 0
    if ptype == ptype_sched_props
        then unpack_and_serve (fill bytes) h
        else some (h ▷ report (ptype_not_supported ptype))

  -- The endless loop, over the answers of recvfrom so far.
  unfoldable pub baa_schedule_server_th : List Received → List Event → Option (List Event)
  baa_schedule_server_th [] h = some h
  baa_schedule_server_th (r ∷ rs) h = schedule_server_round r h >>= baa_schedule_server_th rs
