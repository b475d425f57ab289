-- ===== src/DeviceMgmt.antt =====
-- src/device_mgmt.c: the one-byte commands of a client, and the server that obeys them.
pub mod Laws
use Prim.Native.String.{String}
use libbaalue.Prelude.{
  ◌▷◌, ℕ, ◌+◌, ◌-◌, Bool, true, false, ◌||◌, not, Option, none, some, List, [], ◌∷◌, ◌++◌, ◌>>=◌,
  ◌==◌, if◌then◌else◌, length, take, replicate, get_elem?, ℤ, pos, negsuc, eqb_ℤ,
}
use libbaalue.Protocol.{
  baa_max_len_msg, ptype_device_mgmt, ptype_device_mgmt_halt, ptype_device_mgmt_reboot,
  ptype_device_mgmt_ping, ptype_error, ptype_reset, ptype_rcv_ack,
}

-- What recv or recvfrom gives: an error, or the bytes of a message.
pub data Received : Type 0 where
  failed : Received
  message : List ℕ → Received

-- `ptype_rcv`, which starts as 0, after recv of one byte.
abbrev pub first_byte : List ℕ → ℕ
first_byte [] = 0x00
first_byte (b ∷ bytes) = b

-- The switch of simple_device_cmd.
abbrev check_answer : ℕ → ℤ
check_answer p =
    if p == ptype_error || p == ptype_reset
    then negsuc 0
    else if p == ptype_rcv_ack
    then pos 0
    else negsuc 0

-- The answer `n` of send to the byte `cmd`, and what recv gives. The value returned, and the bytes
-- given to send.
unfoldable pub simple_device_cmd : ℤ → Received → ℕ → ℤ × List ℕ
simple_device_cmd n r cmd =
    let answer : ℤ = elim r [
      | failed ↦ negsuc 0
      | message bytes ↦ check_answer (first_byte bytes)
    ] in
    (if not (eqb_ℤ n (pos 1)) then negsuc 0 else answer, cmd ∷ [])

unfoldable pub baa_reboot_device : ℤ → Received → ℤ × List ℕ
unfolding simple_device_cmd
baa_reboot_device n r = simple_device_cmd n r ptype_device_mgmt_reboot

unfoldable pub baa_halt_device : ℤ → Received → ℤ × List ℕ
unfolding simple_device_cmd
baa_halt_device n r = simple_device_cmd n r ptype_device_mgmt_halt

unfoldable pub baa_ping_device : ℤ → Received → ℤ × List ℕ
unfolding simple_device_cmd
baa_ping_device n r = simple_device_cmd n r ptype_device_mgmt_ping

-- What the server does, in order.
pub data Event : Type 0 where
  send : ℕ → Event
  send_failed : Event
  system : String → Event
  not_supported : ℕ → Event

unfoldable pub baa_reboot : List Event → List Event
baa_reboot h = h ▷ system "init 6"

unfoldable pub baa_halt : List Event → List Event
baa_halt h = h ▷ system "init 0"

-- The cleared buffer after a message, of which recvfrom keeps what fits.
abbrev pub fill : List ℕ → List ℕ
fill bytes =
    let kept = take baa_max_len_msg bytes in kept ++ replicate (baa_max_len_msg - length kept) 0

-- `sendto_fails` answers on all that happened, with the send as the last.
module _ (sendto_fails : List Event → Bool) where
  -- SEND_RCV_ACK.
  unfoldable pub send_rcv_ack : List Event → List Event
  send_rcv_ack h = let h = h ▷ send ptype_rcv_ack in if sendto_fails h then h ▷ send_failed else h

  -- The switch on `buf[0]`.
  unfoldable pub handle : ℕ → List Event → List Event
  unfolding baa_reboot baa_halt
  handle b h =
      if b == ptype_device_mgmt
      then send_rcv_ack h
      else if b == ptype_device_mgmt_halt
      then baa_halt (send_rcv_ack h)
      else if b == ptype_device_mgmt_reboot
      then baa_reboot (send_rcv_ack h)
      else if b == ptype_device_mgmt_ping
      then send_rcv_ack h
      else h ▷ not_supported b

  unfoldable pub device_mgmt_round : Received → List Event → Option (List Event)
  unfolding handle
  device_mgmt_round failed h = some h
  device_mgmt_round (message bytes) h = do b ← get_elem? (fill bytes) 0; some (handle b h)

  -- The endless loop, over the answers of recvfrom so far.
  unfoldable pub baa_device_mgmt_th : List Received → List Event → Option (List Event)
  unfolding device_mgmt_round
  baa_device_mgmt_th [] h = some h
  baa_device_mgmt_th (r ∷ rs) h = device_mgmt_round r h >>= baa_device_mgmt_th rs
