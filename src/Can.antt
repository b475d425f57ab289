-- ===== src/Can.antt =====
-- src/can_lin.c: CAN sockets and their filters. strtok_r and strtoul are not modelled: the tokens are
-- given as the numbers that strtoul reads.
pub mod Laws
use libbaalue.Prelude.{
  ◌▷◌, ℕ, ◌+◌, ◌%◌, ◌^◌, ◌≤◌, ◌≡◌, refl, Bool, true, false, not, ◌&&◌, ◌||◌, inl, inr, Option, none,
  some, List, [], ◌∷◌, ◌>>=◌, arith, ltb, ◌==◌, if◌then◌else◌, length, bit_or, write, ℤ, pos,
  negsuc, eqb_ℤ, Bool-cases,
}

-- CAN_RAW, CAN_BCM and the flag BIND_TO_ANY_CANIF.
abbrev pub can_raw : ℕ
can_raw = 1

abbrev pub can_bcm : ℕ
can_bcm = 2

abbrev pub bind_to_any_canif : ℕ
bind_to_any_canif = 0x01

-- IFNAMSIZ.
abbrev pub ifnamsiz : ℕ
ifnamsiz = 16

pub data Call : Type 0 where
  socket : ℕ → Call
  ioctl : List ℕ → Call
  bind connect : ℤ → ℕ → Call
  message : Call

-- The answers: the value of socket; the interface's index, if ioctl works; which calls fail.
pub record CanOs : Type 0 where
  pub socket_ret : ℤ
  pub ifindex : Option ℕ
  pub malloc_fails : Bool
  pub bind_fails : Bool

-- The value returned, the interface index of `*addr`, and the calls.
pub record CanSocket : Type 0 where
  pub ret : ℤ
  pub can_ifindex : Option ℕ
  pub calls : List Call

-- The label error.
abbrev pub error_exit : List Call → CanSocket
error_exit h = record { ret = negsuc 0; can_ifindex = none; calls = h ▷ message }

module _ (os : CanOs) where
  -- From malloc on.
  unfoldable pub can_bind : ℕ → ℕ → ℕ → List Call → CanSocket
  can_bind proto flags ifindex h =
      let can_ifindex : ℕ = if flags % 2 == 1 then 0 else ifindex in
      let g =
        if proto == can_raw
        then h ▷ bind os.socket_ret can_ifindex
        else if proto == can_bcm
        then h ▷ connect os.socket_ret can_ifindex
        else h in
      let unbound = if proto == can_raw || proto == can_bcm then os.bind_fails else true in
      if os.malloc_fails
      then error_exit h
      else if unbound
      then error_exit g
      else record { ret = os.socket_ret; can_ifindex = some can_ifindex; calls = g }

  -- `none` is the strncpy past `ifr_name`.
  unfoldable pub can_socket : List ℕ → ℕ → ℕ → Option CanSocket
  unfolding can_bind
  can_socket ifname proto flags =
      let known = proto == can_raw || proto == can_bcm in
      let h = if known then socket proto ∷ [] else [] in
      let fd_s = if known then os.socket_ret else negsuc 0 in
      let i = h ▷ ioctl ifname in
      let bound : CanSocket = elim os.ifindex [
        | none ↦ error_exit i
        | some n ↦ can_bind proto flags n i
      ] in
      if eqb_ℤ fd_s (negsuc 0)
      then some (error_exit h)
      else if ltb ifnamsiz (length ifname + 1)
      then none
      else some bound

  unfoldable pub baa_can_raw_socket : List ℕ → ℕ → Option CanSocket
  unfolding can_socket
  baa_can_raw_socket ifname flags = can_socket ifname can_raw flags

  unfoldable pub baa_can_bcm_socket : List ℕ → ℕ → Option CanSocket
  unfolding can_socket
  baa_can_bcm_socket ifname flags = can_socket ifname can_bcm flags

-- The bits of linux/can/error.h.
unfoldable pub hw_error_mask : ℕ
hw_error_mask = bit_or 0x1 (
    bit_or 0x2
      (bit_or 0x4 (bit_or 0x8 (bit_or 0x10 (bit_or 0x20 (bit_or 0x80 (bit_or 0x40 0x100)))))))

-- The result, and the mask passed to setsockopt.
unfoldable pub baa_set_hw_error_mask : Bool → ℤ × ℕ
unfolding hw_error_mask
baa_set_hw_error_mask fails = (if fails then negsuc 0 else pos 0, hw_error_mask)

-- CAN_EFF_MASK and CAN_SFF_MASK.
abbrev pub eff_bits : ℕ
eff_bits = 29

abbrev pub can_sff_mask : ℕ
can_sff_mask = 0x7ff

pub record CanFilter : Type 0 where
  pub can_id : ℕ
  pub can_mask : ℕ

abbrev pub filter_of : ℕ → CanFilter
filter_of id = record { can_id = id % 2 ^ eff_bits; can_mask = can_sff_mask }

-- The memory behind `filter`: realloc to one element, which keeps the first. What a fresh element
-- holds is given by `fresh`.
abbrev pub realloc_one : CanFilter → List CanFilter → List CanFilter
realloc_one fresh [] = fresh ∷ []
realloc_one fresh (f ∷ more) = f ∷ []

-- The loop over the tokens, from the one numbered `i`, whose realloc may fail. `none` is a write past
-- the memory.
unfoldable pub flist_loop :
    CanFilter → (ℕ → Bool) → List ℕ → ℕ → ℕ → List CanFilter → Option (ℕ × List CanFilter)
flist_loop fresh realloc_fails [] i count filter = some (count, filter)
flist_loop fresh realloc_fails (id ∷ ids) i count filter =
    let skip = flist_loop fresh realloc_fails ids (i + 1) count filter in
    let go_on = flist_loop fresh realloc_fails ids (i + 1) (count + 1) in
    if realloc_fails i
    then skip
    else (write (realloc_one fresh filter) count (filter_of id) >>= λ filter. go_on filter)

-- The result, and the filters that setsockopt gets.
unfoldable pub baa_set_flist :
    CanFilter → (ℕ → Bool) → Bool → Option (List ℕ) → Option (ℤ × List CanFilter)
unfolding flist_loop
baa_set_flist fresh realloc_fails fails none = some (pos 0, [])
baa_set_flist fresh realloc_fails fails (some ids) = do
  (count, filter) ← flist_loop fresh realloc_fails ids 0 0 []
  some (if fails then negsuc 0 else pos 0, filter)
