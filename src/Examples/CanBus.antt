-- ===== src/Examples/CanBus.antt =====
-- What examples/can_send.c and examples/can_recv.c have in common: the thread for error frames.
pub mod Send
pub mod Recv
pub mod Traffic
use libbaalue.Prelude.{
  ℕ, zero, suc, ◌+◌, ◌/◌, ◌%◌, ◌^◌, Bool, true, false, Option, none, some, List, [], ◌∷◌, ◌==◌,
  if◌then◌else◌, get_elem?, ℤ, pos, negsuc, eqb_ℤ,
}
use libbaalue.Can
use libbaalue.Can.{
  CanOs, CanSocket, CanFilter, baa_can_raw_socket, baa_set_hw_error_mask, can_sff_mask,
}
use libbaalue.Examples.Program.{
  Event, message, can, can_filter, error_mask, frame_info, byte_info, CanFrame, Run, waits, faults,
  goes_on, ◌>>=◌, ◌>>◌, nothing, emit, when,
}

-- CAN_ERR_FLAG is bit 29.
abbrev pub is_error : ℕ → Bool
is_error can_id = can_id / 2 ^ 29 % 2 == 1

-- The loop over the data bytes: index `i` and `n - 1` more; a read past the array faults.
unfoldable pub data_loop : List ℕ → ℕ → ℕ → Run (Unit {0})
data_loop bytes zero i = nothing
data_loop bytes (suc n) i =
    let rest = data_loop bytes n (i + 1) in
    elim (get_elem? bytes i) [ none ↦ faults [] | some b ↦ (do emit (byte_info i b); rest) ]

-- The identifier, the length and the data of a frame.
unfoldable pub show_frame : CanFrame → Run (Unit {0})
unfolding data_loop
show_frame f = do emit (frame_info f.can_id f.can_dlc); data_loop f.bytes f.can_dlc 0

-- A result of read on a CAN socket: an error, or so many bytes, with the frame and whether ioctl
-- fails for its time.
pub data FrameRead : Type 0 where
  failed : FrameRead
  frame : ℕ → CanFrame → Bool → FrameRead

-- The endless loop of print_error_frames.
unfoldable pub error_loop : List FrameRead → Run (Unit {0})
unfolding show_frame
error_loop [] = waits []
error_loop (failed ∷ reads) = do emit message; error_loop reads
error_loop (frame n f no_stamp ∷ reads) = do
  when no_stamp (emit message)
  if is_error f.can_id then (do emit message; show_frame f) else emit message
  error_loop reads

-- Behind baa_can_raw_socket; the result of setsockopt for the filter is not looked at.
unfoldable pub error_frames_on : CanSocket → Bool → List FrameRead → Run (Unit {0})
unfolding error_loop baa_set_hw_error_mask
error_frames_on s mask_fails reads =
    let (err, mask) = baa_set_hw_error_mask mask_fails in
    let with_mask = if eqb_ℤ err (negsuc 0) then emit message else error_loop reads in
    let filters = can_filter (record { can_id = 0; can_mask = can_sff_mask } ∷ []) in
    let run = goes_on tt (filters ∷ error_mask mask ∷ []) >> with_mask in
    emit (can s.calls) >> (if eqb_ℤ s.ret (negsuc 0) then emit message else run)

-- The thread of the sender; `mask_fails` is the result of setsockopt for the error mask.
unfoldable pub print_error_frames : CanOs → List ℕ → Bool → List FrameRead → Run (Unit {0})
unfolding error_frames_on baa_can_raw_socket
print_error_frames os ifname mask_fails reads = elim (baa_can_raw_socket os ifname 0) [
  | none ↦ faults []
  | some s ↦ error_frames_on s mask_fails reads
]
