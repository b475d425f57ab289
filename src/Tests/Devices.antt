-- ===== src/Tests/Devices.antt =====
-- Tests of DeviceMgmt and ShMem: src/device_mgmt.c and src/sh_mem.c.
use libbaalue.Prelude.{
  ◌≡◌, refl, inl, Bool, true, false, some, List, [], ◌∷◌, arith, replicate, pos, negsuc,
}
use libbaalue.DeviceMgmt.{
  message, Event, send, send_failed, system, not_supported, device_mgmt_round, handle, send_rcv_ack,
  baa_device_mgmt_th, baa_halt,
}
use libbaalue.ShMem.{shm_open, shmem_handle}
use libbaalue.ShMem.Laws.{interrupted, shmem_handle_never_maps}

abbrev never : List Event → Bool
never h = false

abbrev always : List Event → Bool
always h = true

halt_run :
    baa_device_mgmt_th always (message (2 ∷ 7 ∷ []) ∷ message (9 ∷ []) ∷ []) []
    ≡ some (send 255 ∷ send_failed ∷ system "init 0" ∷ not_supported 9 ∷ [])
unfolding baa_device_mgmt_th device_mgmt_round handle send_rcv_ack baa_halt
halt_run = refl

-- shm_open is interrupted twice and then gives descriptor 5.
shmem_handle_never_maps_example :
    shmem_handle 64 true 2 0o664
      (interrupted ∷ interrupted ∷ (record { ret = pos 5; errno = 0 }) ∷ [])
      []
    ≡ some (negsuc 0, replicate 3 (shm_open 2 0o664))
shmem_handle_never_maps_example =
    shmem_handle_never_maps 64 true 2 0o664 [] 2 (pos 5) 0 [] (inl (ground (arith)))
