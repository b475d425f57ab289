-- ===== src/ShMem.antt =====
-- src/sh_mem.c: shared memory segments. The results of shm_open, ftruncate and mmap are
-- parameters: each attempt gives its return value and the errno after it.
pub mod Laws
use libbaalue.Prelude.{
  ℕ, zero, suc, ◌+◌, Bool, true, false, ◌&&◌, Option, none, some, List, [], ◌∷◌, ◌++◌, ◌==◌,
  if◌then◌else◌, ℤ, pos, negsuc, eqb_ℤ, bit_or,
}

-- errno values and flags of Linux.
abbrev pub eintr : ℕ
eintr = 4

abbrev pub eexist : ℕ
eexist = 17

abbrev pub o_rdwr : ℕ
o_rdwr = 0o2

abbrev pub o_creat : ℕ
o_creat = 0o100

abbrev pub o_excl : ℕ
o_excl = 0o200

abbrev pub o_cloexec : ℕ
o_cloexec = 0o2000000

abbrev pub rw_r : ℕ
rw_r = 0o664

pub record Attempt : Type 0 where
  pub ret : ℤ
  pub errno : ℕ

-- The system calls made, in order, with the values that matter.
pub data Call : Type 0 where
  shm_open : ℕ → ℕ → Call
  ftruncate : ℤ → ℕ → Call
  mmap : ℤ → ℕ → Call
  close : ℤ → Call
  shm_unlink : Call

-- Where control goes after a test: back to the label, out of the function, or on.
pub data Flow : Type 0 where
  again go_on : Flow
  leave : ℤ → Flow

-- The `if` behind shm_open.
unfoldable pub after_open : Attempt → Flow
after_open a =
    if eqb_ℤ a.ret (negsuc 0) && a.errno == eintr
    then again
    else if a.errno == eexist
    then leave (pos eexist)
    else leave (negsuc 0)

-- The `if` behind ftruncate.
unfoldable pub after_truncate : Attempt → Flow
after_truncate a = if eqb_ℤ a.ret (negsuc 0) && a.errno == eintr then again else leave (negsuc 0)

-- The value returned, and the calls made.
abbrev pub Outcome : Type 0
Outcome = ℤ × List Call

module _ (size : ℕ) (mapped : Bool) where
  -- From mmap on: `mapped` is whether it succeeds.
  unfoldable pub map_segment : ℤ → List Call → Outcome
  map_segment fd calls =
      let calls = calls ++ mmap fd size ∷ [] in
      if mapped then (fd, calls) else (negsuc 0, calls ++ close fd ∷ [])

  -- From the label ftruncate_cmd on; `none` means that every attempt was interrupted.
  unfoldable pub ftruncate_cmd : List Attempt → ℤ → List Call → Option Outcome
  ftruncate_cmd [] fd calls = none
  ftruncate_cmd (a ∷ more) fd calls =
      let calls = calls ++ ftruncate fd size ∷ [] in
      let retry = ftruncate_cmd more fd calls in
      elim (after_truncate a) [
        | again ↦ retry
        | go_on ↦ some (map_segment fd calls)
        | leave r ↦ some (r, calls)
      ]

  -- From the label open_cmd on.
  unfoldable pub open_cmd :
      (access_mode user_mode : ℕ) → List Attempt → List Attempt → List Call → Option Outcome
  open_cmd access_mode user_mode [] truncs calls = none
  open_cmd access_mode user_mode (a ∷ more) truncs calls =
      let calls = calls ++ shm_open access_mode user_mode ∷ [] in
      let retry = open_cmd access_mode user_mode more truncs calls in
      elim (after_open a) [
        | again ↦ retry
        | go_on ↦ ftruncate_cmd truncs a.ret calls
        | leave r ↦ some (r, calls)
      ]

  unfoldable pub shmem_handle :
      (access_mode user_mode : ℕ) → List Attempt → List Attempt → Option Outcome
  unfolding open_cmd ftruncate_cmd map_segment after_open after_truncate
  shmem_handle access_mode user_mode opens truncs = open_cmd access_mode user_mode opens truncs []

  unfoldable pub baa_shmem_server : List Attempt → List Attempt → Option Outcome
  baa_shmem_server = shmem_handle (bit_or (bit_or (bit_or o_rdwr o_creat) o_excl) o_cloexec) rw_r

  unfoldable pub baa_shmem_client : List Attempt → List Attempt → Option Outcome
  baa_shmem_client = shmem_handle (bit_or o_rdwr o_cloexec) rw_r

-- The message for a failing shm_unlink is the only other effect; the result says if it is printed.
unfoldable pub baa_unlink_mmap_seg : ℤ → Bool × List Call
baa_unlink_mmap_seg ret = (eqb_ℤ ret (negsuc 0), shm_unlink ∷ [])
