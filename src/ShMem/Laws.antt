-- ===== src/ShMem/Laws.antt =====
-- What shmem_handle returns.
use libbaalue.Prelude.{
  ℕ, zero, suc, ◌≡◌, ◌≢◌, ◌∙◌, ◌⊎◌, Bool, some, List, [], ◌∷◌, ◌++◌, append_assoc, arith, replicate,
  ◌==◌, if◌then◌else◌, ℤ, pos, negsuc, eqb_ℤ_iff,
}
use libbaalue.ShMem.{
  eintr, eexist, Attempt, Call, shm_open, leave, after_open, open_cmd, shmem_handle,
}

abbrev pub interrupted : Attempt
interrupted = record { ret = negsuc 0; errno = eintr }

-- The error that shmem_handle reports for the errno behind shm_open.
abbrev pub error_of : ℕ → ℤ
error_of e = if e == eexist then pos eexist else negsuc 0

after_open_leaves :
    (fd : ℤ) (e : ℕ)
    → (fd ≢ negsuc 0) ⊎ (e ≢ eintr)
    → after_open (record { ret = fd; errno = e }) ≡ leave (error_of e)
unfolding after_open
after_open_leaves fd e h = ground (arith, eqb_ℤ_iff fd (negsuc 0))

module _ (size : ℕ) (mapped : Bool) (access_mode user_mode : ℕ) (truncs : List Attempt) where
  open_cmd_leaves :
      (n : ℕ) (fd : ℤ) (e : ℕ) (more : List Attempt) (calls : List Call)
      → (fd ≢ negsuc 0) ⊎ (e ≢ eintr)
      → open_cmd size mapped access_mode user_mode
          (replicate n interrupted ++ (record { ret = fd; errno = e }) ∷ more)
          truncs
          calls
        ≡ some (error_of e, calls ++ replicate (suc n) (shm_open access_mode user_mode))
  unfolding open_cmd after_open
  open_cmd_leaves zero fd e more calls h = rw (after_open_leaves fd e h, open_cmd)
  open_cmd_leaves (suc n) fd e more calls h =
      open_cmd_leaves n fd e more (calls ++ shm_open access_mode user_mode ∷ []) h
      ∙ simp append_assoc

  -- After any number of interrupted attempts, the first attempt of shm_open that is not an
  -- interrupted failure ends the call, also when it succeeds: the result is EEXIST if errno holds
  -- that and else -1, no segment is truncated or mapped, and the descriptor is not closed.
  pub shmem_handle_never_maps :
      (n : ℕ) (fd : ℤ) (e : ℕ) (more : List Attempt)
      → (fd ≢ negsuc 0) ⊎ (e ≢ eintr)
      → shmem_handle size mapped access_mode user_mode
          (replicate n interrupted ++ (record { ret = fd; errno = e }) ∷ more)
          truncs
        ≡ some (error_of e, replicate (suc n) (shm_open access_mode user_mode))
  unfolding shmem_handle
  shmem_handle_never_maps n fd e more h = open_cmd_leaves n fd e more [] h
