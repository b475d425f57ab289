-- ===== src/Helper/PidFile.antt =====
-- baa_create_file_with_pid, baa_lock_region and baa_set_cloexec of src/helper.c, and baa_wrap_close of
-- src/wrapper.c. The answers of the system calls are given.
use libbaalue.Prelude.{
  ◌▷◌, ℕ, ◌+◌, ◌-◌, ◌≡◌, refl, ◌∙◌, Bool, true, false, not, Option, none, some, List, [], ◌∷◌, ◌++◌,
  append_assoc, arith, if◌then◌else◌, length, take, take_all, replicate, ◌≤◌, suc, zero, ==_refl,
  bit_or, ℤ, pos, negsuc, eqb_ℤ, ◌==◌,
}
use libbaalue.Protocol.{baa_maxline}

abbrev pub enoent : ℕ
enoent = 2

abbrev pub eintr : ℕ
eintr = 4

-- A call that is repeated while a signal interrupts it.
pub data Attempt : Type 0 where
  interrupted failed works : Attempt

pub data Call : Type 0 where
  unlink open_file : List ℕ → Call
  malloc : ℕ → Call
  free : Call
  lock ftruncate : ℤ → Call
  write : ℤ → List ℕ → Call
  close : ℤ → Call
  close_failed : Call

-- What is left: a path or NULL; or a loop that never ends.
pub data Outcome : Type 0 where
  returned : Option (List ℕ) → List Call → Outcome
  hangs : List Call → Outcome

-- From the label close_cmd on, over the attempts; `none` means that all were interrupted.
unfoldable pub baa_wrap_close : List Attempt → ℤ → List Call → Option (List Call)
baa_wrap_close [] fd h = none
baa_wrap_close (interrupted ∷ more) fd h = baa_wrap_close more fd (h ▷ close fd)
baa_wrap_close (failed ∷ more) fd h = some (h ▷ close fd ▷ close_failed)
baa_wrap_close (works ∷ more) fd h = some (h ▷ close fd)

-- The value of fcntl.
unfoldable pub baa_lock_region : ℤ → ℤ → List Call → ℤ × List Call
baa_lock_region ret fd h = (ret, h ▷ lock fd)

-- `F_GETFD` gives `flags` or fails, `F_SETFD` fails or not; the flags that are set, and the result.
unfoldable pub baa_set_cloexec : Option ℕ → Bool → ℤ × Option ℕ
baa_set_cloexec none fails = (negsuc 0, none)
baa_set_cloexec (some flags) fails = (if fails then negsuc 0 else pos 0, some (bit_or flags 1))

-- The answers: errno of a failing unlink, the value of open and the errno behind it, whether malloc
-- works, the value of fcntl, the attempts of ftruncate and close, the text of getpid, what write gives.
pub record PidOs : Type 0 where
  pub unlink_errno : Option ℕ
  pub open_ret : ℤ
  pub open_errno : ℕ
  pub malloc_fails : Bool
  pub lock_ret : ℤ
  pub truncs : List Attempt
  pub closes : List Attempt
  pub pid : List ℕ
  pub written : ℤ

-- The label error, with a name in `pid_file`.
unfoldable pub error_exit : ℤ → List Call → Outcome
error_exit fd h = returned none (h ▷ free ▷ close fd)

module _ (os : PidOs) where
  -- Behind ftruncate.
  unfoldable pub write_pid : List ℕ → List Call → Option Outcome
  unfolding error_exit baa_wrap_close
  write_pid pid_file h =
      let str = take (baa_maxline - 1) (os.pid ++ 10 ∷ []) in
      let h = h ▷ write os.open_ret str in
      let closed : Option Outcome = elim (baa_wrap_close os.closes os.open_ret h) [
        | none ↦ none
        | some h ↦ some (returned (some pid_file) h)
      ] in
      if not (eqb_ℤ os.written (pos (length (os.pid ++ 10 ∷ []))))
      then some (error_exit os.open_ret h)
      else closed

  -- From the label ftruncate_cmd on; `none` means that all attempts were interrupted.
  unfoldable pub ftruncate_cmd : List Attempt → List ℕ → List Call → Option Outcome
  unfolding write_pid
  ftruncate_cmd [] pid_file h = none
  ftruncate_cmd (interrupted ∷ more) pid_file h =
      ftruncate_cmd more pid_file (h ▷ ftruncate os.open_ret)
  ftruncate_cmd (failed ∷ more) pid_file h =
      some (error_exit os.open_ret (h ▷ ftruncate os.open_ret))
  ftruncate_cmd (works ∷ more) pid_file h = write_pid pid_file (h ▷ ftruncate os.open_ret)

  -- From malloc on; `n` is what snprintf returned.
  unfoldable pub lock_and_write : List ℕ → ℕ → List Call → Option Outcome
  unfolding ftruncate_cmd baa_lock_region
  lock_and_write str n h =
      let h = h ▷ malloc (n + 1) in
      let (ret, g) = baa_lock_region os.lock_ret os.open_ret h in
      if os.malloc_fails
      then some (returned none (h ▷ close os.open_ret))
      else if eqb_ℤ ret (negsuc 0)
      then some (error_exit os.open_ret g)
      else ftruncate_cmd os.truncs (take n str) g

  abbrev pub unlink_denied : Option ℕ → Bool
  unlink_denied none = false
  unlink_denied (some e) = not (e == enoent)

  -- The label open_cmd stands behind open, so that a jump to it tests the same value again.
  unfoldable pub baa_create_file_with_pid : Option (List ℕ) → Option (List ℕ) → Option Outcome
  unfolding lock_and_write
  baa_create_file_with_pid none dir = some (returned none [])
  baa_create_file_with_pid (some name) none = some (returned none [])
  baa_create_file_with_pid (some name) (some dir) =
      let full = dir ++ b'/' ∷ name ++ b'.' ∷ b'p' ∷ b'i' ∷ b'd' ∷ [] in
      let str = take (baa_maxline - 1) full in
      let h = unlink str ∷ [] in
      let g = h ▷ open_file str in
      if unlink_denied os.unlink_errno
      then some (returned none h)
      else if eqb_ℤ os.open_ret (negsuc 0)
      then some (if os.open_errno == eintr then hangs g else returned none g)
      else lock_and_write str (length full) g

module _ (os : PidOs) where
  closed_at_last :
      (j : ℕ) (rest : List Attempt) (fd : ℤ) (h : List Call)
      → baa_wrap_close (replicate j interrupted ++ works ∷ rest) fd h
        ≡ some (h ++ replicate (suc j) (close fd))
  unfolding baa_wrap_close
  closed_at_last zero rest fd h = refl
  closed_at_last (suc j) rest fd h = closed_at_last j rest fd (h ▷ close fd) ∙ simp append_assoc

  truncated_at_last :
      (k : ℕ) (rest : List Attempt) (pid_file : List ℕ) (h : List Call)
      → ftruncate_cmd os (replicate k interrupted ++ works ∷ rest) pid_file h
        ≡ write_pid os pid_file (h ++ replicate (suc k) (ftruncate os.open_ret))
  unfolding ftruncate_cmd
  truncated_at_last zero rest pid_file h = refl
  truncated_at_last (suc k) rest pid_file h =
      truncated_at_last k rest pid_file (h ▷ ftruncate os.open_ret) ∙ simp append_assoc

-- The calls of a run that makes the file: a repeated ftruncate and close, as often as a signal
-- interrupts them.
abbrev pub pid_calls : List ℕ → List ℕ → ℤ → (k j : ℕ) → List Call
pid_calls path text fd k j =
    (unlink path ∷ open_file path ∷ malloc (length path + 1) ∷ lock fd ∷ [])
    ++ replicate (suc k) (ftruncate fd)
    ++ write fd text ∷ replicate (suc j) (close fd)

-- "dir/name.pid".
abbrev pub pid_path : List ℕ → List ℕ → List ℕ
pid_path name dir = dir ++ b'/' ∷ name ++ b'.' ∷ b'p' ∷ b'i' ∷ b'd' ∷ []

-- When unlink, open, malloc, the lock and write work, and ftruncate and close after `k` and `j`
-- interrupted attempts, baa_create_file_with_pid returns the path "dir/name.pid" of at most 253
-- bytes. It has written the process's number and a newline once, behind the lock and the
-- truncation, and closed the file after that.
pub baa_create_file_with_pid_lem :
    (os : PidOs) (name dir : List ℕ) (k j : ℕ) (truncs closes : List Attempt)
    → length (pid_path name dir) ≤ 253
    → length (os.pid ++ 10 ∷ []) ≤ 253
    → unlink_denied os os.unlink_errno ≡ false
    → eqb_ℤ os.open_ret (negsuc 0) ≡ false
    → os.malloc_fails ≡ false
    → eqb_ℤ os.lock_ret (negsuc 0) ≡ false
    → os.truncs ≡ replicate k interrupted ++ works ∷ truncs
    → os.closes ≡ replicate j interrupted ++ works ∷ closes
    → os.written ≡ pos (length (os.pid ++ 10 ∷ []))
    → baa_create_file_with_pid os (some name) (some dir)
      ≡ some (
          returned
            (some (pid_path name dir))
            (pid_calls (pid_path name dir) (os.pid ++ 10 ∷ []) os.open_ret k j))
unfolding baa_create_file_with_pid lock_and_write write_pid
baa_create_file_with_pid_lem os name dir k j truncs closes short text unlinked opened alloc locked
      ts cs wr =
    let path : List ℕ = pid_path name dir in
    let cut : take 253 path ≡ path = take_all path 253 short in
    let whole : take (length path) path ≡ path = take_all path (length path) (omega arith) in
    let line : take 253 (os.pid ++ 10 ∷ []) ≡ os.pid ++ 10 ∷ [] =
      take_all (os.pid ++ 10 ∷ []) 253 text in
    let all : eqb_ℤ os.written (pos (length (os.pid ++ 10 ∷ []))) ≡ true = rw wr (==_refl _) in
    rw
      (
        unlinked,
        opened,
        cut,
        whole,
        alloc,
        locked,
        ts,
        truncated_at_last os k truncs path,
        line,
        all,
        cs,
        closed_at_last os j closes,
      )
      (simp append_assoc)
