-- ===== src/Tests/System.antt =====
-- Tests of Process, Fiber.Threads, Helper.PidFile and Helper.Names: src/process.c, src/fiber.c and
-- src/helper.c.
use libbaalue.Prelude.{
  true, ℕ, ◌+◌, ◌-◌, ◌≡◌, ◌↔◌, refl, false, Option, some, List, [], ◌∷◌, ◌++◌, arith, ltb,
  if◌then◌else◌, ◌==◌, ℤ, pos, negsuc,
}
use libbaalue.Fiber.{Timespec}
use libbaalue.Fiber.Time.{timespec}
use libbaalue.Helper.PidFile.{
  interrupted, works, PidOs, returned, hangs, unlink, open_file, baa_create_file_with_pid, pid_path,
  pid_calls, baa_create_file_with_pid_lem, eintr,
}
use libbaalue.Helper.System.{
  DaemonOs, returns, becomes, closed, baa_become_daemon, baa_become_daemon_iff,
}
use libbaalue.Helper.Names.{baa_set_program_name, baa_strlwr, baa_strupr}

-- A slice of 2.1 seconds is reported as 100 milliseconds.
abbrev long_slice : ℤ → Option Timespec
long_slice pid = some (timespec (pos 2) (pos 100_000_000))

abbrev all_good : ℕ → ℕ
all_good i = 0

-- The third call gives EAGAIN.
abbrev third_fails : ℕ → ℕ
third_fails i = if i == 2 then 11 else 0

abbrev pub pid_os : PidOs
pid_os = record {
  unlink_errno = some 2;
  open_ret = pos 3;
  open_errno = 0;
  malloc_fails = false;
  lock_ret = pos 0;
  truncs = interrupted ∷ works ∷ [];
  closes = works ∷ [];
  pid = b'4' ∷ b'2' ∷ [];
  written = pos 3;
}

abbrev pub prog : List ℕ
prog = b'p' ∷ []

abbrev run_dir : List ℕ
run_dir = b'/' ∷ b'r' ∷ []

baa_create_file_with_pid_lem_example :
    baa_create_file_with_pid pid_os (some prog) (some run_dir)
    ≡ some (
        returned
          (some (pid_path prog run_dir))
          (pid_calls (pid_path prog run_dir) (b'4' ∷ b'2' ∷ 10 ∷ []) (pos 3) 1 0))
baa_create_file_with_pid_lem_example =
    baa_create_file_with_pid_lem pid_os prog run_dir 1 0 [] [] (omega arith) (omega arith) refl refl
      refl refl refl refl refl

-- An interrupted open is tested again and again.
interrupted_open :
    baa_create_file_with_pid
      (record pid_os { open_ret = negsuc 0; open_errno = eintr })
      (some prog)
      (some run_dir)
    ≡ some (hangs (unlink (pid_path prog run_dir) ∷ open_file (pid_path prog run_dir) ∷ []))
unfolding baa_create_file_with_pid
interrupted_open = refl

program_names :
    (baa_set_program_name (some (run_dir ++ b'/' ∷ prog)) ≡ prog)
    × (baa_set_program_name (some prog) ≡ prog)
unfolding baa_set_program_name
program_names = (refl, refl)

abbrev lower : ℕ → ℕ
lower b = if ltb 64 b then b + 32 else b

abbrev upper : ℕ → ℕ
upper b = if ltb 96 b then b - 32 else b

both_cases :
    (baa_strlwr lower (65 ∷ 66 ∷ 0 ∷ 67 ∷ []) ≡ some (97 ∷ 98 ∷ 0 ∷ 67 ∷ []))
    × (baa_strupr upper (65 ∷ 66 ∷ 0 ∷ 67 ∷ []) ≡ some (65 ∷ 66 ∷ 0 ∷ 67 ∷ []))
unfolding baa_strlwr baa_strupr
both_cases = (refl, refl)

abbrev pub daemon_os : DaemonOs
daemon_os = record {
  fork1 = pos 0;
  fork2 = pos 0;
  setsid_fails = false;
  chdir_fails = false;
  open_max = pos 3;
  fd0 = pos 0;
  fd1 = pos 1;
  fd2 = pos 2;
}

baa_become_daemon_iff_example :
    (((baa_become_daemon daemon_os).0 ≡ returns (pos 0)) ↔ (becomes daemon_os ≡ true))
    × (closed (baa_become_daemon daemon_os).1 ≡ 0 ∷ 1 ∷ 2 ∷ [])
baa_become_daemon_iff_example = baa_become_daemon_iff daemon_os
