-- ===== src/Helper/System.antt =====
-- The rest of src/helper.c: signals, the daemon, named semaphores, capabilities and the tests of the
-- kernel. The answers of the system calls are given.
use libbaalue.Prelude.{
  ℕ, zero, suc, ◌+◌, ◌≡◌, ◌↔◌, refl, Bool, true, false, not, ◌&&◌, Option, none, some, List, [],
  ◌∷◌, ◌++◌, append-nil, if◌then◌else◌, ◌==◌, ℤ, pos, negsuc, pos_part, eqb_ℤ, eqb_ℤ_iff,
  Bool-cases, inl, inr,
}

abbrev pub sigalrm : ℕ
sigalrm = 14

abbrev pub sa_restart : ℕ
sa_restart = 0x10000000

-- sigaction is called with the handler and the flags; it gives the old handler or fails. The result
-- is the handler returned, `none` for SIG_ERR, and the flags.
unfoldable pub baa_signal : {H : Type 0} → Option H → ℕ → Option H × ℕ
baa_signal old signo = (old, if signo == sigalrm then 0 else sa_restart)

abbrev pub eexist : ℕ
eexist = 17

-- The errno of a failing sem_open.
unfoldable pub baa_create_psem : Option ℕ → ℤ
baa_create_psem none = pos 0
baa_create_psem (some e) = if e == eexist then pos eexist else negsuc 0

unfoldable pub baa_open_psem : Bool → ℤ
baa_open_psem fails = if fails then pos 1 else pos 0

-- Whether a message is printed.
unfoldable pub baa_unlink_psem : ℤ → Bool
baa_unlink_psem ret = eqb_ℤ ret (negsuc 0)

unfoldable pub baa_close_psem : ℤ → Bool
baa_close_psem ret = eqb_ℤ ret (negsuc 0)

-- The messages of baa_check_for_rtpreempt.
pub data Kernel : Type 0 where
  no_preempt preempt rt_preempt : Kernel

-- Whether uname's version contains "PREEMPT"; the file /sys/kernel/realtime, if it opens, with
-- the number that fscanf reads, if it reads one.
unfoldable pub baa_check_for_rtpreempt : Bool → Option (Option ℤ) → Bool × Kernel
baa_check_for_rtpreempt false realtime = (false, no_preempt)
baa_check_for_rtpreempt true none = (true, preempt)
baa_check_for_rtpreempt true (some none) = (true, preempt)
baa_check_for_rtpreempt true (some (some flag)) =
    (true, if eqb_ℤ flag (pos 1) then rt_preempt else preempt)

-- The value of capng_update, and whether capng_apply is called.
unfoldable pub baa_drop_capability : ℤ → ℤ × Bool
baa_drop_capability ret = if not (eqb_ℤ ret (pos 0)) then (negsuc 0, false) else (pos 0, true)

pub data Call : Type 0 where
  fork setsid ignore_sighup chdir message : Call
  close : ℕ → Call
  open_null : Bool → Call

pub data End : Type 0 where
  exits : End
  returns : ℤ → End

-- The answers: both forks, setsid, chdir, sysconf, and the three descriptors of open.
pub record DaemonOs : Type 0 where
  pub fork1 : ℤ
  pub fork2 : ℤ
  pub setsid_fails : Bool
  pub chdir_fails : Bool
  pub open_max : ℤ
  pub fd0 : ℤ
  pub fd1 : ℤ
  pub fd2 : ℤ

-- The loop over the descriptors: `i` and `n - 1` more.
unfoldable pub close_loop : ℕ → ℕ → List Call
close_loop zero i = []
close_loop (suc n) i = close i ∷ close_loop n (i + 1)

abbrev pub max_fd : ℤ → ℤ
max_fd n = if eqb_ℤ n (negsuc 0) then pos 64 else n

-- Behind the second fork, in the child.
unfoldable pub daemon_rest : DaemonOs → List Call → End × List Call
unfolding close_loop
daemon_rest os h =
    let h = h ++ chdir ∷ [] in
    let g =
      h
      ++ close_loop (pos_part (max_fd os.open_max)) 0
      ++ open_null false ∷ open_null true ∷ open_null true ∷ [] in
    let standard = eqb_ℤ os.fd0 (pos 0) && eqb_ℤ os.fd1 (pos 1) && eqb_ℤ os.fd2 (pos 2) in
    if os.chdir_fails
    then (returns (negsuc 0), h ++ message ∷ [])
    else (returns (pos 0), if standard then g else g ++ message ∷ [])

-- The process that goes on is the child of both forks; the others exit.
unfoldable pub baa_become_daemon : DaemonOs → End × List Call
unfolding daemon_rest
baa_become_daemon os =
    let s : List Call = if os.setsid_fails then message ∷ [] else [] in
    let h = (fork ∷ setsid ∷ s) ++ ignore_sighup ∷ fork ∷ [] in
    if eqb_ℤ os.fork1 (negsuc 0)
    then (returns (negsuc 0), fork ∷ message ∷ [])
    else if not (eqb_ℤ os.fork1 (pos 0))
    then (exits, fork ∷ [])
    else if eqb_ℤ os.fork2 (negsuc 0)
    then (returns (negsuc 0), h ++ message ∷ [])
    else if not (eqb_ℤ os.fork2 (pos 0))
    then (exits, h)
    else daemon_rest os h

-- The descriptors that are closed.
abbrev pub closed : List Call → List ℕ
closed [] = []
closed (fork ∷ h) = closed h
closed (setsid ∷ h) = closed h
closed (ignore_sighup ∷ h) = closed h
closed (chdir ∷ h) = closed h
closed (message ∷ h) = closed h
closed (close i ∷ h) = i ∷ closed h
closed (open_null w ∷ h) = closed h

closed-append : (g h : List Call) → closed (g ++ h) ≡ closed g ++ closed h
closed-append [] h = refl
closed-append (fork ∷ g) h = closed-append g h
closed-append (setsid ∷ g) h = closed-append g h
closed-append (ignore_sighup ∷ g) h = closed-append g h
closed-append (chdir ∷ g) h = closed-append g h
closed-append (message ∷ g) h = closed-append g h
closed-append (close i ∷ g) h = rw (closed-append g h)
closed-append (open_null w ∷ g) h = closed-append g h

-- `n` numbers from `i` on.
abbrev pub numbers : ℕ → ℕ → List ℕ
numbers zero i = []
numbers (suc n) i = i ∷ numbers n (i + 1)

closed-close_loop : (n i : ℕ) → closed (close_loop n i) ≡ numbers n i
unfolding close_loop
closed-close_loop zero i = refl
closed-close_loop (suc n) i = rw (closed-close_loop n (i + 1))

closed-noted : (b : Bool) → closed (if b then message ∷ [] else []) ≡ []
closed-noted true = refl
closed-noted false = refl

closed-last : (b : Bool) (h : List Call) → closed (if b then h else h ++ message ∷ []) ≡ closed h
closed-last true h = refl
closed-last false h = rw (closed-append, append-nil)

ruleset close_laws = (closed-append, closed-close_loop, closed-noted, closed-last, append-nil)

abbrev pub becomes : DaemonOs → Bool
becomes os = eqb_ℤ os.fork1 (pos 0) && eqb_ℤ os.fork2 (pos 0) && not os.chdir_fails

failed-zero : (z : ℤ) → eqb_ℤ z (negsuc 0) ≡ true → eqb_ℤ z (pos 0) ≡ false
failed-zero z h = let e = (eqb_ℤ_iff z (negsuc 0)).0 h in rw e

-- baa_become_daemon returns 0 exactly in the child of both forks, and when chdir works; then, and
-- only then, descriptors are closed: those below the limit of sysconf, or below 64 when there is none.
pub baa_become_daemon_iff :
    (os : DaemonOs)
    → let o = baa_become_daemon os in
      ((o.0 ≡ returns (pos 0)) ↔ (becomes os ≡ true))
      × (closed o.1 ≡ (if becomes os then numbers (pos_part (max_fd os.open_max)) 0 else []))
unfolding baa_become_daemon daemon_rest
baa_become_daemon_iff os = elim (Bool-cases (eqb_ℤ os.fork1 (negsuc 0))) [
  | inl a ↦ rw (a, failed-zero os.fork1 a) ((λ e. cc, λ e. cc), refl)
  | inr a ↦ elim (Bool-cases (eqb_ℤ os.fork1 (pos 0))) [
    | inr b ↦ rw (a, b) ((λ e. cc, λ e. cc), refl)
    | inl b ↦ elim (Bool-cases (eqb_ℤ os.fork2 (negsuc 0))) [
      | inl c ↦ rw (a, b, c, failed-zero os.fork2 c) ((λ e. cc, λ e. cc), simp close_laws)
      | inr c ↦ elim (Bool-cases (eqb_ℤ os.fork2 (pos 0))) [
        | inr d ↦ rw (a, b, c, d) ((λ e. cc, λ e. cc), simp close_laws)
        | inl d ↦ elim (Bool-cases os.chdir_fails) [
          | inl e ↦ rw (a, b, c, d, e) ((λ e. cc, λ e. cc), simp close_laws)
          | inr e ↦ rw (a, b, c, d, e) ((λ e. refl, λ e. refl), simp close_laws)
        ]
      ]
    ]
  ]
]
