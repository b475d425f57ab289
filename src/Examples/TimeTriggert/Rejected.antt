-- ===== src/Examples/TimeTriggert/Rejected.antt =====
-- The table of examples/time_triggert_uds.c and the check baa_is_fiber_config_valid.
use libbaalue.Prelude.{
  ℕ, zero, suc, ◌+◌, ◌≡◌, ◌≢◌, refl, ◌∙◌, ap, Bool, true, false, not, Option, none, some, List, [],
  ◌∷◌, All, arith, Bool-cases, inl, inr, ◌==◌, if◌then◌else◌, ℤ, pos, negsuc, eqb_ℤ,
}
use libbaalue.Fiber.Config.{Limits, baa_is_fiber_config_valid, baa_is_fiber_config_valid_iff}
use libbaalue.Fiber.Threads.{ThreadEvent, broadcast, baa_build_scheduler, build_loop}
use libbaalue.Helper.System.{baa_check_for_rtpreempt}
use libbaalue.Network.Uds.{Opened, baa_uds_dgram_client, baa_create_uds_name_string}
use libbaalue.Helper.Names.{baa_set_program_name}
use libbaalue.Examples.Program.{
  Event, message, cleanup, var_run_dir, threads, datagrams, scheduling, when, error_exit,
  signal_handler, sigmask, create, uds, exits, goes_on, ◌>>=◌, ◌>>◌, emit, failure, Opt, Env, usage,
  register_cleanup, handle_signals, has_uds,
}
use libbaalue.Examples.Endings.{
  Exits, Keeps, Keeps-behind, Exits-behind, All-append, Keeps->>=, Exits->>=, Keeps-of-Exits,
  Keeps-when, with_cleanup-Exits,
}
use libbaalue.Examples.TimeTriggert.{ThreadOs, uds_array}
use libbaalue.Examples.TimeTriggert.Simple.{check_kernel, check_err}
use libbaalue.Examples.TimeTriggert.UdsClient.{
  uds_help, Names, SocketOs, uds_options, server_name, uds_table, close_and_unlink, uds_cleanup,
  uds_main, uds_run,
}

-- Fiber 4 has SCHED_BATCH with a priority that is not 0.
uds_array_invalid :
    (lim : Limits) (tid : ℕ → ℤ)
    → baa_is_fiber_config_valid lim (some (uds_array tid)) (pos 5) ≡ some false
uds_array_invalid lim tid =
    let (_, _, (b, run, iff)) =
      baa_is_fiber_config_valid_iff lim (uds_array tid) 5 (pos 0) (omega arith) (omega arith) in
    elim (Bool-cases b) [
      | inl e ↦ let all = iff.0 e in let f4 = all.1.1.1.1.0 in absurd (ground (arith, f4.allowed))
      | inr e ↦ run ∙ ap some e
    ]

abbrev pub has_broadcast : List ThreadEvent → Bool
has_broadcast [] = false
has_broadcast (broadcast ∷ h) = true
has_broadcast (_ ∷ h) = has_broadcast h

-- Not a release of the fibers, nor a message to the server, nor a change of the scheduling.
abbrev pub Idle : Event → Type 0
Idle (threads h) = has_broadcast h ≡ false
Idle (datagrams sent) = ⊥
Idle (scheduling h) = ⊥
Idle _ = Unit

abbrev pub Fails : ℕ → Type 0
Fails s = s ≡ failure

build_loop-Idle :
    (create_err : ℕ → ℕ) (n i : ℕ) → has_broadcast (build_loop create_err n i).1 ≡ false
unfolding build_loop
build_loop-Idle create_err zero i = refl
build_loop-Idle create_err (suc n) i = elim (Bool-cases (create_err i == 0)) [
  | inl e ↦ rw e (build_loop-Idle create_err n (i + 1))
  | inr e ↦ rw e
]

usage-Exits : (env : Env) → Exits Idle Fails (usage env uds_help failure)
unfolding usage
usage-Exits env = (refl, (tt, (tt, (tt, tt))))

complaint-Exits : (env : Env) → Exits Idle Fails (do emit message; usage env uds_help failure)
unfolding usage
complaint-Exits env = (refl, (tt, (tt, (tt, (tt, tt)))))

uds_options-Keeps :
    (env : Env) (opts : List Opt) (names : Names)
    → All (λ (o : Opt). o.opt ≢ b'h') opts
    → Keeps Idle Fails (uds_options env opts names)
unfolding uds_options usage
uds_options-Keeps env [] names h = tt
uds_options-Keeps env (o ∷ rest) (file, dir) h =
    let no_help : (o.opt == b'h') ≡ false = ground (arith, h.0) in
    elim (Bool-cases (o.opt == b'f')) [
      | inl f ↦ rw f (uds_options-Keeps env rest (some o.optarg, dir) h.1)
      | inr f ↦ elim (Bool-cases (o.opt == b'd')) [
        | inl d ↦ rw (f, d) (uds_options-Keeps env rest (file, some o.optarg) h.1)
        | inr d ↦ rw (f, d, no_help) (refl, (tt, (tt, (tt, (tt, tt)))))
      ]
    ]

error_exit-Keeps : (b : Bool) → Keeps Idle Fails (when b error_exit)
error_exit-Keeps true = (refl, (tt, tt))
error_exit-Keeps false = tt

register_cleanup-Keeps : (env : Env) → Keeps Idle Fails (register_cleanup env)
unfolding register_cleanup
register_cleanup-Keeps env = elim (Bool-cases (eqb_ℤ env.atexit_ret (pos 0))) [
  | inl e ↦ rw e (tt, tt)
  | inr e ↦ rw e (refl, tt)
]

check_kernel-Keeps : (env : Env) (th : ThreadOs) → Keeps Idle Fails (check_kernel env th)
unfolding check_kernel
check_kernel-Keeps env th =
    elim (Bool-cases (baa_check_for_rtpreempt th.has_preempt th.realtime).0) [
      | inl e ↦ rw e (tt, tt)
      | inr e ↦ rw e (refl, (tt, (tt, (tt, (tt, tt)))))
    ]

handle_signals-Keeps : (env : Env) → Keeps Idle Fails (handle_signals env)
unfolding handle_signals
handle_signals-Keeps env =
    Keeps-behind Idle Fails (sigmask ∷ []) _ (tt, tt)
      (Keeps->>= Idle Fails (when (not (env.sigmask_err == 0)) error_exit) _ (error_exit-Keeps _)
        (λ u. Keeps-behind Idle Fails (create signal_handler ∷ []) _ (tt, tt) (error_exit-Keeps _)))

server_name-Keeps :
    (env : Env) (so : SocketOs) (names : Names) → Keeps Idle Fails (server_name env so names)
unfolding server_name usage
server_name-Keeps env so (file, dir) =
    elim (baa_create_uds_name_string so.malloc_fails file dir)
      as (λ name. Keeps Idle Fails {A = List ℕ} (elim name [
        | none ↦ (usage env uds_help failure >>= λ u. goes_on [] [])
        | some path ↦ goes_on path []
      ])) [ none ↦ (refl, (tt, (tt, (tt, tt)))) | some path ↦ tt ]

-- The check comes before the message to the server and before the release of the fibers.
uds_table-Exits :
    (th : ThreadOs) (so : SocketOs) (path : List ℕ) → Exits Idle Fails (uds_table th so path)
unfolding uds_table baa_build_scheduler
uds_table-Exits th so path =
    let b = baa_build_scheduler th.create_err (pos 5) in
    Exits-behind Idle Fails (threads b.1 ∷ []) _ (build_loop-Idle th.create_err 5 0, tt)
      (Exits->>= Idle Fails (check_err b.0) _ (error_exit-Keeps (not (eqb_ℤ b.0 (pos 0))))
        (λ u. rw (uds_array_invalid th.limits th.tid) (refl, (tt, tt))))

close_and_unlink-Idle :
    (sock : ℤ) (file : Option (List ℕ)) (fails : Bool) → All Idle (close_and_unlink sock file fails)
close_and_unlink-Idle sock none fails = elim (Bool-cases (eqb_ℤ sock (negsuc 0))) [
  | inl e ↦ rw e (tt, tt)
  | inr e ↦ rw e (tt, (tt, tt))
]
close_and_unlink-Idle sock (some path) true = elim (Bool-cases (eqb_ℤ sock (negsuc 0))) [
  | inl e ↦ rw e (tt, (tt, tt))
  | inr e ↦ rw e (tt, (tt, (tt, tt)))
]
close_and_unlink-Idle sock (some path) false = elim (Bool-cases (eqb_ℤ sock (negsuc 0))) [
  | inl e ↦ rw e (tt, tt)
  | inr e ↦ rw e (tt, (tt, tt))
]

uds_cleanup-Idle : (so : SocketOs) (o : Opened) (h : List Event) → All Idle (uds_cleanup so o h)
uds_cleanup-Idle so o h =
    let sock = if has_uds h then o.ret else negsuc 0 in
    let file = if has_uds h then o.socket_f else none in
    All-append Idle (close_and_unlink sock file so.unlink_fails) (cleanup ∷ [])
      (close_and_unlink-Idle sock file so.unlink_fails) (tt, tt)

-- For every environment, and every command line in which getopt finds no option h, the program exits
-- with EXIT_FAILURE, and it has then neither sent its fibers' properties to the server, nor set a
-- scheduling, nor released the fibers: the table of fibers does not pass baa_is_fiber_config_valid.
pub uds_main-fails :
    (env : Env) (th : ThreadOs) (so : SocketOs) (argc : ℕ) (opts : List Opt)
    → All (λ (o : Opt). o.opt ≢ b'h') opts
    → (h : List Event) × (uds_main env th so argc opts ≡ exits failure h) × All Idle h
unfolding uds_main uds_run
uds_main-fails env th so argc opts no_help =
    let name = baa_set_program_name (some env.argv0) in
    let o = baa_uds_dgram_client so.uds_os (some name) (some var_run_dir) in
    let (s, h, run, fails, idle) =
      with_cleanup-Exits Idle Fails (uds_cleanup so o) _ (uds_cleanup-Idle so o) (
        Exits->>= Idle Fails (uds_options env opts (none, none)) _
          (uds_options-Keeps env opts _ no_help)
          (λ names.
            Exits->>= Idle Fails
              (when (not (argc == 5)) (do emit message; usage env uds_help failure)) _
              (Keeps-when Idle Fails _ _ (Keeps-of-Exits Idle Fails _ (complaint-Exits env)))
              (λ u. Exits->>= Idle Fails (register_cleanup env) _ (register_cleanup-Keeps env) (λ u.
                Exits->>= Idle Fails (check_kernel env th) _ (check_kernel-Keeps env th) (λ u.
                  Exits->>= Idle Fails (handle_signals env) _ (handle_signals-Keeps env) (λ u.
                    Exits->>= Idle Fails (server_name env so names) _
                      (server_name-Keeps env so names)
                      (λ path.
                        Exits-behind Idle Fails (uds o.calls ∷ []) _ (tt, tt)
                          (Exits->>= Idle Fails (when (eqb_ℤ o.ret (negsuc 0)) error_exit) _
                            (error_exit-Keeps _) (λ u. uds_table-Exits th so path))))))))) in
    (h, run ∙ ap (λ t. exits t h) fails, idle)
