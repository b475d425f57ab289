-- ===== src/Examples/UdsServer/Terminated.antt =====
-- The scheduling server of examples/time_triggert_uds_server.c with its signal thread: what is removed
-- when it ends, whichever thread ends it and at whatever moment.
use libbaalue.Prelude.{
  ℕ, ◌≡◌, ◌≢◌, refl, sym, ap, ◌∙◌, subst, Bool, true, false, some, List, [], ◌∷◌, ◌++◌, pos, negsuc,
  eqb_ℤ_ne, ◌⊎◌, inl, inr, Bool-cases, append_assoc, if◌then◌else◌, ℤ,
}
use libbaalue.Helper.Info.{baa_show_package_name, baa_show_version_info}
use libbaalue.Helper.Names.{baa_set_program_name}
use libbaalue.Helper.PidFile
use libbaalue.Helper.System.{baa_become_daemon}
use libbaalue.Examples.Program.{
  Event, message, registered, info, capability, daemon, syslog, pid_file, sigmask, create, close,
  unlink, cleanup, signal_handler, caught, Run, behind, events, has, is_registration, is_registered,
  is_uds, has_uds, success, Env, Ready,
}
use libbaalue.Examples.Endings.{handle_signals_lem, run_laws}
use libbaalue.Examples.Signals.{Signal, signal, sigterm, signal_round, signal_loop}
use libbaalue.Examples.Threads.{is_handler, closing, State, running, ended, Reach, started}
use libbaalue.Examples.Threads.Shuffle.{
  Shuffle, IsQuiet, main_shows, Shuffle-append_signals, is_handler-IsQuiet, is_registration-IsQuiet,
}
use libbaalue.Examples.Threads.Order.{events-behind, shown}
use libbaalue.Examples.Threads.Laws.{started-Comes, hears_last, ends_by_signal}
use libbaalue.Examples.UdsServer.{
  ServerOs, is_pid_file, has_pid_file, pid_file_or_exit, serve_socket, server_cleanup, server_run,
  opened, made,
}
use libbaalue.Examples.UdsServer.Laws.{server_start_lem}

is_pid_file-IsQuiet : IsQuiet is_pid_file
is_pid_file-IsQuiet = record {
  no_message = refl;
  no_caught = λ n. refl;
  no_ignored = λ n. refl;
  no_unhandled = λ n. refl;
}

is_uds-IsQuiet : IsQuiet is_uds
is_uds-IsQuiet = record {
  no_message = refl;
  no_caught = λ n. refl;
  no_ignored = λ n. refl;
  no_unhandled = λ n. refl;
}

-- What main does up to the thread for signals.
abbrev pub before_signals : Env → ServerOs → List PidFile.Call → List Event
before_signals env os calls =
    registered
    ∷ capability true
    ∷ info baa_show_package_name
    ∷ info (baa_show_version_info env.uname)
    ∷ daemon (baa_become_daemon os.daemon_os).1
    ∷ syslog (baa_set_program_name (some env.argv0))
    ∷ pid_file calls
    ∷ sigmask
    ∷ create signal_handler
    ∷ []

pub server_run_lem :
    (env : Env) (os : ServerOs) (path : List ℕ) (calls : List PidFile.Call)
    → Ready env
    → os.capng_ret ≡ pos 0
    → made env os ≡ some (PidFile.returned (some path) calls)
    → server_run env os (pos 0)
      ≡ behind (before_signals env os calls) (serve_socket env os (opened env os))
unfolding server_run pid_file_or_exit
server_run_lem env os path calls ready caps named =
    rw (server_start_lem env os ready caps, named, handle_signals_lem env ready) (simp run_laws)

-- What is left to `cleanup`: with the socket or without it.
abbrev pub removals : Bool → ℤ → List ℕ → List ℕ → List Event
removals opened_socket fd kdo_file path =
    if opened_socket
    then close fd ∷ unlink kdo_file ∷ unlink path ∷ cleanup ∷ []
    else message ∷ unlink path ∷ cleanup ∷ []

-- The states that the server and its signal thread come to.
abbrev pub ComesTo : Env → ServerOs → State → Type 0
ComesTo env os =
    Reach (server_cleanup os (opened env os) (made env os)) true
      (started (server_run env os (pos 0)))

module _ (env : Env) (os : ServerOs) (path kdo_file : List ℕ) (calls : List PidFile.Call)
    (ready : Ready env) (caps : os.capng_ret ≡ pos 0)
    (named : made env os ≡ some (PidFile.returned (some path) calls))
    (open_fd : (opened env os).ret ≢ negsuc 0) (kdo : (opened env os).socket_f ≡ some kdo_file)
    (removes_kdo : os.unlink_fails kdo_file ≡ false) (removes : os.unlink_fails path ≡ false) where
  closed_lem :
      (g s h : List Event) (left : Run (Unit {0})) (heard : List Signal)
      → server_run env os (pos 0) ≡ behind g left
      → (events left ≡ []) ⊎ (has is_handler g ≡ true)
      → Shuffle g s h
      → events (signal_loop heard) ≡ s
      → closing (server_cleanup os (opened env os) (made env os)) h
        ≡ removals (has_uds h) (opened env os).ret kdo_file path
  unfolding server_cleanup
  closed_lem g s h left heard run how sh said =
      let rest = events (serve_socket env os (opened env os)) in
      let e : before_signals env os calls ++ rest ≡ g ++ events left =
        sym (events-behind (before_signals env os calls) (serve_socket env os (opened env os)))
        ∙ ap events (sym (server_run_lem env os path calls ready caps named) ∙ run)
        ∙ events-behind g left in
      let is_in : (p : Event → Bool) → IsQuiet p → has p h ≡ has p g =
        λ p q. main_shows p q heard said sh in
      let reg : is_registered h ≡ true =
        is_in is_registration is_registration-IsQuiet
        ∙ shown is_registration (before_signals env os calls) rest g left refl refl e how in
      let pid : has_pid_file h ≡ true =
        is_in is_pid_file is_pid_file-IsQuiet
        ∙ shown is_pid_file (before_signals env os calls) rest g left refl refl e how in
      elim (Bool-cases (has_uds h)) [
        | inl u ↦ rw (reg, pid, u, eqb_ℤ_ne _ _ open_fd, kdo, named, removes_kdo, removes)
        | inr u ↦ rw (reg, pid, u, named, removes)
      ]

  -- Under the same conditions, from every state in which main has started the signal thread and the
  -- program has not come to exit, SIGTERM ends it with EXIT_SUCCESS, when its thread goes on alone: it
  -- reports the signal and then removes what was made up to that moment.
  pub sigterm_lem :
      {heard : List Signal} {h : List Event} {left : Run (Unit {0})}
      → ComesTo env os (running heard h left)
      → has is_handler h ≡ true
      → ComesTo env os (
          ended success
            (h ++ caught sigterm ∷ removals (has_uds h) (opened env os).ret kdo_file path))
  unfolding signal_round
  sigterm_lem {heard} {h} {left} r on =
      let fd = (opened env os).ret in
      let final = server_cleanup os (opened env os) (made env os) in
      let reports : List Event = caught sigterm ∷ [] in
      let (g, s, run, quiet, sh) = started-Comes final true (server_run env os (pos 0)) r in
      let last = hears_last heard (signal sigterm) quiet refl in
      let later = Shuffle-append_signals reports sh in
      let same : has_uds (h ++ reports) ≡ has_uds h =
        main_shows is_uds is_uds-IsQuiet (heard ++ signal sigterm ∷ []) (ap events last) later
        ∙ sym (main_shows is_uds is_uds-IsQuiet heard (ap events quiet) sh) in
      let on_main =
        sym (main_shows is_handler is_handler-IsQuiet heard (ap events quiet) sh) ∙ on in
      let ends : ComesTo env os (ended success ((h ++ reports) ++ closing final (h ++ reports))) =
        ends_by_signal final true (server_run env os (pos 0)) heard h reports (signal sigterm)
          success left refl on refl r in
      let cleans =
        closed_lem g (s ++ reports) (h ++ reports) left (heard ++ signal sigterm ∷ []) run
          (inr on_main) later (ap events last) in
      subst (λ l. ComesTo env os (ended success l))
        (ap (λ l. (h ++ reports) ++ l) cleans
          ∙ append_assoc h reports (removals (has_uds (h ++ reports)) fd kdo_file path)
          ∙ ap (λ b. h ++ caught sigterm ∷ removals b fd kdo_file path) same)
        ends
