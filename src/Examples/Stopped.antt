-- ===== src/Examples/Stopped.antt =====
-- SIGTERM to the programs of examples/ that run until they get it, with the calls of `cleanup`.
pub mod Options
use libbaalue.Prelude.{
  not, ℕ, ◌≡◌, refl, Bool, true, false, Option, none, some, List, [], ◌∷◌, ◌++◌, Bool-cases, inl,
  inr, ◌==◌, ℤ, subst, append_assoc,
}
use libbaalue.Can.{CanOs, CanFilter}
use libbaalue.Helper.ReadLine.{Read}
use libbaalue.Examples.Program.{
  Event, cleanup, caught, signal_handler, HelpLine, Run, Opt, Env, register_cleanup, success,
  cheers, usage, show_some_infos, has, ◌>>=◌, emit, when, message, failure,
}
use libbaalue.Examples.Signals.{Signal, sigterm}
use libbaalue.Examples.Threads.{is_handler, running, ended, Reach, started}
use libbaalue.Examples.Threads.Sigterm.{
  Silent, Registers, Registers->>=, Registers-nested, register_cleanup-Registers, Registers-sigterm,
}
use libbaalue.Examples.TimeTriggert.{ThreadOs}
use libbaalue.Examples.TimeTriggert.Simple.{simple_options, simple_run}
use libbaalue.Examples.TimeTriggert.UdsClient.{
  SocketOs, uds_help, uds_options, uds_opened, uds_run, uds_cleanup,
}
use libbaalue.Examples.UdsServer
use libbaalue.Examples.UdsServer.{ServerOs, opened, made, server_start, server_cleanup}
use libbaalue.Examples.Mgmt
use libbaalue.Examples.Mgmt.{InetOs, name_options, given_name, Answer, ping_help, ping_run}
use libbaalue.Examples.Mgmt.Reboot.{reboot_help, reboot_run}
use libbaalue.Examples.Daytime
use libbaalue.Examples.Daytime.{server_options, client_run}
use libbaalue.Examples.CanBus.{FrameRead}
use libbaalue.Examples.CanBus.Send.{send_help, Settings, send_options, given_ifname, send_run}
use libbaalue.Examples.CanBus.Recv.{recv_help, recv_options, recv_run}
use libbaalue.Examples.Stopped.Options.{
  simple_options-Silent, uds_options-Silent, complaint-Silent, server_options-Silent,
  name_options-Silent, given_name-Silent, given_ifname-Silent, recv_options-Silent,
  send_options-Silent, when-Silent, infos-Silent, usage-Silent, said-Registers,
}

-- The programs with a signal thread: what their `cleanup` does, and main. The thread of the ping and the
-- reboot client detaches itself first, which is nothing to see when it works.
pub data IsProgram (env : Env) : (List Event → List Event) → Run (Unit {0}) → Type 0 where
  time_triggert_simple :
      (th : ThreadOs) (capng_ret : ℤ) (opts : List Opt)
      → IsProgram env cheers (simple_run env th capng_ret opts)
  time_triggert_uds :
      (th : ThreadOs) (so : SocketOs) (argc : ℕ) (opts : List Opt)
      → IsProgram env (uds_cleanup so (uds_opened env so)) (uds_run env th so argc opts)
  time_triggert_uds_server :
      (os : ServerOs) (err : ℤ)
      → IsProgram env
          (server_cleanup os (opened env os) (made env os))
          (UdsServer.server_run env os err)
  udp_mgmt_server : (os : InetOs) → IsProgram env cheers (Mgmt.server_run env os)
  udp_mgmt_ping_client :
      (os : InetOs) (answers : ℕ → Answer) (opts : List Opt)
      → IsProgram env cheers (ping_run env os answers opts)
  udp_mgmt_reboot_client :
      (os : InetOs) (again : ℕ → InetOs) (rebooted pinged : Answer) (opts : List Opt)
      → IsProgram env cheers (reboot_run env os again rebooted pinged opts)
  inet_daytime_client :
      (turns : List (InetOs × List Read)) (opts : List Opt)
      → IsProgram env cheers (client_run env turns opts)
  inet_daytime_server :
      (os : InetOs) (opts : List Opt) → IsProgram env cheers (Daytime.server_run env os opts)
  can_send :
      (strtoul : ℕ → List ℕ → ℕ) (os : CanOs) (results : List ℤ) (opts : List Opt)
      → IsProgram env cheers (send_run strtoul env os results opts)
  can_recv :
      (ids : List ℕ → List ℕ) (os : CanOs) (fresh : CanFilter) (realloc_fails : ℕ → Bool)
      (fails : Bool) (reads : List FrameRead) (opts : List Opt)
      → IsProgram env cheers (recv_run ids env os fresh realloc_fails fails reads opts)

IsProgram-Registers :
    {env : Env} {final : List Event → List Event} {m : Run (Unit {0})}
    → IsProgram env final m
    → Registers m
unfolding server_start simple_run uds_run UdsServer.server_run Mgmt.server_run ping_run reboot_run
    client_run Daytime.server_run send_run recv_run
IsProgram-Registers {env} (time_triggert_simple th capng_ret opts) =
    Registers->>= (simple_options env opts) _ (simple_options-Silent env opts)
      (λ u. register_cleanup-Registers env _)
IsProgram-Registers {env} (time_triggert_uds th so argc opts) =
    Registers->>= (uds_options env opts (none, none)) _ (uds_options-Silent env opts (none, none))
      (λ names.
        Registers->>= (when (not (argc == 5)) (emit message >>= λ u. usage env uds_help failure)) _
          (when-Silent (not (argc == 5)) _ (complaint-Silent env uds_help failure))
          (λ u. register_cleanup-Registers env _))
IsProgram-Registers {env} (time_triggert_uds_server os err) =
    Registers-nested (register_cleanup env) _ _ (register_cleanup-Registers env _)
IsProgram-Registers {env} (udp_mgmt_server os) = register_cleanup-Registers env _
IsProgram-Registers {env} (udp_mgmt_ping_client os answers opts) =
    Registers->>= (name_options env ping_help b's' opts none) _
      (name_options-Silent env _ b's' opts none)
      (λ name.
        Registers->>= (given_name env ping_help name) _ (given_name-Silent env _ name)
          (λ n. register_cleanup-Registers env _))
IsProgram-Registers {env} (udp_mgmt_reboot_client os again rebooted pinged opts) =
    Registers->>= (name_options env reboot_help b's' opts none) _
      (name_options-Silent env _ b's' opts none)
      (λ name.
        Registers->>= (given_name env reboot_help name) _ (given_name-Silent env _ name)
          (λ n. register_cleanup-Registers env _))
IsProgram-Registers {env} (inet_daytime_client turns opts) =
    Registers->>= (name_options env Daytime.client_help b'f' opts none) _
      (name_options-Silent env _ b'f' opts none)
      (λ name.
        Registers->>= (given_name env Daytime.client_help name) _ (given_name-Silent env _ name)
          (λ n. register_cleanup-Registers env _))
IsProgram-Registers {env} (inet_daytime_server os opts) =
    Registers->>= (server_options env opts) _ (server_options-Silent env opts)
      (λ u. register_cleanup-Registers env _)
IsProgram-Registers {env} (can_send strtoul os results opts) =
    let none_given : Settings = record { ifname = none; can_addr = 0; cycle_time_ms = 0 } in
    Registers->>= (send_options strtoul env opts none_given) _
      (send_options-Silent strtoul env opts none_given)
      (λ s.
        Registers->>= (given_ifname env send_help s.ifname) _
          (given_ifname-Silent env send_help s.ifname)
          (λ name.
            Registers->>= (when (s.can_addr == 0) (usage env send_help failure)) _
              (when-Silent (s.can_addr == 0) _ (usage-Silent env send_help failure))
              (λ u. said-Registers env _)))
IsProgram-Registers {env} (can_recv ids os fresh realloc_fails fails reads opts) =
    Registers->>= (recv_options env opts none none) _ (recv_options-Silent env opts none none) (λ x.
      Registers->>= (show_some_infos env) _ (infos-Silent env) (λ u.
        Registers->>= (given_ifname env recv_help x.0) _ (given_ifname-Silent env recv_help x.0)
          (λ name.
            Registers->>= (when (elim x.1 [ none ↦ true | some list ↦ false ]) (emit message)) _
              (when-Silent (elim x.1 [ none ↦ true | some list ↦ false ]) (emit message) refl)
              (λ u. register_cleanup-Registers env _))))

-- The ten programs of examples/ with a signal thread, with every command line and whatever the system
-- answers, as long as pthread_create for the signal thread works, and its pthread_detach in the two
-- clients for device management: in every order of the steps of main and that thread, from every state
-- in which main has started it and the program has not come to exit, SIGTERM ends the program with
-- EXIT_SUCCESS when that thread goes on alone, and the last that it does is to report the signal and to
-- run its `cleanup`.
pub IsProgram-sigterm :
    {env : Env} {final : List Event → List Event} {m : Run (Unit {0})} {heard : List Signal}
    {h : List Event} {left : Run (Unit {0})}
    → IsProgram env final m
    → env.create_err signal_handler ≡ 0
    → Reach final (env.create_err signal_handler == 0) (started m) (running heard h left)
    → has is_handler h ≡ true
    → let h' = h ++ caught sigterm ∷ [] in
      Reach final (env.create_err signal_handler == 0) (started m) (ended success (h' ++ final h'))
IsProgram-sigterm {env} {final} {m} p works r on =
    let works' : (env.create_err signal_handler == 0) ≡ true = rw works in
    Registers-sigterm final (env.create_err signal_handler == 0) m works' (IsProgram-Registers p) r
      on
