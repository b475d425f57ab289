-- ===== src/Tests/Terminating.antt =====
-- Inputs for the theorems on the programs that their signal thread ends.
use libbaalue.Prelude.{ℕ, refl, true, List, [], ◌∷◌, ◌++◌, pos}
use libbaalue.Helper.PidFile
use libbaalue.Examples.Program.{message, caught, unlink, cleanup, success}
use libbaalue.Examples.Signals.{sigterm}
use libbaalue.Examples.Threads.{ended, running}
use libbaalue.Examples.Threads.Shuffle.{Shuffle}
use libbaalue.Examples.Threads.Laws.{main_runs}
use libbaalue.Examples.UdsServer.{
  server_run, server_cleanup, serve_socket, opened, made, pid_file_of,
}
use libbaalue.Examples.UdsServer.Terminated.{server_run_lem, before_signals, ComesTo, sigterm_lem}
use libbaalue.Tests.Programs.{env, env-Ready}
use libbaalue.Tests.Buses.{
  server_os, outcome_calls, or_empty, pid_file_made, socket_made, socket_named,
}

abbrev pub path : List ℕ
path = or_empty (pid_file_of (made env server_os))

abbrev kdo_file : List ℕ
kdo_file = or_empty (opened env server_os).socket_f

abbrev pub calls : List PidFile.Call
calls = outcome_calls (made env server_os)

-- The server behind the start of its signal thread.
server_runs : ComesTo env server_os (
    running []
      (before_signals env server_os calls)
      (serve_socket env server_os (opened env server_os)))
server_runs =
    main_runs (server_cleanup server_os (opened env server_os) (made env server_os)) true
      (server_run env server_os (pos 0)) (before_signals env server_os calls)
      (serve_socket env server_os (opened env server_os))
      (server_run_lem env server_os path calls env-Ready refl pid_file_made)

sigterm_lem_example : ComesTo env server_os (
    ended success
      (before_signals env server_os calls ++ caught sigterm ∷ message ∷ unlink path ∷ cleanup ∷ []))
sigterm_lem_example =
    sigterm_lem env server_os path kdo_file calls env-Ready refl pid_file_made socket_made
      socket_named refl refl server_runs refl
