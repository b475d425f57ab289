-- ===== src/Examples/Daytime/Served.antt =====
-- examples/inet_daytime_server.c with its three threads: main, signal_handler and
-- baa_daytime_server_th.
use libbaalue.Prelude.{
  ◌≡◌, refl, sym, ap, ◌∙◌, Bool, true, false, List, [], ◌∷◌, map, pos, negsuc, ℤ, ◌⊎◌, inl, inr,
  Bool-cases, ◌==◌, eqb_ℤ,
}
use libbaalue.Network.Daytime
use libbaalue.Network.Daytime.{
  Turn, writes, accepted_fds, closed_fds, served, baa_daytime_server_th, baa_daytime_server_th_lem,
}
use libbaalue.Network.Inet.{baa_inet_stream_server}
use libbaalue.Examples.Program.{
  Event, create, signal_handler, daytime_server, events, has, Env, Opt, usage, register_cleanup,
  show_some_infos, handle_signals, start_thread, cheers, is_registration, is_registered,
}
use libbaalue.Examples.Threads.Shuffle.{IsQuiet, is_registration-IsQuiet}
use libbaalue.Examples.Threads.Order.{precedes}
use libbaalue.Examples.Workers.{Machine, history, Reaches, begun}
use libbaalue.Examples.Workers.Servers.{daytime_worker}
use libbaalue.Examples.Workers.After.{begun-Follows}
use libbaalue.Examples.Mgmt.{InetOs, connected}
use libbaalue.Examples.Daytime.{server_options, server_run}

abbrev pub is_daytime : Event → Bool
is_daytime (create daytime_server) = true
is_daytime _ = false

is_daytime-IsQuiet : IsQuiet is_daytime
is_daytime-IsQuiet = record {
  no_message = refl;
  no_caught = λ n. refl;
  no_ignored = λ n. refl;
  no_unhandled = λ n. refl;
}

-- The descriptor that baa_inet_stream_server gives.
abbrev pub server_socket : InetOs → ℤ
server_socket os = (baa_inet_stream_server os.socket_ret os.fails (os.getaddrinfo [])).0

-- main creates the server's thread only without options and with a socket, and registers `cleanup`
-- before.
server_run-creates :
    (env : Env) (os : InetOs) (opts : List Opt)
    → has is_daytime (events (server_run env os opts)) ≡ true
    → (opts ≡ [])
      × (eqb_ℤ (server_socket os) (negsuc 0) ≡ false)
      × (precedes is_registration is_daytime (events (server_run env os opts)) ≡ true)
unfolding server_run server_options register_cleanup usage show_some_infos handle_signals connected
    start_thread
server_run-creates env os (o ∷ opts) e = elim (Bool-cases (o.opt == b'h')) [
  | inl y ↦ cc (rw y at e)
  | inr n ↦ cc (rw n at e)
]
server_run-creates env os [] e = elim (Bool-cases (eqb_ℤ env.atexit_ret (pos 0))) [
  | inr a ↦ cc (rw a at e)
  | inl a ↦ elim (Bool-cases (env.sigmask_err == 0)) [
    | inr s ↦ cc (rw (a, s) at e)
    | inl s ↦ elim (Bool-cases (env.create_err signal_handler == 0)) [
      | inr t ↦ cc (rw (a, s, t) at e)
      | inl t ↦ elim (Bool-cases (eqb_ℤ (server_socket os) (negsuc 0))) [
        | inl f ↦ cc (rw (a, s, t, f) at e)
        | inr f ↦ elim (Bool-cases (env.create_err daytime_server == 0)) [
          | inl d ↦ (refl, f, rw (a, s, t, f, d))
          | inr d ↦ (refl, f, rw (a, s, t, f, d))
        ]
      ]
    ]
  ]
]

-- The states that inet_daytime_server comes to.
abbrev pub Serves : Env → InetOs → List Opt → Machine Turn Daytime.Event → Type 0
Serves env os opts =
    Reaches daytime_worker cheers (env.create_err signal_handler == 0) is_daytime
      (env.create_err daytime_server == 0) (begun (server_run env os opts))

-- Whatever the system answers and whatever the command line, in every interleaving of the three
-- threads of inet_daytime_server, and after its end too: it has sent each connection that accept gave
-- the first 24 bytes of the text of ctime with CR LF behind them, in order, and has written nothing
-- else; it has closed none of them; and it has come to accept only without options, with its socket
-- bound, and with `cleanup` registered.
pub timed_lem :
    (env : Env) (os : InetOs) (opts : List Opt) {k : Machine Turn Daytime.Event}
    → Serves env os opts k
    → (writes k.done ≡ served k.taken)
      × (accepted_fds k.done ≡ map (λ p. p.0) (served k.taken))
      × (closed_fds k.done ≡ [])
      × ((k.taken ≡ [])
          ⊎ ((opts ≡ [])
              × (eqb_ℤ (server_socket os) (negsuc 0) ≡ false)
              × (is_registered (history k.program) ≡ true)))
timed_lem env os opts {k} r =
    let (run, before) =
      begun-Follows daytime_worker cheers (env.create_err signal_handler == 0) is_daytime
        (env.create_err daytime_server == 0) (server_run env os opts) is_daytime-IsQuiet r in
    let same : baa_daytime_server_th k.taken [] ≡ k.done = cc in
    let (w, a, c) = baa_daytime_server_th_lem k.taken [] in
    (
      sym (ap writes same) ∙ w,
      sym (ap accepted_fds same) ∙ a,
      sym (ap closed_fds same) ∙ c,
      elim before [
        | inl none_taken ↦ inl none_taken
        | inr f ↦
            let (plain, bound, order) = server_run-creates env os opts f.by_main in
            inr (plain, bound, f.first is_registration is_registration-IsQuiet order)
      ],
    )
