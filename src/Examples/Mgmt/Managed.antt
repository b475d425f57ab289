-- ===== src/Examples/Mgmt/Managed.antt =====
-- examples/udp_mgmt_server.c with its three threads: main, signal_handler and baa_device_mgmt_th.
use libbaalue.Prelude.{
  ◌≡◌, refl, sym, ap, ◌∙◌, Bool, true, false, List, [], pos, negsuc, ℤ, ◌⊎◌, inl, inr, Bool-cases,
  ◌==◌, eqb_ℤ,
}
use libbaalue.DeviceMgmt
use libbaalue.DeviceMgmt.{Received}
use libbaalue.DeviceMgmt.Laws.{sent, commands, answers, wanted, baa_device_mgmt_th_lem}
use libbaalue.Network.Inet.{baa_inet_dgram_server}
use libbaalue.Examples.Program.{
  Event, create, signal_handler, device_mgmt, events, has, Env, register_cleanup, show_some_infos,
  handle_signals, start_thread, cheers, is_registration, is_registered,
}
use libbaalue.Examples.Threads.Shuffle.{IsQuiet, is_registration-IsQuiet}
use libbaalue.Examples.Threads.Order.{precedes}
use libbaalue.Examples.Workers.{Machine, history, Reaches, begun}
use libbaalue.Examples.Workers.Servers.{device_worker}
use libbaalue.Examples.Workers.After.{begun-Follows}
use libbaalue.Examples.Mgmt.{InetOs, server_run}

abbrev pub is_device : Event → Bool
is_device (create device_mgmt) = true
is_device _ = false

is_device-IsQuiet : IsQuiet is_device
is_device-IsQuiet = record {
  no_message = refl;
  no_caught = λ n. refl;
  no_ignored = λ n. refl;
  no_unhandled = λ n. refl;
}

-- The descriptor that baa_inet_dgram_server gives.
abbrev pub server_socket : InetOs → ℤ
server_socket os = (baa_inet_dgram_server os.socket_ret os.fails (os.getaddrinfo [])).0

-- main creates the server's thread only with a socket, and registers `cleanup` before.
server_run-creates :
    (env : Env) (os : InetOs)
    → has is_device (events (server_run env os)) ≡ true
    → (eqb_ℤ (server_socket os) (negsuc 0) ≡ false)
      × (precedes is_registration is_device (events (server_run env os)) ≡ true)
unfolding server_run register_cleanup show_some_infos handle_signals start_thread
server_run-creates env os e = elim (Bool-cases (eqb_ℤ env.atexit_ret (pos 0))) [
  | inr a ↦ cc (rw a at e)
  | inl a ↦ elim (Bool-cases (env.sigmask_err == 0)) [
    | inr s ↦ cc (rw (a, s) at e)
    | inl s ↦ elim (Bool-cases (env.create_err signal_handler == 0)) [
      | inr t ↦ cc (rw (a, s, t) at e)
      | inl t ↦ elim (Bool-cases (eqb_ℤ (server_socket os) (negsuc 0))) [
        | inl f ↦ cc (rw (a, s, t, f) at e)
        | inr f ↦ elim (Bool-cases (env.create_err device_mgmt == 0)) [
          | inl d ↦ (f, rw (a, s, t, f, d))
          | inr d ↦ (f, rw (a, s, t, f, d))
        ]
      ]
    ]
  ]
]

-- The states that udp_mgmt_server comes to, with `fails` for which messages sendto fails.
abbrev pub Manages :
    Env → InetOs → (List DeviceMgmt.Event → Bool) → Machine Received DeviceMgmt.Event → Type 0
Manages env os fails =
    Reaches (device_worker fails) cheers (env.create_err signal_handler == 0) is_device
      (env.create_err device_mgmt == 0) (begun (server_run env os))

-- Whatever the system answers, in every interleaving of the three threads of udp_mgmt_server, and
-- after its end too: it has acknowledged each message of the four device types that it has received
-- once, and has run "init 0" for each HALT and "init 6" for each REBOOT, in order, and nothing else;
-- and it has received none before its socket was bound and `cleanup` registered.
pub managed_lem :
    (env : Env) (os : InetOs) (fails : List DeviceMgmt.Event → Bool)
    {k : Machine Received DeviceMgmt.Event}
    → Manages env os fails k
    → (sent k.done ≡ answers k.taken)
      × (commands k.done ≡ wanted k.taken)
      × ((k.taken ≡ [])
          ⊎ ((eqb_ℤ (server_socket os) (negsuc 0) ≡ false)
              × (is_registered (history k.program) ≡ true)))
managed_lem env os fails {k} r =
    let (run, before) =
      begun-Follows (device_worker fails) cheers (env.create_err signal_handler == 0) is_device
        (env.create_err device_mgmt == 0) (server_run env os) is_device-IsQuiet r in
    let (h, run', acks, inits) = baa_device_mgmt_th_lem fails k.taken [] in
    let same : h ≡ k.done = cc in
    (
      sym (ap sent same) ∙ acks,
      sym (ap commands same) ∙ inits,
      elim before [
        | inl none_taken ↦ inl none_taken
        | inr f ↦
            let (bound, order) = server_run-creates env os f.by_main in
            inr (bound, f.first is_registration is_registration-IsQuiet order)
      ],
    )
