-- ===== src/Fiber/ViaServer.antt =====
-- Setting the properties through the server does what setting them locally does.
use libbaalue.Prelude.{
  ℕ, ◌≡◌, refl, sym, ◌∙◌, some, List, [], ◌∷◌, ◌++◌, append_assoc, append-nil, arith, All, ℤ, pos,
  replicate, length, take, zero, suc, ◌+◌, ap, true, false, if◌then◌else◌,
}
use libbaalue.Protocol.{baa_max_len_msg, ptype_cmd_ack, ptype_rcv_ack}
use libbaalue.Serialize.Pack.{baa_pack-encode}
use libbaalue.Fiber.{
  FiberElement, HasInts, Event, set_affinity, set_scheduler, send, print_configured, report, Os,
}
use libbaalue.Fiber.Props.{
  calls, calls_for, sent, baa_set_schedule_props, baa_set_schedule_props_lem,
}
use libbaalue.Fiber.Server.{Received, datagram, serve, baa_schedule_server_th}
use libbaalue.Fiber.Client.{
  Incoming, from, sockaddr_size, unix_addr, store_addr, Outgoing, Client, read_rcv_ack, sched_words,
  returned, send_fiber, via_server_loop, baa_set_schedule_props_via_server,
}
use libbaalue.Fiber.Session.{letters, wire, seen, round-wire, serve_lem}

abbrev acks : List FiberElement → List ℕ
acks [] = []
acks (f ∷ fs) = ptype_rcv_ack ∷ ptype_cmd_ack ∷ acks fs

-- The datagrams of the client: as the server receives them, and as they were sent to `k`.
abbrev pub datagrams : (FiberElement → ℕ → ℕ) → List FiberElement → List Received
datagrams junk [] = []
datagrams junk (f ∷ fs) = datagram (wire (junk f) f) ∷ datagrams junk fs

abbrev pub messages : (FiberElement → ℕ → ℕ) → List ℕ → List FiberElement → List Outgoing
messages junk k [] = []
messages junk k (f ∷ fs) = record { dest = k; bytes = wire (junk f) f } ∷ messages junk k fs

-- The address of a socket that is bound to a path: the path with its NUL behind the family.
abbrev pub bound_to : List ℕ → List ℕ
bound_to path = take (3 + length (take 107 path)) (unix_addr path)

-- Bytes of a server with the address `name`, as datagrams that reach the client.
abbrev pub replies : List ℕ → List ℕ → List Incoming
replies name [] = []
replies name (b ∷ bs) = from name (b ∷ []) ∷ replies name bs

-- The address of the server leaves `addr` as it is.
store_addr-take : (n len : ℕ) (addr : List ℕ) → store_addr (take n addr) len addr ≡ addr
store_addr-take zero len addr = refl
store_addr-take (suc n) len [] = refl
store_addr-take (suc n) zero (a ∷ addr) = refl
store_addr-take (suc n) (suc len) (a ∷ addr) = ap (λ l. a ∷ l) (store_addr-take n len addr)

-- The bytes that reach the client: those for which sendto has worked, in the history `h` behind `g`.
abbrev pub delivered : Os → List Event → List Event → List ℕ
delivered os g [] = []
delivered os g (send b ∷ h) =
    let rest = delivered os (g ++ send b ∷ []) h in
    if os.sendto_fails (g ++ send b ∷ []) then rest else b ∷ rest
delivered os g (set_affinity t c ∷ h) = delivered os (g ++ set_affinity t c ∷ []) h
delivered os g (set_scheduler t p n ∷ h) = delivered os (g ++ set_scheduler t p n ∷ []) h
delivered os g (print_configured t ∷ h) = delivered os (g ++ print_configured t ∷ []) h
delivered os g (report r ∷ h) = delivered os (g ++ report r ∷ []) h

delivered-all :
    (os : Os) (g h : List Event)
    → ((k : List Event) → os.sendto_fails k ≡ false)
    → delivered os g h ≡ sent h
delivered-all os g [] works = refl
delivered-all os g (send b ∷ h) works =
    rw (works (g ++ send b ∷ []), delivered-all os (g ++ send b ∷ []) h works)
delivered-all os g (set_affinity t c ∷ h) works =
    delivered-all os (g ++ set_affinity t c ∷ []) h works
delivered-all os g (set_scheduler t p n ∷ h) works =
    delivered-all os (g ++ set_scheduler t p n ∷ []) h works
delivered-all os g (print_configured t ∷ h) works =
    delivered-all os (g ++ print_configured t ∷ []) h works
delivered-all os g (report r ∷ h) works = delivered-all os (g ++ report r ∷ []) h works

-- The server, given the client's datagrams in order.
pub server_run :
    (os : Os) (junk : FiberElement → ℕ → ℕ) (fs : List FiberElement) (h : List Event)
    → All HasInts fs
    → (h' : List Event) × (baa_schedule_server_th os (datagrams junk fs) h ≡ some h')
      × (calls h' ≡ calls h ++ calls_for fs)
      × (sent h' ≡ sent h ++ acks fs)
unfolding baa_schedule_server_th
server_run os junk [] h ints = (h, refl, sym (append-nil _), sym (append-nil _))
server_run os junk (f ∷ fs) h ints =
    let (made, answered) = serve_lem os (seen f) h in
    let (h', run, made', answered') = server_run os junk fs (serve os (seen f) h) ints.1 in
    (
      h',
      rw (round-wire os f (junk f) ints.0 h) run,
      made' ∙ rw made (append_assoc (calls h) (calls_for (f ∷ [])) (calls_for fs)),
      answered'
          ∙ rw answered (append_assoc (sent h) (ptype_rcv_ack ∷ ptype_cmd_ack ∷ []) (acks fs)),
    )

module _ (junk : FiberElement → ℕ → ℕ) (sendto : List Outgoing → ℤ)
    (whole : (s : List Outgoing) → sendto s ≡ pos 17) where
  pub send_fiber-wire :
      (f : FiberElement) (c : Client)
      → send_fiber junk sendto f c
        ≡ some (
          true,
          record c { sent = c.sent ++ (record { dest = c.addr; bytes = wire (junk f) f }) ∷ [] },
        )
  unfolding send_fiber
  send_fiber-wire f c = rw (
    baa_pack-encode letters (sched_words (junk f) f) (replicate baa_max_len_msg 0) refl
        (omega arith),
    whole _,
  )

  -- The client, given the acknowledgements that belong to its datagrams.
  client_run :
      (fs : List FiberElement) (ptype n : ℕ) (k : List ℕ) (before : List Outgoing)
      → (c : Client) × (via_server_loop junk sendto fs (record {
        ptype_rcv = ptype;
        addr = k;
        queue = replies (take n k) (acks fs);
        sent = before;
      })
          ≡ some (returned (pos 0) c))
        × (c.sent ≡ before ++ messages junk k fs)
        × (c.queue ≡ [])
  unfolding via_server_loop read_rcv_ack
  client_run [] ptype n k before = (_, refl, sym (append-nil _), refl)
  client_run (f ∷ fs) ptype n k before =
      let (c, run, sent, queue) =
        client_run fs ptype_cmd_ack n k
          (before ++ (record { dest = k; bytes = wire (junk f) f }) ∷ []) in
      (
        c,
        rw
            (
              send_fiber-wire f _,
              store_addr-take n sockaddr_size k,
              store_addr-take n (length (take n k)) k,
            )
            run,
        sent ∙ append_assoc before _ (messages junk k fs),
        queue,
      )

-- For fibers whose four fields are `int`s, with every sendto of the client complete and every sendto of
-- the server successful: the server, given the client's datagrams, makes exactly the scheduling calls of
-- baa_set_schedule_props on the same array, whatever the kernel answers to these on either side; and the
-- client, given the bytes that the server has sent from a socket bound to `kdo_f`, sends each of those
-- datagrams to that path, takes every answer and returns 0.
pub via_server-local :
    (os os' : Os) (junk : FiberElement → ℕ → ℕ) (sendto : List Outgoing → ℤ)
    (fs : List FiberElement) (kdo_f : List ℕ) (garbage : ℕ)
    → All HasInts fs
    → ((s : List Outgoing) → sendto s ≡ pos 17)
    → ((h : List Event) → os.sendto_fails h ≡ false)
    → (h : List Event) × (c : Client) × (baa_schedule_server_th os (datagrams junk fs) [] ≡ some h)
      × (calls h ≡ calls (baa_set_schedule_props os' fs []).1)
      × (baa_set_schedule_props_via_server junk sendto fs kdo_f garbage
            (replies (bound_to kdo_f) (delivered os [] h))
          ≡ some (returned (pos 0) c))
      × (c.sent ≡ messages junk (unix_addr kdo_f) fs)
      × (c.queue ≡ [])
unfolding baa_set_schedule_props_via_server
via_server-local os os' junk sendto fs kdo_f garbage ints whole works =
    let (h, run, made, answered) = server_run os junk fs [] ints in
    let (c, run', messages, queue) =
      client_run junk sendto whole fs garbage (3 + length (take 107 kdo_f)) (unix_addr kdo_f) [] in
    let local = baa_set_schedule_props_lem os' fs [] in
    (
      h,
      c,
      run,
      made ∙ sym local.1,
      rw (delivered-all os [] h works, answered) run',
      messages,
      queue,
    )
