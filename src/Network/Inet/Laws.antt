-- ===== src/Network/Inet/Laws.antt =====
-- Which addresses connect_inet_socket and bind_inet_socket of src/network.c try, and what they leave
-- open.
use libbaalue.Prelude.{
  ◌▷◌, ℕ, ◌≡◌, refl, ◌∙◌, sym, Bool, some, List, [], ◌∷◌, ◌++◌, append_assoc, append-nil,
  if◌then◌else◌, All, ℤ, negsuc, eqb_ℤ, Bool-cases, inl, inr,
}
use libbaalue.Network.Uds.{has, timeout, so_rcvtimeo, so_sndtimeo}
use libbaalue.Network.Inet.Calls.{opened, closed, tried, opened-append, closed-append, tried-append}
use libbaalue.Network.Inet.{
  use_listen, AddrInfo, Call, socket, reuse_addr, setsockopt, connect, bind, close, alarm,
  handler_set, handler_restored, connect_loop, connect_inet_socket, bind_loop, bind_inet_socket,
}

ruleset call_laws = (opened-append, closed-append, tried-append, append_assoc, append-nil)

-- The descriptor that a call returns, if it returns one.
abbrev pub kept : ℤ → List ℤ
kept r = if eqb_ℤ r (negsuc 0) then [] else r ∷ []

-- The state at the head of a loop, and the state it ends in.
abbrev Balanced : List Call → Type 0
Balanced h = opened h ≡ closed h

abbrev pub Leaves : ℤ × List Call → Type 0
Leaves o = opened o.1 ≡ closed o.1 ++ kept o.0

-- Every address tried is `a`.
abbrev pub OnlyTries : AddrInfo → List Call → Type 0
OnlyTries a h = All (λ b. b ≡ a) (tried h)

All-append :
    (a : AddrInfo) (xs ys : List AddrInfo)
    → All (λ b. b ≡ a) xs
    → All (λ b. b ≡ a) ys
    → All (λ b. b ≡ a) (xs ++ ys)
All-append a [] ys hx hy = hy
All-append a (x ∷ xs) ys hx hy = (hx.0, All-append a xs ys hx.1 hy)

OnlyTries-append :
    (a : AddrInfo) (g h : List Call) → OnlyTries a g → OnlyTries a h → OnlyTries a (g ++ h)
OnlyTries-append a g h hg hh = rw tried-append (All-append a (tried g) (tried h) hg hh)

module _ (socket_ret : List Call → ℤ) (fails : List Call → Bool) where
  connect_loop-Leaves :
      (result : AddrInfo) (more : List AddrInfo) (h : List Call)
      → Balanced h
      → Leaves (connect_loop socket_ret fails result more h)
  unfolding connect_loop
  connect_loop-Leaves result [] h b = b ∙ sym (append-nil _)
  connect_loop-Leaves result (rp ∷ more) h b =
      let sfd = socket_ret h in
      let g = h ▷ socket result sfd in
      let c =
        g
        ▷ setsockopt sfd so_rcvtimeo timeout
        ▷ setsockopt sfd so_sndtimeo timeout
        ▷ connect sfd result.ai_addr in
      elim (Bool-cases (eqb_ℤ sfd (negsuc 0))) [
        | inl e ↦ rw e (connect_loop-Leaves result more g (simp (call_laws, e, b)))
        | inr e ↦ elim (Bool-cases (fails c)) [
          | inl f ↦
              rw (e, f) (connect_loop-Leaves result more (c ▷ close sfd) (simp (call_laws, e, b)))
          | inr f ↦ rw (e, f, e) (simp (call_laws, e, b))
        ]
      ]

  bind_loop-Leaves :
      (flags : ℕ) (result : AddrInfo) (more : List AddrInfo) (h : List Call)
      → Balanced h
      → Leaves (bind_loop socket_ret fails flags result more h)
  unfolding bind_loop
  bind_loop-Leaves flags result [] h b = b ∙ sym (append-nil _)
  bind_loop-Leaves flags result (rp ∷ more) h b =
      let sfd = socket_ret h in
      let g = h ▷ socket result sfd in
      let r = g ▷ reuse_addr sfd in
      let set = λ (h : List Call).
        h
        ▷ setsockopt sfd so_sndtimeo timeout
        ▷ setsockopt sfd so_rcvtimeo timeout
        ▷ bind sfd result.ai_addr in
      elim (Bool-cases (eqb_ℤ sfd (negsuc 0))) [
        | inl e ↦ rw e (bind_loop-Leaves flags result more g (simp (call_laws, e, b)))
        | inr e ↦ elim (Bool-cases (has flags use_listen)) [
          | inl l ↦ elim (Bool-cases (fails r)) [
            | inl x ↦ rw (e, l, x) (simp (call_laws, e, b))
            | inr x ↦ elim (Bool-cases (fails (set r))) [
              | inl f ↦
                  rw (e, l, x, f)
                    (bind_loop-Leaves flags result more (set r ▷ close sfd)
                      (simp (call_laws, e, b)))
              | inr f ↦ rw (e, l, x, f, e) (simp (call_laws, e, b))
            ]
          ]
          | inr l ↦ elim (Bool-cases (fails (set g))) [
            | inl f ↦
                rw (e, l, f)
                  (bind_loop-Leaves flags result more (set g ▷ close sfd) (simp (call_laws, e, b)))
            | inr f ↦ rw (e, l, f, e) (simp (call_laws, e, b))
          ]
        ]
      ]

  connect_loop-OnlyTries :
      (result : AddrInfo) (more : List AddrInfo) (h : List Call)
      → OnlyTries result h
      → OnlyTries result (connect_loop socket_ret fails result more h).1
  unfolding connect_loop
  connect_loop-OnlyTries result [] h o = o
  connect_loop-OnlyTries result (rp ∷ more) h o =
      let sfd = socket_ret h in
      let g = h ▷ socket result sfd in
      let c =
        g
        ▷ setsockopt sfd so_rcvtimeo timeout
        ▷ setsockopt sfd so_sndtimeo timeout
        ▷ connect sfd result.ai_addr in
      let og : OnlyTries result g =
        OnlyTries-append result h (socket result sfd ∷ []) o (refl, tt) in
      let oc : OnlyTries result c =
        rw (tried-append, tried-append, tried-append, append-nil, append-nil, append-nil) og in
      elim (Bool-cases (eqb_ℤ sfd (negsuc 0))) [
        | inl e ↦ rw e (connect_loop-OnlyTries result more g og)
        | inr e ↦ elim (Bool-cases (fails c)) [
          | inl f ↦
              rw (e, f)
                (connect_loop-OnlyTries result more (c ▷ close sfd)
                  (OnlyTries-append result c _ oc tt))
          | inr f ↦ rw (e, f) oc
        ]
      ]

-- Whatever the system answers, the client's socket and a server's socket, for any flags, leave no
-- descriptor behind: each one that socket gave is closed again, but the one returned, if any. The
-- client's attempts all go to the first address of the list.
pub inet_sockets_lem :
    (socket_ret : List Call → ℤ) (fails : List Call → Bool) (flags : ℕ) (result : AddrInfo)
    (more : List AddrInfo)
    → let list = some (result ∷ more) in
      Leaves (connect_inet_socket socket_ret fails list)
      × Leaves (bind_inet_socket socket_ret fails flags list)
      × OnlyTries result (connect_inet_socket socket_ret fails list).1
unfolding connect_inet_socket bind_inet_socket
inet_sockets_lem socket_ret fails flags result more =
    let start = handler_set ∷ alarm timeout ∷ [] in
    let left = connect_loop-Leaves socket_ret fails result (result ∷ more) start refl in
    let only = connect_loop-OnlyTries socket_ret fails result (result ∷ more) start tt in
    let h = (connect_loop socket_ret fails result (result ∷ more) start).1 in
    let still = OnlyTries-append result h (alarm 0 ∷ []) only tt in
    (
      simp (call_laws, left),
      bind_loop-Leaves socket_ret fails flags result (result ∷ more) [] refl,
      OnlyTries-append result (h ▷ alarm 0) (handler_restored ∷ []) still tt,
    )
