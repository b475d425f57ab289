-- ===== src/Network/Inet.antt =====
-- Inet sockets: connect_inet_socket and bind_inet_socket of src/network.c with their callers. The
-- list of getaddrinfo and the answers of the system calls are given, each on all calls so far with
-- the new one as the last.
pub mod Calls
pub mod Laws
use libbaalue.Prelude.{
  ◌▷◌, ℕ, ◌+◌, ◌≡◌, refl, ◌∙◌, sym, ap, Bool, true, false, not, ◌&&◌, Option, none, some, List, [],
  ◌∷◌, ◌++◌, append_assoc, append-nil, arith, if◌then◌else◌, All, ℤ, pos, negsuc, eqb_ℤ, Bool-cases,
  inl, inr,
}
use libbaalue.Network.Uds.{has, so_rcvtimeo, so_sndtimeo, timeout, backlog, sock_stream, sock_dgram}

abbrev pub use_listen : ℕ
use_listen = 8

pub record AddrInfo : Type 0 where
  pub ai_family : ℕ
  pub ai_socktype : ℕ
  pub ai_protocol : ℕ
  pub ai_addr : List ℕ

-- The calls; `socket` with its result, and the two of baa_signal for SIGALRM.
pub data Call : Type 0 where
  socket : AddrInfo → ℤ → Call
  reuse_addr : ℤ → Call
  setsockopt : ℤ → ℕ → ℕ → Call
  connect bind : ℤ → List ℕ → Call
  listen : ℤ → ℕ → Call
  close : ℤ → Call
  alarm : ℕ → Call
  handler_set handler_restored : Call

-- `socket_ret` is asked before the call is recorded, the others after it.
module _ (socket_ret : List Call → ℤ) (fails : List Call → Bool) where
  -- The loop over `rp`; `result` is the head of the list.
  unfoldable pub connect_loop : AddrInfo → List AddrInfo → List Call → ℤ × List Call
  connect_loop result [] h = (negsuc 0, h)
  connect_loop result (rp ∷ more) h =
      let sfd = socket_ret h in
      let g = h ▷ socket result sfd in
      let skip = connect_loop result more g in
      let h =
        g
        ▷ setsockopt sfd so_rcvtimeo timeout
        ▷ setsockopt sfd so_sndtimeo timeout
        ▷ connect sfd result.ai_addr in
      let retry = connect_loop result more (h ▷ close sfd) in
      if eqb_ℤ sfd (negsuc 0) then skip else if fails h then retry else (sfd, h)

  -- `none` for an error of getaddrinfo.
  unfoldable pub connect_inet_socket : Option (List AddrInfo) → ℤ × List Call
  unfolding connect_loop
  connect_inet_socket none = (negsuc 0, [])
  connect_inet_socket (some []) =
      (negsuc 0, handler_set ∷ alarm timeout ∷ alarm 0 ∷ handler_restored ∷ [])
  connect_inet_socket (some (result ∷ more)) =
      let (sfd, h) = connect_loop result (result ∷ more) (handler_set ∷ alarm timeout ∷ []) in
      (sfd, h ▷ alarm 0 ▷ handler_restored)

  unfoldable pub bind_loop : ℕ → AddrInfo → List AddrInfo → List Call → ℤ × List Call
  bind_loop flags result [] h = (negsuc 0, h)
  bind_loop flags result (rp ∷ more) h =
      let sfd = socket_ret h in
      let g = h ▷ socket result sfd in
      let skip = bind_loop flags result more g in
      let r = if has flags use_listen then g ▷ reuse_addr sfd else g in
      let b =
        r
        ▷ setsockopt sfd so_sndtimeo timeout
        ▷ setsockopt sfd so_rcvtimeo timeout
        ▷ bind sfd result.ai_addr in
      let retry = bind_loop flags result more (b ▷ close sfd) in
      if eqb_ℤ sfd (negsuc 0)
      then skip
      else if has flags use_listen && fails r
      then (negsuc 0, r ▷ close sfd)
      else if fails b
      then retry
      else (sfd, b)

  unfoldable pub bind_inet_socket : ℕ → Option (List AddrInfo) → ℤ × List Call
  unfolding bind_loop
  bind_inet_socket flags none = (negsuc 0, [])
  bind_inet_socket flags (some []) = (negsuc 0, [])
  bind_inet_socket flags (some (result ∷ more)) = bind_loop flags result (result ∷ more) []

  -- The four callers; `getaddrinfo` answers for the type of the socket.
  unfoldable pub baa_inet_dgram_client : (ℕ → Option (List AddrInfo)) → ℤ × List Call
  baa_inet_dgram_client getaddrinfo = connect_inet_socket (getaddrinfo sock_dgram)

  unfoldable pub baa_inet_stream_client : (ℕ → Option (List AddrInfo)) → ℤ × List Call
  baa_inet_stream_client getaddrinfo = connect_inet_socket (getaddrinfo sock_stream)

  unfoldable pub baa_inet_dgram_server : (ℕ → Option (List AddrInfo)) → ℤ × List Call
  baa_inet_dgram_server getaddrinfo = bind_inet_socket 0 (getaddrinfo sock_dgram)

  unfoldable pub baa_inet_stream_server : (ℕ → Option (List AddrInfo)) → ℤ × List Call
  baa_inet_stream_server getaddrinfo =
      let (sfd, h) = bind_inet_socket use_listen (getaddrinfo sock_stream) in
      let g = h ▷ listen sfd backlog in
      if eqb_ℤ sfd (negsuc 0) then (negsuc 0, h) else (if fails g then negsuc 0 else sfd, g)
