-- ===== src/Tests/Sockets.antt =====
-- Tests of Network and Can: src/network.c and src/can_lin.c.
use libbaalue.Prelude.{
  ◌==◌, ℕ, ◌≤◌, ◌<◌, ◌≡◌, ◌⊎◌, refl, Bool, false, none, some, List, [], ◌∷◌, ◌++◌, ltb, length, ℤ,
  pos, negsuc,
}
use libbaalue.Network.Uds.{
  UdsOs, use_bind, sock_dgram, uds_name, uds_name_add, uds_socket, baa_uds_dgram_server,
  baa_uds_stream_client, baa_create_uds_name_string, unlink, socket, connect, alarm, handler_set,
  handler_restored, setsockopt,
}
use libbaalue.Network.Uds.Laws.{uds_socket_lem, uds_name-agrees}
use libbaalue.Network.Inet.{AddrInfo, Call, connect_inet_socket, bind_inet_socket}
use libbaalue.Network.Inet.Laws.{Leaves, OnlyTries, inet_sockets_lem}
use libbaalue.Can.{CanOs, CanFilter, filter_of, baa_set_flist}
use libbaalue.Can.Laws.{baa_set_flist_lem}

abbrev pub uds_os : UdsOs
uds_os = record {
  pid = b'4' ∷ b'2' ∷ [];
  unlink_errno = some 2;
  socket_ret = pos 5;
  bind_fails = false;
  connect_fails = false;
  listen_fails = false;
  malloc_fails = false;
}

abbrev kdo : List ℕ
kdo = b'k' ∷ b'd' ∷ b'o' ∷ []

abbrev tmp : List ℕ
tmp = b'/' ∷ b't' ∷ []

abbrev kdo_42 : List ℕ
kdo_42 = kdo ++ b'.' ∷ b'4' ∷ b'2' ∷ []

-- The stream client makes a datagram socket.
stream_client_run : baa_uds_stream_client uds_os (some kdo) none ≡ (record {
  ret = pos 5;
  socket_f = some kdo_42;
  calls =
      unlink kdo_42
      ∷ socket sock_dgram
      ∷ handler_set
      ∷ alarm 5
      ∷ connect (pos 5) kdo_42
      ∷ alarm 0
      ∷ handler_restored
      ∷ setsockopt (pos 5) 21 5
      ∷ setsockopt (pos 5) 20 5
      ∷ [];
})
unfolding baa_uds_stream_client
stream_client_run = refl

uds_socket_lem_example :
    ((uds_socket uds_os (some kdo) (some tmp) sock_dgram use_bind).ret ≡ pos 5)
    × ((uds_socket uds_os (some kdo) (some tmp) sock_dgram use_bind).socket_f
        ≡ some (uds_name (b'4' ∷ b'2' ∷ []) kdo (some tmp) use_bind))
unfolding uds_name
uds_socket_lem_example = uds_socket_lem uds_os kdo (some tmp) sock_dgram use_bind

uds_name-agrees_example :
    let file = kdo ++ b'.' ∷ uds_name_add in
    let path = tmp ++ b'/' ∷ file in
    let o = baa_uds_dgram_server uds_os (some kdo) (some tmp) in
    let s = baa_create_uds_name_string false (some file) (some tmp) in
    ((length path ≤ 107) × (o.ret ≡ uds_os.socket_ret) × (o.socket_f ≡ some path) × (s ≡ some path))
    ⊎ ((length path ≡ 108) × (o.ret ≡ negsuc 0) × (o.socket_f ≡ none) × (s ≡ some path))
    ⊎ ((108 < length path) × (o.ret ≡ negsuc 0) × (o.socket_f ≡ none) × (s ≡ none))
uds_name-agrees_example = uds_name-agrees uds_os kdo tmp refl

abbrev local_host : AddrInfo
local_host = record { ai_family = 10; ai_socktype = 1; ai_protocol = 6; ai_addr = 1 ∷ [] }

abbrev other_host : AddrInfo
other_host = record { ai_family = 2; ai_socktype = 1; ai_protocol = 6; ai_addr = 2 ∷ [] }

-- The first connect or bind fails, the next works.
abbrev few : List Call → Bool
few h = ltb (length h) 5

abbrev next_fd : List Call → ℤ
next_fd h = pos (length h)

inet_sockets_lem_example :
    Leaves (connect_inet_socket next_fd few (some (local_host ∷ other_host ∷ [])))
    × Leaves (bind_inet_socket next_fd few 8 (some (local_host ∷ other_host ∷ [])))
    × OnlyTries local_host (connect_inet_socket next_fd few (some (local_host ∷ other_host ∷ []))).1
inet_sockets_lem_example = inet_sockets_lem next_fd few 8 local_host (other_host ∷ [])

abbrev pub can_os : CanOs
can_os = record { socket_ret = pos 4; ifindex = some 3; malloc_fails = false; bind_fails = false }

abbrev pub vcan0 : List ℕ
vcan0 = b'v' ∷ b'c' ∷ b'a' ∷ b'n' ∷ b'0' ∷ []

abbrev fresh : CanFilter
fresh = record { can_id = 0; can_mask = 0 }

baa_set_flist_lem_example :
    baa_set_flist fresh (λ i. i == 1) false (some (0x123 ∷ 0x456 ∷ []))
    ≡ some (pos 0, filter_of 0x123 ∷ [])
baa_set_flist_lem_example = baa_set_flist_lem fresh (λ i. i == 1) false (0x123 ∷ 0x456 ∷ [])

two_identifiers : baa_set_flist fresh (λ i. false) false (some (0x123 ∷ 0x456 ∷ [])) ≡ none
unfolding baa_set_flist
two_identifiers = refl
