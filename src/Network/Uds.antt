-- ===== src/Network/Uds.antt =====
-- Unix domain sockets: uds_socket and its callers, baa_unlink_uds and baa_create_uds_name_string of
-- src/network.c. The answers of the system calls are given; texts are bytes without the NUL.
pub mod Laws
use libbaalue.Prelude.{
  ◌▷◌, ◌⊎◌, lt→ltb, ℕ, ◌+◌, ◌-◌, ◌/◌, ◌%◌, ◌<◌, ◌≤◌, ◌≡◌, Bool, true, false, not, ◌&&◌, Option,
  none, some, List, [], ◌∷◌, ◌++◌, arith, ltb, ◌==◌, if◌then◌else◌, length, length-take, take,
  take_all, ℤ, pos, negsuc, eqb_ℤ, Bool-cases, inl, inr,
}
use libbaalue.Protocol.{baa_maxline}

abbrev pub use_pid : ℕ
use_pid = 1

abbrev pub use_bind : ℕ
use_bind = 2

abbrev pub use_connect : ℕ
use_connect = 4

-- `flags & bit`, for a power of two.
abbrev pub has : ℕ → ℕ → Bool
has flags bit = flags / bit % 2 == 1

-- Constants of Linux.
abbrev pub enoent : ℕ
enoent = 2

abbrev pub sock_stream : ℕ
sock_stream = 1

abbrev pub sock_dgram : ℕ
sock_dgram = 2

abbrev pub so_rcvtimeo : ℕ
so_rcvtimeo = 20

abbrev pub so_sndtimeo : ℕ
so_sndtimeo = 21

-- CONNECT_TIMEOUT, RECV_TIMEOUT and SEND_TIMEOUT, and BACKLOG.
abbrev pub timeout : ℕ
timeout = 5

abbrev pub backlog : ℕ
backlog = 10

-- UDS_NAME_ADD, "socket".
abbrev pub uds_name_add : List ℕ
uds_name_add = b's' ∷ b'o' ∷ b'c' ∷ b'k' ∷ b'e' ∷ b't' ∷ []

-- `sizeof(addr.sun_path)`.
abbrev pub sun_path_size : ℕ
sun_path_size = 108

-- The calls; `handler_set` and `handler_restored` are the two of baa_signal for SIGALRM.
pub data Call : Type 0 where
  unlink : List ℕ → Call
  socket : ℕ → Call
  bind connect : ℤ → List ℕ → Call
  listen : ℤ → ℕ → Call
  alarm : ℕ → Call
  handler_set handler_restored : Call
  setsockopt : ℤ → ℕ → ℕ → Call

-- The answers: the decimal text of getpid, the errno of a failing unlink, the value of socket, and
-- which of the other calls fail.
pub record UdsOs : Type 0 where
  pub pid : List ℕ
  pub unlink_errno : Option ℕ
  pub socket_ret : ℤ
  pub bind_fails : Bool
  pub connect_fails : Bool
  pub listen_fails : Bool
  pub malloc_fails : Bool

-- The value returned, what `*socket_f` is set to, and the calls made.
pub record Opened : Type 0 where
  pub ret : ℤ
  pub socket_f : Option (List ℕ)
  pub calls : List Call

abbrev pub refused : List Call → Opened
refused calls = record { ret = negsuc 0; socket_f = none; calls = calls }

-- An error only prints a message, since the callers do not look at the result.
abbrev set_timeout : ℤ → ℕ → ℕ → List Call → List Call
set_timeout sfd optval nsec h = h ▷ setsockopt sfd optval nsec

unfoldable pub set_snd_timeout : ℤ → List Call → List Call
set_snd_timeout sfd h = set_timeout sfd so_sndtimeo timeout h

unfoldable pub set_rcv_timeout : ℤ → List Call → List Call
set_rcv_timeout sfd h = set_timeout sfd so_rcvtimeo timeout h

-- What the snprintf calls of uds_socket write without a limit.
unfoldable pub uds_name : List ℕ → List ℕ → Option (List ℕ) → ℕ → List ℕ
uds_name pid name dir flags =
    let added : List ℕ = if has flags use_pid then pid else uds_name_add in
    let file : List ℕ = name ++ b'.' ∷ added in elim dir [ none ↦ file | some d ↦ d ++ b'/' ∷ file ]

module _ (os : UdsOs) where
  -- From the timeouts on; `n` is what snprintf returned.
  unfoldable pub uds_finish : List ℕ → ℕ → List Call → Opened
  unfolding set_snd_timeout set_rcv_timeout
  uds_finish str n h =
      let h = set_rcv_timeout os.socket_ret (set_snd_timeout os.socket_ret h) in
      if os.malloc_fails
      then refused h
      else record { ret = os.socket_ret; socket_f = some (take n str); calls = h }

  -- `if (flags & USE_CONNECT)`.
  unfoldable pub uds_connect : List ℕ → ℕ → ℕ → List Call → Opened
  unfolding uds_finish
  uds_connect str n flags h =
      let g = h ▷ handler_set ▷ alarm timeout ▷ connect os.socket_ret str in
      if not (has flags use_connect)
      then uds_finish str n h
      else if os.connect_fails
      then refused g
      else uds_finish str n (g ▷ alarm 0 ▷ handler_restored)

  -- `if (flags & USE_BIND)`.
  unfoldable pub uds_bind : List ℕ → ℕ → ℕ → List Call → Opened
  unfolding uds_connect
  uds_bind str n flags h =
      let g = h ▷ bind os.socket_ret str in
      if not (has flags use_bind)
      then uds_connect str n flags h
      else if os.bind_fails
      then refused g
      else uds_connect str n flags g

  -- `(unlink(str) == -1) && (errno != ENOENT)`.
  abbrev pub unlink_denied : Option ℕ → Bool
  unlink_denied none = false
  unlink_denied (some e) = not (e == enoent)

  unfoldable pub uds_socket : Option (List ℕ) → Option (List ℕ) → ℕ → ℕ → Opened
  unfolding uds_name uds_bind
  uds_socket none dir type flags = refused []
  uds_socket (some name) dir type flags =
      let full = uds_name os.pid name dir flags in
      let str = take (baa_maxline - 1) full in
      let h = unlink str ∷ [] in
      if unlink_denied os.unlink_errno
      then refused h
      else if ltb (sun_path_size - 1) (length str)
      then refused h
      else if eqb_ℤ os.socket_ret (negsuc 0)
      then refused (h ▷ socket type)
      else uds_bind str (length full) flags (h ▷ socket type)

  unfoldable pub baa_uds_dgram_server : Option (List ℕ) → Option (List ℕ) → Opened
  unfolding uds_socket
  baa_uds_dgram_server name dir = uds_socket name dir sock_dgram use_bind

  unfoldable pub baa_uds_stream_server : Option (List ℕ) → Option (List ℕ) → Opened
  unfolding uds_socket
  baa_uds_stream_server name dir =
      let o = uds_socket name dir sock_stream use_bind in
      let h = o.calls ▷ listen o.ret backlog in
      if eqb_ℤ o.ret (negsuc 0)
      then record o { ret = negsuc 0 }
      else if os.listen_fails
      then record { ret = negsuc 0; socket_f = o.socket_f; calls = h }
      else record { ret = o.ret; socket_f = o.socket_f; calls = h }

  unfoldable pub baa_uds_dgram_client : Option (List ℕ) → Option (List ℕ) → Opened
  unfolding uds_socket
  baa_uds_dgram_client name dir = uds_socket name dir sock_dgram (use_pid + use_bind)

  unfoldable pub baa_uds_stream_client : Option (List ℕ) → Option (List ℕ) → Opened
  unfolding uds_socket
  baa_uds_stream_client name dir = uds_socket name dir sock_dgram (use_pid + use_connect)

-- The path of getsockname, if that works, and the errno of a failing unlink.
unfoldable pub baa_unlink_uds : Option (List ℕ) → Option ℕ → ℤ × List Call
baa_unlink_uds none e = (negsuc 0, [])
baa_unlink_uds (some path) none = (pos 0, unlink path ∷ [])
baa_unlink_uds (some path) (some e) = (if e == enoent then pos 0 else negsuc 0, unlink path ∷ [])

-- NULL for `none`.
unfoldable pub baa_create_uds_name_string :
    Bool → Option (List ℕ) → Option (List ℕ) → Option (List ℕ)
baa_create_uds_name_string malloc_fails none dir = none
baa_create_uds_name_string malloc_fails (some file) none = none
baa_create_uds_name_string malloc_fails (some file) (some dir) =
    let full = dir ++ b'/' ∷ file in
    let tmp_str = take (baa_maxline - 1) full in
    if ltb sun_path_size (length tmp_str)
    then none
    else if malloc_fails
    then none
    else some (take (length full) tmp_str)
