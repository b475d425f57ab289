-- ===== src/Network/Uds/Laws.antt =====
-- When uds_socket succeeds, and which path baa_uds_dgram_server and baa_create_uds_name_string of
-- src/network.c agree on.
use libbaalue.Prelude.{
  ◌⊎◌, lt→ltb, ℕ, ◌<◌, ◌≤◌, ◌≡◌, Bool, true, false, not, ◌&&◌, Option, none, some, List, ◌∷◌, ◌++◌,
  arith, ltb, if◌then◌else◌, length, length-take, take, take_all, negsuc, eqb_ℤ, Bool-cases, inl,
  inr,
}
use libbaalue.Network.Uds.{
  UdsOs, use_bind, use_connect, has, sock_dgram, uds_name_add, uds_name, uds_finish, uds_connect,
  uds_bind, unlink_denied, uds_socket, baa_uds_dgram_server, baa_create_uds_name_string,
}

-- Whether every call that uds_socket makes with these flags works.
abbrev pub all_work : UdsOs → ℕ → Bool
all_work os flags =
    not (unlink_denied os os.unlink_errno)
    && not (eqb_ℤ os.socket_ret (negsuc 0))
    && not (has flags use_bind && os.bind_fails)
    && not (has flags use_connect && os.connect_fails)
    && not os.malloc_fails

-- The limit of 107 bytes, on the text that is cut to 253.
cut_long : (k n : ℕ) (full : List ℕ) → n < k → ltb n (length (take k full)) ≡ ltb n (length full)
cut_long k n full h = elim (Bool-cases (ltb (length full) k)) [
  | inl e ↦ rw (take_all full k (ground arith))
  | inr e ↦
      let l : length (take k full) ≡ k = length-take k full (ground arith) in
      let a : ltb n k ≡ true = ground arith in
      let b : ltb n (length full) ≡ true = ground arith in rw (l, a, b)
]

cut_short : (full : List ℕ) → length full ≤ 253 → take (length full) (take 253 full) ≡ full
cut_short full h = rw (take_all full 253 h) (take_all full (length full) (omega arith))

-- For every answer of the system: uds_socket returns the descriptor of socket, and stores the name, if
-- the name has at most 107 bytes and all calls work; else it returns -1 and stores nothing.
pub uds_socket_lem :
    (os : UdsOs) (name : List ℕ) (dir : Option (List ℕ)) (type flags : ℕ)
    → let full = uds_name os.pid name dir flags in
      let good = not (ltb 107 (length full)) && all_work os flags in
      let o = uds_socket os (some name) dir type flags in
      (o.ret ≡ (if good then os.socket_ret else negsuc 0))
      × (o.socket_f ≡ (if good then some full else none))
unfolding uds_socket uds_bind uds_connect uds_finish
uds_socket_lem os name dir type flags =
    let full = uds_name os.pid name dir flags in
    elim (Bool-cases (ltb 107 (length full))) [
      | inl long ↦ rw (cut_long 253 107 full (omega arith), long) (ground arith)
      | inr short ↦
          let kept = cut_short full (ground arith) in
          rw (cut_long 253 107 full (omega arith), short, kept) (ground arith)
    ]

-- The string for a path, by the limit of 108 bytes.
create_lem :
    (file dir : List ℕ)
    → let path = dir ++ b'/' ∷ file in
      baa_create_uds_name_string false (some file) (some dir)
      ≡ (if ltb 108 (length path) then none else some path)
unfolding baa_create_uds_name_string
create_lem file dir =
    let path = dir ++ b'/' ∷ file in
    elim (Bool-cases (ltb 108 (length path))) [
      | inl long ↦ rw (cut_long 253 108 path (omega arith), long)
      | inr short ↦
          let kept = cut_short path (ground arith) in
          rw (cut_long 253 108 path (omega arith), short, kept)
    ]

sizes : (n : ℕ) → (n ≤ 107) ⊎ (n ≡ 108) ⊎ (108 < n)
sizes n = omega arith

-- For a server on which all calls work, baa_create_uds_name_string gives the path of the socket that
-- baa_uds_dgram_server binds for a name, from the file name with ".socket" behind it, and neither
-- takes a path of more than 108 bytes. For one of 108 bytes the string is made, but the server
-- returns -1.
pub uds_name-agrees :
    (os : UdsOs) (name dir : List ℕ)
    → all_work os use_bind ≡ true
    → let file = name ++ b'.' ∷ uds_name_add in
      let path = dir ++ b'/' ∷ file in
      let o = baa_uds_dgram_server os (some name) (some dir) in
      let s = baa_create_uds_name_string false (some file) (some dir) in
      ((length path ≤ 107) × (o.ret ≡ os.socket_ret) × (o.socket_f ≡ some path) × (s ≡ some path))
      ⊎ ((length path ≡ 108) × (o.ret ≡ negsuc 0) × (o.socket_f ≡ none) × (s ≡ some path))
      ⊎ ((108 < length path) × (o.ret ≡ negsuc 0) × (o.socket_f ≡ none) × (s ≡ none))
unfolding baa_uds_dgram_server uds_name
uds_name-agrees os name dir good =
    let file : List ℕ = name ++ b'.' ∷ uds_name_add in
    let path : List ℕ = dir ++ b'/' ∷ file in
    let (r, f) = uds_socket_lem os name (some dir) sock_dgram use_bind in
    let made = create_lem file dir in
    elim (sizes (length path)) [
      | inl small ↦
          let a : ltb 107 (length path) ≡ false = ground arith in
          let b : ltb 108 (length path) ≡ false = ground arith in
          inl (small, rw (a, good) at r, rw (a, good) at f, rw b at made)
      | inr (inl same) ↦
          let a : ltb 107 (length path) ≡ true = lt→ltb 107 (length path) (omega arith) in
          let b : ltb 108 (length path) ≡ false = ground arith in
          inr (inl (same, rw a at r, rw a at f, rw b at made))
      | inr (inr long) ↦
          let a : ltb 107 (length path) ≡ true = lt→ltb 107 (length path) (omega arith) in
          let b : ltb 108 (length path) ≡ true = lt→ltb 108 (length path) long in
          inr (inr (long, rw a at r, rw a at f, rw b at made))
    ]
