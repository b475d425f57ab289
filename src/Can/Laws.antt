-- ===== src/Can/Laws.antt =====
-- The laws of the functions of src/can_lin.c.
use libbaalue.Prelude.{
  ℕ, ◌+◌, ◌%◌, ◌≤◌, ◌≡◌, refl, Bool, false, not, ◌&&◌, inl, inr, Option, none, some, List, [], ◌∷◌,
  ◌>>=◌, arith, ltb, ◌==◌, if◌then◌else◌, length, ℤ, pos, negsuc, eqb_ℤ, Bool-cases,
}
use libbaalue.Can.{
  CanOs, CanSocket, CanFilter, filter_of, flist_loop, baa_set_flist, baa_can_raw_socket,
  baa_can_bcm_socket, can_socket, can_bind,
}

-- The identifiers for which realloc works.
abbrev pub kept : (ℕ → Bool) → List ℕ → ℕ → List ℕ
kept realloc_fails [] i = []
kept realloc_fails (id ∷ ids) i =
    let rest = kept realloc_fails ids (i + 1) in if realloc_fails i then rest else id ∷ rest

-- The filters that can be set: none, or that of a single identifier.
abbrev pub settable : List ℕ → Option (List CanFilter)
settable [] = some []
settable (id ∷ []) = some (filter_of id ∷ [])
settable (id ∷ id' ∷ ids) = none

abbrev none_more : List ℕ → CanFilter → Option (ℕ × List CanFilter)
none_more [] f = some (1, f ∷ [])
none_more (id ∷ ids) f = none

flist_loop-full :
    (fresh f : CanFilter) (realloc_fails : ℕ → Bool) (ids : List ℕ) (i : ℕ)
    → flist_loop fresh realloc_fails ids i 1 (f ∷ []) ≡ none_more (kept realloc_fails ids i) f
unfolding flist_loop
flist_loop-full fresh f realloc_fails [] i = refl
flist_loop-full fresh f realloc_fails (id ∷ ids) i = elim (Bool-cases (realloc_fails i)) [
  | inl e ↦ rw e (flist_loop-full fresh f realloc_fails ids (i + 1))
  | inr e ↦ rw e
]

abbrev filters_of : Option (ℕ × List CanFilter) → Option (List CanFilter)
filters_of none = none
filters_of (some (count, filter)) = some filter

abbrev pub with_ret : ℤ → List CanFilter → Option (ℤ × List CanFilter)
with_ret ret filter = some (ret, filter)

bind_filters :
    (o : Option (ℕ × List CanFilter)) (ret : ℤ)
    → (o >>= λ (r : ℕ × List CanFilter). with_ret ret r.1) ≡ (filters_of o >>= with_ret ret)
bind_filters none ret = refl
bind_filters (some (count, filter)) ret = refl

none_more-settable :
    (id : ℕ) (ids : List ℕ) → filters_of (none_more ids (filter_of id)) ≡ settable (id ∷ ids)
none_more-settable id [] = refl
none_more-settable id (id' ∷ ids) = refl

flist_loop-settable :
    (fresh : CanFilter) (realloc_fails : ℕ → Bool) (ids : List ℕ) (i : ℕ)
    → filters_of (flist_loop fresh realloc_fails ids i 0 []) ≡ settable (kept realloc_fails ids i)
unfolding flist_loop
flist_loop-settable fresh realloc_fails [] i = refl
flist_loop-settable fresh realloc_fails (id ∷ ids) i = elim (Bool-cases (realloc_fails i)) [
  | inl e ↦ rw e (flist_loop-settable fresh realloc_fails ids (i + 1))
  | inr e ↦
      rw (e, flist_loop-full fresh (filter_of id) realloc_fails ids (i + 1))
        (none_more-settable id (kept realloc_fails ids (i + 1)))
]

-- Whatever realloc gives for each identifier of a list, the kernel is given a filter, masked to 29
-- bits, only if realloc works for one identifier alone, and an empty list if it works for none; if it
-- works for two, the loop writes past the one element that it allocates. The result is 0 or -1 as
-- setsockopt works or fails.
pub baa_set_flist_lem :
    (fresh : CanFilter) (realloc_fails : ℕ → Bool) (fails : Bool) (ids : List ℕ)
    → let ret = if fails then negsuc 0 else pos 0 in
      baa_set_flist fresh realloc_fails fails (some ids)
      ≡ (settable (kept realloc_fails ids 0) >>= with_ret ret)
unfolding baa_set_flist
baa_set_flist_lem fresh realloc_fails fails ids =
    let ret = if fails then negsuc 0 else pos 0 in
    rw (← flist_loop-settable fresh realloc_fails ids 0)
      (bind_filters (flist_loop fresh realloc_fails ids 0 0 []) ret)

-- For an interface name of at most 15 bytes, of which ioctl gives the index, both calls return the
-- descriptor of socket exactly when it, malloc and bind or connect work, and else -1; the address
-- then holds the index, or 0 if the flag BIND_TO_ANY_CANIF is given.
pub can_sockets_lem :
    (os : CanOs) (ifname : List ℕ) (n flags : ℕ)
    → length ifname ≤ 15
    → os.ifindex ≡ some n
    → let good = not (eqb_ℤ os.socket_ret (negsuc 0)) && not os.malloc_fails && not os.bind_fails in
      let index = if good then some (if flags % 2 == 1 then 0 else n) else none in
      let ret = if good then os.socket_ret else negsuc 0 in
      ((s : CanSocket) × (baa_can_raw_socket os ifname flags ≡ some s)
        × (s.ret ≡ ret)
        × (s.can_ifindex ≡ index))
      × ((s : CanSocket) × (baa_can_bcm_socket os ifname flags ≡ some s)
          × (s.ret ≡ ret)
          × (s.can_ifindex ≡ index))
unfolding baa_can_raw_socket baa_can_bcm_socket can_socket can_bind
can_sockets_lem os ifname n flags short known =
    let fits : ltb 16 (length ifname + 1) ≡ false = ground arith in
    elim (Bool-cases (eqb_ℤ os.socket_ret (negsuc 0))) [
      | inl e ↦ rw e ((_, refl, refl, refl), (_, refl, refl, refl))
      | inr e ↦
          rw (e, fits, known)
            (elim (Bool-cases os.malloc_fails) [
              | inl m ↦ rw m ((_, refl, refl, refl), (_, refl, refl, refl))
              | inr m ↦ elim (Bool-cases os.bind_fails) [
                | inl b ↦ rw (m, b) ((_, refl, refl, refl), (_, refl, refl, refl))
                | inr b ↦ rw (m, b) ((_, refl, refl, refl), (_, refl, refl, refl))
              ]
            ])
    ]
