-- ===== src/Fiber/AnyDatagram.antt =====
-- The server on every datagram, whatever its bytes.
use libbaalue.Prelude.{
  ◌▷◌, ℕ, ◌-◌, ◌≡◌, refl, inl, inr, ◌⊎◌, ◌≢◌, some, List, [], ◌∷◌, ◌++◌, ◌>>=◌, >>=-eq-some, arith,
  length, length-append, length-replicate, length-take_le, take, replicate, get_elem?, ℤ, ◌==◌,
  Bool-cases,
}
use libbaalue.Protocol.{ptype_sched_props, ptype_cmd_ack, ptype_rcv_ack}
use libbaalue.Serialize.Reader.{Store}
use libbaalue.Serialize.Total.{assign, baa_unpack-total}
use libbaalue.Fiber.{FiberElement, Event, report, ptype_not_supported, Os}
use libbaalue.Fiber.Props.{calls, calls_for, sent, history_laws}
use libbaalue.Fiber.Memory.{cleared, run_stores, element_of}
use libbaalue.Fiber.Decode.{decode}
use libbaalue.Fiber.Server.{
  datagram, fill, sched_pointers, serve, unpack_and_serve, schedule_server_round,
}
use libbaalue.Fiber.Session.{letters, serve_lem}

length-fill : (bytes : List ℕ) → length (fill bytes) ≡ 100
length-fill bytes =
    let kept = take 100 bytes in
    omega (
      arith,
      length-append kept (replicate (100 - length kept) 0),
      length-replicate {A = ℕ} (100 - length kept) 0,
      length-take_le 100 bytes,
    )

abbrev sched_assign : List ℤ → List Store
sched_assign vs = assign letters sched_pointers vs

-- Five values make the assignments of the format, and these a structure.
assigned :
    (vs : List ℤ)
    → length vs ≡ 5
    → (f : FiberElement) × ((run_stores (sched_assign vs) cleared >>= element_of) ≡ some f)
assigned (v ∷ tid ∷ policy ∷ cpu ∷ priority ∷ []) h = (_, decode v tid policy cpu priority)
assigned [] h = absurd (omega arith)
assigned (_ ∷ []) h = absurd (omega arith)
assigned (_ ∷ _ ∷ []) h = absurd (omega arith)
assigned (_ ∷ _ ∷ _ ∷ []) h = absurd (omega arith)
assigned (_ ∷ _ ∷ _ ∷ _ ∷ []) h = absurd (omega arith)
assigned (_ ∷ _ ∷ _ ∷ _ ∷ _ ∷ _ ∷ _) h = absurd (omega arith)

unpack_and_serve_total :
    (os : Os) (buf : List ℕ) (h : List Event)
    → length buf ≡ 100
    → (f : FiberElement) × (unpack_and_serve os buf h ≡ some (serve os f h))
unfolding unpack_and_serve
unpack_and_serve_total os buf h len =
    let (vs, five, run) = baa_unpack-total letters sched_pointers buf refl (omega arith) in
    let (f, chain) = assigned vs five in
    let (mem, stored, loaded) =
      >>=-eq-some (run_stores (sched_assign vs) cleared) element_of chain in
    (f, rw (run, stored, loaded))

-- The byte that the server takes for the protocol type: 0 if the datagram is empty.
abbrev pub ptype_of : List ℕ → ℕ
ptype_of [] = 0
ptype_of (b ∷ bytes) = b

first_byte : (bytes : List ℕ) → get_elem? (fill bytes) 0 ≡ some (ptype_of bytes)
first_byte [] = refl
first_byte (b ∷ bytes) = refl

-- On every datagram the round ends with no fault. If the first byte is PTYPE_SCHED_PROPS, or there
-- is none, the scheduling calls of one fiber are made and the two acknowledgements sent; any other
-- datagram is answered by nothing and calls nothing.
pub schedule_server_round_total :
    (os : Os) (bytes : List ℕ) (h : List Event)
    → (h' : List Event) × (schedule_server_round os (datagram bytes) h ≡ some h')
      × (((ptype_of bytes ≡ ptype_sched_props)
            × ((f : FiberElement) × (calls h' ≡ calls h ++ calls_for (f ∷ []))
                × (sent h' ≡ sent h ++ ptype_rcv_ack ∷ ptype_cmd_ack ∷ [])))
          ⊎ ((ptype_of bytes ≢ ptype_sched_props) × (calls h' ≡ calls h) × (sent h' ≡ sent h)))
unfolding schedule_server_round
schedule_server_round_total os bytes h = elim (Bool-cases (ptype_of bytes == ptype_sched_props)) [
  | inl e ↦
      let (f, run) = unpack_and_serve_total os (fill bytes) h (length-fill bytes) in
      let (made, answered) = serve_lem os f h in
      (serve os f h, rw (first_byte bytes, e) run, inl (ground arith, (f, made, answered)))
  | inr e ↦ (
    h ▷ report (ptype_not_supported (ptype_of bytes)),
    rw (first_byte bytes, e),
    inr (ground arith, simp history_laws, simp history_laws),
  )
]
