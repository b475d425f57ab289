-- ===== src/Fiber/Answers.antt =====
-- baa_set_schedule_props_via_server of src/fiber.c on answers that need not be the server's.
use libbaalue.Prelude.{
  ℕ, ◌≡◌, ◌≢◌, refl, sym, ◌∙◌, ap, false, ◌||◌, some, List, [], ◌∷◌, ◌++◌, append_assoc, append-nil,
  arith, All, ℤ, pos, length, replicate, zero, suc, ◌≤◌, ◌==◌, Bool-cases, inl, inr,
}
use libbaalue.Protocol.{ptype_rcv_ack, ptype_error, ptype_reset, ptype_cmd_ack}
use libbaalue.Fiber.{FiberElement}
use libbaalue.Fiber.Client.{
  Incoming, from, sockaddr_size, unix_addr, store_addr, Outgoing, Client, read_rcv_ack, next,
  returned, via_server_loop, baa_set_schedule_props_via_server,
}
use libbaalue.Fiber.Session.{wire}
use libbaalue.Fiber.ViaServer.{send_fiber-wire}

-- What answers one fiber: PTYPE_RCV_ACK `acks` times, and then the byte `last`, from one sender.
pub record Answer : Type 0 where
  pub acks : ℕ
  pub sender : List ℕ
  pub last : ℕ

abbrev pub IsLast : Answer → Type 0
IsLast a = (a.last ≢ ptype_rcv_ack) × (length a.sender ≤ sockaddr_size)

abbrev pub datagrams_of : Answer → List Incoming
datagrams_of a =
    replicate a.acks (from a.sender (ptype_rcv_ack ∷ [])) ++ from a.sender (a.last ∷ []) ∷ []

abbrev pub all_datagrams : List Answer → List Incoming
all_datagrams [] = []
all_datagrams (a ∷ as') = datagrams_of a ++ all_datagrams as'

-- `addr` with the whole of a sender's address laid over it.
abbrev pub over : List ℕ → List ℕ → List ℕ
over name addr = store_addr name (length name) addr

-- The datagram for the first fiber goes to `k`, and each other one to where the one before went, with
-- the address of whoever has answered that laid over it.
abbrev pub messages_to :
    (FiberElement → ℕ → ℕ) → List ℕ → List FiberElement → List Answer → List Outgoing
messages_to junk k [] answers = []
messages_to junk k (f ∷ fs) [] = []
messages_to junk k (f ∷ fs) (a ∷ answers) =
    record { dest = k; bytes = wire (junk f) f } ∷ messages_to junk (over a.sender k) fs answers

-- An address that is laid over in full is so at any larger length, and twice is like once.
store_addr-length :
    (name addr : List ℕ) (len : ℕ) → length name ≤ len → store_addr name len addr ≡ over name addr
store_addr-length [] addr len fits = refl
store_addr-length (b ∷ name) addr zero fits = absurd (omega (arith, fits))
store_addr-length (b ∷ name) [] (suc len) fits = refl
store_addr-length (b ∷ name) (a ∷ addr) (suc len) fits =
    ap (λ l. b ∷ l) (store_addr-length name addr len (omega (arith, fits)))

over_twice : (name addr : List ℕ) → over name (over name addr) ≡ over name addr
over_twice [] addr = refl
over_twice (b ∷ name) [] = refl
over_twice (b ∷ name) (a ∷ addr) = ap (λ l. b ∷ l) (over_twice name addr)

-- The receive loop leaves with the first byte that is not PTYPE_RCV_ACK, whatever it is.
read_rcv_ack-last :
    (acks : ℕ) (sender : List ℕ) (last : ℕ) (queue : List Incoming) (ptype : ℕ) (addr : List ℕ)
    (len : ℕ) (sent : List Outgoing)
    → last ≢ ptype_rcv_ack
    → length sender ≤ len
    → read_rcv_ack
        (replicate acks (from sender (ptype_rcv_ack ∷ [])) ++ from sender (last ∷ []) ∷ queue)
        ptype
        addr
        len
        sent
      ≡ next (record { ptype_rcv = last; addr = over sender addr; queue = queue; sent = sent })
unfolding read_rcv_ack
read_rcv_ack-last zero sender last queue ptype addr len sent other fits =
    let no : (last == ptype_rcv_ack) ≡ false = ground arith in
    let whole = store_addr-length sender addr len fits in
    elim (Bool-cases (last == ptype_error || last == ptype_reset)) [
      | inl e ↦ rw (e, whole)
      | inr e ↦ elim (Bool-cases (last == ptype_cmd_ack)) [
        | inl c ↦ rw (e, c, whole)
        | inr c ↦ rw (e, c, no, whole)
      ]
    ]
read_rcv_ack-last (suc acks) sender last queue ptype addr len sent other fits =
    let rest =
      read_rcv_ack-last acks sender last queue ptype_rcv_ack (over sender addr) (length sender) sent
        other (omega arith) in
    rw (store_addr-length sender addr len fits, rest, over_twice sender addr)

read_answer :
    (a : Answer) (more rest : List Incoming) (ptype : ℕ) (addr : List ℕ) (sent : List Outgoing)
    → IsLast a
    → read_rcv_ack ((datagrams_of a ++ more) ++ rest) ptype addr sockaddr_size sent
      ≡ next (record {
        ptype_rcv = a.last;
        addr = over a.sender addr;
        queue = more ++ rest;
        sent = sent;
      })
read_answer a more rest ptype addr sent (other, fits) =
    ap (λ q. read_rcv_ack q ptype addr sockaddr_size sent)
      (append_assoc (datagrams_of a) more rest
        ∙ append_assoc (replicate a.acks (from a.sender (ptype_rcv_ack ∷ [])))
            (from a.sender (a.last ∷ []) ∷ []) (more ++ rest))
    ∙ read_rcv_ack-last a.acks a.sender a.last (more ++ rest) ptype addr sockaddr_size sent other
        fits

module _ (junk : FiberElement → ℕ → ℕ) (sendto : List Outgoing → ℤ)
    (whole : (s : List Outgoing) → sendto s ≡ pos 17) where
  answered :
      (fs : List FiberElement) (answers : List Answer) (rest : List Incoming) (ptype : ℕ)
      (k : List ℕ) (before : List Outgoing)
      → length answers ≡ length fs
      → All IsLast answers
      → (c : Client) × (via_server_loop junk sendto fs (record {
        ptype_rcv = ptype;
        addr = k;
        queue = all_datagrams answers ++ rest;
        sent = before;
      })
          ≡ some (returned (pos 0) c))
        × (c.sent ≡ before ++ messages_to junk k fs answers)
        × (c.queue ≡ rest)
  unfolding via_server_loop
  answered [] [] rest ptype k before e other = (_, refl, sym (append-nil _), refl)
  answered [] (a ∷ answers) rest ptype k before e other = absurd (omega arith)
  answered (f ∷ fs) [] rest ptype k before e other = absurd (omega arith)
  answered (f ∷ fs) (a ∷ answers) rest ptype k before e other =
      let sent = before ++ (record { dest = k; bytes = wire (junk f) f }) ∷ [] in
      let read = read_answer a (all_datagrams answers) rest ptype k sent other.0 in
      let (c, run, sends, left) =
        answered fs answers rest a.last (over a.sender k) sent (omega arith) other.1 in
      (
        c,
        rw (send_fiber-wire junk sendto whole f _, read) run,
        sends ∙ append_assoc before _ (messages_to junk (over a.sender k) fs answers),
        left,
      )

  -- With every sendto complete, baa_set_schedule_props_via_server returns 0 on every sequence of
  -- answers in which for each fiber one sender, with an address of at most a sockaddr_un, sends one byte
  -- other than PTYPE_RCV_ACK behind any number of PTYPE_RCV_ACK: also when this byte is PTYPE_ERROR, and
  -- whoever sends it. The datagram of each fiber but the first goes to where the one before went with
  -- the address of the sender that has answered it laid over: so to that sender, and not to `kdo_f`, or,
  -- when the sender has no name, to the same address once more. It takes no more datagrams than these.
  pub via_server-answers :
      (fs : List FiberElement) (answers : List Answer) (rest : List Incoming) (kdo_f : List ℕ)
      (garbage : ℕ)
      → length answers ≡ length fs
      → All IsLast answers
      → (c : Client) × (baa_set_schedule_props_via_server junk sendto fs kdo_f garbage
            (all_datagrams answers ++ rest)
          ≡ some (returned (pos 0) c))
        × (c.sent ≡ messages_to junk (unix_addr kdo_f) fs answers)
        × (c.queue ≡ rest)
  unfolding baa_set_schedule_props_via_server
  via_server-answers fs answers rest kdo_f garbage e other =
      answered fs answers rest garbage (unix_addr kdo_f) [] e other
