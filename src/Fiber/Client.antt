-- ===== src/Fiber/Client.antt =====
-- baa_set_schedule_props_via_server of src/fiber.c. The socket's answers are a queue of what
-- recvfrom gives, one entry for each call; an empty queue leaves the call waiting.
use libbaalue.Prelude.{
  ℕ, ◌+◌, ◌*◌, ◌^◌, Bool, ◌||◌, Option, some, List, [], ◌∷◌, ◌++◌, ◌>>=◌, ◌==◌, if◌then◌else◌, take,
  replicate, length, zero, suc, ◌-◌, ℤ, pos, negsuc, eqb_ℤ, pos_part, to_u32,
}
use libbaalue.Protocol.{
  baa_max_len_msg, ptype_sched_props, ptype_error, ptype_cmd_ack, ptype_rcv_ack, ptype_reset,
}
use libbaalue.Serialize.{baa_pack}
use libbaalue.Fiber.{FiberElement}
use libbaalue.Fiber.Server.{sched_format}

-- An answer to recvfrom: an error, or the address of a sender, at most a whole sockaddr_un, and the
-- bytes of its datagram. The address of a socket without a name is empty.
pub data Incoming : Type 0 where
  failed : Incoming
  from : List ℕ → List ℕ → Incoming

-- `sizeof(struct sockaddr_un)`; a sun_path of 108 bytes stands behind the family AF_UNIX.
abbrev pub sockaddr_size : ℕ
sockaddr_size = 110

-- `addr` for the path `kdo_f`: memset and strncpy.
abbrev pub unix_addr : List ℕ → List ℕ
unix_addr kdo_f = let path = take 107 kdo_f in 1 ∷ 0 ∷ path ++ replicate (108 - length path) 0

-- What recvfrom does to `addr`: as much of the sender's address as `len` says is laid over it.
abbrev pub store_addr : List ℕ → ℕ → List ℕ → List ℕ
store_addr [] len addr = addr
store_addr (b ∷ name) zero addr = addr
store_addr (b ∷ name) (suc len) [] = []
store_addr (b ∷ name) (suc len) (a ∷ addr) = b ∷ store_addr name len addr

-- A datagram sent, with its destination.
pub record Outgoing : Type 0 where
  pub dest : List ℕ
  pub bytes : List ℕ

-- What the function's variables hold between two fibers: `ptype_rcv`, which starts uninitialised,
-- and the bytes of `addr`, which recvfrom overwrites; CLEAN_SCHED_PROPS_CLIENT sets `len` for each.
pub record Client : Type 0 where
  pub ptype_rcv : ℕ
  pub addr : List ℕ
  pub queue : List Incoming
  pub sent : List Outgoing

-- The end of the receive loop: `next` is `continue` with the next fiber, `error` the return of -1,
-- and `waiting` an empty queue.
pub data Receive : Type 0 where
  next error waiting : Client → Receive

-- The byte that recvfrom stores; an empty datagram stores none.
abbrev pub received_byte : List ℕ → ℕ → ℕ
received_byte [] old = old
received_byte (b ∷ bytes) old = b

-- From the label read_rcv_ack on. `len` becomes the length of the sender's address, which is what the
-- next recvfrom may store.
unfoldable pub read_rcv_ack : List Incoming → ℕ → List ℕ → ℕ → List Outgoing → Receive
read_rcv_ack [] ptype addr len sent =
    waiting (record { ptype_rcv = ptype; addr = addr; queue = []; sent = sent })
read_rcv_ack (failed ∷ queue) ptype addr len sent =
    error (record { ptype_rcv = ptype; addr = addr; queue = queue; sent = sent })
read_rcv_ack (from sender bytes ∷ queue) ptype addr len sent =
    let addr = store_addr sender len addr in
    let p = received_byte bytes ptype in
    let done = next (record { ptype_rcv = p; addr = addr; queue = queue; sent = sent }) in
    let again = read_rcv_ack queue p addr (length sender) sent in
    if p == ptype_error || p == ptype_reset
    then done
    else if p == ptype_cmd_ack
    then done
    else if p == ptype_rcv_ack
    then again
    else done

-- The argument words of baa_pack. `PTYPE_SCHED_PROPS` and the four fields are `int`s: the upper
-- half of a word, which the caller leaves unspecified, is `junk`.
abbrev pub int_word : ℕ → ℤ → ℕ
int_word junk z = to_u32 z + 2 ^ 32 * junk

abbrev pub sched_words : (ℕ → ℕ) → FiberElement → List ℕ
sched_words junk f =
    int_word (junk 0) (pos ptype_sched_props)
    ∷ int_word (junk 1) f.kernel_tid
    ∷ int_word (junk 2) f.policy
    ∷ int_word (junk 3) f.cpu
    ∷ int_word (junk 4) f.priority
    ∷ []

-- The result of the call: the `int` returned, or a wait for an answer that has not come.
pub data Outcome : Type 0 where
  returned : ℤ → Client → Outcome
  waits : Client → Outcome

module _ (junk : FiberElement → ℕ → ℕ) (sendto : List Outgoing → ℤ) where
  -- The datagram for one fiber, to the whole of `addr`, and the variables after sendto; `sendto` answers
  -- on all that was sent, with this call as the last. `none` at the left is a fault of baa_pack.
  unfoldable pub send_fiber : FiberElement → Client → Option (Bool × Client)
  send_fiber f c = do
    p ← baa_pack (replicate baa_max_len_msg 0) sched_format (sched_words (junk f) f)
    let bytes = take (pos_part p.result) p.buf
    let sent = c.sent ++ (record { dest = c.addr; bytes = bytes }) ∷ []
    some (eqb_ℤ (sendto sent) p.result, record c { sent = sent })

  unfoldable pub via_server_loop : List FiberElement → Client → Option Outcome
  via_server_loop [] c = some (returned (pos 0) c)
  via_server_loop (f ∷ fs) c = do
    (sent_all, c) ← send_fiber f c
    let received = read_rcv_ack c.queue c.ptype_rcv c.addr sockaddr_size c.sent
    let on_next = λ (c : Client). via_server_loop fs c
    if sent_all
        then elim received [
          | next c ↦ on_next c
          | error c ↦ some (returned (negsuc 0) c)
          | waiting c ↦ some (waits c)
        ]
        else some (returned (negsuc 0) c)

  -- `ptype_rcv` has the value `garbage` before the first answer; `kdo_f` is the server's path.
  -- The fibers are the first `count` of the array.
  unfoldable pub baa_set_schedule_props_via_server :
      List FiberElement → List ℕ → ℕ → List Incoming → Option Outcome
  baa_set_schedule_props_via_server fs kdo_f garbage queue =
      via_server_loop fs
        (record { ptype_rcv = garbage; addr = unix_addr kdo_f; queue = queue; sent = [] })
