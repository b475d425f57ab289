-- ===== src/Fiber/Session.antt =====
-- Client and server of the scheduling protocol together, and the server alone on other datagrams.
use libbaalue.Prelude.{
  ℕ, ◌%◌, ◌^◌, ◌≡◌, refl, ◌∙◌, some, List, [], ◌∷◌, ◌++◌, ◌>>=◌, >>=-eq-some, arith, ℤ, pos, negsuc,
  IsInt, signed32, signed32-to_u32, to_u32, if◌then◌else◌, replicate,
}
use libbaalue.Protocol.{ptype_sched_props, ptype_cmd_ack, ptype_rcv_ack}
use libbaalue.Serialize.Reader.{baa_unpack}
use libbaalue.Serialize.Bytes.{Letter, uchar, slong, encode_all}
use libbaalue.Serialize.Unpack.{baa_unpack-encode}
use libbaalue.Fiber.{FiberElement, HasInts, Event, Os}
use libbaalue.Fiber.Props.{
  calls, calls_for, sent, history_laws, calls-report_if, sent-report_if, baa_set_schedule_props_lem,
}
use libbaalue.Fiber.Memory.{cleared, run_stores, element_of}
use libbaalue.Fiber.Decode.{
  element, is_negative, decode, sched_stores, low_int-to_u64, high_int-to_u64,
}
use libbaalue.Fiber.Server.{
  datagram, sched_format, sched_pointers, send_byte, serve, unpack_and_serve, schedule_server_round,
}
use libbaalue.Fiber.Client.{sched_words, int_word}

abbrev pub letters : List Letter
letters = uchar ∷ slong ∷ slong ∷ slong ∷ slong ∷ []

-- The 17 bytes that the client sends for a fiber.
abbrev pub wire : (ℕ → ℕ) → FiberElement → List ℕ
wire junk f = encode_all letters (sched_words junk f)

-- The fiber that the server sees: the four fields of the message. Its `dt`, which the server does
-- not use, is overwritten by the sign of `cpu`.
abbrev pub seen : FiberElement → FiberElement
seen f =
    element f.kernel_tid f.policy f.cpu f.priority (if is_negative f.cpu then negsuc 0 else pos 0)

word_value : (j : ℕ) (z : ℤ) → IsInt z → signed32 (int_word j z % 2 ^ 32) ≡ z
word_value j z h =
    let low : int_word j z % 2 ^ 32 ≡ to_u32 z = omega arith in rw low (signed32-to_u32 z h)

module _ (os : Os) (f : FiberElement) (junk : ℕ → ℕ) (ints : HasInts f) where
  decoded :
      (run_stores (sched_stores (pos 0) f.kernel_tid f.policy f.cpu f.priority) cleared
        >>= element_of)
      ≡ some (seen f)
  decoded =
      decode (pos 0) f.kernel_tid f.policy f.cpu f.priority
      ∙ rw (
        low_int-to_u64 f.kernel_tid ints.kernel_tid,
        low_int-to_u64 f.policy ints.policy,
        low_int-to_u64 f.cpu ints.cpu,
        low_int-to_u64 f.priority ints.priority,
        high_int-to_u64 f.cpu ints.cpu,
      )

  read :
      (back : List ℕ)
      → baa_unpack (wire junk f ++ back) sched_format sched_pointers
        ≡ some (record {
          result = pos 17;
          stores = sched_stores (pos 0) f.kernel_tid f.policy f.cpu f.priority;
          reports = [];
        })
  read back =
      let ptype : int_word (junk 0) (pos ptype_sched_props) % 2 ^ 8 ≡ 0 = omega arith in
      baa_unpack-encode letters (sched_words junk f) sched_pointers back refl refl
      ∙ rw (
        ptype,
        word_value (junk 1) f.kernel_tid ints.kernel_tid,
        word_value (junk 2) f.policy ints.policy,
        word_value (junk 3) f.cpu ints.cpu,
        word_value (junk 4) f.priority ints.priority,
      )

  unpack_and_serve-wire :
      (back : List ℕ) (h : List Event)
      → unpack_and_serve os (wire junk f ++ back) h ≡ some (serve os (seen f) h)
  unfolding unpack_and_serve
  unpack_and_serve-wire back h =
      let (mem, stored, loaded) = >>=-eq-some (run_stores _ cleared) element_of decoded in
      rw (read back, stored, loaded)

  pub round-wire :
      (h : List Event)
      → schedule_server_round os (datagram (wire junk f)) h ≡ some (serve os (seen f) h)
  unfolding schedule_server_round
  round-wire h =
      let ptype : int_word (junk 0) (pos ptype_sched_props) % 2 ^ 8 ≡ 0 = omega arith in
      rw ptype (rw ptype at (unpack_and_serve-wire (replicate 83 0) h))

module _ (os : Os) where
  calls-send_byte : (b : ℕ) (h : List Event) → calls (send_byte os b h) ≡ calls h
  unfolding send_byte
  calls-send_byte b h = simp (history_laws, calls-report_if)

  sent-send_byte : (b : ℕ) (h : List Event) → sent (send_byte os b h) ≡ sent h ++ b ∷ []
  unfolding send_byte
  sent-send_byte b h = simp (history_laws, sent-report_if)

  -- The scheduling calls for one fiber, between the two acknowledgements.
  pub serve_lem :
      (f : FiberElement) (h : List Event)
      → (calls (serve os f h) ≡ calls h ++ calls_for (f ∷ []))
        × (sent (serve os f h) ≡ sent h ++ ptype_rcv_ack ∷ ptype_cmd_ack ∷ [])
  unfolding serve
  serve_lem f h =
      let (ok, made, quiet) =
        baa_set_schedule_props_lem os (f ∷ []) (send_byte os ptype_rcv_ack h) in
      (
        rw ok (simp (history_laws, calls-send_byte, made)),
        rw ok (simp (history_laws, sent-send_byte, quiet)),
      )
