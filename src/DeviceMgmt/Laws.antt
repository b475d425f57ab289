-- ===== src/DeviceMgmt/Laws.antt =====
-- The client's result, and the server's answers and commands for every sequence of messages.
use Prim.Native.String.{String}
use libbaalue.Prelude.{
  ℕ, zero, suc, ◌≡◌, ◌↔◌, ◌∙◌, refl, sym, Bool, false, inl, inr, some, List, [], ◌∷◌, ◌++◌,
  append_assoc, append-nil, arith, Bool-cases, ◌==◌, if◌then◌else◌, leb, ◌&&◌, get_elem?, ℤ, pos,
  negsuc, eqb_ℤ_iff,
}
use libbaalue.Protocol.{ptype_rcv_ack}
use libbaalue.DeviceMgmt.{
  Received, failed, message, first_byte, simple_device_cmd, Event, send, send_failed, system,
  not_supported, fill, send_rcv_ack, handle, device_mgmt_round, baa_device_mgmt_th,
  baa_reboot_device, baa_halt_device, baa_ping_device,
}

-- Whatever the command: the one byte is sent, and the call returns 0 exactly when send takes it
-- and the answer begins with PTYPE_RCV_ACK; else it returns -1.
pub simple_device_cmd_iff :
    (n : ℤ) (bytes : List ℕ) (cmd : ℕ)
    → ((simple_device_cmd n (message bytes) cmd).1 ≡ cmd ∷ [])
      × (((simple_device_cmd n (message bytes) cmd).0 ≡ pos 0)
          ↔ ((n ≡ pos 1) × (first_byte bytes ≡ ptype_rcv_ack)))
      × ((simple_device_cmd n failed cmd).0 ≡ negsuc 0)
unfolding simple_device_cmd
simple_device_cmd_iff n bytes cmd = (refl, ground (arith, eqb_ℤ_iff n (pos 1)), ground arith)

-- The bytes sent, and the commands run.
abbrev pub sent : List Event → List ℕ
sent [] = []
sent (send b ∷ h) = b ∷ sent h
sent (send_failed ∷ h) = sent h
sent (system c ∷ h) = sent h
sent (not_supported b ∷ h) = sent h

abbrev pub commands : List Event → List String
commands [] = []
commands (send b ∷ h) = commands h
commands (send_failed ∷ h) = commands h
commands (system c ∷ h) = c ∷ commands h
commands (not_supported b ∷ h) = commands h

sent-append : (g h : List Event) → sent (g ++ h) ≡ sent g ++ sent h
sent-append [] h = refl
sent-append (send b ∷ g) h = rw (sent-append g h)
sent-append (send_failed ∷ g) h = sent-append g h
sent-append (system c ∷ g) h = sent-append g h
sent-append (not_supported b ∷ g) h = sent-append g h

commands-append : (g h : List Event) → commands (g ++ h) ≡ commands g ++ commands h
commands-append [] h = refl
commands-append (send b ∷ g) h = commands-append g h
commands-append (send_failed ∷ g) h = commands-append g h
commands-append (system c ∷ g) h = rw (commands-append g h)
commands-append (not_supported b ∷ g) h = commands-append g h

-- The documented reaction to a protocol byte: an acknowledgement for the four device types, and
-- a command for two of them.
abbrev pub answer_to : ℕ → List ℕ
answer_to b = if leb 1 b && leb b 4 then ptype_rcv_ack ∷ [] else []

abbrev pub command_for : ℕ → List String
command_for b = if b == 2 then "init 0" ∷ [] else if b == 3 then "init 6" ∷ [] else []

ruleset event_laws = (sent-append, commands-append, append_assoc, append-nil)

module _ (fails : List Event → Bool) where
  send_rcv_ack_lem :
      (h : List Event)
      → (sent (send_rcv_ack fails h) ≡ sent h ++ ptype_rcv_ack ∷ [])
        × (commands (send_rcv_ack fails h) ≡ commands h)
  unfolding send_rcv_ack
  send_rcv_ack_lem h = elim (Bool-cases (fails (h ++ send ptype_rcv_ack ∷ []))) [
    | inl e ↦ (rw e (simp event_laws), rw e (simp event_laws))
    | inr e ↦ (rw e (simp event_laws), rw e (simp event_laws))
  ]

  handle_lem :
      (b : ℕ) (h : List Event)
      → (sent (handle fails b h) ≡ sent h ++ answer_to b)
        × (commands (handle fails b h) ≡ commands h ++ command_for b)
  unfolding handle
  handle_lem zero h = (simp event_laws, simp event_laws)
  handle_lem (suc zero) h = let (s, c) = send_rcv_ack_lem h in (s, c ∙ sym (append-nil _))
  handle_lem (suc (suc zero)) h =
      let (s, c) = send_rcv_ack_lem h in (simp (event_laws, s), simp (event_laws, c))
  handle_lem (suc (suc (suc zero))) h =
      let (s, c) = send_rcv_ack_lem h in (simp (event_laws, s), simp (event_laws, c))
  handle_lem (suc (suc (suc (suc zero)))) h =
      let (s, c) = send_rcv_ack_lem h in (s, c ∙ sym (append-nil _))
  handle_lem (suc (suc (suc (suc (suc n))))) h =
      let b = suc (suc (suc (suc (suc n)))) in
      let no1 : (b == 1) ≡ false = ground arith in
      let no2 : (b == 2) ≡ false = ground arith in
      let no3 : (b == 3) ≡ false = ground arith in
      let no4 : (b == 4) ≡ false = ground arith in
      let above : (leb 1 b && leb b 4) ≡ false = ground arith in
      (rw (no1, no2, no3, no4, above) (simp event_laws), rw (no1, no2, no3, no4) (simp event_laws))

first_byte-fill : (bytes : List ℕ) → get_elem? (fill bytes) 0 ≡ some (first_byte bytes)
first_byte-fill [] = refl
first_byte-fill (b ∷ bytes) = refl

-- The answers and commands that a sequence of receptions asks for.
abbrev pub answers : List Received → List ℕ
answers [] = []
answers (failed ∷ rs) = answers rs
answers (message bytes ∷ rs) = answer_to (first_byte bytes) ++ answers rs

abbrev pub wanted : List Received → List String
wanted [] = []
wanted (failed ∷ rs) = wanted rs
wanted (message bytes ∷ rs) = command_for (first_byte bytes) ++ wanted rs

-- For every sequence of messages and errors the server goes on with no fault. It acknowledges
-- each message of the four device types once, answers nothing else, and runs "init 0" for each
-- HALT and "init 6" for each REBOOT, in order, and no other command.
pub baa_device_mgmt_th_lem :
    (fails : List Event → Bool) (rs : List Received) (h : List Event)
    → (h' : List Event) × (baa_device_mgmt_th fails rs h ≡ some h')
      × (sent h' ≡ sent h ++ answers rs)
      × (commands h' ≡ commands h ++ wanted rs)
unfolding baa_device_mgmt_th device_mgmt_round
baa_device_mgmt_th_lem fails [] h = (h, refl, sym (append-nil _), sym (append-nil _))
baa_device_mgmt_th_lem fails (failed ∷ rs) h = baa_device_mgmt_th_lem fails rs h
baa_device_mgmt_th_lem fails (message bytes ∷ rs) h =
    let b = first_byte bytes in
    let (s, c) = handle_lem fails b h in
    let (h', run, s', c') = baa_device_mgmt_th_lem fails rs (handle fails b h) in
    (
      h',
      rw (first_byte-fill bytes) run,
      s' ∙ rw s (append_assoc (sent h) (answer_to b) (answers rs)),
      c' ∙ rw c (append_assoc (commands h) (command_for b) (wanted rs)),
    )

-- The first byte that the server sends, as what the client receives.
abbrev pub reply : List ℕ → Received
reply [] = failed
reply (b ∷ bytes) = message (b ∷ [])

-- Each of the three calls, with its byte taken by send and the server's answer received, returns
-- 0, and the server runs the call's command: "init 6", "init 0" or none.
pub device_calls_succeed :
    (fails : List Event → Bool)
    → let serve = λ (call : ℤ × List ℕ). baa_device_mgmt_th fails (message call.1 ∷ []) [] in
      let cmd = λ (r : Received → ℤ × List ℕ) (want : List String).
        (h : List Event) × (serve (r failed) ≡ some h)
        × ((r (reply (sent h))).0 ≡ pos 0)
        × (commands h ≡ want) in
      cmd (baa_reboot_device (pos 1)) ("init 6" ∷ [])
      × cmd (baa_halt_device (pos 1)) ("init 0" ∷ [])
      × cmd (baa_ping_device (pos 1)) []
unfolding baa_reboot_device baa_halt_device baa_ping_device
device_calls_succeed fails =
    let (h, run, s, c) = baa_device_mgmt_th_lem fails (message (3 ∷ []) ∷ []) [] in
    let (h', run', s', c') = baa_device_mgmt_th_lem fails (message (2 ∷ []) ∷ []) [] in
    let (h'', run'', s'', c'') = baa_device_mgmt_th_lem fails (message (4 ∷ []) ∷ []) [] in
    ((h, run, rw s, c), (h', run', rw s', c'), (h'', run'', rw s'', c''))
