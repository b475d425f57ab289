-- ===== src/Examples/Mgmt/Laws.antt =====
-- The clients for device management of examples/, with the server of src/device_mgmt.c at the other
-- end.
use libbaalue.Prelude.{
  ℕ, zero, suc, ◌+◌, ◌-◌, ◌<◌, ◌≤◌, ◌≡◌, ◌≢◌, ◌⊎◌, inl, inr, ltb, if◌then◌else◌, lt→ltb, Bool-cases,
  refl, ◌∙◌, ap, sym, Bool, false, some, List, [], ◌∷◌, ◌++◌, append_assoc, arith, ℤ, pos, negsuc,
  eqb_ℤ, eqb_ℤ_ne,
}
use libbaalue.DeviceMgmt
use libbaalue.DeviceMgmt.{Received, baa_ping_device, simple_device_cmd, baa_device_mgmt_th}
use libbaalue.DeviceMgmt.Laws.{reply, sent, device_calls_succeed}
use libbaalue.Protocol.{ptype_device_mgmt_ping}
use libbaalue.Examples.Program.{
  Event, message, registered, sigmask, create, cleanup, sleep, send, inet, signal_handler, exits,
  goes_on, ◌>>=◌, behind, success, failure, Env, register_cleanup, handle_signals, start_thread,
  Ready, with_cleanup, cheers, exit,
}
use libbaalue.Network.Inet
use libbaalue.Examples.Endings.{behind-nil, run_laws}
use libbaalue.Examples.Mgmt.{
  name_options, given_name, InetOs, dgram_client, connected, Answer, ping_loop, ping_run, ping_main,
  max_num_ping,
}

-- The events of `n` rounds that succeed.
abbrev pub pings : ℕ → List Event
pings zero = []
pings (suc n) = send (ptype_device_mgmt_ping ∷ []) ∷ sleep 5 ∷ pings n

-- The answers from `i` on, `n` of them, make baa_ping_device succeed.
abbrev pub Obeys : (ℕ → Answer) → ℕ → ℕ → Type 0
Obeys answers zero i = Unit
Obeys answers (suc n) i =
    ((baa_ping_device (answers i).0 (answers i).1).0 ≡ pos 0) × Obeys answers n (i + 1)

ping_byte : (n : ℤ) (r : Received) → (baa_ping_device n r).1 ≡ ptype_device_mgmt_ping ∷ []
unfolding baa_ping_device simple_device_cmd
ping_byte n r = refl

ping_loop-zero : (answers : ℕ → Answer) (i : ℕ) → ping_loop answers 0 i ≡ goes_on tt []
unfolding ping_loop
ping_loop-zero answers i = refl

ping_loop-good :
    (answers : ℕ → Answer) (n m i : ℕ)
    → Obeys answers n i
    → ping_loop answers (n + m) i ≡ behind (pings n) (ping_loop answers m (n + i))
unfolding ping_loop
ping_loop-good answers zero m i h =
    let a : 0 + m ≡ m = omega arith in let b : 0 + i ≡ i = omega arith in rw (a, b, behind-nil)
ping_loop-good answers (suc n) m i h =
    let more : suc n + m ≡ suc (n + m) = omega arith in
    let at : suc n + i ≡ n + (i + 1) = omega arith in
    rw
      (more, at, h.0, ping_byte (answers i).0 (answers i).1, ping_loop-good answers n m (i + 1) h.1)
      (simp run_laws)

ping_loop-bad :
    (answers : ℕ → Answer) (m i : ℕ)
    → (baa_ping_device (answers i).0 (answers i).1).0 ≡ negsuc 0
    → ping_loop answers (suc m) i
      ≡ exits failure (send (ptype_device_mgmt_ping ∷ []) ∷ message ∷ [])
unfolding ping_loop
ping_loop-bad answers m i h = rw (h, ping_byte (answers i).0 (answers i).1)

-- What a client does up to its first command: `calls` are those of baa_inet_dgram_client.
abbrev pub start : List Inet.Call → List Event
start calls =
    message ∷ registered ∷ sigmask ∷ create signal_handler ∷ message ∷ inet calls ∷ message ∷ []

ping_main-start :
    (env : Env) (os : InetOs) (answers : ℕ → Answer) (name : List ℕ)
    → Ready env
    → (dgram_client os name).0 ≢ negsuc 0
    → ping_main env os answers (record { opt = b's'; optarg = name } ∷ [])
      ≡ with_cleanup cheers (
          behind
            (start (dgram_client os name).1)
            (ping_loop answers max_num_ping 0 >>= λ u. exit success))
unfolding ping_main ping_run name_options given_name register_cleanup handle_signals start_thread
    connected
ping_main-start env os answers name ready open_fd =
    let fd : eqb_ℤ (dgram_client os name).0 (negsuc 0) ≡ false = eqb_ℤ_ne _ _ open_fd in
    rw (ready.atexit_works, ready.sigmask_works, ready.signals_created, fd) (simp run_laws)

-- A ping that the server receives and whose answer the client receives; and one that send does not
-- take, or to which recv gives no answer.
abbrev pub Served : (List DeviceMgmt.Event → Bool) → Answer → Type 0
Served fails answer =
    (h : List DeviceMgmt.Event) × (baa_device_mgmt_th fails
        (Received.message (ptype_device_mgmt_ping ∷ []) ∷ []) []
      ≡ some h)
    × (answer ≡ (pos 1, reply (sent h)))

abbrev pub Lost : Answer → Type 0
Lost answer = (answer.0 ≢ pos 1) ⊎ (answer.1 ≡ Received.failed)

Served-obeys :
    (fails : List DeviceMgmt.Event → Bool) (answer : Answer)
    → Served fails answer
    → (baa_ping_device answer.0 answer.1).0 ≡ pos 0
Served-obeys fails answer (h, run, e) =
    let (h', run', ok, _) = (device_calls_succeed fails).2 in
    let byte : (baa_ping_device (pos 1) Received.failed).1 ≡ ptype_device_mgmt_ping ∷ [] =
      ping_byte _ _ in
    let same : h' ≡ h = cc in rw (e, ← same) ok

Lost-fails : (answer : Answer) → Lost answer → (baa_ping_device answer.0 answer.1).0 ≡ negsuc 0
unfolding baa_ping_device simple_device_cmd
Lost-fails answer (inl h) = rw (eqb_ℤ_ne _ _ h)
Lost-fails answer (inr h) = elim (Bool-cases (eqb_ℤ answer.0 (pos 1))) [
  | inl e ↦ rw (h, e)
  | inr e ↦ rw e
]

Obeys-Served :
    (fails : List DeviceMgmt.Event → Bool) (answers : ℕ → Answer) (n i k : ℕ)
    → n + i ≤ k
    → ((j : ℕ) → j < k → Served fails (answers j))
    → Obeys answers n i
Obeys-Served fails answers zero i k le all = tt
Obeys-Served fails answers (suc n) i k le all = (
  Served-obeys fails (answers i) (all i (omega arith)),
  Obeys-Served fails answers n (i + 1) k (omega arith) all,
)

-- For a server's name on the command line, a start and a connection that succeed, and a device that
-- serves the first `k` pings: if `k` is 10, the ping client sends 10 pings, sleeps 5 seconds after
-- each and exits with EXIT_SUCCESS; if ping `k` is lost, it exits with EXIT_FAILURE right after that
-- ping. The device is baa_device_mgmt_th, whatever sends of its own fail.
pub ping_main_lem :
    (env : Env) (os : InetOs) (fails : List DeviceMgmt.Event → Bool) (answers : ℕ → Answer)
    (name : List ℕ) (k : ℕ)
    → Ready env
    → (dgram_client os name).0 ≢ negsuc 0
    → ((i : ℕ) → i < k → Served fails (answers i))
    → (k ≡ 10) ⊎ ((k < 10) × Lost (answers k))
    → let lost = ltb k 10 in
      ping_main env os answers (record { opt = b's'; optarg = name } ∷ [])
      ≡ exits (if lost then failure else success) (
          start (dgram_client os name).1
          ++ pings k
          ++ (if lost then send (ptype_device_mgmt_ping ∷ []) ∷ message ∷ [] else [])
          ++ cleanup ∷ [])
ping_main_lem env os fails answers name k ready open_fd all (inl e) =
    let run = ping_loop-good answers 10 0 0 (Obeys-Served fails answers 10 0 k (omega arith) all) in
    ping_main-start env os answers name ready open_fd ∙ rw (e, run, ping_loop-zero answers 10)
ping_main_lem env os fails answers name k ready open_fd all (inr (less, lost)) =
    let split : k + suc (9 - k) ≡ 10 = omega arith in
    let good =
      ping_loop-good answers k (suc (9 - k)) 0
        (Obeys-Served fails answers k 0 k (omega arith) all) in
    let here : k + 0 ≡ k = omega arith in
    let lost_run = exits failure (send (ptype_device_mgmt_ping ∷ []) ∷ message ∷ []) in
    let bad : ping_loop answers (suc (9 - k)) (k + 0) ≡ lost_run =
      rw here (ping_loop-bad answers (9 - k) k (Lost-fails (answers k) lost)) in
    let run : ping_loop answers 10 0 ≡ behind (pings k) lost_run =
      ap (λ m. ping_loop answers m 0) (sym split) ∙ good ∙ ap (behind (pings k)) bad in
    ping_main-start env os answers name ready open_fd
    ∙ rw (run, lt→ltb _ _ less) (simp append_assoc)
