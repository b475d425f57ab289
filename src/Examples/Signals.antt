-- ===== src/Examples/Signals.antt =====
-- signal_handler of each program of examples/.
use libbaalue.Prelude.{
  ℕ, ◌≡◌, ◌≢◌, refl, Bool, false, List, [], ◌∷◌, ◌++◌, All, arith, Bool-cases, inl, inr, ◌==◌,
  if◌then◌else◌, map,
}
use libbaalue.Examples.Program.{
  Event, message, caught, ignored, unhandled, Run, exits, waits, ◌>>◌, emit, exit, success, failure,
  error_exit,
}

abbrev pub sighup : ℕ
sighup = 1

abbrev pub sigterm : ℕ
sigterm = 15

-- What sigwait gives: an error or a signal.
pub data Signal : Type 0 where
  failed : Signal
  signal : ℕ → Signal

-- A turn of the loop.
unfoldable pub signal_round : Signal → Run (Unit {0})
signal_round failed = error_exit
signal_round (signal sig) =
    if sig == sigterm
    then (do emit (caught sig); exit success)
    else if sig == sighup
    then emit (ignored sig)
    else emit (unhandled sig)

-- The endless loop, over the answers of sigwait so far.
unfoldable pub signal_loop : List Signal → Run (Unit {0})
unfolding signal_round
signal_loop [] = waits []
signal_loop (s ∷ rest) = do signal_round s; signal_loop rest

-- The programs for device management detach the thread first.
unfoldable pub detached_signal_handler : Bool → List Signal → Run (Unit {0})
unfolding signal_loop
detached_signal_handler detach_fails signals =
    let loop = signal_loop signals in if detach_fails then (do emit message; loop) else loop

abbrev pub said : ℕ → Event
said sig = if sig == sighup then ignored sig else unhandled sig

-- Signals other than SIGTERM only print a message each, whatever their number, and that of SIGHUP
-- says that it is ignored; the first SIGTERM ends the program with success, and an error of sigwait
-- with failure.
pub signal_loop_lem :
    (before : List ℕ) (rest : List Signal)
    → All (λ s. s ≢ sigterm) before
    → let ms = map said before in
      (signal_loop (map signal before) ≡ waits ms)
      × (signal_loop (map signal before ++ signal sigterm ∷ rest)
          ≡ exits success (ms ++ caught sigterm ∷ []))
      × (signal_loop (map signal before ++ failed ∷ rest) ≡ exits failure (ms ++ message ∷ []))
unfolding signal_loop signal_round
signal_loop_lem [] rest h = (refl, refl, refl)
signal_loop_lem (s ∷ before) rest h =
    let other : (s == sigterm) ≡ false = ground (arith, h.0) in
    let (w, t, e) = signal_loop_lem before rest h.1 in
    elim (Bool-cases (s == sighup)) [
      | inl hup ↦ rw (other, hup, w, t, e) (refl, refl, refl)
      | inr rest_of ↦ rw (other, rest_of, w, t, e) (refl, refl, refl)
    ]
