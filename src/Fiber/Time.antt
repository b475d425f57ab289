-- ===== src/Fiber/Time.antt =====
-- baa_ts_norm and baa_fiber of src/fiber.c.
use libbaalue.Prelude.{
  ℕ, zero, suc, ◌+◌, ◌-◌, ◌*◌, ◌/◌, ◌%◌, ◌<◌, ◌≤◌, ◌≡◌, sym, subst, length, ap as ap_path, ◌∙◌,
  Bool, true, false, Option, none, some, List, [], ◌∷◌, ◌++◌, ◌>>=◌, arith, if◌then◌else◌, ◌==◌, ℤ,
  pos, negsuc, pos_part, ltb_ℤ, ◌+ℤ◌, ◌-ℤ◌, Bool-cases, inl, inr,
}
use libbaalue.Protocol.{nsec_per_sec}
use libbaalue.Fiber.{FiberElement, Timespec}

abbrev pub timespec : ℤ → ℤ → Timespec
timespec s n = record { tv_sec = s; tv_nsec = n }

-- LONG_MAX.
abbrev pub long_max : ℕ
long_max = 0x7fff_ffff_ffff_ffff

-- The loop of baa_ts_norm with fuel; `none` means that the fuel ran out, or that `tv_sec++` has
-- overflown.
unfoldable pub ts_norm_loop : ℕ → Timespec → Option Timespec
ts_norm_loop zero t = none
ts_norm_loop (suc fuel) t =
    let rest = ts_norm_loop fuel (timespec (t.tv_sec +ℤ pos 1) (t.tv_nsec -ℤ pos nsec_per_sec)) in
    if ltb_ℤ t.tv_nsec (pos nsec_per_sec)
    then some t
    else if ltb_ℤ t.tv_sec (pos long_max)
    then rest
    else none

-- Each round takes off a whole second.
unfoldable pub baa_ts_norm : Timespec → Option Timespec
unfolding ts_norm_loop
baa_ts_norm t = ts_norm_loop (pos_part t.tv_nsec / nsec_per_sec + 1) t

-- The normalised time: whole seconds move over, and a negative `tv_nsec` stays.
abbrev pub normal : ℤ → ℤ → Timespec
normal s (pos n) = timespec (s +ℤ pos (n / nsec_per_sec)) (pos (n % nsec_per_sec))
normal s (negsuc n) = timespec s (negsuc n)

carry : (s : ℤ) (j k : ℕ) → s +ℤ pos j +ℤ pos k ≡ s +ℤ pos (k + j)
carry (pos s) j k = ground arith
carry (negsuc s) j k = ground arith

add-pos : (j k : ℕ) → pos j +ℤ pos k ≡ pos (j + k)
add-pos j k = ground arith

no_carry : (s : ℤ) → s +ℤ pos 0 ≡ s
no_carry (pos s) = ground arith
no_carry (negsuc s) = ground arith

ltb_ℤ_negsuc : (n k : ℕ) → ltb_ℤ (negsuc n) (pos k) ≡ true
ltb_ℤ_negsuc n k = ground arith

pos_part-add : (s : ℤ) (k : ℕ) → pos_part (s +ℤ pos k) ≤ pos_part s + k
pos_part-add (pos s) k = ground arith
pos_part-add (negsuc s) k = ground arith

below_max : (s : ℤ) (q : ℕ) → 0 < q → pos_part s + q ≤ long_max → ltb_ℤ s (pos long_max) ≡ true
below_max (pos s) q h fits = ground arith
below_max (negsuc s) q h fits = ground arith

loop-normal :
    (fuel : ℕ) (s : ℤ) (n : ℕ)
    → n / nsec_per_sec < fuel
    → pos_part s + n / nsec_per_sec ≤ long_max
    → ts_norm_loop fuel (timespec s (pos n)) ≡ some (normal s (pos n))
unfolding ts_norm_loop
loop-normal zero s n h fits = absurd (omega arith)
loop-normal (suc fuel) s n h fits =
    let q = n / nsec_per_sec in
    let n' = n - nsec_per_sec in
    elim (Bool-cases (ltb_ℤ (pos n) (pos nsec_per_sec))) [
      | inl below ↦
          let none_left : q ≡ 0 = ground arith in
          let small : n % nsec_per_sec ≡ n = ground arith in
          rw (below, none_left, small, no_carry s)
      | inr above ↦
          let enough : nsec_per_sec ≤ n = ground arith in
          let less : pos n -ℤ pos nsec_per_sec ≡ pos n' = ground arith in
          let one_less : n' / nsec_per_sec + 1 ≡ q = omega arith in
          let same : n' % nsec_per_sec ≡ n % nsec_per_sec = omega arith in
          let room = below_max s q (omega arith) fits in
          let later : pos_part (s +ℤ pos 1) + n' / nsec_per_sec ≤ long_max =
            omega (arith, pos_part-add s 1) in
          rw (above, room, less)
            (loop-normal fuel (s +ℤ pos 1) n' (omega arith) later
              ∙ rw (carry s 1 (n' / nsec_per_sec), one_less, same))
    ]

-- `tv_sec` has room for the whole seconds of `tv_nsec`.
abbrev pub Fits : ℤ → ℤ → Type 0
Fits s (pos n) = pos_part s + n / nsec_per_sec ≤ long_max
Fits s (negsuc n) = Unit {0}

-- For every timespec whose `tv_sec` has room for the whole seconds of `tv_nsec`, baa_ts_norm ends, and
-- moves the whole seconds of a non-negative `tv_nsec` to `tv_sec`; a negative `tv_nsec` stays as it is.
pub baa_ts_norm_lem : (s n : ℤ) → Fits s n → baa_ts_norm (timespec s n) ≡ some (normal s n)
unfolding baa_ts_norm
baa_ts_norm_lem s (pos n) fits = loop-normal (n / nsec_per_sec + 1) s n (omega arith) fits
baa_ts_norm_lem s (negsuc n) fits = rw (ltb_ℤ_negsuc n nsec_per_sec)

-- What a fiber does, in order: prefault so many bytes, the message when malloc for them fails, wait
-- for the broadcast of baa_start_scheduler, sleep until a time, the message when a signal has ended that
-- sleep, call its function.
pub data Action : Type 0 where
  prefault_stack prefault_heap : ℕ → Action
  malloc_failed wait_for_start : Action
  sleep_until : Timespec → Action
  interrupted call : Action

abbrev pub base_safe_size : ℕ
base_safe_size = 1024

-- The factor, or DEF_MEM_FAC for 0, times BASE_SAFE_SIZE.
abbrev pub prefault_size : ℕ → ℕ
prefault_size fac = (if fac == 0 then 1 else fac) * base_safe_size

-- EINTR.
abbrev pub eintr : ℕ
eintr = 4

-- What follows the answer `s` of clock_nanosleep: the function is called in any case.
abbrev pub woken : ℕ → List Action
woken s = if s == eintr then interrupted ∷ call ∷ [] else call ∷ []

-- A value that a `long` can hold; `none` means that the addition has overflown.
abbrev pub to_long : ℤ → Option ℤ
to_long z =
    if ltb_ℤ (pos long_max) z then none else if ltb_ℤ z (negsuc long_max) then none else some z

to_long-pos : (k : ℕ) → k ≤ long_max → to_long (pos k) ≡ some (pos k)
to_long-pos k fits =
    let below : ltb_ℤ (pos long_max) (pos k) ≡ false = ground (arith, fits) in
    let above : ltb_ℤ (pos k) (negsuc long_max) ≡ false = ground (arith, fits) in rw (below, above)

-- One round of the endless loop.
unfoldable pub fiber_round : ℕ → FiberElement → Option (FiberElement × List Action)
fiber_round s f = do
  tv_nsec ← to_long (f.t.tv_nsec +ℤ f.dt)
  t ← baa_ts_norm (timespec f.t.tv_sec tv_nsec)
  some (record f { t = t }, sleep_until f.t ∷ woken s)

-- A round for each answer of clock_nanosleep.
unfoldable pub fiber_loop : List ℕ → FiberElement → Option (FiberElement × List Action)
fiber_loop [] f = some (f, [])
fiber_loop (s ∷ answers) f = do
  (f, now) ← fiber_round s f
  (f, later) ← fiber_loop answers f
  some (f, now ++ later)

-- malloc in heap_prefault; its result is not looked at.
abbrev pub heap_prefault : Bool → ℕ → List Action
heap_prefault malloc_fails fac =
    prefault_heap (prefault_size fac) ∷ (if malloc_fails then malloc_failed ∷ [] else [])

-- The rounds so far. `tid` is the answer of gettid, `now` that of clock_gettime; `tv_sec += 1` must
-- not overflow.
unfoldable pub baa_fiber :
    ℤ → Bool → Timespec → List ℕ → FiberElement → Option (FiberElement × List Action)
baa_fiber tid malloc_fails now answers f = do
  let started = record f { kernel_tid = tid; t = timespec (now.tv_sec +ℤ pos 1) (pos 0) }
  (g, actions) ← if ltb_ℤ now.tv_sec (pos long_max) then fiber_loop answers started else none
  some (
    g,
    prefault_stack (prefault_size f.safe_stack_fac) ∷ heap_prefault malloc_fails f.safe_heap_fac
        ++ wait_for_start ∷ actions,
  )

-- The time `n` nanoseconds after the second `s`.
abbrev pub after : ℤ → ℕ → Timespec
after s n = timespec (s +ℤ pos (n / nsec_per_sec)) (pos (n % nsec_per_sec))

-- Sleeps until times at the given distance, the first `n` nanoseconds after `s`, each with a call
-- behind it.
abbrev pub periodic : ℤ → ℕ → ℕ → List ℕ → List Action
periodic s n d [] = []
periodic s n d (a ∷ answers) = sleep_until (after s n) ∷ woken a ++ periodic s (n + d) d answers

after-add :
    (s : ℤ) (n d : ℕ)
    → normal (s +ℤ pos (n / nsec_per_sec)) (pos (n % nsec_per_sec) +ℤ pos d) ≡ after s (n + d)
after-add s n d =
    let m = n % nsec_per_sec + d in
    let sum : m / nsec_per_sec + n / nsec_per_sec ≡ (n + d) / nsec_per_sec = omega arith in
    let rest : m % nsec_per_sec ≡ (n + d) % nsec_per_sec = omega arith in
    rw (add-pos (n % nsec_per_sec) d)
      (rw (carry s (n / nsec_per_sec) (m / nsec_per_sec), sum, rest))

after-Fits :
    (s : ℤ) (n d : ℕ)
    → pos_part s + (n + d) / nsec_per_sec ≤ long_max
    → Fits (s +ℤ pos (n / nsec_per_sec)) (pos (n % nsec_per_sec) +ℤ pos d)
after-Fits s n d fits =
    let first = pos_part-add s (n / nsec_per_sec) in
    subst (Fits (s +ℤ pos (n / nsec_per_sec))) (sym (add-pos (n % nsec_per_sec) d))
      (omega (arith, first))

fiber_loop-periodic :
    (answers : List ℕ) (f : FiberElement) (s : ℤ) (n d : ℕ)
    → f.dt ≡ pos d
    → d + nsec_per_sec ≤ long_max
    → pos_part s + (n + length answers * d) / nsec_per_sec ≤ long_max
    → fiber_loop answers (record f { t = after s n })
      ≡ some (record f { t = after s (n + length answers * d) }, periodic s n d answers)
unfolding fiber_loop fiber_round
fiber_loop-periodic [] f s n d hd short fits = let e : n + 0 * d ≡ n = omega arith in rw e
fiber_loop-periodic (a ∷ answers) f s n d hd short fits =
    let rounds = length answers in
    let e : n + d + rounds * d ≡ n + suc rounds * d = omega arith in
    let now = after s n in
    let room : pos_part s + (n + d) / nsec_per_sec ≤ long_max = omega arith in
    let room' : pos_part s + (n + d + rounds * d) / nsec_per_sec ≤ long_max = omega arith in
    let sum : to_long (now.tv_nsec +ℤ f.dt) ≡ some (now.tv_nsec +ℤ pos d) =
      rw (hd, add-pos (n % nsec_per_sec) d)
        (to_long-pos (n % nsec_per_sec + d) (omega (arith, short))) in
    let next : baa_ts_norm (timespec now.tv_sec (now.tv_nsec +ℤ pos d)) ≡ some (after s (n + d)) =
      baa_ts_norm_lem now.tv_sec (now.tv_nsec +ℤ pos d) (after-Fits s n d room)
      ∙ ap_path some (after-add s n d) in
    rw (sum, next, fiber_loop-periodic answers f s (n + d) d hd short room', e)

-- For a period `dt` that is not negative and leaves room in a long for a second more, and as long as the
-- seconds fit `tv_sec`: the fiber stores its
-- number, prefaults, with a message when malloc fails, and waits for the start. In each round it then
-- sleeps until one second after the start, cut to whole seconds, plus a multiple of `dt`, so that no
-- round adds a delay to the next, and calls its function; when a signal interrupts the sleep, it prints a
-- message and calls the function at once, and the times of the later rounds are the same.
pub baa_fiber-periodic :
    (tid : ℤ) (malloc_fails : Bool) (now : Timespec) (answers : List ℕ) (d : ℕ) (f : FiberElement)
    → f.dt ≡ pos d
    → d + nsec_per_sec ≤ long_max
    → pos_part now.tv_sec + 1 + length answers * d / nsec_per_sec ≤ long_max
    → baa_fiber tid malloc_fails now answers f
      ≡ some (
        record f { kernel_tid = tid; t = after (now.tv_sec +ℤ pos 1) (length answers * d) },
        prefault_stack (prefault_size f.safe_stack_fac) ∷ heap_prefault malloc_fails f.safe_heap_fac
            ++ wait_for_start ∷ periodic (now.tv_sec +ℤ pos 1) 0 d answers,
      )
unfolding baa_fiber
baa_fiber-periodic tid malloc_fails now answers d f hd short fits =
    let s = now.tv_sec +ℤ pos 1 in
    let start : after s 0 ≡ timespec s (pos 0) = rw (no_carry s) in
    let n : 0 + length answers * d ≡ length answers * d = omega arith in
    let room = below_max now.tv_sec 1 (omega arith) (omega arith) in
    let fits' : pos_part s + (0 + length answers * d) / nsec_per_sec ≤ long_max =
      omega (arith, pos_part-add now.tv_sec 1) in
    let run =
      fiber_loop-periodic answers (record f { kernel_tid = tid; t = f.t }) s 0 d hd short fits' in
    let run' = rw (start, n) at run in rw (room, run')
