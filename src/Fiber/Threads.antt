-- ===== src/Fiber/Threads.antt =====
-- baa_build_scheduler and baa_start_scheduler of src/fiber.c: the threads of the fibers are started,
-- released and joined. pthread_create and pthread_join answer for the index of the fiber.
use libbaalue.Prelude.{
  ℕ, zero, suc, ◌+◌, ◌≡◌, ◌≢◌, false, not, List, [], ◌∷◌, ◌++◌, append-nil, arith, if◌then◌else◌,
  ◌==◌, ℤ, pos, negsuc, pos_part,
}

pub data ThreadEvent : Type 0 where
  create join : ℕ → ThreadEvent
  create_failed join_failed : ℕ → ThreadEvent
  sleep broadcast : ThreadEvent

-- The loop of baa_build_scheduler: the fiber `i` and `n - 1` more.
unfoldable pub build_loop : (ℕ → ℕ) → ℕ → ℕ → ℤ × List ThreadEvent
build_loop pthread_create zero i = (pos 0, sleep ∷ [])
build_loop pthread_create (suc n) i =
    let rest = build_loop pthread_create n (i + 1) in
    let ret = pthread_create i in
    if not (ret == 0)
    then (negsuc 0, create i ∷ create_failed ret ∷ [])
    else (rest.0, create i ∷ rest.1)

unfoldable pub baa_build_scheduler : (ℕ → ℕ) → ℤ → ℤ × List ThreadEvent
unfolding build_loop
baa_build_scheduler pthread_create count = build_loop pthread_create (pos_part count) 0

unfoldable pub join_loop : (ℕ → ℕ) → ℕ → ℕ → ℤ × List ThreadEvent
join_loop pthread_join zero i = (pos 0, [])
join_loop pthread_join (suc n) i =
    let rest = join_loop pthread_join n (i + 1) in
    let err = pthread_join i in
    if not (err == 0) then (negsuc 0, join i ∷ join_failed err ∷ []) else (rest.0, join i ∷ rest.1)

unfoldable pub baa_start_scheduler : (ℕ → ℕ) → ℤ → ℤ × List ThreadEvent
unfolding join_loop
baa_start_scheduler pthread_join count =
    let (r, h) = join_loop pthread_join (pos_part count) 0 in (r, broadcast ∷ h)

-- The calls for the fibers from `i` on, `n` of them.
abbrev pub creates : ℕ → ℕ → List ThreadEvent
creates zero i = []
creates (suc n) i = create i ∷ creates n (i + 1)

abbrev pub joins : ℕ → ℕ → List ThreadEvent
joins zero i = []
joins (suc n) i = join i ∷ joins n (i + 1)

-- The first `n` answers from `i` on are 0.
abbrev pub Works : (ℕ → ℕ) → ℕ → ℕ → Type 0
Works answer zero i = Unit
Works answer (suc n) i = (answer i ≡ 0) × Works answer n (i + 1)

build_loop-append :
    (answer : ℕ → ℕ) (n m i : ℕ)
    → Works answer n i
    → let o = build_loop answer m (n + i) in build_loop answer (n + m) i ≡ (o.0, creates n i ++ o.1)
unfolding build_loop
build_loop-append answer zero m i w =
    let a : 0 + m ≡ m = omega arith in let b : 0 + i ≡ i = omega arith in rw (a, b)
build_loop-append answer (suc n) m i w =
    let more : suc n + m ≡ suc (n + m) = omega arith in
    let at : suc n + i ≡ n + (i + 1) = omega arith in
    rw (more, at, build_loop, w.0, build_loop-append answer n m (i + 1) w.1)

join_loop-append :
    (answer : ℕ → ℕ) (n m i : ℕ)
    → Works answer n i
    → let o = join_loop answer m (n + i) in join_loop answer (n + m) i ≡ (o.0, joins n i ++ o.1)
unfolding join_loop
join_loop-append answer zero m i w =
    let a : 0 + m ≡ m = omega arith in let b : 0 + i ≡ i = omega arith in rw (a, b)
join_loop-append answer (suc n) m i w =
    let more : suc n + m ≡ suc (n + m) = omega arith in
    let at : suc n + i ≡ n + (i + 1) = omega arith in
    rw (more, at, join_loop, w.0, join_loop-append answer n m (i + 1) w.1)

-- When all calls for `n` fibers work, both functions return 0: each fiber's thread is created once,
-- in order, with a wait behind them; and after the broadcast each is joined.
pub schedulers_succeed :
    (pthread_create pthread_join : ℕ → ℕ) (n : ℕ)
    → Works pthread_create n 0
    → Works pthread_join n 0
    → (baa_build_scheduler pthread_create (pos n) ≡ (pos 0, creates n 0 ++ sleep ∷ []))
      × (baa_start_scheduler pthread_join (pos n) ≡ (pos 0, broadcast ∷ joins n 0))
unfolding baa_build_scheduler baa_start_scheduler build_loop join_loop
schedulers_succeed pthread_create pthread_join n c j =
    let all : n + 0 ≡ n = omega arith in
    (
      rw all at (build_loop-append pthread_create n 0 0 c),
      rw (rw (all, append-nil) at (join_loop-append pthread_join n 0 0 j)),
    )

-- When the calls for the first `n` fibers work and the one for the next gives an error, both
-- functions return -1 and go no further: the fibers behind are neither created nor joined.
pub schedulers_fail :
    (pthread_create pthread_join : ℕ → ℕ) (n m : ℕ)
    → Works pthread_create n 0
    → Works pthread_join n 0
    → pthread_create n ≢ 0
    → pthread_join n ≢ 0
    → (baa_build_scheduler pthread_create (pos (n + suc m))
        ≡ (negsuc 0, creates n 0 ++ create n ∷ create_failed (pthread_create n) ∷ []))
      × (baa_start_scheduler pthread_join (pos (n + suc m))
          ≡ (negsuc 0, broadcast ∷ joins n 0 ++ join n ∷ join_failed (pthread_join n) ∷ []))
unfolding baa_build_scheduler baa_start_scheduler build_loop join_loop
schedulers_fail pthread_create pthread_join n m c j x y =
    let at : n + 0 ≡ n = omega arith in
    let ex : (pthread_create n == 0) ≡ false = ground arith in
    let ey : (pthread_join n == 0) ≡ false = ground arith in
    (
      rw (at, ex) at (build_loop-append pthread_create n (suc m) 0 c),
      rw (rw (at, ey) at (join_loop-append pthread_join n (suc m) 0 j)),
    )
