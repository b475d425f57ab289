-- ===== src/Fiber/Barrier/Liveness.antt =====
-- Every fiber that waits when baa_start_scheduler broadcasts comes to run.
use libbaalue.Prelude.{
  ℕ, zero, suc, ◌+◌, ◌<◌, ◌≡◌, ◌≢◌, refl, ◌⊎◌, inl, inr, Bool, true, false, arith,
}
use libbaalue.Fiber.Barrier.Family.{weights, weights-update}
use libbaalue.Fiber.Barrier.{
  Pc, starting, locked, waiting, woken, relocked, running, main_locked, main_signalled, joining,
  Owner, free, main_thread, fiber, Barrier, Step, fiber_lock, fiber_wait, fiber_wake, fiber_relock,
  fiber_unlock, main_lock, main_broadcast, main_unlock, built, Reach,
}
use libbaalue.Fiber.Barrier.Safety.{released, Inv, Step-Inv, Reach-Inv}

-- The steps that a fiber has before it runs.
abbrev rank : Pc → ℕ
rank starting = 0
rank locked = 0
rank waiting = 0
rank woken = 2
rank relocked = 1
rank running = 0

-- baa_start_scheduler has unlocked the mutex, and each fiber has been woken.
pub record Released (n : ℕ) (s : Barrier) : Type 0 where
  pub joined : s.main_pc ≡ joining
  pub past : (i : ℕ) → i < n → released (s.pc i) ≡ true

abbrev pub Runs : ℕ → Barrier → Type 0
Runs n s = (i : ℕ) → i < n → s.pc i ≡ running

-- Whatever steps are taken, `P` holds after finitely many, and until then there is a step.
pub data Inevitably (n : ℕ) (b : Bool) (P : Barrier → Type 0) : Barrier → Type 0 where
  now : {s : Barrier} → P s → Inevitably n b P s
  later :
      {s t : Barrier}
      → Step n b s t
      → ((u : Barrier) → Step n b s u → Inevitably n b P u)
      → Inevitably n b P s

Step-Released : {n : ℕ} {b : Bool} {s t : Barrier} → Step n b s t → Released n s → Released n t
Step-Released (fiber_lock i l p f) r = ground (arith, r.joined, r.past i l)
Step-Released (fiber_wait i l p) r = ground (arith, r.joined, r.past i l)
Step-Released (fiber_wake i l p u) r = ground (arith, r.joined, r.past i l)
Step-Released (fiber_relock i l p f) r = ground (arith, r)
Step-Released (fiber_unlock i l p) r = ground (arith, r)
Step-Released (main_lock p f) r = ground (arith, r.joined)
Step-Released (main_broadcast p) r = ground (arith, r.joined)
Step-Released (main_unlock p) r = ground (arith, r.joined)

abbrev total : ℕ → Barrier → ℕ
total n s = weights rank n s.pc

Step-total :
    {n : ℕ} {b : Bool} {s t : Barrier} → Step n b s t → Released n s → total n t < total n s
Step-total {n} {s} (fiber_lock i l p f) r = ground (arith, r.past i l)
Step-total {n} {s} (fiber_wait i l p) r = ground (arith, r.past i l)
Step-total {n} {s} (fiber_wake i l p u) r = ground (arith, r.past i l)
Step-total {n} {s} (fiber_relock i l p f) r =
    ground (arith, weights-update rank n s.pc i relocked l)
Step-total {n} {s} (fiber_unlock i l p) r = ground (arith, weights-update rank n s.pc i running l)
Step-total {n} {s} (main_lock p f) r = ground (arith, r.joined)
Step-total {n} {s} (main_broadcast p) r = ground (arith, r.joined)
Step-total {n} {s} (main_unlock p) r = ground (arith, r.joined)

-- All of the first `k` run, or one of them does not.
running_cases : (p : Pc) → (p ≡ running) ⊎ (p ≢ running)
running_cases p = ground arith

search_idle :
    (s : Barrier) (k : ℕ)
    → ((i : ℕ) → i < k → s.pc i ≡ running) ⊎ ((i : ℕ) × (i < k) × (s.pc i ≢ running))
search_idle s zero = inl (λ i h. absurd (omega arith))
search_idle s (suc k) = elim (search_idle s k) [
  | inr (i, l, h) ↦ inr (i, omega arith, h)
  | inl all ↦ elim (running_cases (s.pc k)) [
    | inl e ↦ inl (λ i l. ground (arith, all i))
    | inr h ↦ inr (k, omega arith, h)
  ]
]

idle_cases : (p : Pc) → released p ≡ true → p ≢ running → (p ≡ woken) ⊎ (p ≡ relocked)
idle_cases p h k = ground arith

owner_cases : (o : Owner) → (o ≡ free) ⊎ (o ≡ main_thread) ⊎ ((j : ℕ) × (o ≡ fiber j))
owner_cases free = inl refl
owner_cases main_thread = inr (inl refl)
owner_cases (fiber j) = inr (inr (j, refl))

-- As long as a fiber does not run, some thread can take a step: the mutex's owner, or a fiber that
-- waits for the mutex.
progress :
    {n : ℕ} {b : Bool} (s : Barrier)
    → Inv n b s
    → Released n s
    → Runs n s ⊎ ((t : Barrier) × Step n b s t)
progress {n} s inv r = elim (search_idle s n) [
  | inl all ↦ inl all
  | inr (i, l, idle) ↦ elim (idle_cases (s.pc i) (r.past i l) idle) [
    | inr re ↦ inr (_, fiber_unlock i l re)
    | inl wo ↦ elim (owner_cases s.owner) [
      | inl f ↦ inr (_, fiber_relock i l wo f)
      | inr (inl m) ↦ absurd (ground (arith, inv.main_owned m, r.joined))
      | inr (inr (j, o)) ↦
          let (lj, hj) = inv.owned j o in
          let re : s.pc j ≡ relocked = ground (arith, r.past j lj) in inr (_, fiber_unlock j lj re)
    ]
  ]
]

inevitable :
    {n : ℕ} {b : Bool} (fuel : ℕ) (s : Barrier)
    → total n s < fuel
    → Inv n b s
    → Released n s
    → Inevitably n b (Runs n) s
inevitable zero s h inv r = absurd (omega arith)
inevitable {n} (suc fuel) s h inv r = elim (progress s inv r) [
  | inl runs ↦ now runs
  | inr (t, st) ↦ later st (λ u su.
      inevitable fuel u (omega (arith, Step-total su r)) (Step-Inv su inv) (Step-Released su r))
]

abbrev Woken : ℕ → Barrier → Type 0
Woken n s = (s.main_pc ≡ main_signalled) × ((i : ℕ) → i < n → s.pc i ≡ woken)

abbrev Waits : ℕ → Barrier → Type 0
Waits n s = (s.main_pc ≡ main_locked) × ((i : ℕ) → i < n → s.pc i ≡ waiting)

Step-Woken : {n : ℕ} {s t : Barrier} → Step n false s t → Inv n false s → Waits n s → Woken n t
Step-Woken (fiber_lock i l p f) inv w = absurd (ground (arith, w.1 i l))
Step-Woken (fiber_wait i l p) inv w = absurd (ground (arith, w.1 i l))
Step-Woken (fiber_wake i l p u) inv w = cc
Step-Woken (fiber_relock i l p f) inv w = absurd (ground (arith, w.1 i l))
Step-Woken (fiber_unlock i l p) inv w = absurd (ground (arith, w.1 i l))
Step-Woken (main_lock p f) inv w = absurd (ground (arith, w.0))
Step-Woken (main_broadcast p) inv w = (refl, λ i l. ground (arith, w.1 i l))
Step-Woken (main_unlock p) inv w = absurd (ground (arith, w.0))

Woken-Released :
    {n : ℕ} {s t : Barrier} → Step n false s t → Inv n false s → Woken n s → Released n t
Woken-Released (fiber_lock i l p f) inv w = absurd (ground (arith, w.1 i l))
Woken-Released (fiber_wait i l p) inv w = absurd (ground (arith, w.1 i l))
Woken-Released (fiber_wake i l p u) inv w = cc
Woken-Released (fiber_relock i l p f) inv w = absurd (ground (arith, w.0, inv.main_owns))
Woken-Released (fiber_unlock i l p) inv w = absurd (ground (arith, w.1 i l))
Woken-Released (main_lock p f) inv w = absurd (ground (arith, w.0))
Woken-Released (main_broadcast p) inv w = absurd (ground (arith, w.0))
Woken-Released (main_unlock p) inv w = record {
  joined = refl;
  past = λ i l. ground (arith, w.1 i l);
}

-- When no wait ends without a broadcast: from each reachable state in which baa_start_scheduler
-- holds the mutex and every fiber waits, all fibers inevitably come to run. No order of the steps
-- gets stuck before, or goes on without end.
pub Reach-Inevitably :
    {n : ℕ} {s : Barrier}
    → Reach n false built s
    → s.main_pc ≡ main_locked
    → ((i : ℕ) → i < n → s.pc i ≡ waiting)
    → Inevitably n false (Runs n) s
Reach-Inevitably {n} {s} r m w =
    let inv = Reach-Inv r in
    later (main_broadcast m) (λ t st.
      let woke = Step-Woken st inv (m, w) in
      let inv' = Step-Inv st inv in
      later (main_unlock woke.0) (λ u su.
        inevitable (total n u + 1) u (omega arith) (Step-Inv su inv')
          (Woken-Released su inv' woke)))
