-- ===== src/Fiber/Barrier/Safety.antt =====
-- The mutex has one owner at most, and no fiber runs before the broadcast, unless a wait ends without one.
use libbaalue.Prelude.{ℕ, ◌<◌, ◌≡◌, refl, Bool, true, false, arith}
use libbaalue.Fiber.Barrier.{
  Pc, starting, locked, waiting, woken, relocked, running, MainPc, building, main_locked,
  main_signalled, joining, main_thread, fiber, Barrier, Step, fiber_lock, fiber_wait, fiber_wake,
  fiber_relock, fiber_unlock, main_lock, main_broadcast, main_unlock, built, Reach, here, next,
}

-- Between the lock and the unlock, outside of the wait.
abbrev pub holds : Pc → Bool
holds locked = true
holds relocked = true
holds starting = false
holds waiting = false
holds woken = false
holds running = false

abbrev pub main_holds : MainPc → Bool
main_holds main_locked = true
main_holds main_signalled = true
main_holds building = false
main_holds joining = false

-- The broadcast has happened.
abbrev pub signalled : MainPc → Bool
signalled main_signalled = true
signalled joining = true
signalled building = false
signalled main_locked = false

-- Past the wait.
abbrev pub released : Pc → Bool
released woken = true
released relocked = true
released running = true
released starting = false
released locked = false
released waiting = false

pub record Inv (n : ℕ) (spurious : Bool) (s : Barrier) : Type 0 where
  pub owns : (i : ℕ) → holds (s.pc i) ≡ true → s.owner ≡ fiber i
  pub owned : (i : ℕ) → s.owner ≡ fiber i → (i < n) × (holds (s.pc i) ≡ true)
  pub main_owns : main_holds s.main_pc ≡ true → s.owner ≡ main_thread
  pub main_owned : s.owner ≡ main_thread → main_holds s.main_pc ≡ true
  pub early : spurious ≡ false → (i : ℕ) → released (s.pc i) ≡ true → signalled s.main_pc ≡ true

built-Inv : (n : ℕ) (spurious : Bool) → Inv n spurious built
built-Inv n spurious = record {
  owns = λ i h. cc;
  owned = λ i h. cc;
  main_owns = λ h. cc;
  main_owned = λ h. cc;
  early = λ h i r. cc;
}

pub Step-Inv : {n : ℕ} {b : Bool} {s t : Barrier} → Step n b s t → Inv n b s → Inv n b t
Step-Inv (fiber_lock i l p f) inv = ground (arith, inv, inv.owns i)
Step-Inv (fiber_wait i l p) inv = ground (arith, inv, inv.owns i)
Step-Inv (fiber_wake i l p u) inv = ground (arith, inv, inv.owns i)
Step-Inv (fiber_relock i l p f) inv = ground (arith, inv, inv.owns i)
Step-Inv (fiber_unlock i l p) inv = ground (arith, inv, inv.owns i)
Step-Inv (main_lock p f) inv = ground (arith, inv)
Step-Inv (main_broadcast p) inv = ground (arith, inv)
Step-Inv (main_unlock p) inv = ground (arith, inv)

pub Reach-Inv : {n : ℕ} {b : Bool} {s : Barrier} → Reach n b built s → Inv n b s
Reach-Inv {n} {b} here = built-Inv n b
Reach-Inv (next r st) = Step-Inv st (Reach-Inv r)

-- When no wait ends without a broadcast, a fiber is past its wait only after the broadcast of
-- baa_start_scheduler.
pub no_early_start :
    {n : ℕ} {s : Barrier}
    → Reach n false built s
    → (i : ℕ) → released (s.pc i) ≡ true
    → signalled s.main_pc ≡ true
no_early_start r i h = (Reach-Inv r).early refl i h

-- Without such a wake, a fiber that has not come to its wait before baa_start_scheduler has
-- unlocked the mutex never gets past it, whatever the threads do.
pub late_fiber_waits :
    {n : ℕ} {s t : Barrier}
    → Reach n false s t
    → (i : ℕ) → s.main_pc ≡ joining
    → released (s.pc i) ≡ false
    → (t.main_pc ≡ joining) × (released (t.pc i) ≡ false)
late_fiber_waits here i m p = (m, p)
late_fiber_waits (next r st) i m p = let (m', p') = late_fiber_waits r i m p in stays st i m' p'
  where
    stays :
        {n : ℕ} {s t : Barrier}
        → Step n false s t
        → (i : ℕ) → s.main_pc ≡ joining
        → released (s.pc i) ≡ false
        → (t.main_pc ≡ joining) × (released (t.pc i) ≡ false)
    stays (fiber_lock k l q f) i m p = ground arith
    stays (fiber_wait k l q) i m p = ground arith
    stays (fiber_wake k l q u) i m p = ground arith
    stays (fiber_relock k l q f) i m p = ground arith
    stays (fiber_unlock k l q) i m p = ground arith
    stays (main_lock q f) i m p = ground arith
    stays (main_broadcast q) i m p = ground arith
    stays (main_unlock q) i m p = ground arith
