-- ===== src/Fiber/Config.antt =====
-- baa_is_fiber_config_valid of src/fiber.c.
use libbaalue.Prelude.{
  ℕ, zero, suc, ◌<◌, ◌≤◌, ◌≡◌, refl, ◌↔◌, ◌⊎◌, inl, inr, Bool, true, false, not, Option, none, some,
  List, [], ◌∷◌, arith, All, length, take, if◌then◌else◌, ℤ, pos, negsuc, pos_part, ltb_ℤ, eqb_ℤ,
  eqb_ℤ_iff, ◌≤ℤ◌, Bool-cases,
}
use libbaalue.Fiber.{FiberElement}

-- The policies of <sched.h> on Linux.
abbrev pub sched_other : ℤ
sched_other = pos 0

abbrev pub sched_fifo : ℤ
sched_fifo = pos 1

abbrev pub sched_rr : ℤ
sched_rr = pos 2

abbrev pub sched_batch : ℤ
sched_batch = pos 3

abbrev pub sched_idle : ℤ
sched_idle = pos 5

-- The answers of sched_get_priority_min, sched_get_priority_max and get_nprocs_conf.
pub record Limits : Type 0 where
  pub prio_min : ℤ → ℤ
  pub prio_max : ℤ → ℤ
  pub cpu_conf : ℤ

module _ (lim : Limits) where
  -- The two tests of a real-time priority; `false` is `return false`.
  abbrev prio_in_range : ℤ → ℤ → Bool
  prio_in_range policy prio =
      if ltb_ℤ (lim.prio_max policy) prio
      then false
      else if ltb_ℤ prio (lim.prio_min policy)
      then false
      else true

  abbrev prio_zero : ℤ → Bool
  prio_zero prio = if not (eqb_ℤ prio (pos 0)) then false else true

  unfoldable pub policy_valid : ℤ → ℤ → Bool
  policy_valid policy prio =
      if eqb_ℤ policy sched_rr
      then prio_in_range sched_rr prio
      else if eqb_ℤ policy sched_fifo
      then prio_in_range sched_fifo prio
      else if eqb_ℤ policy sched_other
      then prio_zero prio
      else if eqb_ℤ policy sched_idle
      then prio_zero prio
      else if eqb_ℤ policy sched_batch
      then prio_zero prio
      else false

  -- The body of the loop.
  unfoldable pub element_valid : FiberElement → Bool
  unfolding policy_valid
  element_valid f =
      if not (policy_valid f.policy f.priority)
      then false
      else if ltb_ℤ lim.cpu_conf f.cpu
      then false
      else true

  -- `none` is a read past the end of the array.
  unfoldable pub config_loop : ℕ → List FiberElement → Option Bool
  config_loop zero fs = some true
  config_loop (suc n) [] = none
  config_loop (suc n) (f ∷ fs) =
      let rest = config_loop n fs in if element_valid f then rest else some false

  -- `none` for the array is NULL. A negative `count` ends the loop before its first round.
  unfoldable pub baa_is_fiber_config_valid : Option (List FiberElement) → ℤ → Option Bool
  unfolding config_loop
  baa_is_fiber_config_valid none count = some false
  baa_is_fiber_config_valid (some fs) count =
      let checked = config_loop (pos_part count) fs in
      if eqb_ℤ count (pos 0) then some false else checked

-- What the function checks of a fiber: a known policy with a priority that it allows, and a `cpu`
-- up to the number of configured ones.
abbrev pub IsAllowed : Limits → ℤ → ℤ → Type 0
IsAllowed lim policy prio =
    (((policy ≡ sched_rr) ⊎ (policy ≡ sched_fifo))
      × (lim.prio_min policy ≤ℤ prio)
      × (prio ≤ℤ lim.prio_max policy))
    ⊎ (((policy ≡ sched_other) ⊎ (policy ≡ sched_idle) ⊎ (policy ≡ sched_batch)) × (prio ≡ pos 0))

pub record IsConfigured (lim : Limits) (f : FiberElement) : Type 0 where
  pub allowed : IsAllowed lim f.policy f.priority
  pub on_cpu : f.cpu ≤ℤ lim.cpu_conf

module _ (lim : Limits) where
  in_range_iff :
      (policy prio : ℤ)
      → (prio_in_range lim policy prio ≡ true)
        ↔ ((lim.prio_min policy ≤ℤ prio) × (prio ≤ℤ lim.prio_max policy))
  in_range_iff policy prio = ground arith

  zero_iff : (prio : ℤ) → (prio_zero lim prio ≡ true) ↔ (prio ≡ pos 0)
  zero_iff prio = ground (arith, eqb_ℤ_iff prio (pos 0))

  policy_valid_there :
      (policy prio : ℤ) → policy_valid lim policy prio ≡ true → IsAllowed lim policy prio
  unfolding policy_valid
  policy_valid_there (pos zero) prio h = inr (inl refl, (zero_iff prio).0 h)
  policy_valid_there (pos (suc zero)) prio h = inl (
    inr refl,
    ground (arith, in_range_iff sched_fifo prio),
    ground (arith, in_range_iff sched_fifo prio),
  )
  policy_valid_there (pos (suc (suc zero))) prio h = inl (
    inl refl,
    ground (arith, in_range_iff sched_rr prio),
    ground (arith, in_range_iff sched_rr prio),
  )
  policy_valid_there (pos (suc (suc (suc zero)))) prio h = inr (inr (inr refl), (zero_iff prio).0 h)
  policy_valid_there (pos (suc (suc (suc (suc zero))))) prio h = cc
  policy_valid_there (pos (suc (suc (suc (suc (suc zero)))))) prio h =
      inr (inr (inl refl), (zero_iff prio).0 h)
  policy_valid_there (pos (suc (suc (suc (suc (suc (suc n))))))) prio h = ground arith
  policy_valid_there (negsuc n) prio h = ground arith

  policy_valid_back :
      (policy prio : ℤ) → IsAllowed lim policy prio → policy_valid lim policy prio ≡ true
  unfolding policy_valid
  policy_valid_back (pos zero) prio h = ground (arith, zero_iff prio)
  policy_valid_back (pos (suc zero)) prio h = ground (arith, in_range_iff sched_fifo prio)
  policy_valid_back (pos (suc (suc zero))) prio h = ground (arith, in_range_iff sched_rr prio)
  policy_valid_back (pos (suc (suc (suc zero)))) prio h = ground (arith, zero_iff prio)
  policy_valid_back (pos (suc (suc (suc (suc zero))))) prio h = ground arith
  policy_valid_back (pos (suc (suc (suc (suc (suc zero)))))) prio h = ground (arith, zero_iff prio)
  policy_valid_back (pos (suc (suc (suc (suc (suc (suc n))))))) prio h = ground arith
  policy_valid_back (negsuc n) prio h = ground arith

  element_valid_iff : (f : FiberElement) → (element_valid lim f ≡ true) ↔ IsConfigured lim f
  unfolding element_valid
  element_valid_iff f = (
    λ h. record {
      allowed = policy_valid_there f.policy f.priority (ground arith);
      on_cpu = ground arith;
    },
    λ h. ground (arith, policy_valid_back f.policy f.priority h.allowed, h.on_cpu),
  )

  config_loop_iff :
      (n : ℕ) (fs : List FiberElement)
      → n ≤ length fs
      → (b : Bool) × (config_loop lim n fs ≡ some b)
        × ((b ≡ true) ↔ All (IsConfigured lim) (take n fs))
  unfolding config_loop
  config_loop_iff zero fs h = (true, refl, (λ _. tt, λ _. refl))
  config_loop_iff (suc n) [] h = absurd (omega arith)
  config_loop_iff (suc n) (f ∷ fs) h =
      let (b, run, rest) = config_loop_iff n fs (omega arith) in
      elim (Bool-cases (element_valid lim f)) [
        | inl e ↦ (b, rw e run, (λ t. ((element_valid_iff f).0 e, rest.0 t), λ all. rest.1 all.1))
        | inr e ↦ (false, rw e, (λ t. cc, λ all. let e' = (element_valid_iff f).1 all.0 in cc))
      ]

-- NULL and a count of 0 are rejected. Otherwise, for an array of at least `count` fibers, the
-- answer is `true` exactly when each of the first `count` has a known policy with a priority that
-- it allows and a `cpu` of at most the number of configured CPUs.
pub baa_is_fiber_config_valid_iff :
    (lim : Limits) (fs : List FiberElement) (n : ℕ) (z : ℤ)
    → n ≤ length fs
    → 0 < n
    → (baa_is_fiber_config_valid lim none z ≡ some false)
      × (baa_is_fiber_config_valid lim (some fs) (pos 0) ≡ some false)
      × ((b : Bool) × (baa_is_fiber_config_valid lim (some fs) (pos n) ≡ some b)
          × ((b ≡ true) ↔ All (IsConfigured lim) (take n fs)))
unfolding baa_is_fiber_config_valid
baa_is_fiber_config_valid_iff lim fs n z h positive =
    let (b, run, iff) = config_loop_iff lim n fs h in (refl, refl, (b, ground (arith, run), iff))
