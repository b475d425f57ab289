-- ===== src/Fiber/Decode.antt =====
-- What the server finds in its `fiber_element` after baa_unpack: each `long` stored over an `int`
-- field leaves that field right, and the upper half of `cpu` ends in `dt`.
use libbaalue.Prelude.{
  ℕ, ◌+◌, ◌*◌, ◌/◌, ◌%◌, ◌^◌, ◌≡◌, refl, Bool, true, false, some, List, [], ◌∷◌, ◌>>=◌, arith, ℤ,
  pos, negsuc, IsInt, signed32, to_u64, if◌then◌else◌,
}
use libbaalue.Serialize.Reader.{Store, store}
use libbaalue.Fiber.{FiberElement}
use libbaalue.Fiber.Memory.{
  kernel_tid_at, sched_priority_at, policy_at, cpu_at, protocol_type_at, cleared, run_stores,
  element_of,
}

-- The `int` in the low half of a stored `long`, and the one in the upper half.
abbrev pub low_int : ℕ → ℤ
low_int v = signed32 (
    v % 2 ^ 8
    + v / 2 ^ 8 % 2 ^ 8 * 2 ^ 8
    + v / 2 ^ 8 / 2 ^ 8 % 2 ^ 8 * 2 ^ 16
    + v / 2 ^ 8 / 2 ^ 8 / 2 ^ 8 % 2 ^ 8 * 2 ^ 24)

abbrev pub high_int : ℕ → ℤ
high_int v = low_int (v / 2 ^ 8 / 2 ^ 8 / 2 ^ 8 / 2 ^ 8)

abbrev pub is_negative : ℤ → Bool
is_negative (pos n) = false
is_negative (negsuc n) = true

pub low_int-to_u64 : (z : ℤ) → IsInt z → low_int (to_u64 z) ≡ z
low_int-to_u64 (pos n) h = ground arith
low_int-to_u64 (negsuc n) h = ground arith

pub high_int-to_u64 :
    (z : ℤ) → IsInt z → high_int (to_u64 z) ≡ (if is_negative z then negsuc 0 else pos 0)
high_int-to_u64 (pos n) h = ground arith
high_int-to_u64 (negsuc n) h = ground arith

abbrev pub sched_stores : ℤ → ℤ → ℤ → ℤ → ℤ → List Store
sched_stores v tid policy cpu priority =
    store protocol_type_at 1 v
    ∷ store kernel_tid_at 8 tid
    ∷ store policy_at 8 policy
    ∷ store cpu_at 8 cpu
    ∷ store sched_priority_at 8 priority
    ∷ []

abbrev pub element : ℤ → ℤ → ℤ → ℤ → ℤ → FiberElement
element tid policy cpu priority dt = record {
  kernel_tid = tid;
  priority = priority;
  t = record { tv_sec = pos 0; tv_nsec = pos 0 };
  policy = policy;
  cpu = cpu;
  dt = dt;
  dt_sec = pos 0;
  safe_stack_fac = 0;
  safe_heap_fac = 0;
}

pub decode :
    (v tid policy cpu priority : ℤ)
    → (run_stores (sched_stores v tid policy cpu priority) cleared >>= element_of)
      ≡ some (
          element
            (low_int (to_u64 tid))
            (low_int (to_u64 policy))
            (low_int (to_u64 cpu))
            (low_int (to_u64 priority))
            (high_int (to_u64 cpu)))
unfolding run_stores element_of
decode v tid policy cpu priority = refl
