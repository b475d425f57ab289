-- ===== src/Fiber/Memory.antt =====
-- The memory of the server's `fiber_element`, into which baa_unpack writes. fiber_element_t has the
-- layout of the x86-64 and AArch64 LP64 ABIs with glibc: little endian, `int` of 4 and `long` of 8
-- bytes. `protocol_type`, a variable of its own, stands behind the structure.
use libbaalue.Prelude.{
  ℕ, zero, suc, ◌+◌, ◌*◌, ◌/◌, ◌%◌, ◌^◌, Option, some, List, [], ◌∷◌, ◌>>=◌, get_elem?, write,
  replicate, ℤ, pos, signed32, to_u64,
}
use libbaalue.Serialize.Reader.{Store}
use libbaalue.Fiber.{FiberElement}

-- Offsets of the fields, the size of the structure, and the address of `protocol_type`.
abbrev pub kernel_tid_at : ℕ
kernel_tid_at = 8

abbrev pub sched_priority_at : ℕ
sched_priority_at = 24

abbrev pub policy_at : ℕ
policy_at = 48

abbrev pub cpu_at : ℕ
cpu_at = 52

abbrev pub dt_at : ℕ
dt_at = 56

abbrev pub dt_sec_at : ℕ
dt_sec_at = 60

abbrev pub element_size : ℕ
element_size = 72

abbrev pub protocol_type_at : ℕ
protocol_type_at = 72

-- After CLEAN_SCHED_PROPS_SERVER.
abbrev pub cleared : List ℕ
cleared = replicate (element_size + 1) 0

-- The low `n` bytes of `v`, lowest first.
unfoldable pub store_bytes : ℕ → ℕ → ℕ → List ℕ → Option (List ℕ)
store_bytes zero a v mem = some mem
store_bytes (suc n) a v mem = write mem a (v % 2 ^ 8) >>= store_bytes n (a + 1) (v / 2 ^ 8)

unfoldable pub run_stores : List Store → List ℕ → Option (List ℕ)
unfolding store_bytes
run_stores [] mem = some mem
run_stores (s ∷ ss) mem = store_bytes s.bytes s.dest (to_u64 s.value) mem >>= run_stores ss

-- An `int` of the structure.
unfoldable pub load_int : List ℕ → ℕ → Option ℤ
load_int mem a = do
  b0 ← get_elem? mem a
  b1 ← get_elem? mem (a + 1)
  b2 ← get_elem? mem (a + 2)
  b3 ← get_elem? mem (a + 3)
  some (signed32 (b0 + b1 * 2 ^ 8 + b2 * 2 ^ 16 + b3 * 2 ^ 24))

-- The structure as its fields; `t` and the factors are never stored to by the server.
unfoldable pub element_of : List ℕ → Option FiberElement
unfolding load_int
element_of mem = do
  kernel_tid ← load_int mem kernel_tid_at
  priority ← load_int mem sched_priority_at
  policy ← load_int mem policy_at
  cpu ← load_int mem cpu_at
  dt ← load_int mem dt_at
  dt_sec ← load_int mem dt_sec_at
  some (record {
    kernel_tid = kernel_tid;
    priority = priority;
    t = record { tv_sec = pos 0; tv_nsec = pos 0 };
    policy = policy;
    cpu = cpu;
    dt = dt;
    dt_sec = dt_sec;
    safe_stack_fac = 0;
    safe_heap_fac = 0;
  })
