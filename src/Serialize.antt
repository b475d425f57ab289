-- ===== src/Serialize.antt =====
-- src/serialize.c: baa_pack and baa_unpack, which write and read a message by a format string. This
-- file has baa_pack, Serialize.Reader has baa_unpack.
-- An argument of the variable list is the 64 bit word in which the x86-64 and AArch64 LP64 calling
-- conventions pass it; `va_arg` at a narrower type reads the low bits. A buffer is the list of its
-- bytes, and a pointer into it an index; an access outside the buffer, and a `va_arg` past the last
-- argument, which C leaves undefined, end in `none`. Destinations of baa_unpack do not overlap
-- the buffer.
pub mod Reader
pub mod Bytes
pub mod Pack
pub mod Unpack
pub mod RoundTrip
pub mod Total
pub mod Written
use libbaalue.Prelude.{
  ℕ, suc, ◌+◌, ◌-◌, ◌*◌, ◌/◌, ◌%◌, ◌^◌, bit_or, Option, none, some, List, [], ◌∷◌, ◌++◌, ◌>>=◌, leb,
  ◌==◌, if◌then◌else◌, get_elem?, write, ℤ, pos, signed8, signed16, signed32, signed64, to_u8,
  to_u16, to_u32, to_u64,
}

-- Shifts of unsigned values, and casts that cut bits off.
infixl 75 ◌<<<◌ ◌>>>◌
abbrev pub ◌<<<◌ : ℕ → ℕ → ℕ
x <<< k = x * 2 ^ k

abbrev pub ◌>>>◌ : ℕ → ℕ → ℕ
x >>> k = x / 2 ^ k

abbrev pub u8 : ℕ → ℕ
u8 n = n % 2 ^ 8

abbrev pub u16 : ℕ → ℕ
u16 n = n % 2 ^ 16

abbrev pub u32 : ℕ → ℕ
u32 n = n % 2 ^ 32

abbrev pub u64 : ℕ → ℕ
u64 n = n % 2 ^ 64

-- The next word of the argument list.
abbrev pub va_arg : List ℕ → Option (ℕ × List ℕ)
va_arg [] = none
va_arg (word ∷ ap) = some (word, ap)

unfoldable pub pack_16 : List ℕ → ℕ → ℕ → Option (List ℕ)
pack_16 buf p i = do buf ← write buf p (u8 (i >>> 8)); write buf (p + 1) (u8 i)

unfoldable pub pack_32 : List ℕ → ℕ → ℕ → Option (List ℕ)
pack_32 buf p i = do
  buf ← write buf p (u8 (i >>> 24))
  buf ← write buf (p + 1) (u8 (i >>> 16))
  buf ← write buf (p + 1 + 1) (u8 (i >>> 8))
  write buf (p + 1 + 1 + 1) (u8 i)

-- The local variables of baa_pack. `reports` holds what the calls of baa_error_msg print for `%c`:
-- the code passes the pointer `fmt`, so it is the offset in the format string.
pub record Packing : Type 0 where
  pub buf : List ℕ
  pub at : ℕ
  pub size : ℕ
  pub ap : List ℕ
  pub reports : List ℕ

unfoldable pub pack_case_c : Packing → Option Packing
pack_case_c s = do
  (word, ap) ← va_arg s.ap
  buf ← write s.buf s.at (u8 (u32 word))
  some (record s { buf = buf; at = s.at + 1; size = s.size + 1; ap = ap })

unfoldable pub pack_case_C : Packing → Option Packing
pack_case_C s = do
  (word, ap) ← va_arg s.ap
  buf ← write s.buf s.at (to_u8 (signed8 (to_u8 (signed32 (u32 word)))))
  some (record s { buf = buf; at = s.at + 1; size = s.size + 1; ap = ap })

unfoldable pub pack_case_s : Packing → Option Packing
unfolding pack_16
pack_case_s s = do
  (word, ap) ← va_arg s.ap
  buf ← pack_16 s.buf s.at (u16 (u32 word))
  some (record s { buf = buf; at = s.at + 2; size = s.size + 2; ap = ap })

unfoldable pub pack_case_S : Packing → Option Packing
unfolding pack_16
pack_case_S s = do
  (word, ap) ← va_arg s.ap
  buf ← pack_16 s.buf s.at (to_u32 (signed16 (to_u16 (signed32 (u32 word)))))
  some (record s { buf = buf; at = s.at + 2; size = s.size + 2; ap = ap })

unfoldable pub pack_case_l : Packing → Option Packing
unfolding pack_32
pack_case_l s = do
  (word, ap) ← va_arg s.ap
  buf ← pack_32 s.buf s.at (u64 word)
  some (record s { buf = buf; at = s.at + 4; size = s.size + 4; ap = ap })

unfoldable pub pack_case_L : Packing → Option Packing
unfolding pack_32
pack_case_L s = do
  (word, ap) ← va_arg s.ap
  buf ← pack_32 s.buf s.at (to_u64 (signed64 (u64 word)))
  some (record s { buf = buf; at = s.at + 4; size = s.size + 4; ap = ap })

-- The switch at the character `ch` of offset `k`.
unfoldable pub pack_step : ℕ → ℕ → Packing → Option Packing
unfolding pack_case_c pack_case_C pack_case_s pack_case_S pack_case_l pack_case_L
pack_step k ch s =
    if ch == b'c'
    then pack_case_c s
    else if ch == b'C'
    then pack_case_C s
    else if ch == b's'
    then pack_case_s s
    else if ch == b'S'
    then pack_case_S s
    else if ch == b'l'
    then pack_case_l s
    else if ch == b'L'
    then pack_case_L s
    else some (record s { reports = s.reports ++ k ∷ [] })

unfoldable pub pack_loop : ℕ → List ℕ → Packing → Option Packing
unfolding pack_step
pack_loop k [] s = some s
pack_loop k (ch ∷ fmt) s = pack_step k ch s >>= pack_loop (k + 1) fmt

-- What a call leaves: the buffer, the `int` that is returned, and the reports.
pub record Packed : Type 0 where
  pub result : ℤ
  pub buf : List ℕ
  pub reports : List ℕ

unfoldable pub baa_pack : List ℕ → List ℕ → List ℕ → Option Packed
unfolding pack_loop
baa_pack buf fmt ap = do
  s ← pack_loop 0 fmt (record { buf = buf; at = 0; size = 0; ap = ap; reports = [] })
  some (record { result = signed32 (u32 s.size); buf = s.buf; reports = s.reports })
