-- ===== src/Serialize/Reader.antt =====
-- baa_unpack of src/serialize.c.
use libbaalue.Prelude.{
  ℕ, ◌+◌, ◌-◌, ◌%◌, ◌^◌, bit_or, Option, some, List, [], ◌∷◌, ◌++◌, ◌>>=◌, leb, ◌==◌, if◌then◌else◌,
  get_elem?, ℤ, pos, signed8, signed16, signed32, signed64, to_u8, to_u16,
}
use libbaalue.Serialize.{◌<<<◌, u16, u32, va_arg}

-- Subtraction in `unsigned int` and in `unsigned long`.
abbrev sub32 : ℕ → ℕ → ℕ
sub32 a b = (a + 2 ^ 32 - b % 2 ^ 32) % 2 ^ 32

abbrev sub64 : ℕ → ℕ → ℕ
sub64 a b = (a + 2 ^ 64 - b % 2 ^ 64) % 2 ^ 64

-- The readers take the bytes that they read. `(-1)` converts to the largest value of the unsigned
-- type, and the difference converts back to the signed one.
unfoldable pub unpack_i8 : ℕ → ℤ
unpack_i8 b =
    let i = if leb b 0x7f then pos b else signed32 (sub32 (2 ^ 32 - 1) (sub32 0xff b)) in
    signed8 (to_u8 i)

unfoldable pub unpack_i16 : ℕ → ℕ → ℤ
unpack_i16 b0 b1 =
    let tmp = bit_or (b0 <<< 8) b1 in
    if leb tmp 0x7fff then pos tmp else signed32 (sub32 (2 ^ 32 - 1) (sub32 0xffff tmp))

unfoldable pub unpack_i32 : ℕ → ℕ → ℕ → ℕ → ℤ
unpack_i32 b0 b1 b2 b3 =
    let tmp = bit_or (bit_or (bit_or (b0 <<< 24) (b1 <<< 16)) (b2 <<< 8)) b3 in
    if leb tmp 0x7fff_ffff then pos tmp else signed64 (sub64 (2 ^ 64 - 1) (sub64 0xffff_ffff tmp))

unfoldable pub unpack_16 : ℕ → ℕ → ℕ
unpack_16 b0 b1 = bit_or (b0 <<< 8) b1

unfoldable pub unpack_32 : ℕ → ℕ → ℕ → ℕ → ℕ
unpack_32 b0 b1 b2 b3 = bit_or (bit_or (bit_or (b0 <<< 24) (b1 <<< 16)) (b2 <<< 8)) b3

-- An assignment through a pointer argument: where, how many bytes, and the value.
pub record Store : Type 0 where
  pub dest : ℕ
  pub bytes : ℕ
  pub value : ℤ

abbrev pub store : ℕ → ℕ → ℤ → Store
store p n v = record { dest = p; bytes = n; value = v }

-- The local variables of baa_unpack, with the assignments made so far.
pub record Unpacking : Type 0 where
  pub at : ℕ
  pub size : ℕ
  pub ap : List ℕ
  pub stores : List Store
  pub reports : List ℕ

-- The end of a case: one assignment, of a value of `n` bytes in the message.
abbrev pub advance : Unpacking → ℕ → List ℕ → Store → Unpacking
advance s n ap st = record s {
  at = s.at + n;
  size = s.size + n;
  ap = ap;
  stores = s.stores ++ st ∷ [];
}

unfoldable pub unpack_case_c : List ℕ → Unpacking → Option Unpacking
unpack_case_c buf s = do
  (c, ap) ← va_arg s.ap
  b ← get_elem? buf s.at
  some (advance s 1 ap (store c 1 (pos b)))

unfoldable pub unpack_case_C : List ℕ → Unpacking → Option Unpacking
unfolding unpack_i8
unpack_case_C buf s = do
  (c, ap) ← va_arg s.ap
  b ← get_elem? buf s.at
  some (advance s 1 ap (store c 1 (unpack_i8 b)))

-- `*S` is a `signed short`, and unpack_i16 returns an `int`.
unfoldable pub unpack_case_s : List ℕ → Unpacking → Option Unpacking
unfolding unpack_16
unpack_case_s buf s = do
  (p, ap) ← va_arg s.ap
  b0 ← get_elem? buf s.at
  b1 ← get_elem? buf (s.at + 1)
  some (advance s 2 ap (store p 2 (pos (u16 (unpack_16 b0 b1)))))

unfoldable pub unpack_case_S : List ℕ → Unpacking → Option Unpacking
unfolding unpack_i16
unpack_case_S buf s = do
  (p, ap) ← va_arg s.ap
  b0 ← get_elem? buf s.at
  b1 ← get_elem? buf (s.at + 1)
  some (advance s 2 ap (store p 2 (signed16 (to_u16 (unpack_i16 b0 b1)))))

-- `*l` and `*L` are `long`s, of eight bytes, for four bytes of the message.
unfoldable pub unpack_case_l : List ℕ → Unpacking → Option Unpacking
unfolding unpack_32
unpack_case_l buf s = do
  (p, ap) ← va_arg s.ap
  b0 ← get_elem? buf s.at
  b1 ← get_elem? buf (s.at + 1)
  b2 ← get_elem? buf (s.at + 2)
  b3 ← get_elem? buf (s.at + 3)
  some (advance s 4 ap (store p 8 (pos (unpack_32 b0 b1 b2 b3))))

unfoldable pub unpack_case_L : List ℕ → Unpacking → Option Unpacking
unfolding unpack_i32
unpack_case_L buf s = do
  (p, ap) ← va_arg s.ap
  b0 ← get_elem? buf s.at
  b1 ← get_elem? buf (s.at + 1)
  b2 ← get_elem? buf (s.at + 2)
  b3 ← get_elem? buf (s.at + 3)
  some (advance s 4 ap (store p 8 (unpack_i32 b0 b1 b2 b3)))

unfoldable pub unpack_step : List ℕ → ℕ → ℕ → Unpacking → Option Unpacking
unfolding unpack_case_c unpack_case_C unpack_case_s unpack_case_S unpack_case_l unpack_case_L
unpack_step buf k ch s =
    if ch == b'c'
    then unpack_case_c buf s
    else if ch == b'C'
    then unpack_case_C buf s
    else if ch == b's'
    then unpack_case_s buf s
    else if ch == b'S'
    then unpack_case_S buf s
    else if ch == b'l'
    then unpack_case_l buf s
    else if ch == b'L'
    then unpack_case_L buf s
    else some (record s { reports = s.reports ++ k ∷ [] })

unfoldable pub unpack_loop : List ℕ → ℕ → List ℕ → Unpacking → Option Unpacking
unfolding unpack_step
unpack_loop buf k [] s = some s
unpack_loop buf k (ch ∷ fmt) s = unpack_step buf k ch s >>= unpack_loop buf (k + 1) fmt

pub record Unpacked : Type 0 where
  pub result : ℤ
  pub stores : List Store
  pub reports : List ℕ

unfoldable pub baa_unpack : List ℕ → List ℕ → List ℕ → Option Unpacked
unfolding unpack_loop
baa_unpack buf fmt ap = do
  s ← unpack_loop buf 0 fmt (record { at = 0; size = 0; ap = ap; stores = []; reports = [] })
  some (record { result = signed32 (u32 s.size); stores = s.stores; reports = s.reports })
