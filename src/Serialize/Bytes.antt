-- ===== src/Serialize/Bytes.antt =====
-- The six letters of a format, the bytes that each stands for, and the readers of src/serialize.c
-- as arithmetic on those bytes.
use libbaalue.Prelude.{
  ℕ, ◌+◌, ◌*◌, ◌/◌, ◌%◌, ◌^◌, ◌<◌, ◌≡◌, refl, List, [], ◌∷◌, ◌++◌, arith, length, ℤ, pos, signed8,
  signed16, signed32, bit_or, bit_or-shifted,
}
use libbaalue.Serialize.Reader.{
  Store, store, unpack_i8, unpack_i16, unpack_i32, unpack_16, unpack_32,
}

-- A letter of the format: an unsigned or signed value of one, two or four bytes.
pub data Letter : Type 0 where
  uchar schar ushort sshort ulong slong : Letter

abbrev pub char_of : Letter → ℕ
char_of uchar = b'c'
char_of schar = b'C'
char_of ushort = b's'
char_of sshort = b'S'
char_of ulong = b'l'
char_of slong = b'L'

abbrev pub width : Letter → ℕ
width uchar = 1
width schar = 1
width ushort = 2
width sshort = 2
width ulong = 4
width slong = 4

-- The size of the destination that baa_unpack assigns to.
abbrev pub dest_bytes : Letter → ℕ
dest_bytes uchar = 1
dest_bytes schar = 1
dest_bytes ushort = 2
dest_bytes sshort = 2
dest_bytes ulong = 8
dest_bytes slong = 8

abbrev pub total : List Letter → ℕ
total [] = 0
total (l ∷ ls) = width l + total ls

-- Network byte order.
abbrev pub be16 : ℕ → List ℕ
be16 v = v / 2 ^ 8 % 2 ^ 8 ∷ v % 2 ^ 8 ∷ []

abbrev pub be32 : ℕ → List ℕ
be32 v = v / 2 ^ 24 % 2 ^ 8 ∷ v / 2 ^ 16 % 2 ^ 8 ∷ v / 2 ^ 8 % 2 ^ 8 ∷ v % 2 ^ 8 ∷ []

-- What the low bits of an argument word become on the wire.
abbrev pub encode : Letter → ℕ → List ℕ
encode uchar w = w % 2 ^ 8 ∷ []
encode schar w = w % 2 ^ 8 ∷ []
encode ushort w = be16 w
encode sshort w = be16 w
encode ulong w = be32 w
encode slong w = be32 w

abbrev pub encode_all : List Letter → List ℕ → List ℕ
encode_all [] ws = []
encode_all (l ∷ ls) [] = []
encode_all (l ∷ ls) (w ∷ ws) = encode l w ++ encode_all ls ws

-- The value that the letter's low bits of a word stand for.
abbrev pub value_of : Letter → ℕ → ℤ
value_of uchar w = pos (w % 2 ^ 8)
value_of schar w = signed8 (w % 2 ^ 8)
value_of ushort w = pos (w % 2 ^ 16)
value_of sshort w = signed16 (w % 2 ^ 16)
value_of ulong w = pos (w % 2 ^ 32)
value_of slong w = signed32 (w % 2 ^ 32)

abbrev pub stores_of : List Letter → List ℕ → List ℕ → List Store
stores_of (l ∷ ls) (p ∷ ps) (w ∷ ws) = store p (dest_bytes l) (value_of l w) ∷ stores_of ls ps ws
stores_of _ _ _ = []

pub length-encode : (l : Letter) (w : ℕ) → length (encode l w) ≡ width l
length-encode uchar w = refl
length-encode schar w = refl
length-encode ushort w = refl
length-encode sshort w = refl
length-encode ulong w = refl
length-encode slong w = refl

or_two : (b0 b1 : ℕ) → b1 < 256 → bit_or (b0 * 2 ^ 8) b1 ≡ b0 * 256 + b1
or_two b0 b1 h = bit_or-shifted 8 b0 b1 h

or_four :
    (b0 b1 b2 b3 : ℕ)
    → b1 < 256
    → b2 < 256
    → b3 < 256
    → bit_or (bit_or (bit_or (b0 * 2 ^ 24) (b1 * 2 ^ 16)) (b2 * 2 ^ 8)) b3
      ≡ b0 * 16777216 + b1 * 65536 + b2 * 256 + b3
or_four b0 b1 b2 b3 h1 h2 h3 =
    let two : bit_or (b0 * 2 ^ 24) (b1 * 2 ^ 16) ≡ (b0 * 256 + b1) * 2 ^ 16 =
      omega (arith, bit_or-shifted 24 b0 (b1 * 2 ^ 16) (omega arith)) in
    let three : bit_or ((b0 * 256 + b1) * 2 ^ 16) (b2 * 2 ^ 8)
        ≡ (b0 * 65536 + b1 * 256 + b2) * 2 ^ 8 =
      omega (arith, bit_or-shifted 16 (b0 * 256 + b1) (b2 * 2 ^ 8) (omega arith)) in
    let four = bit_or-shifted 8 (b0 * 65536 + b1 * 256 + b2) b3 h3 in
    rw (two, three, four) (omega arith)

-- Two bytes read as an unsigned number, most significant first.
pub unpack_16_lem : (b0 b1 : ℕ) → b1 < 256 → unpack_16 b0 b1 ≡ b0 * 256 + b1
unfolding unpack_16
unpack_16_lem b0 b1 h = or_two b0 b1 h

pub unpack_i8_lem : (b : ℕ) → b < 256 → unpack_i8 b ≡ signed8 b
unfolding unpack_i8
unpack_i8_lem b h = ground arith

pub unpack_i16_lem : (b0 b1 : ℕ) → b0 < 256 → b1 < 256 → unpack_i16 b0 b1 ≡ signed16 (b0 * 256 + b1)
unfolding unpack_i16
unpack_i16_lem b0 b1 h0 h1 = ground (arith, or_two b0 b1)

pub unpack_32_lem :
    (b0 b1 b2 b3 : ℕ)
    → b1 < 256
    → b2 < 256
    → b3 < 256
    → unpack_32 b0 b1 b2 b3 ≡ b0 * 16777216 + b1 * 65536 + b2 * 256 + b3
unfolding unpack_32
unpack_32_lem b0 b1 b2 b3 h1 h2 h3 = or_four b0 b1 b2 b3 h1 h2 h3

pub unpack_i32_lem :
    (b0 b1 b2 b3 : ℕ)
    → b0 < 256
    → b1 < 256
    → b2 < 256
    → b3 < 256
    → unpack_i32 b0 b1 b2 b3 ≡ signed32 (b0 * 16777216 + b1 * 65536 + b2 * 256 + b3)
unfolding unpack_i32
unpack_i32_lem b0 b1 b2 b3 h0 h1 h2 h3 = ground (arith, or_four b0 b1 b2 b3)
