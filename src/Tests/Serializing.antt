-- ===== src/Tests/Serializing.antt =====
-- Tests of Serialize: baa_pack and baa_unpack of src/serialize.c.
use libbaalue.Prelude.{
  ℕ, ◌≡◌, refl, none, some, List, [], ◌∷◌, arith, length, All, drop, signed32, replicate, ℤ, pos,
  negsuc, map,
}
use libbaalue.Serialize.{baa_pack, u32}
use libbaalue.Serialize.Written.{IsByte, size_of, baa_pack-bytes}
use libbaalue.Serialize.Reader.{baa_unpack, store}
use libbaalue.Serialize.Bytes.{
  Letter, uchar, schar, ushort, sshort, ulong, slong, char_of, stores_of,
}
use libbaalue.Serialize.RoundTrip.{baa_pack-baa_unpack}
use libbaalue.Serialize.Total.{assign, baa_unpack-total}

-- "cSL" of 7, -2 and -3, and an unknown letter that is reported and skipped.
abbrev formats : List ℕ
formats = b'c' ∷ b'x' ∷ b'S' ∷ b'L' ∷ []

abbrev arguments : List ℕ
arguments = 7 ∷ 0xffff_fffe ∷ 0xffff_ffff_ffff_fffd ∷ []

abbrev packed_bytes : List ℕ
packed_bytes = 7 ∷ 0xff ∷ 0xfe ∷ 0xff ∷ 0xff ∷ 0xff ∷ 0xfd ∷ 9 ∷ []

pack_run :
    baa_pack (replicate 8 9) formats arguments
    ≡ some (record { result = pos 7; buf = packed_bytes; reports = 1 ∷ [] })
unfolding baa_pack
pack_run = refl

unpack_run :
    baa_unpack packed_bytes formats (100 ∷ 200 ∷ 300 ∷ [])
    ≡ some (record {
      result = pos 7;
      stores = store 100 1 (pos 7) ∷ store 200 2 (negsuc 1) ∷ store 300 8 (negsuc 2) ∷ [];
      reports = 1 ∷ [];
    })
unfolding baa_unpack
unpack_run = refl

-- A buffer that is too short, and a missing argument.
pack_overrun : baa_pack (replicate 6 0) formats arguments ≡ none
unfolding baa_pack
pack_overrun = refl

pack_missing : baa_pack (replicate 8 0) formats (7 ∷ []) ≡ none
unfolding baa_pack
pack_missing = refl

abbrev letters : List Letter
letters = uchar ∷ schar ∷ ushort ∷ sshort ∷ ulong ∷ slong ∷ []

abbrev words : List ℕ
words = 300 ∷ 0xff ∷ 70000 ∷ 0x8000 ∷ 0x1_0000_0005 ∷ 0xffff_ffff ∷ []

abbrev pointers : List ℕ
pointers = 10 ∷ 20 ∷ 30 ∷ 40 ∷ 50 ∷ 60 ∷ []

baa_pack-baa_unpack_example :
    (wire : List ℕ) × (baa_pack (replicate 20 0) (map char_of letters) words
      ≡ some (record { result = pos 14; buf = wire; reports = [] }))
    × (baa_unpack wire (map char_of letters) pointers
        ≡ some
            (record { result = pos 14; stores = stores_of letters pointers words; reports = [] }))
baa_pack-baa_unpack_example =
    baa_pack-baa_unpack letters words pointers (replicate 20 0) refl refl (omega arith)

baa_unpack-total_example :
    (vs : List ℤ) × (length vs ≡ 2)
    × (baa_unpack (1 ∷ 2 ∷ 7 ∷ []) (map char_of (ushort ∷ uchar ∷ [])) (10 ∷ 20 ∷ [])
        ≡ some (record {
          result = pos 3;
          stores = assign (ushort ∷ uchar ∷ []) (10 ∷ 20 ∷ []) vs;
          reports = [];
        }))
baa_unpack-total_example =
    baa_unpack-total (ushort ∷ uchar ∷ []) (10 ∷ 20 ∷ []) (1 ∷ 2 ∷ 7 ∷ []) refl (omega arith)

abbrev nines : List ℕ
nines = replicate 8 9

baa_pack-bytes_example :
    (length packed_bytes ≡ length nines)
    × (All IsByte nines → All IsByte packed_bytes)
    × (drop (size_of formats) packed_bytes ≡ drop (size_of formats) nines)
    × (pos 7 ≡ signed32 (u32 (size_of formats)))
baa_pack-bytes_example = baa_pack-bytes nines formats arguments pack_run
