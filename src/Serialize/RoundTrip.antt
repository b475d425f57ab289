-- ===== src/Serialize/RoundTrip.antt =====
-- baa_pack and baa_unpack together, and what both do with characters that are no letters.
use libbaalue.Prelude.{ℕ, ◌≤◌, ◌≡◌, some, List, [], ◌++◌, length, map, drop, signed32}
use libbaalue.Serialize.{u32, baa_pack}
use libbaalue.Serialize.Reader.{baa_unpack}
use libbaalue.Serialize.Bytes.{Letter, char_of, total, encode_all, stores_of}
use libbaalue.Serialize.Pack.{baa_pack-encode}
use libbaalue.Serialize.Unpack.{baa_unpack-encode}

-- For a format of known letters, one argument and one destination for each, and a buffer with
-- room: both calls return the same size, and baa_unpack assigns to each destination the value
-- that the low bits of the packed argument stand for.
pub baa_pack-baa_unpack :
    (ls : List Letter) (ws ps buf : List ℕ)
    → length ws ≡ length ls
    → length ps ≡ length ls
    → total ls ≤ length buf
    → (wire : List ℕ) × (baa_pack buf (map char_of ls) ws
        ≡ some (record { result = signed32 (u32 (total ls)); buf = wire; reports = [] }))
      × (baa_unpack wire (map char_of ls) ps
          ≡ some (record {
            result = signed32 (u32 (total ls));
            stores = stores_of ls ps ws;
            reports = [];
          }))
baa_pack-baa_unpack ls ws ps buf hw hp hb = (
  encode_all ls ws ++ drop (total ls) buf,
  baa_pack-encode ls ws buf hw hb,
  baa_unpack-encode ls ws ps (drop (total ls) buf) hw hp,
)
