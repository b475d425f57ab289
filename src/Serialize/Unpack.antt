-- ===== src/Serialize/Unpack.antt =====
-- What baa_unpack reads: from the encoding of the arguments, the values that their low bits stand
-- for, each assigned to its destination in the order of the format.
use native.Mathlib.Nat.{add-zero, zero-add, add_assoc}
use libbaalue.Prelude.{
  ℕ, ◌+◌, ◌*◌, ◌/◌, ◌%◌, ◌^◌, ◌<◌, ◌≡◌, refl, sym, ap as ap_path, ◌∙◌, some, List, [], ◌∷◌, ◌++◌,
  append_assoc, append-nil, arith, length, length-append, map, get_elem?, get_elem?-append, signed8,
  signed16, signed32, to_u16,
}
use libbaalue.Serialize.{u16, u32}
use libbaalue.Serialize.Reader.{
  Store, store, Unpacking, unpack_step, unpack_loop, baa_unpack, unpack_i8, unpack_i16, unpack_i32,
  unpack_16, unpack_32,
}
use libbaalue.Serialize.Bytes.{
  Letter, uchar, schar, ushort, sshort, ulong, slong, char_of, width, dest_bytes, total, encode,
  encode_all, value_of, stores_of, length-encode, unpack_i8_lem, unpack_i16_lem, unpack_i32_lem,
  unpack_16_lem, unpack_32_lem,
}

abbrev pub unpacking : ℕ → ℕ → List ℕ → List Store → List ℕ → Unpacking
unpacking at size ap stores reports = record {
  at = at;
  size = size;
  ap = ap;
  stores = stores;
  reports = reports;
}

-- The values read from an encoding.
char_value : (w : ℕ) → unpack_i8 (w % 2 ^ 8) ≡ signed8 (w % 2 ^ 8)
char_value w = unpack_i8_lem (w % 2 ^ 8) (omega arith)

ushort_value : (w : ℕ) → u16 (unpack_16 (w / 2 ^ 8 % 2 ^ 8) (w % 2 ^ 8)) ≡ w % 2 ^ 16
ushort_value w = omega (arith, unpack_16_lem (w / 2 ^ 8 % 2 ^ 8) (w % 2 ^ 8) (omega arith))

short_again : (n : ℕ) → n < 2 ^ 16 → signed16 (to_u16 (signed16 n)) ≡ signed16 n
short_again n h = ground arith

short_value :
    (w : ℕ) → signed16 (to_u16 (unpack_i16 (w / 2 ^ 8 % 2 ^ 8) (w % 2 ^ 8))) ≡ signed16 (w % 2 ^ 16)
short_value w =
    let sum : w / 2 ^ 8 % 2 ^ 8 * 256 + w % 2 ^ 8 ≡ w % 2 ^ 16 = omega arith in
    rw (unpack_i16_lem (w / 2 ^ 8 % 2 ^ 8) (w % 2 ^ 8) (omega arith) (omega arith), sum)
      (short_again (w % 2 ^ 16) (omega arith))

four_bytes :
    (w : ℕ)
    → w / 2 ^ 24 % 2 ^ 8 * 16777216
        + w / 2 ^ 16 % 2 ^ 8 * 65536
        + w / 2 ^ 8 % 2 ^ 8 * 256
        + w % 2 ^ 8
      ≡ w % 2 ^ 32
four_bytes w = omega arith

module _ (w : ℕ) where
  abbrev b0 : ℕ
  b0 = w / 2 ^ 24 % 2 ^ 8

  abbrev b1 : ℕ
  b1 = w / 2 ^ 16 % 2 ^ 8

  abbrev b2 : ℕ
  b2 = w / 2 ^ 8 % 2 ^ 8

  abbrev b3 : ℕ
  b3 = w % 2 ^ 8

  ulong_value : unpack_32 b0 b1 b2 b3 ≡ w % 2 ^ 32
  ulong_value = unpack_32_lem b0 b1 b2 b3 (omega arith) (omega arith) (omega arith) ∙ four_bytes w

  long_value : unpack_i32 b0 b1 b2 b3 ≡ signed32 (w % 2 ^ 32)
  long_value =
      unpack_i32_lem b0 b1 b2 b3 (omega arith) (omega arith) (omega arith) (omega arith)
      ∙ ap_path signed32 (four_bytes w)

-- A case of the switch reads the encoded word, and assigns its value.
module _ (front back : List ℕ) (k at size w p : ℕ) (ap : List ℕ) (stores : List Store)
    (reports : List ℕ) (e : at ≡ length front) where
  read : (xs : List ℕ) (i j : ℕ) → i ≡ at + j → get_elem? (front ++ xs) i ≡ get_elem? xs j
  read xs i j h = get_elem?-append front xs i j (omega arith)

  step-encode :
      (l : Letter)
      → unpack_step
          (front ++ (encode l w ++ back))
          k
          (char_of l)
          (unpacking at size (p ∷ ap) stores reports)
        ≡ some (
            unpacking
              (at + width l)
              (size + width l)
              ap
              (stores ++ store p (dest_bytes l) (value_of l w) ∷ [])
              reports)
  unfolding unpack_step
  step-encode uchar = rw (read _ at 0 (omega arith)) refl
  step-encode schar = rw (read _ at 0 (omega arith)) (rw (char_value w) refl)
  step-encode ushort =
      rw (read _ at 0 (omega arith), read _ (at + 1) 1 refl) (rw (ushort_value w) refl)
  step-encode sshort =
      rw (read _ at 0 (omega arith), read _ (at + 1) 1 refl) (rw (short_value w) refl)
  step-encode ulong =
      rw
        (
          read _ at 0 (omega arith),
          read _ (at + 1) 1 refl,
          read _ (at + 2) 2 refl,
          read _ (at + 3) 3 refl,
        )
        (rw (ulong_value w) refl)
  step-encode slong =
      rw
        (
          read _ at 0 (omega arith),
          read _ (at + 1) 1 refl,
          read _ (at + 2) 2 refl,
          read _ (at + 3) 3 refl,
        )
        (rw (long_value w) refl)

-- A run over an encoded message assigns each value to its destination.
pub unpack_loop-encode :
    (ls : List Letter) (ws ps more front back : List ℕ) (stores : List Store) (reports : List ℕ)
    (k at size : ℕ)
    → length ws ≡ length ls
    → length ps ≡ length ls
    → at ≡ length front
    → unpack_loop
        (front ++ (encode_all ls ws ++ back))
        k
        (map char_of ls)
        (unpacking at size (ps ++ more) stores reports)
      ≡ some
          (unpacking (at + total ls) (size + total ls) more (stores ++ stores_of ls ps ws) reports)
unfolding unpack_loop
unpack_loop-encode [] [] [] more front back stores reports k at size hw hp ha =
    rw (add-zero at, add-zero size, append-nil)
unpack_loop-encode [] [] (p ∷ ps) more front back stores reports k at size hw hp ha =
    absurd (omega arith)
unpack_loop-encode [] (w ∷ ws) ps more front back stores reports k at size hw hp ha =
    absurd (omega arith)
unpack_loop-encode (l ∷ ls) [] ps more front back stores reports k at size hw hp ha =
    absurd (omega arith)
unpack_loop-encode (l ∷ ls) (w ∷ ws) [] more front back stores reports k at size hw hp ha =
    absurd (omega arith)
unpack_loop-encode (l ∷ ls) (w ∷ ws) (p ∷ ps) more front back stores reports k at size hw hp ha =
    let n = width l in
    let st = store p (dest_bytes l) (value_of l w) in
    let head =
      step-encode front (encode_all ls ws ++ back) k at size w p (ps ++ more) stores reports ha l in
    let rest =
      unpack_loop-encode ls ws ps more (front ++ encode l w) back (stores ++ st ∷ []) reports
        (k + 1) (at + n) (size + n) (omega arith) (omega arith)
        (omega (arith, length-append front (encode l w), length-encode l w)) in
    let inner = append_assoc (encode l w) (encode_all ls ws) back in
    let same =
      append_assoc front (encode l w) (encode_all ls ws ++ back)
      ∙ ap_path (λ t. front ++ t) (sym inner) in
    let head' = rw (sym inner) at head in
    rw head' (
      rw
        (
          same,
          append_assoc stores (st ∷ []) (stores_of ls ps ws),
          add_assoc at n (total ls),
          add_assoc size n (total ls),
        )
        at rest)

-- The call, on a message that begins the buffer.
pub baa_unpack-encode :
    (ls : List Letter) (ws ps back : List ℕ)
    → length ws ≡ length ls
    → length ps ≡ length ls
    → baa_unpack (encode_all ls ws ++ back) (map char_of ls) ps
      ≡ some
          (record { result = signed32 (u32 (total ls)); stores = stores_of ls ps ws; reports = [] })
unfolding baa_unpack
baa_unpack-encode ls ws ps back hw hp =
    let run = unpack_loop-encode ls ws ps [] [] back [] [] 0 0 0 hw hp refl in
    let run' = simp append-nil at run in rw (run', zero-add)
