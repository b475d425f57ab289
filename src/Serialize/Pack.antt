-- ===== src/Serialize/Pack.antt =====
-- What baa_pack writes: for a format of known letters, exactly the encoded arguments, and nothing
-- outside them.
use libbaalue.Prelude.{
  ℕ, ◌+◌, ◌/◌, ◌%◌, ◌^◌, ◌≤◌, ◌≡◌, refl, sym, ap as ap_path, ◌∙◌, Option, some, List, [], ◌∷◌, ◌++◌,
  ◌>>=◌, append_assoc, append-nil, arith, length, length-append, write, write-append, map, take,
  drop, length-drop, length-take, take-append-drop, >>=_some, signed8, signed16, signed32, signed64,
  to_u8, to_u16, to_u32, to_u64,
}
use native.Mathlib.Nat.{add-zero, zero-add, add_assoc}
use libbaalue.Serialize.{u16, u32, u64, pack_16, pack_32, Packing, pack_step, pack_loop, baa_pack}
use libbaalue.Serialize.Bytes.{
  Letter, uchar, schar, ushort, sshort, ulong, slong, char_of, width, total, be16, be32, encode,
  encode_all, length-encode,
}

abbrev packing : List ℕ → ℕ → ℕ → List ℕ → List ℕ → Packing
packing buf at size ap reports = record {
  buf = buf;
  at = at;
  size = size;
  ap = ap;
  reports = reports;
}

-- Bytes stored one after the other.
write_all : List ℕ → ℕ → List ℕ → Option (List ℕ)
write_all buf i [] = some buf
write_all buf i (x ∷ xs) = write buf i x >>= λ b. write_all b (i + 1) xs

write_all-append :
    (front old new back : List ℕ) (i : ℕ)
    → i ≡ length front
    → length old ≡ length new
    → write_all (front ++ (old ++ back)) i new ≡ some (front ++ (new ++ back))
unfolding write_all
write_all-append front [] [] back i e h = refl
write_all-append front [] (x ∷ new) back i e h = absurd (omega arith)
write_all-append front (y ∷ old) [] back i e h = absurd (omega arith)
write_all-append front (y ∷ old) (x ∷ new) back i e h =
    rw (e, write-append front y (old ++ back) x)
      (let next : length front + 1 ≡ length (front ++ x ∷ []) =
          omega (arith, length-append front (x ∷ [])) in
        let step =
          write_all-append (front ++ x ∷ []) old new back (length front + 1) next (omega arith) in
        simp append_assoc at step)

-- Values with the same low bits are stored as the same bytes.
pack_16-write_all :
    (buf : List ℕ) (at i w : ℕ)
    → i % 2 ^ 16 ≡ w % 2 ^ 16
    → pack_16 buf at i ≡ write_all buf at (be16 w)
unfolding pack_16 write_all
pack_16-write_all buf at i w h =
    let hi : i / 2 ^ 8 % 2 ^ 8 ≡ w / 2 ^ 8 % 2 ^ 8 = omega arith in
    let lo : i % 2 ^ 8 ≡ w % 2 ^ 8 = omega arith in rw (hi, lo) (simp >>=_some)

pack_32-write_all :
    (buf : List ℕ) (at i w : ℕ)
    → i % 2 ^ 32 ≡ w % 2 ^ 32
    → pack_32 buf at i ≡ write_all buf at (be32 w)
unfolding pack_32 write_all
pack_32-write_all buf at i w h =
    let b0 : i / 2 ^ 24 % 2 ^ 8 ≡ w / 2 ^ 24 % 2 ^ 8 = omega arith in
    let b1 : i / 2 ^ 16 % 2 ^ 8 ≡ w / 2 ^ 16 % 2 ^ 8 = omega arith in
    let b2 : i / 2 ^ 8 % 2 ^ 8 ≡ w / 2 ^ 8 % 2 ^ 8 = omega arith in
    let b3 : i % 2 ^ 8 ≡ w % 2 ^ 8 = omega arith in rw (b0, b1, b2, b3) (simp >>=_some)

-- The conversions between the argument word and the stored value keep the low bits.
char_bits : (w : ℕ) → to_u8 (signed8 (to_u8 (signed32 (u32 w)))) ≡ w % 2 ^ 8
char_bits w = ground arith

short_bits : (w : ℕ) → to_u32 (signed16 (to_u16 (signed32 (u32 w)))) % 2 ^ 16 ≡ w % 2 ^ 16
short_bits w = ground arith

long_bits : (w : ℕ) → to_u64 (signed64 (u64 w)) % 2 ^ 32 ≡ w % 2 ^ 32
long_bits w = ground arith

-- A case of the switch stores the encoded word and moves on by its width.
step-encode :
    (k : ℕ) (l : Letter) (buf : List ℕ) (at size w : ℕ) (ap reports : List ℕ) (buf' : List ℕ)
    → write_all buf at (encode l w) ≡ some buf'
    → pack_step k (char_of l) (packing buf at size (w ∷ ap) reports)
      ≡ some (packing buf' (at + width l) (size + width l) ap reports)
unfolding write_all pack_step
step-encode k uchar buf at size w ap reports buf' h =
    let stored : write buf at (w % 2 ^ 8) ≡ some buf' = simp >>=_some at h in
    let low : w % 2 ^ 32 % 2 ^ 8 ≡ w % 2 ^ 8 = omega arith in rw (low, stored)
step-encode k schar buf at size w ap reports buf' h =
    let stored : write buf at (w % 2 ^ 8) ≡ some buf' = simp >>=_some at h in
    rw (char_bits w, stored)
step-encode k ushort buf at size w ap reports buf' h =
    rw (pack_16-write_all buf at (u16 (u32 w)) w (omega arith), h)
step-encode k sshort buf at size w ap reports buf' h =
    rw (pack_16-write_all buf at _ w (short_bits w), h)
step-encode k ulong buf at size w ap reports buf' h =
    rw (pack_32-write_all buf at (u64 w) w (omega arith), h)
step-encode k slong buf at size w ap reports buf' h =
    rw (pack_32-write_all buf at _ w (long_bits w), h)

-- A run over known letters replaces as many bytes as they have by their encoding.
pub pack_loop-encode :
    (ls : List Letter) (ws more front old back reports : List ℕ) (k at size : ℕ)
    → length ws ≡ length ls
    → length old ≡ total ls
    → at ≡ length front
    → pack_loop k (map char_of ls) (packing (front ++ (old ++ back)) at size (ws ++ more) reports)
      ≡ some (
          packing
            (front ++ (encode_all ls ws ++ back))
            (at + total ls)
            (size + total ls)
            more
            reports)
unfolding pack_loop
pack_loop-encode [] [] more front [] back reports k at size hw ho ha = rw (add-zero, add-zero)
pack_loop-encode [] [] more front (y ∷ old) back reports k at size hw ho ha = absurd (omega arith)
pack_loop-encode [] (w ∷ ws) more front old back reports k at size hw ho ha = absurd (omega arith)
pack_loop-encode (l ∷ ls) [] more front old back reports k at size hw ho ha = absurd (omega arith)
pack_loop-encode (l ∷ ls) (w ∷ ws) more front old back reports k at size hw ho ha =
    let n = width l in
    let mine = take n old in
    let others = drop n old in
    let split : old ++ back ≡ mine ++ (others ++ back) =
      ap_path (λ t. t ++ back) (sym (take-append-drop n old)) ∙ append_assoc mine others back in
    let fits : length mine ≡ length (encode l w) =
      omega (arith, length-take n old, length-encode l w) in
    let stored : write_all (front ++ (old ++ back)) at (encode l w)
        ≡ some (front ++ (encode l w ++ (others ++ back))) =
      rw split (write_all-append front mine (encode l w) (others ++ back) at ha fits) in
    let rest =
      pack_loop-encode ls ws more (front ++ encode l w) others back reports (k + 1) (at + n)
        (size + n) (omega arith) (omega (arith, length-drop n old))
        (omega (arith, length-append front (encode l w), length-encode l w)) in
    rw (step-encode k l _ at size w (ws ++ more) reports _ stored)
      (simp (append_assoc, add_assoc) (simp (append_assoc, add_assoc) at rest))

-- The call: the encoded arguments at the front of the buffer, their number of bytes as the result,
-- no report, and the rest of the buffer as it was.
pub baa_pack-encode :
    (ls : List Letter) (ws buf : List ℕ)
    → length ws ≡ length ls
    → total ls ≤ length buf
    → baa_pack buf (map char_of ls) ws
      ≡ some (record {
        result = signed32 (u32 (total ls));
        buf = encode_all ls ws ++ drop (total ls) buf;
        reports = [];
      })
unfolding baa_pack
baa_pack-encode ls ws buf hw hb =
    let n = total ls in
    let run =
      pack_loop-encode ls ws [] [] (take n buf) (drop n buf) [] 0 0 0 hw (length-take n buf hb)
        refl in
    let run' = simp (take-append-drop, append-nil) at run in rw (run', zero-add)
