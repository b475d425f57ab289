-- ===== src/Serialize/Total.antt =====
-- baa_unpack on any buffer with room: it reads no byte past the format's size.
use native.Mathlib.Nat.{add-zero, zero-add, add_assoc}
use libbaalue.Prelude.{
  ℕ, ◌+◌, ◌≤◌, ◌≡◌, refl, some, List, [], ◌∷◌, ◌++◌, append_assoc, append-nil, arith, length, map,
  get_elem?-some, ℤ, pos, signed16, signed32, to_u16,
}
use libbaalue.Serialize.{u16, u32}
use libbaalue.Serialize.Reader.{
  unpack_i8, unpack_i16, unpack_i32, unpack_16, unpack_32, Store, store, unpack_step, unpack_loop,
  baa_unpack,
}
use libbaalue.Serialize.Bytes.{
  Letter, uchar, schar, ushort, sshort, ulong, slong, char_of, width, dest_bytes, total,
}
use libbaalue.Serialize.Unpack.{unpacking}

-- Assignments of given values to the destinations of a format.
abbrev pub assign : List Letter → List ℕ → List ℤ → List Store
assign (l ∷ ls) (p ∷ ps) (v ∷ vs) = store p (dest_bytes l) v ∷ assign ls ps vs
assign _ _ _ = []

step_total :
    (buf : List ℕ) (k at size p : ℕ) (ap : List ℕ) (stores : List Store) (reports : List ℕ)
    (l : Letter)
    → at + width l ≤ length buf
    → (v : ℤ) × (unpack_step buf k (char_of l) (unpacking at size (p ∷ ap) stores reports)
        ≡ some (
            unpacking
              (at + width l)
              (size + width l)
              ap
              (stores ++ store p (dest_bytes l) v ∷ [])
              reports))
unfolding unpack_step
step_total buf k at size p ap stores reports uchar h =
    let (b, e) = get_elem?-some buf at (omega arith) in (pos b, rw e)
step_total buf k at size p ap stores reports schar h =
    let (b, e) = get_elem?-some buf at (omega arith) in (unpack_i8 b, rw e)
step_total buf k at size p ap stores reports ushort h =
    let (b0, e0) = get_elem?-some buf at (omega arith) in
    let (b1, e1) = get_elem?-some buf (at + 1) (omega arith) in
    (pos (u16 (unpack_16 b0 b1)), rw (e0, e1))
step_total buf k at size p ap stores reports sshort h =
    let (b0, e0) = get_elem?-some buf at (omega arith) in
    let (b1, e1) = get_elem?-some buf (at + 1) (omega arith) in
    (signed16 (to_u16 (unpack_i16 b0 b1)), rw (e0, e1))
step_total buf k at size p ap stores reports ulong h =
    let (b0, e0) = get_elem?-some buf at (omega arith) in
    let (b1, e1) = get_elem?-some buf (at + 1) (omega arith) in
    let (b2, e2) = get_elem?-some buf (at + 2) (omega arith) in
    let (b3, e3) = get_elem?-some buf (at + 3) (omega arith) in
    (pos (unpack_32 b0 b1 b2 b3), rw (e0, e1, e2, e3))
step_total buf k at size p ap stores reports slong h =
    let (b0, e0) = get_elem?-some buf at (omega arith) in
    let (b1, e1) = get_elem?-some buf (at + 1) (omega arith) in
    let (b2, e2) = get_elem?-some buf (at + 2) (omega arith) in
    let (b3, e3) = get_elem?-some buf (at + 3) (omega arith) in
    (unpack_i32 b0 b1 b2 b3, rw (e0, e1, e2, e3))

loop_total :
    (buf : List ℕ) (ls : List Letter) (ps : List ℕ) (k at size : ℕ) (stores : List Store)
    (reports : List ℕ)
    → length ps ≡ length ls
    → at + total ls ≤ length buf
    → (vs : List ℤ) × (length vs ≡ length ls)
      × (unpack_loop buf k (map char_of ls) (unpacking at size ps stores reports)
          ≡ some
              (unpacking (at + total ls) (size + total ls) [] (stores ++ assign ls ps vs) reports))
unfolding unpack_loop
loop_total buf [] [] k at size stores reports hp h =
    ([], refl, rw (add-zero at, add-zero size, append-nil))
loop_total buf [] (p ∷ ps) k at size stores reports hp h = absurd (omega arith)
loop_total buf (l ∷ ls) [] k at size stores reports hp h = absurd (omega arith)
loop_total buf (l ∷ ls) (p ∷ ps) k at size stores reports hp h =
    let n = width l in
    let (v, head) = step_total buf k at size p ps stores reports l (omega arith) in
    let st = store p (dest_bytes l) v in
    let (vs, len, rest) =
      loop_total buf ls ps (k + 1) (at + n) (size + n) (stores ++ st ∷ []) reports (omega arith)
        (omega arith) in
    (
      v ∷ vs,
      omega arith,
      rw head (
          rw
            (
              append_assoc stores (st ∷ []) (assign ls ps vs),
              add_assoc at n (total ls),
              add_assoc size n (total ls),
            )
            at rest),
    )

-- For known letters, one destination for each and a buffer with room, the call succeeds on any
-- bytes: it returns the format's size and assigns once to each destination, in order.
pub baa_unpack-total :
    (ls : List Letter) (ps buf : List ℕ)
    → length ps ≡ length ls
    → total ls ≤ length buf
    → (vs : List ℤ) × (length vs ≡ length ls)
      × (baa_unpack buf (map char_of ls) ps
          ≡ some (record {
            result = signed32 (u32 (total ls));
            stores = assign ls ps vs;
            reports = [];
          }))
unfolding baa_unpack
baa_unpack-total ls ps buf hp h =
    let (vs, len, run) = loop_total buf ls ps 0 0 0 [] [] hp (omega arith) in
    (vs, len, rw (run, zero-add))
