-- ===== src/Serialize/Written.antt =====
-- What baa_pack of src/serialize.c writes for any format, unknown letters included.
use libbaalue.Prelude.{
  ℕ, zero, suc, ◌+◌, ◌<◌, ◌≡◌, refl, sym, ◌∙◌, ap as ap_path, some, List, [], ◌∷◌, ◌>>=◌,
  >>=-eq-some, arith, All, length, drop, write, if◌then◌else◌, ◌==◌, ℤ, Bool-cases, inl, inr,
  signed8, signed32, to_u8, subst, Option, Option-cases,
}
use mathlib.Core.Option.{some-injective}
use libbaalue.Serialize.{
  Packing, Packed, baa_pack, pack_loop, pack_step, pack_16, pack_32, pack_case_c, pack_case_C,
  pack_case_s, pack_case_S, pack_case_l, pack_case_L, va_arg, u8, u32,
}

abbrev pub IsByte : ℕ → Type 0
IsByte b = b < 256

-- How `b` differs from `a` when bytes have been written in front of `n`.
record Wrote (a b : List ℕ) (n : ℕ) : Type 0 where
  same_length : length b ≡ length a
  bytes : All IsByte a → All IsByte b
  same_behind : drop n b ≡ drop n a

drop-suc : (n : ℕ) (xs : List ℕ) → drop (suc n) xs ≡ drop 1 (drop n xs)
drop-suc zero xs = refl
drop-suc (suc n) [] = refl
drop-suc (suc n) (x ∷ xs) = drop-suc n xs

drop_more : (k n : ℕ) (a b : List ℕ) → drop n b ≡ drop n a → drop (k + n) b ≡ drop (k + n) a
drop_more zero n a b e = let z : 0 + n ≡ n = omega arith in rw z e
drop_more (suc k) n a b e =
    let z : suc k + n ≡ suc (k + n) = omega arith in
    rw (z, drop-suc (k + n) b, drop-suc (k + n) a, drop_more k n a b e)

Wrote-trans :
    {a b c : List ℕ} {n m : ℕ} (k : ℕ) → m ≡ k + n → Wrote a b n → Wrote b c m → Wrote a c m
Wrote-trans {a} {b} {n} k e p q = record {
  same_length = q.same_length ∙ p.same_length;
  bytes = λ h. q.bytes (p.bytes h);
  same_behind =
      q.same_behind ∙ subst (λ m. drop m b ≡ drop m a) (sym e) (drop_more k n a b p.same_behind);
}

write-Wrote :
    (a : List ℕ) (i v : ℕ) {b : List ℕ} → IsByte v → write a i v ≡ some b → Wrote a b (i + 1)
write-Wrote [] i v h e = cc
write-Wrote (x ∷ xs) zero v h e =
    subst (λ b. Wrote (x ∷ xs) b (0 + 1)) (some-injective _ _ e)
      (record { same_length = refl; bytes = λ q. (h, q.1); same_behind = refl })
write-Wrote (x ∷ xs) (suc i) v {b} h e = elim (Option-cases (write xs i v)) [
  | inl n ↦ cc (rw n at e)
  | inr (ys, s) ↦
      let rest = write-Wrote xs i v h s in
      let next : suc i + 1 ≡ suc (i + 1) = omega arith in
      let b_is : some (x ∷ ys) ≡ some b = rw s at e in
      subst (λ b. Wrote (x ∷ xs) b (suc i + 1)) (some-injective _ _ b_is)
        (record {
          same_length = ap_path suc rest.same_length;
          bytes = λ q. (q.0, rest.bytes q.1);
          same_behind = rw next rest.same_behind;
        })
]

u8-IsByte : (n : ℕ) → IsByte (u8 n)
u8-IsByte n = omega arith

to_u8-IsByte : (z : ℤ) → IsByte (to_u8 z)
to_u8-IsByte z = omega arith

pack_16-Wrote : (a : List ℕ) (p i : ℕ) {b : List ℕ} → pack_16 a p i ≡ some b → Wrote a b (p + 2)
unfolding pack_16
pack_16-Wrote a p i {b} e =
    let (a1, e1, e2) = >>=-eq-some _ _ e in
    Wrote-trans 1 (omega arith) (write-Wrote a p _ (u8-IsByte _) e1)
      (subst (λ n. Wrote a1 b n) (omega arith) (write-Wrote a1 (p + 1) _ (u8-IsByte i) e2))

pack_32-Wrote : (a : List ℕ) (p i : ℕ) {b : List ℕ} → pack_32 a p i ≡ some b → Wrote a b (p + 4)
unfolding pack_32
pack_32-Wrote a p i {b} e =
    let (a1, e1, f1) = >>=-eq-some _ _ e in
    let (a2, e2, f2) = >>=-eq-some _ _ f1 in
    let (a3, e3, f3) = >>=-eq-some _ _ f2 in
    let w1 = write-Wrote a p _ (u8-IsByte _) e1 in
    let w2 = Wrote-trans 1 (omega arith) w1 (write-Wrote a1 (p + 1) _ (u8-IsByte _) e2) in
    let w3 = Wrote-trans 1 (omega arith) w2 (write-Wrote a2 (p + 1 + 1) _ (u8-IsByte _) e3) in
    subst (λ n. Wrote a b n) (omega arith)
      (Wrote-trans 1 (omega arith) w3 (write-Wrote a3 (p + 1 + 1 + 1) _ (u8-IsByte i) f3))

-- The bytes that a letter stands for.
abbrev pub width : ℕ → ℕ
width ch =
    if ch == b'c'
    then 1
    else if ch == b'C'
    then 1
    else if ch == b's'
    then 2
    else if ch == b'S'
    then 2
    else if ch == b'l'
    then 4
    else if ch == b'L'
    then 4
    else 0

abbrev pub size_of : List ℕ → ℕ
size_of [] = 0
size_of (ch ∷ fmt) = width ch + size_of fmt

-- A step of `n` bytes.
record Steps (n : ℕ) (s t : Packing) : Type 0 where
  moved : t.at ≡ s.at + n
  counted : t.size ≡ s.size + n
  wrote : Wrote s.buf t.buf (s.at + n)

unchanged : (a : List ℕ) (n : ℕ) → Wrote a a n
unchanged a n = record { same_length = refl; bytes = λ h. h; same_behind = refl }

abbrev advanced : Packing → ℕ → List ℕ → List ℕ → Packing
advanced s n buf ap = record s { buf = buf; at = s.at + n; size = s.size + n; ap = ap }

-- A case that reads a word and writes `n` bytes.
case-Steps :
    (n : ℕ) (s : Packing) (put : ℕ → Option (List ℕ)) {t : Packing}
    → ((word : ℕ) (b : List ℕ) → put word ≡ some b → Wrote s.buf b (s.at + n))
    → (va_arg s.ap >>= λ (a : ℕ × List ℕ). put a.0 >>= λ (b : List ℕ). some (advanced s n b a.1))
      ≡ some t
    → Steps n s t
case-Steps n s put wrote e =
    let (a, e1, f) = >>=-eq-some (va_arg s.ap) _ e in
    let (b, e2, g) = >>=-eq-some (put a.0) _ f in
    subst (λ t. Steps n s t) (some-injective _ _ g)
      (record { moved = refl; counted = refl; wrote = wrote a.0 b e2 })

pack_step-Steps :
    (k ch : ℕ) (s : Packing) {t : Packing} → pack_step k ch s ≡ some t → Steps (width ch) s t
unfolding pack_step pack_case_c pack_case_C pack_case_s pack_case_S pack_case_l pack_case_L
pack_step-Steps k ch s {t} e = elim (Bool-cases (ch == b'c')) [
  | inl c ↦ rw c (case-Steps 1 s _ (λ w b q. write-Wrote s.buf s.at _ (u8-IsByte _) q) (rw c at e))
  | inr c ↦ elim (Bool-cases (ch == b'C')) [
    | inl c' ↦
        rw (c, c')
          (case-Steps 1 s _
            (λ w b q.
              write-Wrote s.buf s.at _ (to_u8-IsByte (signed8 (to_u8 (signed32 (u32 w))))) q)
            (rw (c, c') at e))
    | inr c' ↦ elim (Bool-cases (ch == b's')) [
      | inl x ↦
          rw (c, c', x)
            (case-Steps 2 s _ (λ w b q. pack_16-Wrote s.buf s.at _ q) (rw (c, c', x) at e))
      | inr x ↦ elim (Bool-cases (ch == b'S')) [
        | inl x' ↦
            rw (c, c', x, x')
              (case-Steps 2 s _ (λ w b q. pack_16-Wrote s.buf s.at _ q) (rw (c, c', x, x') at e))
        | inr x' ↦ elim (Bool-cases (ch == b'l')) [
          | inl y ↦
              rw (c, c', x, x', y)
                (case-Steps 4 s _ (λ w b q. pack_32-Wrote s.buf s.at _ q)
                  (rw (c, c', x, x', y) at e))
          | inr y ↦ elim (Bool-cases (ch == b'L')) [
            | inl y' ↦
                rw (c, c', x, x', y, y')
                  (case-Steps 4 s _ (λ w b q. pack_32-Wrote s.buf s.at _ q)
                    (rw (c, c', x, x', y, y') at e))
            | inr y' ↦
                rw (c, c', x, x', y, y')
                  (subst (λ t. Steps 0 s t) (some-injective _ _ (rw (c, c', x, x', y, y') at e))
                    (record {
                      moved = omega arith;
                      counted = omega arith;
                      wrote = unchanged s.buf (s.at + 0);
                    }))
          ]
        ]
      ]
    ]
  ]
]

Steps-trans : {n m : ℕ} {s t u : Packing} → Steps n s t → Steps m t u → Steps (n + m) s u
Steps-trans {n} {m} {s} {t} {u} p q = record {
  moved = omega (arith, p.moved, q.moved);
  counted = omega (arith, p.counted, q.counted);
  wrote =
      Wrote-trans m (omega arith) p.wrote
        (subst (λ k. Wrote t.buf u.buf k) (omega (arith, p.moved)) q.wrote);
}

pack_loop-Steps :
    (k : ℕ) (fmt : List ℕ) (s : Packing) {t : Packing}
    → pack_loop k fmt s ≡ some t
    → Steps (size_of fmt) s t
unfolding pack_loop
pack_loop-Steps k [] s e =
    subst (λ t. Steps 0 s t) (some-injective _ _ e)
      (record { moved = omega arith; counted = omega arith; wrote = unchanged s.buf (s.at + 0) })
pack_loop-Steps k (ch ∷ fmt) s e =
    let (u, e1, f) = >>=-eq-some (pack_step k ch s) _ e in
    Steps-trans (pack_step-Steps k ch s e1) (pack_loop-Steps (k + 1) fmt u f)

-- Whatever the format, letters that baa_pack does not know included, and whatever the arguments: if the
-- call makes no access out of bounds, the buffer keeps its length, it still consists of bytes if it
-- did before, nothing behind the bytes that the letters of the format stand for is changed, and the
-- result is their number, cut to an int.
pub baa_pack-bytes :
    (buf fmt ap : List ℕ) {p : Packed}
    → baa_pack buf fmt ap ≡ some p
    → (length p.buf ≡ length buf)
      × (All IsByte buf → All IsByte p.buf)
      × (drop (size_of fmt) p.buf ≡ drop (size_of fmt) buf)
      × (p.result ≡ signed32 (u32 (size_of fmt)))
unfolding baa_pack
baa_pack-bytes buf fmt ap e =
    let (s, e1, f) = >>=-eq-some _ _ e in
    let steps = pack_loop-Steps 0 fmt _ e1 in
    let size : s.size ≡ size_of fmt = omega (arith, steps.counted) in
    let none_before : 0 + size_of fmt ≡ size_of fmt = omega arith in
    subst
      (λ (p : Packed).
        (length p.buf ≡ length buf)
        × (All IsByte buf → All IsByte p.buf)
        × (drop (size_of fmt) p.buf ≡ drop (size_of fmt) buf)
        × (p.result ≡ signed32 (u32 (size_of fmt))))
      (some-injective _ _ f)
      (
        steps.wrote.same_length,
        steps.wrote.bytes,
        subst (λ n. drop n s.buf ≡ drop n buf) none_before steps.wrote.same_behind,
        ap_path (λ n. signed32 (u32 n)) size,
      )
