-- ===== src/Users/Laws.antt =====
-- What the copies leave in the caller's buffer, read as a C string.
use libbaalue.Prelude.{
  ℕ, zero, suc, ◌-◌, ◌^◌, ◌<◌, ◌≤◌, ◌≡◌, ◌≢◌, refl, true, false, inl, inr, ◌⊎◌, Option, none, some,
  List, [], ◌∷◌, ◌++◌, All, arith, ltb, ◌==◌, if◌then◌else◌, length, take_all, drop, replicate, pos,
  negsuc, Bool-cases,
}
use libbaalue.Users.{
  Passwd, Group, strncpy, Copied, pred_size, copy_text, baa_get_username, baa_get_homedir,
  baa_get_userinfo, baa_get_groupname,
}

-- The bytes before the first NUL; `none` if the buffer has none.
abbrev pub c_string : List ℕ → Option (List ℕ)
c_string [] = none
c_string (b ∷ bytes) =
    let rest : Option (List ℕ) = elim (c_string bytes) [ none ↦ none | some s ↦ some (b ∷ s) ] in
    if b == 0 then some [] else rest

abbrev pub NoNul : List ℕ → Type 0
NoNul = All (λ b. b ≢ 0)

c_string-append : (s rest : List ℕ) → NoNul s → c_string (s ++ 0 ∷ rest) ≡ some s
c_string-append [] rest h = refl
c_string-append (b ∷ s) rest h =
    let other : (b == 0) ≡ false = ground (arith, h.0) in rw (other, c_string-append s rest h.1)

-- The last byte of a buffer of `n + 1` bytes.
drop_last : (n : ℕ) (buf : List ℕ) → length buf ≡ suc n → (b : ℕ) × (drop n buf ≡ b ∷ [])
drop_last zero [] h = absurd (omega arith)
drop_last zero (b ∷ []) h = (b, refl)
drop_last zero (b ∷ c ∷ buf) h = absurd (omega arith)
drop_last (suc n) [] h = absurd (omega arith)
drop_last (suc n) (b ∷ buf) h = drop_last n buf (omega arith)

pred_size-suc : (n : ℕ) → suc n < 2 ^ 64 → pred_size (suc n) ≡ n
pred_size-suc n h = omega arith

module _ (text buf : List ℕ) (n : ℕ) (small : suc n < 2 ^ 64) where
  copy_text_long :
      n < length text → copy_text text buf (suc n) ≡ some (record { result = negsuc 0; buf = buf })
  unfolding copy_text
  copy_text_long h =
      let long : ltb n (length text) ≡ true = ground arith in rw (pred_size-suc n small, long)

  copy_text_fits :
      length buf ≡ suc n
      → length text ≤ n
      → copy_text text buf (suc n)
        ≡ some
            (record { result = pos 0; buf = text ++ (replicate (n - length text) 0 ++ drop n buf) })
  unfolding copy_text strncpy
  copy_text_fits room h =
      let short : ltb n (length text) ≡ false = ground arith in
      let inside : ltb (length buf) n ≡ false = ground arith in
      rw (pred_size-suc n small, short, inside, take_all text n h)

-- A text without its last NUL, in a buffer that a byte `b` ends.
c_string-full :
    (text : List ℕ) (b : ℕ)
    → NoNul text
    → c_string (text ++ b ∷ []) ≡ (if b == 0 then some text else none)
c_string-full [] b h = refl
c_string-full (x ∷ text) b h =
    let other : (x == 0) ≡ false = ground (arith, h.0) in
    elim (Bool-cases (b == 0)) [
      | inl e ↦ rw (other, c_string-full text b h.1, e)
      | inr e ↦ rw (other, c_string-full text b h.1, e)
    ]

-- A call with a buffer of `n + 1` bytes and the result `r`: a text of more than `n` bytes is
-- refused and the buffer left alone; a shorter one than `n` is delivered as a C string; one of
-- exactly `n` bytes is reported as delivered, but the byte behind it is the buffer's old one, so
-- that the C string ends only if that is NUL.
abbrev pub Delivers : List ℕ → List ℕ → ℕ → Option Copied → Type 0
Delivers text buf n r =
    ((n < length text) × (r ≡ some (record { result = negsuc 0; buf = buf })))
    ⊎ ((length text < n)
        × ((out : List ℕ) × (r ≡ some (record { result = pos 0; buf = out }))
            × (c_string out ≡ some text)))
    ⊎ ((length text ≡ n)
        × ((old : ℕ) × (drop n buf ≡ old ∷ [])
            × (r ≡ some (record { result = pos 0; buf = text ++ old ∷ [] }))
            × (c_string (text ++ old ∷ []) ≡ (if old == 0 then some text else none))))

lt_cases : (a b : ℕ) → (b < a) ⊎ (a < b) ⊎ (a ≡ b)
lt_cases a b = omega arith

copy_text-Delivers :
    (text buf : List ℕ) (n : ℕ)
    → suc n < 2 ^ 64
    → length buf ≡ suc n
    → NoNul text
    → Delivers text buf n (copy_text text buf (suc n))
copy_text-Delivers text buf n small room clean = split (lt_cases (length text) n)
  where
    split :
        (n < length text) ⊎ (length text < n) ⊎ (length text ≡ n)
        → Delivers text buf n (copy_text text buf (suc n))
    split (inl long) = inl (long, copy_text_long text buf n small long)
    split (inr (inl short)) =
        let pad : n - length text ≡ suc (n - length text - 1) = omega arith in
        let run = copy_text_fits text buf n small room (omega arith) in
        inr (inl (short, (_, run, rw pad (c_string-append text _ clean))))
    split (inr (inr same)) =
        let (old, last) = drop_last n buf room in
        let none_left : n - length text ≡ 0 = omega arith in
        let run = copy_text_fits text buf n small room (omega arith) in
        inr (inr (same, (old, last, rw (none_left, last) at run, c_string-full text old clean)))

-- For a known user and group and a buffer of `n + 1` bytes, passed with its size, the four calls
-- deliver the login name, the home directory, the user information and the group's name.
pub names-Delivers :
    (pwd : Passwd) (grp : Group) (buf : List ℕ) (n : ℕ)
    → suc n < 2 ^ 64
    → length buf ≡ suc n
    → NoNul pwd.pw_name
    → NoNul pwd.pw_dir
    → NoNul pwd.pw_gecos
    → NoNul grp.gr_name
    → Delivers pwd.pw_name buf n (baa_get_username (some pwd) (some buf) (suc n))
      × Delivers pwd.pw_dir buf n (baa_get_homedir (some pwd) (some buf) (suc n))
      × Delivers pwd.pw_gecos buf n (baa_get_userinfo (some pwd) (some buf) (suc n))
      × Delivers grp.gr_name buf n (baa_get_groupname (some grp) (some buf) (suc n))
unfolding baa_get_username baa_get_homedir baa_get_userinfo baa_get_groupname
names-Delivers pwd grp buf n small room name dir gecos group = (
  copy_text-Delivers pwd.pw_name buf n small room name,
  copy_text-Delivers pwd.pw_dir buf n small room dir,
  copy_text-Delivers pwd.pw_gecos buf n small room gecos,
  copy_text-Delivers grp.gr_name buf n small room group,
)
