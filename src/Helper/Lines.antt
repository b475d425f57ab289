-- ===== src/Helper/Lines.antt =====
-- What baa_read_line stores: a line, cut to the buffer, and what goes wrong at the end of a file.
use libbaalue.Prelude.{
  ℕ, zero, suc, ◌+◌, ◌-◌, ◌%◌, ◌^◌, ◌<◌, ◌≡◌, ◌≢◌, refl, ◌∙◌, false, inl, inr, some, List, [], ◌∷◌,
  ◌++◌, append_assoc, append-nil, All, arith, ltb, ◌==◌, length, length-append, length-take,
  length-take_le, take, take_all, take-append_le, drop_cons, drop, write-append, map, pos,
  Bool-cases, Option-cases,
}
use libbaalue.Helper.ReadLine.{
  Read, interrupted, failed, eof, byte, Line, baa_file_empty, returned, newline, has_room, keep,
  finish, read_cmd, baa_read_line,
}

-- Bytes that end no line.
abbrev pub NoNewline : List ℕ → Type 0
NoNewline = All (λ b. b ≢ newline)

abbrev pub last_or : ℕ → List ℕ → ℕ
last_or ch [] = ch
last_or ch (b ∷ s) = last_or b s

room : (n count : ℕ) → suc n < 2 ^ 64 → has_room (suc n) count ≡ ltb count n
room n count small = let e : (suc n + (2 ^ 64 - 1)) % 2 ^ 64 ≡ n = omega arith in rw e

take_none : (n : ℕ) → take {A = ℕ} n [] ≡ []
take_none zero = refl
take_none (suc n) = refl

-- The loop on a buffer `buf` passed with the size `n + 1`, of which it has that much.
module _ (n : ℕ) (buf : List ℕ) (small : suc n < 2 ^ 64) (fits : n < length buf) where
  -- What is stored after the bytes `s`, and the buffer.
  abbrev count_of : List ℕ → ℕ
  count_of s = length (take n s)

  abbrev buf_of : List ℕ → List ℕ
  buf_of s = take n s ++ drop (count_of s) buf

  keep_lem :
      (s : List ℕ) (b : ℕ)
      → keep (suc n) b (count_of s) (buf_of s) ≡ some (count_of (s ++ b ∷ []), buf_of (s ++ b ∷ []))
  unfolding keep
  keep_lem s b = elim (Bool-cases (ltb (length s) n)) [
    | inl e ↦
        let here : take n s ≡ s = take_all s n (ground arith) in
        let there : take n (s ++ b ∷ []) ≡ s ++ b ∷ [] =
          take_all (s ++ b ∷ []) n (ground (arith, length-append s (b ∷ []))) in
        let len : length (s ++ b ∷ []) ≡ suc (length s) = omega (arith, length-append s (b ∷ [])) in
        let one : length s + 1 ≡ suc (length s) = omega arith in
        let (x, at) = drop_cons (length s) buf (ground arith) in
        rw (
          here,
          there,
          len,
          room n (length s) small,
          e,
          at,
          write-append s x _ b,
          one,
          append_assoc,
        )
    | inr e ↦
        let same : take n (s ++ b ∷ []) ≡ take n s = take-append_le n s (b ∷ []) (ground arith) in
        let len : count_of s ≡ n = length-take n s (ground arith) in
        let full : ltb n n ≡ false = ground arith in rw (same, len, room n n small, full)
  ]

  finish_lem :
      (s : List ℕ)
      → finish (count_of s) (buf_of s)
        ≡ some (returned (pos (count_of s)) (take n s ++ 0 ∷ drop (suc (count_of s)) buf))
  unfolding finish
  finish_lem s =
      let (x, at) = drop_cons (count_of s) buf (omega (arith, length-take_le n s)) in
      rw (at, write-append (take n s) x _ 0)

  read_cmd-bytes :
      (more : List ℕ) (rest : List Read) (s : List ℕ) (ch : ℕ)
      → NoNewline more
      → read_cmd (suc n) (map byte more ++ rest) (count_of s) ch (buf_of s)
        ≡ read_cmd (suc n) rest (count_of (s ++ more)) (last_or ch more) (buf_of (s ++ more))
  unfolding read_cmd
  read_cmd-bytes [] rest s ch h = rw append-nil
  read_cmd-bytes (b ∷ more) rest s ch h =
      let other : (b == newline) ≡ false = ground (arith, h.0) in
      rw (keep_lem s b, other) (read_cmd-bytes more rest (s ++ b ∷ []) b h.1 ∙ simp append_assoc)

  -- What the caller gets for the bytes `s`: those that fit, their number, and a NUL behind them.
  abbrev pub line_of : List ℕ → Line
  line_of s = returned (pos (count_of s)) (take n s ++ 0 ∷ drop (suc (count_of s)) buf)

  run :
      (more : List ℕ) (rest : List Read)
      → NoNewline more
      → read_cmd (suc n) (map byte more ++ rest) 0 0 buf
        ≡ read_cmd (suc n) rest (count_of more) (last_or 0 more) (buf_of more)
  run more rest h = rw (take_none n) at (read_cmd-bytes more rest [] 0 h)

  newline_ends :
      (s : List ℕ) (rest : List Read) (ch : ℕ)
      → read_cmd (suc n) (byte newline ∷ rest) (count_of s) ch (buf_of s)
        ≡ some (line_of (s ++ newline ∷ []))
  unfolding read_cmd
  newline_ends s rest ch = rw (keep_lem s newline, finish_lem (s ++ newline ∷ []))

  eof_ends :
      (s : List ℕ) (rest : List Read) (ch : ℕ)
      → (count_of s == 0) ≡ false
      → read_cmd (suc n) (eof ∷ rest) (count_of s) ch (buf_of s) ≡ some (line_of (s ++ ch ∷ []))
  unfolding read_cmd
  eof_ends s rest ch h = rw (h, keep_lem s ch, finish_lem (s ++ ch ∷ []))

  some_kept : (b : ℕ) (line : List ℕ) → 0 < n → (count_of (b ∷ line) == 0) ≡ false
  some_kept b line positive = let e : n ≡ suc (n - 1) = omega arith in rw e (ground arith)

  -- A line up to its newline is stored as far as it fits in the buffer less one byte, and the rest of
  -- it is read and dropped. At the end of the file with nothing read, the result is BAA_FILE_EMPTY
  -- and the buffer is left alone. At the end of a file whose last line has no newline, that line's
  -- last byte is stored once more.
  pub baa_read_line_lem :
      (b : ℕ) (line : List ℕ) (rest : List Read)
      → NoNewline (b ∷ line)
      → 0 < n
      → (baa_read_line (map byte (b ∷ line) ++ byte newline ∷ rest) buf (suc n)
          ≡ some (line_of ((b ∷ line) ++ newline ∷ [])))
        × (baa_read_line (byte newline ∷ rest) buf (suc n) ≡ some (line_of (newline ∷ [])))
        × (baa_read_line (eof ∷ rest) buf (suc n) ≡ some (returned baa_file_empty buf))
        × (baa_read_line (map byte (b ∷ line) ++ eof ∷ rest) buf (suc n)
            ≡ some (line_of ((b ∷ line) ++ last_or b line ∷ [])))
  unfolding baa_read_line read_cmd
  baa_read_line_lem b line rest h positive = (
    run (b ∷ line) (byte newline ∷ rest) h ∙ newline_ends (b ∷ line) rest (last_or 0 (b ∷ line)),
    run [] (byte newline ∷ rest) tt ∙ newline_ends [] rest 0,
    refl,
    run (b ∷ line) (eof ∷ rest) h
        ∙ eof_ends (b ∷ line) rest (last_or 0 (b ∷ line)) (some_kept b line positive),
  )

-- The results without the interrupted ones.
abbrev pub uninterrupted : List Read → List Read
uninterrupted [] = []
uninterrupted (interrupted ∷ reads) = uninterrupted reads
uninterrupted (failed ∷ reads) = failed ∷ uninterrupted reads
uninterrupted (eof ∷ reads) = eof ∷ uninterrupted reads
uninterrupted (byte b ∷ reads) = byte b ∷ uninterrupted reads

read_cmd-uninterrupted :
    (n : ℕ) (reads : List Read) (count ch : ℕ) (buf : List ℕ)
    → read_cmd n reads count ch buf ≡ read_cmd n (uninterrupted reads) count ch buf
unfolding read_cmd
read_cmd-uninterrupted n [] count ch buf = refl
read_cmd-uninterrupted n (interrupted ∷ reads) count ch buf =
    read_cmd-uninterrupted n reads count ch buf
read_cmd-uninterrupted n (failed ∷ reads) count ch buf = refl
read_cmd-uninterrupted n (eof ∷ reads) count ch buf = refl
read_cmd-uninterrupted n (byte b ∷ reads) count ch buf = elim (Option-cases (keep n b count buf)) [
  | inl e ↦ rw e
  | inr (s, e) ↦ rw (e, read_cmd-uninterrupted n reads s.0 b s.1)
]

-- Interrupted reads change nothing.
pub baa_read_line-uninterrupted :
    (reads : List Read) (buf : List ℕ) (n : ℕ)
    → baa_read_line reads buf n ≡ baa_read_line (uninterrupted reads) buf n
unfolding baa_read_line
baa_read_line-uninterrupted reads buf n = read_cmd-uninterrupted n reads 0 0 buf
