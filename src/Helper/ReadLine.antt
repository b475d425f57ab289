-- ===== src/Helper/ReadLine.antt =====
-- baa_read_line of src/helper.c.
use libbaalue.Prelude.{
  ℕ, ◌+◌, ◌-◌, ◌%◌, ◌^◌, Bool, not, Option, some, List, [], ◌∷◌, ◌>>=◌, ltb, ◌==◌, if◌then◌else◌,
  write, ℤ, pos, negsuc,
}

-- The result of reading one byte: interrupted (EINTR), another error, the end of the file, a byte.
pub data Read : Type 0 where
  interrupted failed eof : Read
  byte : ℕ → Read

-- What the function gives: the value returned with the buffer, or a wait for a result that has
-- not come.
pub data Line : Type 0 where
  returned : ℤ → List ℕ → Line
  waits : List ℕ → Line

-- BAA_FILE_EMPTY.
abbrev pub baa_file_empty : ℤ
baa_file_empty = negsuc 1

abbrev pub newline : ℕ
newline = 10

-- `count < n_bytes - 1` on `size_t`.
abbrev pub has_room : ℕ → ℕ → Bool
has_room n_bytes count = ltb count ((n_bytes + (2 ^ 64 - 1)) % 2 ^ 64)

-- The buffer and `count` after `if (count < n_bytes - 1) …` with the byte `ch`; `tmp_buf` points
-- `count` bytes into the buffer. `none` is a write past its end.
unfoldable pub keep : ℕ → ℕ → ℕ → List ℕ → Option (ℕ × List ℕ)
keep n_bytes ch count buf =
    if has_room n_bytes count
    then (write buf count ch >>= λ buf. some (count + 1, buf))
    else some (count, buf)

-- `*tmp_buf = '\0'; return count;`
unfoldable pub finish : ℕ → List ℕ → Option Line
finish count buf = write buf count 0 >>= λ buf. some (returned (pos count) buf)

-- From the label read_cmd on.
unfoldable pub read_cmd : ℕ → List Read → ℕ → ℕ → List ℕ → Option Line
read_cmd n_bytes [] count ch buf = some (waits buf)
read_cmd n_bytes (interrupted ∷ reads) count ch buf = read_cmd n_bytes reads count ch buf
read_cmd n_bytes (failed ∷ reads) count ch buf = some (returned (negsuc 0) buf)
read_cmd n_bytes (eof ∷ reads) count ch buf =
    let kept = keep n_bytes ch count buf in
    if count == 0
    then some (returned baa_file_empty buf)
    else (kept >>= λ (count, buf). finish count buf)
read_cmd n_bytes (byte b ∷ reads) count ch buf =
    let go_on = λ (s : ℕ × List ℕ). read_cmd n_bytes reads s.0 b s.1 in
    keep n_bytes b count buf >>= λ s. (if not (b == newline) then go_on s else finish s.0 s.1)

unfoldable pub baa_read_line : List Read → List ℕ → ℕ → Option Line
unfolding read_cmd keep finish
baa_read_line reads buf n_bytes = read_cmd n_bytes reads 0 0 buf
