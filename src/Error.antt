-- ===== src/Error.antt =====
-- src/error.c: messages to stderr and syslog. The text that vsnprintf would write without a limit
-- is given, as are errno and strerror. A C string in a buffer is the list of its bytes before the
-- NUL; one that does not fit is `none`.
pub mod Laws
use libbaalue.Prelude.{
  ℕ, ◌+◌, ◌-◌, Bool, true, false, Option, none, some, List, [], ◌∷◌, ◌++◌, ◌>>=◌, ltb, ◌==◌, not,
  if◌then◌else◌, length, take,
}
use libbaalue.Protocol.{baa_maxline}

-- Priorities of syslog.
abbrev pub log_err : ℕ
log_err = 3

abbrev pub log_info : ℕ
log_info = 6

abbrev pub log_debug : ℕ
log_debug = 7

-- What the functions read: the flag `use_syslog`, errno, and strerror.
pub record Env : Type 0 where
  pub use_syslog : Bool
  pub errno : ℕ
  pub strerror : ℕ → List ℕ

-- How a function ends.
pub data End : Type 0 where
  returns exits aborts : End

-- What it writes: a line to syslog with its priority, a line to stderr; and how it ends.
pub record Output : Type 0 where
  pub syslog : Option (ℕ × List ℕ)
  pub stderr : List ℕ
  pub end : End

-- What snprintf keeps of a text in `n` bytes, of which one is the NUL.
abbrev pub snprintf : ℕ → List ℕ → List ℕ
snprintf n text = take (n - 1) text

-- A string in a buffer of `n` bytes.
unfoldable pub in_buffer : ℕ → List ℕ → Option (List ℕ)
in_buffer n text = if ltb (length text) n then some text else none

-- ": %s" with the text of strerror.
abbrev pub errno_text : Env → ℕ → List ℕ
errno_text env e = b':' ∷ b' ' ∷ env.strerror e

-- `errno_flag` overrides `errno_val`.
unfoldable pub errno_saved : Env → Bool → ℕ → ℕ
errno_saved env errno_flag errno_val =
    let errno_save : ℕ = if not (errno_val == 0) then errno_val else 0 in
    if errno_flag then env.errno else errno_save

-- From vsnprintf on, with the errno that is saved.
unfoldable pub print_message : Env → ℕ → ℕ → List ℕ → End → Option Output
print_message env errno_save log_level text end = do
  buf ← in_buffer (baa_maxline + 1) (snprintf baa_maxline text)
  let more = snprintf (baa_maxline - length buf) (errno_text env errno_save)
  buf ← in_buffer (baa_maxline + 1) (if not (errno_save == 0) then buf ++ more else buf)
  buf ← in_buffer (baa_maxline + 1) (buf ++ 10 ∷ [])
  some (record {
    syslog = if env.use_syslog then some (log_level, buf) else none;
    stderr = buf;
    end = end;
  })

unfoldable pub error_common : Env → Bool → ℕ → ℕ → List ℕ → End → Option Output
unfolding errno_saved print_message in_buffer
error_common env errno_flag errno_val log_level text end =
    print_message env (errno_saved env errno_flag errno_val) log_level text end

module _ (env : Env) where
  unfoldable pub baa_error_exit : List ℕ → Option Output
  baa_error_exit text = error_common env true 0 log_err text exits

  unfoldable pub baa_info_exit : List ℕ → Option Output
  baa_info_exit text = error_common env false 0 log_info text exits

  unfoldable pub baa_dump_exit : List ℕ → Option Output
  baa_dump_exit text = error_common env true 0 log_err text aborts

  unfoldable pub baa_error_msg : List ℕ → Option Output
  baa_error_msg text = error_common env false 0 log_err text returns

  unfoldable pub baa_errno_msg : List ℕ → Option Output
  baa_errno_msg text = error_common env true 0 log_err text returns

  unfoldable pub baa_info_msg : List ℕ → Option Output
  baa_info_msg text = error_common env false 0 log_info text returns

  unfoldable pub baa_debug_msg : List ℕ → Option Output
  baa_debug_msg text = error_common env true 0 log_debug text returns

  unfoldable pub baa_th_error_msg : ℕ → List ℕ → Option Output
  baa_th_error_msg errno_val text = error_common env false errno_val log_err text returns

  unfoldable pub baa_th_dump_exit : ℕ → List ℕ → Option Output
  baa_th_dump_exit errno_val text = error_common env false errno_val log_err text aborts

  unfoldable pub baa_th_error_exit : ℕ → List ℕ → Option Output
  baa_th_error_exit errno_val text = error_common env false errno_val log_err text exits

-- baa_enable_syslog: the new flag, whether openlog is called, and the message, whose text
-- depends on `name` (`none` for NULL). The message is printed after the flag has changed.
pub record Switched : Type 0 where
  pub env : Env
  pub opened : Bool
  pub said : Option Output

unfoldable pub baa_enable_syslog :
    Env → Bool → Option (List ℕ) → (List ℕ → List ℕ) → (List ℕ → List ℕ) → Option Switched
baa_enable_syslog env true none on off =
    some (record { env = record env { use_syslog = true }; opened = false; said = none })
baa_enable_syslog env true (some name) on off = do
  let env' = record env { use_syslog = true }
  out ← baa_info_msg env' (on name)
  some (record { env = env'; opened = true; said = some out })
baa_enable_syslog env false none on off =
    some (record { env = record env { use_syslog = false }; opened = false; said = none })
baa_enable_syslog env false (some name) on off = do
  let env' = record env { use_syslog = false }
  out ← baa_info_msg env' (off name)
  some (record { env = env'; opened = false; said = some out })
