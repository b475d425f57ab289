-- ===== src/Error/Laws.antt =====
-- error_common never overruns its buffer, and the functions behave as the table in
-- src/libbaalue.h says.
use libbaalue.Prelude.{
  ℕ, zero, suc, ◌-◌, ◌≤◌, ◌≡◌, refl, ap, true, false, inl, inr, none, some, List, [], ◌∷◌, ◌++◌,
  append-nil, arith, ltb, ◌==◌, if◌then◌else◌, length, length-append, take, length-take_le,
  Bool-cases,
}
use libbaalue.Protocol.{baa_maxline}
use libbaalue.Error.{
  in_buffer, print_message, log_err, log_info, log_debug, Env, End, returns, exits, aborts, Output,
  errno_text, errno_saved, error_common, baa_error_exit, baa_info_exit, baa_dump_exit,
  baa_error_msg, baa_errno_msg, baa_info_msg, baa_enable_syslog, baa_debug_msg, baa_th_error_msg,
  baa_th_dump_exit, baa_th_error_exit,
}

take-append :
    (n : ℕ) (xs ys : List ℕ) → take n xs ++ take (n - length (take n xs)) ys ≡ take n (xs ++ ys)
take-append zero xs ys = refl
take-append (suc n) [] ys = let e : suc n - 0 ≡ suc n = omega arith in rw e
take-append (suc n) (x ∷ xs) ys =
    let e : suc n - suc (length (take n xs)) ≡ n - length (take n xs) = omega arith in
    rw e (ap (λ t. x ∷ t) (take-append n xs ys))

-- The line for a message: the text and the errno text, if there is one, cut to 253 bytes, and a
-- newline.
abbrev pub line : Env → ℕ → List ℕ → List ℕ
line env e text =
    take (baa_maxline - 1) (text ++ (if e == 0 then [] else errno_text env e)) ++ 10 ∷ []

abbrev pub output : Env → ℕ → ℕ → List ℕ → End → Output
output env e level text end = record {
  syslog = if env.use_syslog then some (level, line env e text) else none;
  stderr = line env e text;
  end = end;
}

in_buffer_fits : (xs : List ℕ) → length xs ≤ 254 → in_buffer 255 xs ≡ some xs
unfolding in_buffer
in_buffer_fits xs h = let inside : ltb (length xs) 255 ≡ true = ground arith in rw inside

print_message_lem :
    (env : Env) (e level : ℕ) (text : List ℕ) (end : End)
    → print_message env e level text end ≡ some (output env e level text end)
unfolding print_message
print_message_lem env e level text end =
    let kept = take 253 text in
    let first = in_buffer_fits kept (omega (arith, length-take_le 253 text)) in
    elim (Bool-cases (e == 0)) [
      | inl no_errno ↦
          let last =
            in_buffer_fits (kept ++ 10 ∷ [])
              (omega (arith, length-take_le 253 text, length-append kept (10 ∷ []))) in
          rw (no_errno, first, first, last, append-nil)
      | inr saved ↦
          let whole = take 253 (text ++ errno_text env e) in
          let room : 254 - length kept - 1 ≡ 253 - length kept = omega arith in
          let joined : kept ++ take (254 - length kept - 1) (errno_text env e) ≡ whole =
            rw room (take-append 253 text (errno_text env e)) in
          let short = length-take_le 253 (text ++ errno_text env e) in
          let second = in_buffer_fits whole (omega arith) in
          let last =
            in_buffer_fits (whole ++ 10 ∷ []) (omega (arith, length-append whole (10 ∷ []))) in
          rw (saved, first, joined, second, last)
    ]

saved_val : (env : Env) (e : ℕ) → errno_saved env false e ≡ e
unfolding errno_saved
saved_val env e = ground arith

-- The table of src/libbaalue.h, for every text and errno, within the buffer: the functions with
-- "yes" append the text of errno, if it is not 0, those with "errno_val" that of their argument, and
-- the others none; the line is cut to 253 bytes and a newline, and goes to stderr, and to syslog with
-- the priority of the table if that is enabled; the function returns, exits or aborts as listed.
error_functions :
    (env : Env) (text : List ℕ) (e : ℕ)
    → (baa_error_exit env text ≡ some (output env env.errno log_err text exits))
      × (baa_info_exit env text ≡ some (output env 0 log_info text exits))
      × (baa_dump_exit env text ≡ some (output env env.errno log_err text aborts))
      × (baa_error_msg env text ≡ some (output env 0 log_err text returns))
      × (baa_errno_msg env text ≡ some (output env env.errno log_err text returns))
      × (baa_info_msg env text ≡ some (output env 0 log_info text returns))
      × (baa_debug_msg env text ≡ some (output env env.errno log_debug text returns))
      × (baa_th_error_msg env e text ≡ some (output env e log_err text returns))
      × (baa_th_error_exit env e text ≡ some (output env e log_err text exits))
      × (baa_th_dump_exit env e text ≡ some (output env e log_err text aborts))
unfolding baa_error_exit baa_info_exit baa_dump_exit baa_error_msg baa_errno_msg baa_info_msg
    baa_debug_msg baa_th_error_msg baa_th_error_exit baa_th_dump_exit error_common
error_functions env text e = (
  print_message_lem env env.errno log_err text exits,
  print_message_lem env 0 log_info text exits,
  print_message_lem env env.errno log_err text aborts,
  print_message_lem env 0 log_err text returns,
  print_message_lem env env.errno log_err text returns,
  print_message_lem env 0 log_info text returns,
  print_message_lem env env.errno log_debug text returns,
  rw (saved_val env e) (print_message_lem env e log_err text returns),
  rw (saved_val env e) (print_message_lem env e log_err text exits),
  rw (saved_val env e) (print_message_lem env e log_err text aborts),
)

-- For a name, baa_enable_syslog sets the flag that the later messages use, opens the log only to
-- enable it, and prints one message: it goes to syslog too when syslog is enabled by the call, and to stderr
-- alone when it is disabled.
pub baa_enable_syslog_lem :
    (env : Env) (name : List ℕ) (on off : List ℕ → List ℕ)
    → let yes = record env { use_syslog = true } in
      let no = record env { use_syslog = false } in
      (baa_enable_syslog env true (some name) on off
        ≡ some (record {
          env = yes;
          opened = true;
          said = some (record {
            syslog = some (log_info, line env 0 (on name));
            stderr = line env 0 (on name);
            end = returns;
          });
        }))
      × (baa_enable_syslog env false (some name) on off
          ≡ some (record {
            env = no;
            opened = false;
            said = some (record { syslog = none; stderr = line env 0 (off name); end = returns });
          }))
unfolding baa_enable_syslog baa_info_msg error_common
baa_enable_syslog_lem env name on off =
    let yes : Env = record env { use_syslog = true } in
    let no : Env = record env { use_syslog = false } in
    (
      rw (print_message_lem yes 0 log_info (on name) returns),
      rw (print_message_lem no 0 log_info (off name) returns),
    )
