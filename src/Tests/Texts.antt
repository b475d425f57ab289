-- ===== src/Tests/Texts.antt =====
-- Tests of Users, Error and Helper: src/user.c, src/group.c, src/error.c and src/helper.c.
use libbaalue.Prelude.{none, false, ℕ, ◌≡◌, refl, true, some, List, [], ◌∷◌, arith, replicate, pos}
use libbaalue.Users.{
  Passwd, Group, baa_get_username, baa_get_homedir, baa_get_userinfo, baa_get_groupname,
}
use libbaalue.Users.Laws.{Delivers, names-Delivers}
use libbaalue.Error.{
  baa_enable_syslog, error_common, Env, returns, log_err, log_info, baa_errno_msg, baa_info_msg,
}
use libbaalue.Helper.ReadLine.{Read, eof, byte, returned, newline, baa_file_empty, baa_read_line}
use libbaalue.Helper.Lines.{baa_read_line_lem}

abbrev root : Passwd
root = record {
  pw_name = b'r' ∷ b'o' ∷ [];
  pw_dir = b'/' ∷ [];
  pw_gecos = b'r' ∷ b'o' ∷ b'o' ∷ b't' ∷ [];
  pw_uid = 0;
  pw_gid = 0;
}

abbrev wheel : Group
wheel = record { gr_name = []; gr_gid = 10 }

abbrev buffer : List ℕ
buffer = 9 ∷ 9 ∷ 9 ∷ []

names-Delivers_example :
    Delivers root.pw_name buffer 2 (baa_get_username (some root) (some buffer) 3)
    × Delivers root.pw_dir buffer 2 (baa_get_homedir (some root) (some buffer) 3)
    × Delivers root.pw_gecos buffer 2 (baa_get_userinfo (some root) (some buffer) 3)
    × Delivers wheel.gr_name buffer 2 (baa_get_groupname (some wheel) (some buffer) 3)
names-Delivers_example =
    names-Delivers root wheel buffer 2 (omega arith) refl (ground arith) (ground arith)
      (ground arith) (ground arith)

abbrev env : Env
env = record { use_syslog = true; errno = 2; strerror = λ e. b'n' ∷ b'o' ∷ [] }

abbrev hello : List ℕ
hello = b'h' ∷ b'i' ∷ []

message_run :
    baa_errno_msg env hello
    ≡ some (record {
      syslog = some (log_err, b'h' ∷ b'i' ∷ b':' ∷ b' ' ∷ b'n' ∷ b'o' ∷ 10 ∷ []);
      stderr = b'h' ∷ b'i' ∷ b':' ∷ b' ' ∷ b'n' ∷ b'o' ∷ 10 ∷ [];
      end = returns;
    })
unfolding baa_errno_msg error_common
message_run = refl

abbrev quiet : Env
quiet = record { use_syslog = false; errno = 2; strerror = λ e. b'n' ∷ b'o' ∷ [] }

abbrev same : List ℕ → List ℕ
same name = name

syslog_switched :
    (baa_enable_syslog env true (some hello) same same
      ≡ some (record {
        env = env;
        opened = true;
        said = some (record {
          syslog = some (log_info, b'h' ∷ b'i' ∷ 10 ∷ []);
          stderr = b'h' ∷ b'i' ∷ 10 ∷ [];
          end = returns;
        });
      }))
    × (baa_enable_syslog env false (some hello) same same
        ≡ some (record {
          env = quiet;
          opened = false;
          said = some (record { syslog = none; stderr = b'h' ∷ b'i' ∷ 10 ∷ []; end = returns });
        }))
unfolding baa_enable_syslog baa_info_msg error_common
syslog_switched = (refl, refl)

abbrev rest : List Read
rest = byte 66 ∷ []

baa_read_line_lem_example :
    (baa_read_line (byte 72 ∷ byte 105 ∷ byte newline ∷ rest) (replicate 8 1) 8
      ≡ some (returned (pos 3) (72 ∷ 105 ∷ 10 ∷ 0 ∷ 1 ∷ 1 ∷ 1 ∷ 1 ∷ [])))
    × (baa_read_line (byte newline ∷ rest) (replicate 8 1) 8
        ≡ some (returned (pos 1) (10 ∷ 0 ∷ replicate 6 1)))
    × (baa_read_line (eof ∷ rest) (replicate 8 1) 8
        ≡ some (returned baa_file_empty (replicate 8 1)))
    × (baa_read_line (byte 72 ∷ byte 105 ∷ eof ∷ rest) (replicate 8 1) 8
        ≡ some (returned (pos 3) (72 ∷ 105 ∷ 105 ∷ 0 ∷ 1 ∷ 1 ∷ 1 ∷ 1 ∷ [])))
baa_read_line_lem_example =
    baa_read_line_lem 7 (replicate 8 1) (omega arith) (omega arith) 72 (105 ∷ []) rest
      (ground arith) (omega arith)
