-- ===== src/Examples/UserInfo.antt =====
-- examples/user_group_info.c.
use libbaalue.Prelude.{ℕ, Option, none, some, List, [], ◌∷◌, ◌==◌, if◌then◌else◌, negsuc, eqb_ℤ}
use libbaalue.Protocol.{baa_maxline}
use libbaalue.Users.{
  Passwd, Group, Copied, no_id, baa_get_userid, baa_get_groupid_of_user, baa_get_homedir,
  baa_get_userinfo, baa_get_groupname,
}
use libbaalue.Examples.Program.{
  c_string, message, number, line, Run, faults, goes_on, ◌>>=◌, ◌>>◌, emit, exit, success,
  error_exit, Env, show_some_infos,
}

-- The databases: getpwnam, getpwuid, and getgrgid.
pub record Databases : Type 0 where
  pub getpwnam : List ℕ → Option Passwd
  pub getpwuid : ℕ → Option Passwd
  pub getgrgid : ℕ → Option Group

-- The message on a number, or the error message for -1.
abbrev pub show_id : ℕ → Run (Unit {0})
show_id id = if id == no_id then emit message else emit (number id)

-- The message on `buf`, which is passed on to the next call, or the error message for -1.
unfoldable pub show_buf : Option Copied → Run (List ℕ)
show_buf none = faults []
show_buf (some c) =
    if eqb_ℤ c.result (negsuc 0)
    then goes_on c.buf (message ∷ [])
    else goes_on c.buf (line (c_string c.buf) ∷ [])

-- With `user` from the environment, and what `buf` holds at first. The lines of dashes are left out.
unfoldable pub greet : Databases → List ℕ → List ℕ → Run (Unit {0})
unfolding baa_get_userid baa_get_groupid_of_user show_buf baa_get_homedir baa_get_userinfo
    baa_get_groupname
greet db user buf =
    let uid = baa_get_userid db.getpwnam (some user) in
    let gid = baa_get_groupid_of_user db.getpwnam (some user) in
    do
      emit (line user)
      show_id uid
      show_id gid
      buf ← show_buf (baa_get_homedir (db.getpwuid uid) (some buf) baa_maxline)
      buf ← show_buf (baa_get_userinfo (db.getpwuid uid) (some buf) baa_maxline)
      buf ← show_buf (baa_get_groupname (db.getgrgid gid) (some buf) baa_maxline)
      emit message
      exit success

-- main; `none` is an environment without USER.
unfoldable pub info_main : Env → Databases → Option (List ℕ) → List ℕ → Run (Unit {0})
unfolding show_some_infos greet
info_main env db none buf = show_some_infos env >> error_exit
info_main env db (some user) buf = show_some_infos env >> greet db user buf
