-- ===== src/Users.antt =====
-- src/user.c and src/group.c: names of users and groups. getpwuid, getpwnam, getgrgid and
-- getgrnam are parameters: their answer is given. Texts are lists of bytes without the final NUL.
pub mod Laws
use libbaalue.Prelude.{
  ℕ, ◌+◌, ◌-◌, ◌*◌, ◌%◌, ◌^◌, Option, none, some, List, [], ◌∷◌, ◌++◌, ◌>>=◌, ltb, ◌==◌,
  if◌then◌else◌, length, take, drop, replicate, ℤ, pos, negsuc,
}

-- The fields of `struct passwd` and `struct group` that are read.
pub record Passwd : Type 0 where
  pub pw_name : List ℕ
  pub pw_dir : List ℕ
  pub pw_gecos : List ℕ
  pub pw_uid : ℕ
  pub pw_gid : ℕ

pub record Group : Type 0 where
  pub gr_name : List ℕ
  pub gr_gid : ℕ

-- strncpy writes `n` bytes: the text, cut or filled up with NULs. `none` is a write past the buffer.
unfoldable pub strncpy : List ℕ → List ℕ → ℕ → Option (List ℕ)
strncpy buf text n =
    if ltb (length buf) n
    then none
    else some (take n text ++ (replicate (n - length text) 0 ++ drop n buf))

-- The value returned, and the buffer.
pub record Copied : Type 0 where
  pub result : ℤ
  pub buf : List ℕ

-- `--size` on a `size_t`.
abbrev pub pred_size : ℕ → ℕ
pred_size size = (size + (2 ^ 64 - 1)) % 2 ^ 64

-- A case of the switch behind CHECK_BUF, and the end of baa_get_groupname.
unfoldable pub copy_text : List ℕ → List ℕ → ℕ → Option Copied
copy_text text buf size =
    if ltb (pred_size size) (length text)
    then some (record { result = negsuc 0; buf = buf })
    else (strncpy buf text (pred_size size) >>= λ copied.
        some (record { result = pos 0; buf = copied }))

-- CHECK_BUF in front of it: `none` for the buffer is NULL, and is answered by -1.
abbrev pub check_buf : List ℕ → Option (List ℕ) → ℕ → Option Copied
check_buf text none size = some (record { result = negsuc 0; buf = [] })
check_buf text (some buf) size = copy_text text buf size

-- GET_USERNAME, GET_USERDIR and GET_USERINFO.
abbrev pub get_username : ℕ
get_username = 0x01

abbrev pub get_userdir : ℕ
get_userdir = 0x02

abbrev pub get_userinfo : ℕ
get_userinfo = 0x03

abbrev pub unchanged : Option (List ℕ) → List ℕ
unchanged none = []
unchanged (some buf) = buf

-- `pwd` is the answer of getpwuid, NULL for `none`. An unknown `what` is reported, and returns 0.
unfoldable pub get_user_infos : Option Passwd → Option (List ℕ) → ℕ → ℕ → Option Copied
get_user_infos none buf size what = some (record { result = negsuc 0; buf = unchanged buf })
get_user_infos (some pwd) buf size what =
    if what == get_username
    then check_buf pwd.pw_name buf size
    else if what == get_userdir
    then check_buf pwd.pw_dir buf size
    else if what == get_userinfo
    then check_buf pwd.pw_gecos buf size
    else some (record { result = pos 0; buf = unchanged buf })

unfoldable pub baa_get_username : Option Passwd → Option (List ℕ) → ℕ → Option Copied
unfolding get_user_infos
baa_get_username pwd buf size = get_user_infos pwd buf size get_username

unfoldable pub baa_get_homedir : Option Passwd → Option (List ℕ) → ℕ → Option Copied
unfolding get_user_infos
baa_get_homedir pwd buf size = get_user_infos pwd buf size get_userdir

unfoldable pub baa_get_userinfo : Option Passwd → Option (List ℕ) → ℕ → Option Copied
unfolding get_user_infos
baa_get_userinfo pwd buf size = get_user_infos pwd buf size get_userinfo

-- -1 as a `uid_t` or `gid_t`.
abbrev pub no_id : ℕ
no_id = 2 ^ 32 - 1

-- `name` is NULL for `none`; `getpwnam` is the library's function.
unfoldable pub baa_get_userid : (List ℕ → Option Passwd) → Option (List ℕ) → ℕ
baa_get_userid getpwnam none = no_id
baa_get_userid getpwnam (some name) = elim (getpwnam name) [ none ↦ no_id | some pwd ↦ pwd.pw_uid ]

unfoldable pub baa_get_groupid_of_user : (List ℕ → Option Passwd) → Option (List ℕ) → ℕ
baa_get_groupid_of_user getpwnam none = no_id
baa_get_groupid_of_user getpwnam (some name) = elim (getpwnam name) [
  | none ↦ no_id
  | some pwd ↦ pwd.pw_gid
]

-- The buffer is tested before getgrgid is asked.
unfoldable pub baa_get_groupname : Option Group → Option (List ℕ) → ℕ → Option Copied
baa_get_groupname grp none size = some (record { result = negsuc 0; buf = [] })
baa_get_groupname none (some buf) size = some (record { result = negsuc 0; buf = buf })
baa_get_groupname (some grp) (some buf) size = copy_text grp.gr_name buf size

unfoldable pub baa_get_groupid : (List ℕ → Option Group) → Option (List ℕ) → ℕ
baa_get_groupid getgrnam none = no_id
baa_get_groupid getgrnam (some name) = elim (getgrnam name) [ none ↦ no_id | some grp ↦ grp.gr_gid ]
