-- ===== src/Helper/Info.antt =====
-- baa_show_version_info, baa_show_package_name and baa_show_clock_resolution of src/helper.c, as the lines that they print.
use libbaalue.Prelude.{ℕ, Option, none, some, List, [], ◌∷◌, ◌++◌}

-- What uname gives.
pub record Utsname : Type 0 where
  pub sysname : List ℕ
  pub release : List ℕ
  pub version : List ℕ
  pub machine : List ℕ

pub data InfoLine : Type 0 where
  clock_unknown version_title package_title rule package_version package_string : InfoLine
  clock_resolution : ℕ → InfoLine
  system_name kernel_release kernel_version architecture : List ℕ → InfoLine

-- `uname` is its answer, if it works.
unfoldable pub baa_show_version_info : Option Utsname → List InfoLine
baa_show_version_info uname =
    let system : List InfoLine = elim uname [
      | none ↦ []
      | some u ↦
          rule
          ∷ system_name u.sysname
          ∷ kernel_release u.release
          ∷ kernel_version u.version
          ∷ rule
          ∷ architecture u.machine
          ∷ []
    ] in
    (version_title ∷ rule ∷ package_version ∷ []) ++ system ++ rule ∷ []

unfoldable pub baa_show_package_name : List InfoLine
baa_show_package_name = package_title ∷ rule ∷ package_string ∷ rule ∷ []

-- `tv_nsec` is that of clock_getres, if it works.
unfoldable pub baa_show_clock_resolution : Option ℕ → List InfoLine
baa_show_clock_resolution none = clock_unknown ∷ []
baa_show_clock_resolution (some tv_nsec) = clock_resolution tv_nsec ∷ []
