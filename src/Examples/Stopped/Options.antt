-- ===== src/Examples/Stopped/Options.antt =====
-- Neither the options nor what stands behind them start the signal thread of a program of examples/.
use libbaalue.Prelude.{
  ℕ, refl, Bool, true, false, Option, none, some, List, [], ◌∷◌, Bool-cases, inl, inr, ◌==◌,
}
use libbaalue.Examples.Program.{
  HelpLine, Run, Opt, Env, register_cleanup, usage, show_some_infos, ◌>>=◌, emit, when, message,
}
use libbaalue.Examples.Threads.Sigterm.{
  Silent, Registers, Registers->>=, register_cleanup-Registers,
}
use libbaalue.Examples.TimeTriggert.Simple.{simple_options}
use libbaalue.Examples.TimeTriggert.UdsClient.{Names, uds_options}
use libbaalue.Examples.Mgmt.{name_options, given_name}
use libbaalue.Examples.Daytime.{server_options}
use libbaalue.Examples.CanBus.Send.{Settings, send_options, given_ifname}
use libbaalue.Examples.CanBus.Recv.{recv_options}

pub simple_options-Silent : (env : Env) (opts : List Opt) → Silent (simple_options env opts)
unfolding simple_options usage show_some_infos
simple_options-Silent env [] = refl
simple_options-Silent env (o ∷ rest) = elim (Bool-cases (o.opt == b'h')) [
  | inl y ↦ rw y
  | inr n ↦ rw n
]

pub server_options-Silent : (env : Env) (opts : List Opt) → Silent (server_options env opts)
unfolding server_options usage show_some_infos
server_options-Silent env [] = refl
server_options-Silent env (o ∷ rest) = elim (Bool-cases (o.opt == b'h')) [
  | inl y ↦ rw y
  | inr n ↦ rw n
]

pub name_options-Silent :
    (env : Env) (lines : List HelpLine) (letter : ℕ) (opts : List Opt) (name : Option (List ℕ))
    → Silent (name_options env lines letter opts name)
unfolding name_options usage show_some_infos
name_options-Silent env lines letter [] name = refl
name_options-Silent env lines letter (o ∷ rest) name = elim (Bool-cases (o.opt == letter)) [
  | inl y ↦ rw y (name_options-Silent env lines letter rest (some o.optarg))
  | inr n ↦ elim (Bool-cases (o.opt == b'h')) [ inl y ↦ rw (n, y) | inr k ↦ rw (n, k) ]
]

pub given_name-Silent :
    (env : Env) (lines : List HelpLine) (name : Option (List ℕ))
    → Silent (given_name env lines name)
unfolding given_name usage show_some_infos
given_name-Silent env lines none = refl
given_name-Silent env lines (some name) = refl

pub given_ifname-Silent :
    (env : Env) (lines : List HelpLine) (name : Option (List ℕ))
    → Silent (given_ifname env lines name)
unfolding given_ifname usage show_some_infos
given_ifname-Silent env lines none = refl
given_ifname-Silent env lines (some name) = refl

pub recv_options-Silent :
    (env : Env) (opts : List Opt) (ifname flist : Option (List ℕ))
    → Silent (recv_options env opts ifname flist)
unfolding recv_options usage show_some_infos
recv_options-Silent env [] ifname flist = refl
recv_options-Silent env (o ∷ rest) ifname flist = elim (Bool-cases (o.opt == b'i')) [
  | inl y ↦ rw y (recv_options-Silent env rest (some o.optarg) flist)
  | inr n ↦ elim (Bool-cases (o.opt == b'f')) [
    | inl y ↦ rw (n, y) (recv_options-Silent env rest ifname (some o.optarg))
    | inr k ↦ elim (Bool-cases (o.opt == b'h')) [ inl y ↦ rw (n, k, y) | inr l ↦ rw (n, k, l) ]
  ]
]

pub uds_options-Silent :
    (env : Env) (opts : List Opt) (names : Names) → Silent (uds_options env opts names)
unfolding uds_options usage show_some_infos
uds_options-Silent env [] names = refl
uds_options-Silent env (o ∷ rest) (file, dir) = elim (Bool-cases (o.opt == b'f')) [
  | inl y ↦ rw y (uds_options-Silent env rest (some o.optarg, dir))
  | inr n ↦ elim (Bool-cases (o.opt == b'd')) [
    | inl y ↦ rw (n, y) (uds_options-Silent env rest (file, some o.optarg))
    | inr k ↦ elim (Bool-cases (o.opt == b'h')) [ inl y ↦ rw (n, k, y) | inr l ↦ rw (n, k, l) ]
  ]
]

pub send_options-Silent :
    (strtoul : ℕ → List ℕ → ℕ) (env : Env) (opts : List Opt) (s : Settings)
    → Silent (send_options strtoul env opts s)
unfolding send_options usage show_some_infos
send_options-Silent strtoul env [] s = refl
send_options-Silent strtoul env (o ∷ rest) s =
    let go_on = λ (s : Settings). send_options-Silent strtoul env rest s in
    elim (Bool-cases (o.opt == b'i')) [
      | inl y ↦ rw y (go_on _)
      | inr n ↦ elim (Bool-cases (o.opt == b'a')) [
        | inl y ↦ rw (n, y) (go_on _)
        | inr k ↦ elim (Bool-cases (o.opt == b't')) [
          | inl y ↦ rw (n, k, y) (go_on _)
          | inr l ↦ elim (Bool-cases (o.opt == b'h')) [
            | inl y ↦ rw (n, k, l, y)
            | inr j ↦ rw (n, k, l, j)
          ]
        ]
      ]
    ]

pub when-Silent : (b : Bool) (m : Run (Unit {0})) → Silent m → Silent (when b m)
when-Silent true m p = p
when-Silent false m p = refl

pub infos-Silent : (env : Env) → Silent (show_some_infos env)
unfolding show_some_infos
infos-Silent env = refl

pub usage-Silent :
    (env : Env) (lines : List HelpLine) (status : ℕ) → Silent (usage env lines status)
unfolding usage show_some_infos
usage-Silent env lines status = refl

pub complaint-Silent :
    (env : Env) (lines : List HelpLine) (status : ℕ)
    → Silent (emit message >>= λ u. usage env lines status)
unfolding usage show_some_infos
complaint-Silent env lines status = refl

pub said-Registers :
    (env : Env) (k : Unit {0} → Run (Unit {0}))
    → Registers (emit message >>= λ u. register_cleanup env >>= k)
said-Registers env k =
    Registers->>= (emit message) (λ u. register_cleanup env >>= k) refl
      (λ u. register_cleanup-Registers env k)
