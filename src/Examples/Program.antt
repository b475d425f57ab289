-- ===== src/Examples/Program.antt =====
-- What the programs of examples/ are made of: a run that ends by exit, waits for ever, or goes on with
-- a value; the calls that it makes; and the parts that the programs share.
use Prim.Native.String.{String}
use libbaalue.Prelude.{
  ℕ, ◌≡◌, Bool, true, false, not, ◌||◌, Option, List, [], ◌∷◌, ◌++◌, ◌==◌, if◌then◌else◌, ℤ, pos,
  eqb_ℤ,
}
use libbaalue.Helper.Info.{Utsname, InfoLine, baa_show_version_info, baa_show_package_name}
use libbaalue.Helper.System
use libbaalue.Helper.System.{Kernel}
use libbaalue.Helper.PidFile
use libbaalue.Can
use libbaalue.Fiber
use libbaalue.Fiber.{Timespec}
use libbaalue.Fiber.Threads.{ThreadEvent}
use libbaalue.Fiber.Client.{Outgoing}
use libbaalue.Network.Uds
use libbaalue.Network.Inet

-- struct can_frame: the identifier with its flags, the length, and the eight data bytes.
pub record CanFrame : Type 0 where
  pub can_id : ℕ
  pub can_dlc : ℕ
  pub bytes : List ℕ

pub data Thread : Type 0 where
  signal_handler print_error_frames schedule_server device_mgmt daytime_server : Thread

-- A line of the help: an empty one, a text, or a format for `program_name`.
pub data HelpLine : Type 0 where
  blank : HelpLine
  text with_name : String → HelpLine

-- What a program does: the messages that it prints itself, the calls of the system, and the calls of
-- the library with what these do. `caught`, `ignored` and `unhandled` are the messages on a signal.
pub data Event : Type 0 where
  message registered cleanup sigmask : Event
  caught ignored unhandled : ℕ → Event
  help : List HelpLine → Event
  info : List InfoLine → Event
  line : List ℕ → Event
  number : ℕ → Event
  create : Thread → Event
  sleep : ℕ → Event
  close : ℤ → Event
  unlink : List ℕ → Event
  chmod chown : Option (List ℕ) → ℕ → Event
  kernel : Kernel → Event
  capability : Bool → Event
  syslog : List ℕ → Event
  threads : List ThreadEvent → Event
  scheduling : List Fiber.Event → Event
  can : List Can.Call → Event
  can_filter : List Can.CanFilter → Event
  error_mask : ℕ → Event
  write_frame : CanFrame → Event
  frame_info byte_info : ℕ → ℕ → Event
  nanosleep : Timespec → Event
  datagrams : List Outgoing → Event
  send : List ℕ → Event
  daemon : List System.Call → Event
  pid_file : List PidFile.Call → Event
  uds : List Uds.Call → Event
  inet : List Inet.Call → Event

-- `faults` is what C leaves undefined.
pub data Run (A : Type 0) : Type 0 where
  exits : ℕ → List Event → Run A
  waits : List Event → Run A
  faults : List Event → Run A
  goes_on : A → List Event → Run A

-- A run behind the events `h`.
abbrev pub behind : {A : Type 0} → List Event → Run A → Run A
behind h (exits s g) = exits s (h ++ g)
behind h (waits g) = waits (h ++ g)
behind h (faults g) = faults (h ++ g)
behind h (goes_on a g) = goes_on a (h ++ g)

infixl 5 ◌>>=◌ ◌>>◌
abbrev pub ◌>>=◌ : {A B : Type 0} → Run A → (A → Run B) → Run B
exits s h >>= k = exits s h
waits h >>= k = waits h
faults h >>= k = faults h
goes_on a h >>= k = behind h (k a)

abbrev pub ◌>>◌ : {B : Type 0} → Run (Unit {0}) → Run B → Run B
m >> k = m >>= λ _. k

abbrev pub nothing : Run (Unit {0})
nothing = goes_on tt []

abbrev pub emit : Event → Run (Unit {0})
emit e = goes_on tt (e ∷ [])

abbrev pub exit : ℕ → Run (Unit {0})
exit status = exits status []

abbrev pub when : Bool → Run (Unit {0}) → Run (Unit {0})
when b m = if b then m else nothing

abbrev pub events : {A : Type 0} → Run A → List Event
events (exits s h) = h
events (waits h) = h
events (faults h) = h
events (goes_on a h) = h

-- What "%s" prints of an array: the bytes before the first NUL.
abbrev pub c_string : List ℕ → List ℕ
c_string [] = []
c_string (b ∷ bytes) = let rest = c_string bytes in if b == 0 then [] else b ∷ rest

-- EXIT_SUCCESS and EXIT_FAILURE.
abbrev pub success : ℕ
success = 0

abbrev pub failure : ℕ
failure = 1

-- baa_error_exit and baa_th_error_exit.
abbrev pub error_exit : Run (Unit {0})
error_exit = do emit message; exit failure

-- A result of getopt, with its argument.
pub record Opt : Type 0 where
  pub opt : ℕ
  pub optarg : List ℕ

-- The answers that every program asks for.
pub record Env : Type 0 where
  pub argv0 : List ℕ
  pub uname : Option Utsname
  pub atexit_ret : ℤ
  pub sigmask_err : ℕ
  pub create_err : Thread → ℕ

-- An environment in which the start of a program succeeds.
pub record Ready (env : Env) : Type 0 where
  pub atexit_works : env.atexit_ret ≡ pos 0
  pub sigmask_works : env.sigmask_err ≡ 0
  pub signals_created : env.create_err signal_handler ≡ 0

module _ (env : Env) where
  unfoldable pub show_some_infos : Run (Unit {0})
  unfolding baa_show_package_name baa_show_version_info
  show_some_infos = do
    emit (info baa_show_package_name)
    emit (info (baa_show_version_info env.uname))

  -- usage of a program whose help has these lines.
  unfoldable pub usage : List HelpLine → ℕ → Run (Unit {0})
  unfolding show_some_infos
  usage lines status = do emit (help lines); show_some_infos; exit status

  -- `atexit(cleanup)`.
  unfoldable pub register_cleanup : Run (Unit {0})
  register_cleanup = do when (not (eqb_ℤ env.atexit_ret (pos 0))) (exit failure); emit registered

  -- A call of pthread_create whose error ends the program.
  unfoldable pub start_thread : Thread → Run (Unit {0})
  start_thread t = do emit (create t); when (not (env.create_err t == 0)) error_exit

  -- The mask and the thread for signals.
  unfoldable pub handle_signals : Run (Unit {0})
  unfolding start_thread
  handle_signals = do
    emit sigmask
    when (not (env.sigmask_err == 0)) error_exit
    start_thread signal_handler

-- Whether some event of a run is of a kind.
abbrev pub has : (Event → Bool) → List Event → Bool
has p [] = false
has p (e ∷ h) = p e || has p h

abbrev pub is_registration : Event → Bool
is_registration registered = true
is_registration _ = false

abbrev pub is_uds : Event → Bool
is_uds (uds calls) = true
is_uds _ = false

abbrev pub has_uds : List Event → Bool
has_uds = has is_uds

abbrev pub is_registered : List Event → Bool
is_registered = has is_registration

-- exit calls `cleanup`, if it is registered; `final` is what it does after the events of the program.
abbrev pub closed : (List Event → List Event) → List Event → List Event
closed final h = if is_registered h then h ++ final h else h

abbrev pub with_cleanup : (List Event → List Event) → Run (Unit {0}) → Run (Unit {0})
with_cleanup final (exits s h) = exits s (closed final h)
with_cleanup final (waits h) = waits h
with_cleanup final (faults h) = faults h
with_cleanup final (goes_on a h) = goes_on a h

-- The `cleanup` that only prints.
abbrev pub cheers : List Event → List Event
cheers h = cleanup ∷ []

-- BAA_VAR_RUN_DIR, "/var/run".
abbrev pub var_run_dir : List ℕ
var_run_dir = b'/' ∷ b'v' ∷ b'a' ∷ b'r' ∷ b'/' ∷ b'r' ∷ b'u' ∷ b'n' ∷ []
