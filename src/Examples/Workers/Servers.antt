-- ===== src/Examples/Workers/Servers.antt =====
-- The threads of the library that serve in the programs of examples/, as workers.
use libbaalue.Prelude.{◌≡◌, refl, Bool, some, List, [], ◌∷◌, ◌>>=◌}
use libbaalue.Fiber
use libbaalue.Fiber.Server
use libbaalue.Fiber.Server.{schedule_server_round, baa_schedule_server_th}
use libbaalue.DeviceMgmt
use libbaalue.DeviceMgmt.{device_mgmt_round, baa_device_mgmt_th}
use libbaalue.Network.Daytime
use libbaalue.Network.Daytime.{Turn, daytime_round, baa_daytime_server_th}
use libbaalue.Examples.Workers.{Worker}

pub schedule_server-nil :
    (os : Fiber.Os) (h : List Fiber.Event) → baa_schedule_server_th os [] h ≡ some h
unfolding baa_schedule_server_th
schedule_server-nil os h = refl

pub schedule_server-cons :
    (os : Fiber.Os) (r : Server.Received) (rs : List Server.Received) (h : List Fiber.Event)
    → baa_schedule_server_th os (r ∷ rs) h
      ≡ (schedule_server_round os r h >>= baa_schedule_server_th os rs)
unfolding baa_schedule_server_th
schedule_server-cons os r rs h = refl

-- baa_schedule_server_th; it receives what recvfrom gives.
abbrev pub schedule_worker : Fiber.Os → Worker Server.Received Fiber.Event
schedule_worker os = record {
  round = schedule_server_round os;
  loop = baa_schedule_server_th os;
  loop_nil = schedule_server-nil os;
  loop_cons = schedule_server-cons os;
}

pub device_mgmt-nil :
    (fails : List DeviceMgmt.Event → Bool) (h : List DeviceMgmt.Event)
    → baa_device_mgmt_th fails [] h ≡ some h
unfolding baa_device_mgmt_th
device_mgmt-nil fails h = refl

pub device_mgmt-cons :
    (fails : List DeviceMgmt.Event → Bool) (r : DeviceMgmt.Received) (rs : List DeviceMgmt.Received)
    (h : List DeviceMgmt.Event)
    → baa_device_mgmt_th fails (r ∷ rs) h
      ≡ (device_mgmt_round fails r h >>= baa_device_mgmt_th fails rs)
unfolding baa_device_mgmt_th
device_mgmt-cons fails r rs h = refl

-- baa_device_mgmt_th.
abbrev pub device_worker :
    (List DeviceMgmt.Event → Bool) → Worker DeviceMgmt.Received DeviceMgmt.Event
device_worker fails = record {
  round = device_mgmt_round fails;
  loop = baa_device_mgmt_th fails;
  loop_nil = device_mgmt-nil fails;
  loop_cons = device_mgmt-cons fails;
}

pub daytime_server-nil : (h : List Daytime.Event) → some (baa_daytime_server_th [] h) ≡ some h
unfolding baa_daytime_server_th
daytime_server-nil h = refl

pub daytime_server-cons :
    (t : Turn) (ts : List Turn) (h : List Daytime.Event)
    → some (baa_daytime_server_th (t ∷ ts) h)
      ≡ (some (daytime_round t h) >>= λ g. some (baa_daytime_server_th ts g))
unfolding baa_daytime_server_th
daytime_server-cons t ts h = refl

-- baa_daytime_server_th, which meets no fault; it receives what accept, ctime and write give.
abbrev pub daytime_worker : Worker Turn Daytime.Event
daytime_worker = record {
  round = λ t h. some (daytime_round t h);
  loop = λ ts h. some (baa_daytime_server_th ts h);
  loop_nil = daytime_server-nil;
  loop_cons = daytime_server-cons;
}
