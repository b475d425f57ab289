-- ===== src/Protocol.antt =====
-- src/libbaalue.h, lines 136 to 213, and src/libbaalue-private.h: the protocol bytes and limits.
use libbaalue.Prelude.{ℕ}

abbrev pub baa_maxline : ℕ
baa_maxline = 254

-- The most bytes of a message.
abbrev pub baa_max_len_msg : ℕ
baa_max_len_msg = 100

abbrev pub ptype_sched_props : ℕ
ptype_sched_props = 0x00

abbrev pub ptype_device_mgmt : ℕ
ptype_device_mgmt = 0x01

abbrev pub ptype_device_mgmt_halt : ℕ
ptype_device_mgmt_halt = 0x02

abbrev pub ptype_device_mgmt_reboot : ℕ
ptype_device_mgmt_reboot = 0x03

abbrev pub ptype_device_mgmt_ping : ℕ
ptype_device_mgmt_ping = 0x04

abbrev pub ptype_reset : ℕ
ptype_reset = 0xee

abbrev pub ptype_error : ℕ
ptype_error = 0xef

abbrev pub ptype_cmd_ack : ℕ
ptype_cmd_ack = 0xfd

abbrev pub ptype_rcv_ack : ℕ
ptype_rcv_ack = 0xff

abbrev pub nsec_per_sec : ℕ
nsec_per_sec = 1000000000
