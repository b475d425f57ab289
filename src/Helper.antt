-- ===== src/Helper.antt =====
-- src/helper.c and src/wrapper.c: lines, the pid file, names, and the calls of the system.
pub mod ReadLine
pub mod Lines
pub mod PidFile
pub mod Names
pub mod System
pub mod Info
