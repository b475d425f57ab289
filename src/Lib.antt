-- ===== src/Lib.antt =====
-- A model of libbaalue, a C library for periodic threads (fibers), device management over sockets and
-- system helpers on Linux.
--
-- The parts, with the files that model them:
-- Protocol: constants of src/libbaalue.h. The message types are shared by both servers.
-- Serialize: src/serialize.c. Serialize.antt has baa_pack, Serialize/Reader.antt baa_unpack, one
--   function for each case of the switch. The fibers' protocol is made of its messages.
-- Fiber: src/fiber.c. Props has baa_set_schedule_props, Config baa_is_fiber_config_valid, Time
--   baa_ts_norm and baa_fiber, Threads baa_build_scheduler and baa_start_scheduler, Server
--   baa_schedule_server_th, Client baa_set_schedule_props_via_server. Memory lays fiber_element_t out
--   in bytes, since the server unpacks longs through pointers to its int fields. Session and
--   ViaServer put client and server together; Answers has the client alone, on any answers. Assigned
--   is the abstract view of a history of calls, the properties that each thread has in the end, and
--   Assignment what the two functions do to it.
-- DeviceMgmt: src/device_mgmt.c, the one-byte commands and the server that obeys them.
-- ShMem: src/sh_mem.c. Users: src/user.c and src/group.c. Error: src/error.c. Process:
--   src/process.c. Can: src/can_lin.c.
-- Network: src/network.c, with Uds (Unix domain sockets), Inet and Daytime.
-- Helper: src/helper.c, with ReadLine and its laws Lines, PidFile (also
--   src/wrapper.c), Names, Info and System.
-- Fiber/Barrier: the start of the fibers, with the mutex and the condition variable of src/fiber.c on
--   which baa_fiber waits and which baa_start_scheduler broadcasts.
-- Examples: the programs of examples/, which call the other parts. Program has what they share, the
--   runs and their events, and Endings the laws of runs; Signals has signal_handler, and Threads its
--   interleavings with main, with Before, Sigterm and Stopped on what every program has done then, and
--   UdsServer/Terminated on the server. Workers adds the thread of the library that serves in a
--   program, for UdsServer/Access, UdsServer/AnyOrder, Mgmt/Managed and Daytime/Served; TimeTriggert has
--   the two programs with a table of fibers, its Fibers the start of these threads in a program, and
--   Released what holds then; UdsServer time_triggert_uds_server.c; Mgmt the programs for device
--   management; Daytime those for the time; CanBus can_send.c and can_recv.c; UserInfo
--   user_group_info.c.
-- Prelude: lists, options, machine integers and tests that the parts share. Tests: runs on small
--   inputs, and theorems at inputs that meet their hypotheses.
--
-- How the code is modelled. Functions keep their names; a labelled or inner block is a function named
-- for its label or its task. Memory is a list of bytes, and an access outside it gives `none`. An int
-- is an integer that keeps its range where the code stores it; unsigned values wrap at their width.
-- What a system or library call answers is a parameter: a value, a list of the answers to come, or a
-- function of all that happened so far. What a function does to the outside is a list of events or
-- calls in order. Loops over arrays and lists are structural, and so are retries after EINTR, over the
-- list of answers; the endless loops of the servers run over the receptions so far, and a fiber's loop
-- over the answers of clock_nanosleep so far. The loop of baa_ts_norm has fuel, one more than the whole seconds of
-- tv_nsec, and a theorem says that this is enough.
--
-- The data model is LP64 with little endian memory, as on Linux for x86-64 and AArch64; the upper half
-- of an argument word that holds an int is arbitrary.
--
-- The start of the fibers is a step relation, in which the threads interleave in any order, and in
-- which a wait may or may not end without a broadcast. A program is a run: it exits with a status,
-- waits for ever, does what C leaves undefined, or goes on; cleanup, once registered, acts on what
-- the run has done before its exit. Its other threads are functions of their own. main and the thread
-- for signals are put together by a step relation, whose step is an event of main, which may be a
-- call of the library as a whole, or a turn of the loop over sigwait; exit begins cleanup, which
-- reads the static variables as they are then, and while it runs the other thread goes on, up to a
-- call of exit of its own, which POSIX leaves undefined.
-- A thread of the library that serves joins them as a worker, whose step is a round of its loop.
-- TimeTriggert/Fibers joins them with the start of the fibers and their stores of kernel_tid.
--
-- Not modelled: code under __DEBUG__; the texts of messages; getopt, whose results are given;
-- strtok_r and strtoul for the CAN filter list; interleavings of main with the threads for CAN error
-- frames, and with a signal thread that cannot detach itself; a signal in the middle of a call of the
-- library or before it is blocked; what the library's threads do while cleanup runs; a read of
-- kernel_tid that changes within one call of baa_set_schedule_props; examples/lcd1602.c and
-- src/lcd160x.c, which print a line each; the files src/sh_mq.c and src/datatypes.c, which hold no
-- code.
pub mod Prelude
pub mod Serialize
pub mod Protocol
pub mod Fiber
pub mod DeviceMgmt
pub mod ShMem
pub mod Users
pub mod Error
pub mod Helper
pub mod Can
pub mod Process
pub mod Network
pub mod Examples
pub mod Tests
