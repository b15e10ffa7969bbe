-- ===== src/Lib.antt =====
-- The core of server_frame, a C++ library for network servers: byte buffers, timers, the
-- scheduler of fibers, the events of file descriptors, HTTP messages and their dispatch, the
-- loops of streams, and the codecs of strings.
--
-- The parts and their files. Container/ByteArray models server_frame/bytearray.h and bytearray.cc
-- with endian.h: the record ByteArray has the fields of the class, with the list of nodes as a
-- list of blocks and `cur_` as an index, and add_capacity, write, read, set_position, clear and
-- the typed calls (write_fixed for WriteFint8 to WriteFuint64, write_uint and write_int for the
-- varints, write_string_fixed and write_string_vint) are its methods; Buffers has the I/O
-- vectors. Base/Timer models server_frame/base/timer.h and timer.cc: a timer is the address of
-- its object, and the set is the list of addresses in the order of the comparator. IoManager
-- models server_frame/iomanager.h and iomanager.cc: add_event, del_event, cancel_event and
-- cancel_all are the public methods, handle is the body of the loop in Idle. IOManager is also a
-- TimerManager and a Scheduler: stopping asks get_next_timer and is_stopping, and Idle schedules
-- what list_expired_cb lists. Base/FdManager models server_frame/base/fd_manager.h and fd_manager.cc, which Hook
-- uses: there do_io is DoIo of server_frame/hook.cc, over a record Host of what it calls, and
-- set_flags, get_flags and set_nonblock are its cases of fcntl and ioctl. Base/Fiber and Base/Scheduler model server_frame/base/fiber.h and fiber.cc,
-- scheduler.h and scheduler.cc: Move has the steps of one thread in Run, Step those of all
-- threads and of the callers of Schedule and Stop, in any order. Util/Hex and Util/Base64 model
-- the codecs of server_frame/util/hash_util.cc, Util/Url and Util/Trim those of StringUtil in
-- server_frame/util.cc. Http/Fields, Method, Status, Request, Response and Dump model
-- server_frame/http/http.h and http.cc: a map is the list of its entries in their order, and
-- parameters are parsed when they are first asked for, with the decoder of Util/Url. Http/Servlet
-- models server_frame/http/servlet.h and servlet.cc. Log models the reading of patterns in
-- server_frame/log.cc, Sys/Env the arguments of the program in server_frame/sys/env.cc, and
-- Address the masks in server_frame/address.cc. Util/Split models split and replace of
-- hash_util.cc. Stream models ReadFixSize and WriteFixSize of server_frame/stream/stream.cc,
-- which work for every stream.
--
-- Numbers. Native numbers stand for the integers of the source, with `% 2 ^ w` where they wrap; a
-- signed number is its two's complement; where the source overflows one, which C++ leaves
-- undefined, the model wraps. File descriptors of IoManager are not negative: with one that is,
-- the source leaves the bounds of its vector. The block size of a ByteArray is positive, which
-- its invariant says. `ceil(1.0 * size / base_size_)` is exact below 2 ^ 53. The host is little
-- endian. `new char[]` gives bytes that are not initialised, which the field `heap` supplies.
--
-- Fuel. The loops of Write and Read have one more than the blocks that the size needs, the varint
-- loops the size of their array, and ReadFixSize and WriteFixSize as many calls as bytes;
-- parameters and pieces of a string have one more than its bytes, and the counts of bits one more
-- than the width, and do_io two more than the answers EINTR and EAGAIN that are still to come; the
-- outcome `diverges`, in do_io `none`, marks the end of the fuel, and the theorems that a call
-- returns exclude it.
--
-- What is outside. fnmatch, epoll_ctl, fstat and the virtual Read and Write are arguments. Locks
-- are held throughout an operation. An assertion that fails, or a null pointer that is followed,
-- is an outcome of its own, but for the hooked calls: these are made by a fiber that an IOManager
-- runs, of an event that is not registered. Not modelled are the hooked sleeps, connect and close,
-- sockets, the parsers that ragel generates, the output of logs, the configuration, and the calls
-- of ByteArray on files.
pub mod Prelude
pub mod Container
pub mod Base
pub mod IoManager
pub mod Http
pub mod Stream
pub mod Hook
pub mod Util
pub mod Log
pub mod Sys
pub mod Address
pub mod Tests
