-- ===== src/Lib.antt =====
-- ccc_upgrade is a daemon for devices in a building: one client at a time finds the device by UDP,
-- logs in by TCP, uploads files to it and runs scripts on it.
--
-- The bytes of a TCP connection come into the receive loop of its thread (src/network), which hands the
-- waiting bytes to the protocol adapter (src/protocol_adapter). The adapter cuts them into packets with
-- the wire protocol (src/protocol), in a buffer that it borrows from the packet pool (src/packet_pool),
-- and handles each packet: a login goes to the client table (src/network/client_manager.c), a piece of a
-- file or a script to the file manager (src/file_manager). Each handler answers with a packet of its own.
-- Datagrams take the same way, without a login.
--
-- All paths are below ccc_upgrade/. Which module models what:
--   Base          lists over the native numbers, tests, a C `int` as ℤ, bytes, and `Run`: a result, or
--                 the fault of undefined behaviour (a write out of its block, a use of freed memory).
--   Util.Words    src/utils/util_func.c: four_bytes_to_uint, four_bytes_to_int, int_to_four_bytes.
--   Util.Text     src/utils/util_func.c: strings, paths, util_create_dir.
--   Util.Hosts    src/utils/util_func.c: get_host_ip_running.
--   Util.Os       what is asked of the C library about memory and files: the record `Os`, a parameter.
--   Protocol      src/protocol/protocol_core.c. parse_packet2 is cut at its returns into parse_header,
--                 parse_data and parse_checksum; Protocol.Frame is the wire format on its own.
--   Packet        src/packet_pool/ccc_packet.c: packets and their growing buffers.
--   Pool          src/packet_pool/packet_pool.c: the ring of idle packets, with nodes on a heap.
--                 Pool.Ring has the shape of the ring; Pool.Save, Pool.Take, Pool.Free and Pool.Trim what the
--                 operations do to it; Pool.Stock a pool that serves every call.
--   Client        src/network/client_manager.c: the two places for connections (the record `Clients`) and
--                 a round of the receive loop; tcp_close and the accept loop of src/network/tcp_socket.c.
--                 Client.Table has the steps that the program takes on the table.
--   Net           the sending loops of src/network/tcp_socket.c and src/network/udp_socket.c, and in Net.Setup
--                 the set-up of their sockets.
--   Configure     src/configure/configure.c: check_login and load_configure.
--   Services      what the adapter calls of the other parts: the record `Services`, a parameter of its
--                 functions.
--   Answers       src/protocol_adapter/protocol_adapter.c: the replies, and the answer to a search.
--   Adapter       src/protocol_adapter/protocol_adapter.c: every handler and the dispatch; Adapter.Stream
--                 has the loop over the packets of a stream and the handling of a datagram;
--                 Adapter.Keeps and Adapter.Stream.Keeps carry what all of these calls keep to the whole
--                 handling of bytes, and Adapter.Stream.Password is about bytes without the password.
--   Md5           src/file_manager/md5sum.c: the sum of a file in hexadecimal; Md5.Message is MD5 on a
--                 whole message, Md5.Base64 has enc64 and dec64.
--   Files         src/file_manager/upload_file.c and src/file_manager/file_manager.c; Files.Transfer has an
--                 upload as a sequence of pieces.
--   Program       the parts put together: `services` fills the record with the models of the parts, on the
--                 static variables of the program (`World`) and a system below it (`Machine`), the way
--                 src/network/network_manager.c, src/network/udp_server.c and src/main/ccc_upgrade.c pass
--                 the calls on. Program.Steps has the steps of the whole program: a connection comes or
--                 ends, bytes or a datagram are handled, or something happens in the system. Program.Safe,
--                 Program.Outsider and Program.Password are about all runs of it. Program.Events has the
--                 steps of the accept loop and the receive loops as events that can be run.
--                 Program.Rounds has the rounds of a receive loop, one for each call of recv;
--                 Program.Upload, Program.Pieces, Program.Verdict and Program.Session are about an upload
--                 from these rounds to the file, Program.Far about a piece of it beyond 2 GB.
--   Start         src/main/main.c and the starts of the services, up to the loop that serves datagrams, on
--                 the variables that are set at the start (`Boot`), and with what the accept loop and the
--                 receive loops do before the table is set up and between then and the serving.
--
-- State and memory. A function that changes a state takes it and returns it. A block of memory is the list
-- of its bytes, and NULL is `none`; a packet belongs to whoever holds it, so a pointer to one is its value.
-- The nodes of the pool, which are shared, live on a heap from addresses to nodes. The pointers of an upload
-- can dangle (`Pointer`). Locked regions are one step. An `int` that is only a flag is a `Bool`. As on
-- the device, an ARM processor (CMakeLists.txt), `int` and `long` have 32 bits, and a plain `char` has no sign.
-- A receive loop is known by its slot; two connections can share one, and then the table does not tell them
-- apart.
--
-- Bounds and fuel. The checksum and the lengths of create_protocol_packet wrap at 2 ^ 32, and a length field
-- is read as a signed `int`, the offset of a piece of a file as a signed `long`. A view of bytes that is
-- handled is a list of less than 2 ^ 31 bytes, as `data_len` is an `int`: main_buf has 8192, and a datagram
-- 1024. process_loop, send_loop, delete_packets and delete_nodes run on fuel: the number of bytes, packets
-- or nodes at their start, of which every round takes one at least. tcp_send_async has no such bound of its
-- own: async_loop answers `none` for a loop that still runs when the fuel is used up.
--
-- Interleaving. The handling of the bytes of one chunk, or of one datagram, is one step of Program.Steps; what
-- other threads do meanwhile is a step before or after. The program itself has a lock on the table and on the
-- pool only.
--
-- Not modelled: the signal handlers, the log and the clock; the copies of the headers in include/, the
-- generated files in build/, and the sample in doc/. In Md5 the branch of sum that calls enc64, which is never
-- taken, and a failing calloc of its small state are left out; in Adapter and Util a failing malloc is an
-- answer of the parameter.
pub mod Base
pub mod Util
pub mod Protocol
pub mod Client
pub mod Packet
pub mod Pool
pub mod Configure
pub mod Services
pub mod Answers
pub mod Adapter
pub mod Md5
pub mod Files
pub mod Net
pub mod Program
pub mod Start
