-- ===== src/Lib.antt =====
-- Verification of the C and C++ programs of test-code.
--
-- The core is the two echo servers built on libevent. Both speak one protocol: a message
-- is its length, in four bytes in network order, and then its bytes; the server sends each message
-- back in the same form.
--
-- * Framing is the protocol as a specification, a decoder of byte streams, with Framing/Decode,
--   Framing/Stream and Framing/Echo. Nothing in it is taken from a program.
-- * PerfLibevent models dev_examples/perf_libevent/server.cpp. `Globals` are the maps _fd_recvHeader and
--   _fd_sessionInfo, `Server` adds the bufferevents that libevent holds for the process, `readcb`,
--   `errorcb` and `do_accept` are the callbacks of these names, and `run` is event_base_dispatch over a
--   list of events: any order of events of any clients is such a list.
-- * MultiThread models dev_examples/libevent_multithreads. MultiThread/Reader is `readcb` of io_cb.cpp.
--   MultiThread/Server has the other callbacks, the loop of WorkerProc in thread_worker.cpp as its three
--   steps `get`, `put` and `write`, and the state that the threads share; an `Action` is one step of one
--   thread, so that any interleaving is a list of actions.
--   MultiThread/Flow follows a message through the threads: Flow/Route and Flow/Keep say which worker has
--   which messages, Flow/Flight and Flow/Track what is on its way to a descriptor, Flow/Order and
--   Flow/Answer what a client gets, and Flow/Rest what holds when no thread can go on by itself; Flow/Measure
--   counts the steps that are left, Flow/Search and Flow/Settle find them, and Flow/End has where they lead.
--   MultiThread/Main is `main` of server.cpp, as PerfLibevent/Main is that of the other server; both
--   take from Startup what the calls before the event loop return.
-- * Wire has what the servers do with words and bytes (htonl, ntohl, a cast to `unsigned *`), for both
--   byte orders of the host.
-- * Libevent and CfQueue are the evbuffers of libevent and the queue of cppfoundation, which are not in
--   the repository: parameters of the model, with the documented behaviour as laws.
-- * Prelude has what the files share: Boolean tests and lists on native numbers, maps, and loops.
-- * Tests has runs on concrete inputs.
--
-- A descriptor is a number. The loop of a read callback runs on fuel, two rounds for each byte of the
-- input and two more, which is enough since each round takes a header or a body off the input; the loop
-- of print_payload runs on its length. A word of 32 bits is a number with its wrap-around written out.
--
-- IpHash models lite_test/ip_hash/ip_hash.cpp: `ip_hash` is IPHash, and `hits` the counts of main
-- for any numbers that rand() gives, which IpHash/Order takes without their order.
--
-- NetworkCapture models dev_examples/network_capture/src/custcap.c: NetworkCapture/Dump is
-- print_hex_ascii_line and print_payload as the text that they print, and NetworkCapture/Packet is
-- got_packet as the lines that it prints, where a read outside of the captured bytes has no result.
-- NetworkCapture/Sniffex and NetworkCapture/Cap are the callbacks of
-- dev_examples/network_capture/example/sniffex.c and cap.c, NetworkCapture/Struct the structs of the
-- headers in memory, and NetworkCapture/Startup the three mains, with the results of libpcap as a
-- parameter.
--
-- Text has texts and the numbers written out in them, and Bits the masks of ip_hash.cpp and of the
-- capture programs as arithmetic.
--
-- TcpEcho models lite_test/TCP_USER_TIMEOUT_test/tcptest_server.cpp, an echo server on epoll, and
-- TcpClient tcptest_client.cpp, its client; TcpEcho/Buffer has the buffer of handle_message and
-- setnonblocking. What the system calls return is in their events.
--
-- TcpPair puts the two on one connection: its steps are the turns of the two loops, with the bytes
-- on their way.
--
-- Log4cplus models lite_test/log4cplus_test/src/test_normal.cpp: Log4cplus_AddExtenToFilename, with
-- the Properties of log4cplus as a parameter, GenerateExtend and the child that calls them.
--
-- CreateDirs models lite_test/createdir_test/createdir_test.cpp, with access and mkdir as a
-- parameter, and ProcTitle lite_test/setproctitle/main.cpp, with the memory that holds the arguments
-- and the environment, and with the calls of strdup that fail as a parameter.
--
-- MultiProcess models dev_examples/perf_libevent_multi_processes/server.cpp: its callbacks are those
-- of PerfLibevent but for do_accept, `run` is any interleaving of its children, and `server_main`
-- its main with the results of fork.
--
-- Not modelled: the options of sockets, what the echo servers on libevent print, the write
-- callbacks, which are empty, the macros of log4cplus, the code that protoc generates and the
-- program that calls it, the plugins of network_capture, which return constants, the programs of
-- lite_test that only make a few calls of the system (execve, download_example, signal_test,
-- rpath_test), a pipe that cannot be made or that is full, a count of packets beyond an int, and the
-- programs in Python. A byte of a payload behind those that are given to print_payload is read as 0.
-- A bufferevent that is freed and one that libevent drops after an error are not told apart, and
-- what libevent puts into an output reaches the peer outside of the model.
pub mod Prelude
pub mod Wire
pub mod Libevent
pub mod Log4cplus
pub mod Framing
pub mod PerfLibevent
pub mod Bits
pub mod IpHash
pub mod NetworkCapture
pub mod CreateDirs
pub mod ProcTitle
pub mod Text
pub mod Startup
pub mod TcpClient
pub mod TcpEcho
pub mod TcpPair
pub mod MultiProcess
pub mod CfQueue
pub mod MultiThread
pub mod Tests
