-- ===== src/Lib.antt =====
-- iperf-swift: the C engine of an iPerf client and server, in Sources/IperfCLib.
--
-- A test runs over a control connection and data streams. The modules follow the engine's files:
--
-- Prelude: shared names, lists, machine words (w-bit values are numbers below 2^w, operations wrap
--   explicitly) and integers.
-- Time: iperf_time.c. `Time` is struct iperf_time; iperf_time_add_usecs, _in_usecs, _compare and
--   _diff are the functions without the prefix. Timestamps are used by the socket loops, which have
--   a deadline, and by UDP, whose datagrams carry the sending time.
-- Timer: timer.c. `Timers` holds the list of the active timers and the free list; tmr_create,
--   _timeout, _run, _reset, _cancel, _cleanup and _destroy are the functions of these names. What a
--   timer's proc does is a parameter: a change of the test's state, and resets of other timers. Client
--   and server run the timers in their main loops, which are not modelled.
-- Net: net.c. `nrecv` (Nrecv, and Nread without a flag), `nrecv_no_select` and `nwrite` are the
--   loops over read and write; what the system answers is a list with one entry for each call.
-- Udp: iperf_udp.c. Udp/Header reads and writes the header of a datagram, Udp/Receive is
--   iperf_udp_recv with its loss and jitter accounting, Udp/Send is iperf_udp_send.
-- Log: iperf_bounded_log.c. `BoundedLog` is the state behind a FILE of funopen; `bounded_write`,
--   `bounded_close`, and in Log/Open `bounded_log_wrap` and `bounded_log_open`.
-- Output: iperf_bounded_output.c, the reader of the results that a peer sends at the end of a
--   test. `Parser` is struct parser and the functions are a monad of it: Output/Stream reads and
--   captures bytes, Output/Text is string, Output/Value number and value, Output/Root core_key and
--   root, Output/Read iperf_read_bounded_results.
-- Budget: iperf_output_budget.c, the output that a server collects for its client. `Budget` has the
--   fields of struct iperf_test that this uses; Budget/Text is utf8_prefix, append_format and
--   iperf_output_collect_printf, Budget/Json shape, iperf_output_collect_interval, finalize_json and
--   iperf_output_add_server_results, Budget/Peer iperf_output_apply_peer_status. Output and Budget
--   share struct iperf_server_output: one end of a test fills it from its own prints, the other from
--   what it reads.
-- Wire: iperf_bounded_socket.c, which carries the results as a frame with a length on the control
--   socket. `socket_read`, `socket_write` and `write_results_socket` have the source's names;
--   `take_turn` is the part that the two loops share, `read_header_bytes` the header loop of
--   read_results_socket. What a turn's callback, clock, poll and transfer answer is a `Turn`.
-- Qos: dscp.c, the names of type-of-service values, `parse_qos` and `iptos2str`.
-- Errors: the error numbers of iperf_api.h.
-- Params: the parameters of a test, which a client sends and a server checks (iperf_api.c). `IperfTest`
--   and `Settings` are the fields of struct iperf_test and struct iperf_settings that this uses.
--   Params/Receive is get_parameters as a list of steps, one for each key, and the checks behind
--   them, with iperf_cJSON_GetObjectItemType (iperf_util.c); Params/Send is send_parameters as a list
--   of entries; Params/Frame is JSON_write and JSON_read, which carry the object.
-- Control: the control connection, over which the two sides go through the states of a test.
--   Control/Client is iperf_handle_message_client, iperf_client_end and their use in iperf_run_client
--   (iperf_client_api.c), Control/Server is iperf_accept, iperf_handle_message_server, cleanup_server
--   and the accepting of streams in iperf_run_server (iperf_server_api.c). A handler takes a `Side` to
--   a `Side` with the messages it sent and the events it caused. Control/Network puts a client and a
--   server together, with a queue of messages each way; a schedule is a list of turns.
-- Exchange: the results that the two sides of a test send each other at its end (iperf_api.c):
--   `send_results`, and in Exchange/Receive `get_results`, which merges the counters of a peer's
--   streams into one's own. The states of Control say when they are sent.
-- Rate: iperf_check_total_rate (iperf_api.c), the server's limit on the average total rate.
--
-- Bounds and fuel. The UDP loops run on fuel for each byte of the buffer, of which a turn takes at
-- least one. In the bounded reader, loops over bytes get the bytes that are left as fuel, and the
-- calls of value and its member loop twice as much, since each second call takes a byte. The header
-- loop of the frame has fuel for its four bytes, the loop of tmr_run for each microsecond that a timer
-- is due, and one more.
--
-- Not modelled: the system's sockets, files and clocks are arguments of the definitions, as are
-- cJSON, a library of another project, with the printing of doubles, and the double arithmetic of the
-- jitter; the conversion of a 64-bit number to a double is a definition of Params/Send. The flow
-- labels, MPTCP and the offloading of UDP, which the build of the repository has not, the threads and
-- timeouts of the control loops, the text output, option parsing, authentication, SCTP and the Swift
-- sources are left out, and the reset of the jitter by another thread during its update.
pub mod Prelude
pub mod Time
pub mod Timer
pub mod Log
pub mod Net
pub mod Udp
pub mod Output
pub mod Budget
pub mod Wire
pub mod Qos
pub mod Errors
pub mod Params
pub mod Control
pub mod Exchange
pub mod Rate
