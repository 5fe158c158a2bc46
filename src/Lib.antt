-- ===== src/Lib.antt =====
-- The verification library of iperf3 for Windows.
--
-- iperf3 measures the throughput between a client and a server. The modules model these parts of the
-- C sources:
--   * Time (src/iperf_time.c, iperf_time.h): timestamps of two 32-bit fields. `time_add_usecs`,
--     `time_compare` and `time_diff` are iperf_time_add_usecs, iperf_time_compare, iperf_time_diff.
--   * Timer (src/timer.c): the list of active timers and the list of free ones, with all operations on
--     them. A timer's address is a number, the links are the order of the list. A callback is a
--     parameter; where one takes timers off the list so that the walk of `tmr_run` would follow a
--     pointer to one of them, the result is a fault.
--   * Net (src/net.c): the loops that read and write a socket, Nrecv, Nrecv_no_select and Nwrite, and
--     the calls for segmentation offload (Net/Offload). The system calls are a record of functions on
--     a state of the world, `Sys`; a theorem says what it relies on, for instance that read(2) takes
--     bytes off the front of a stream.
--   * Udp (src/iperf_udp.c): the datagram header (Udp/Packet), the packet counters (Udp/Count), and
--     iperf_udp_recv and iperf_udp_send whole (Udp/Recv, Udp/Send). A buffer is a list of bytes, a
--     pointer into it an offset.
--   * Tcp (src/iperf_tcp.c): iperf_tcp_send and iperf_tcp_recv on the socket loops,
--     in a build without sendfile(2), as on Windows.
--   * Rate (src/iperf_api.c): the limits on the rate of a test. `check_total_rate` is
--     iperf_check_total_rate on its cyclic array of interval totals (Rate/Total), of which
--     Rate/Window says what it holds; a write behind its end is a fault. Rate/Send is the round of a
--     stream's worker, iperf_send_mt with iperf_check_throttle, and iperf_recv_mt, in a build without
--     nanosleep, as on Windows; `sp->snd` and `sp->rcv` are parameters.
--   * Control (src/iperf_api.c, iperf_api.h): the state of a test that the messages on the control
--     connection change, iperf_set_send_state and iperf_exchange_results. Server
--     (src/iperf_server_api.c) and Client (src/iperf_client_api.c) are the two handlers of these
--     messages, iperf_handle_message_server and iperf_handle_message_client, with every call that
--     they make in order; Server/Wait is how long the server's main loop waits, Server/Expire is
--     server_timer_proc; Server/Run, Server/Accept, Server/Start and Server/Round are the main loop,
--     with iperf_accept and cleanup_server, in the build for Windows; Server/Closed says that the
--     latter closes the sockets, as far as close(2) does. What the handlers
--     call in other parts is a record of functions on the rest of the program, `Calls` and
--     `ClientCalls`: it cannot touch the fields of `Test`, but may fail in any way.
--   * Json (src/iperf_api.c): JSON_write and JSON_read, a length and a text over Net (Json/Frame). The
--     JSON library is a record of functions with laws (`Json`, `IsLibrary`); a message is the list of
--     members that are added to it (Json/Members). Json/Library and Json/Local are a library and a
--     connection to run the model on.
--   * Params (src/iperf_api.c): the parameters of a test. Params/Entries is what send_parameters adds,
--     Params/Get what get_parameters takes over, with the conversions of C (Params/Words);
--     Params/Exchange joins both with Json, and is iperf_exchange_parameters.
--   * Results (src/iperf_api.c): send_results and get_results; Results/Merge and Results/Pairing say
--     what one stream takes over, Results/Exchange joins both sides. Stats (src/iperf_api.c):
--     iperf_stats_callback, which calls the rate check of Rate, and iperf_reset_stats; Stats/Account
--     follows a stream over all its intervals.
--   * Arguments (src/iperf_api.c): the checks at the end of iperf_parse_arguments, of roles and
--     authentication (Arguments/Auth), and of the file, the block size and what ends the test
--     (Arguments/Check). OpenSSL, the terminal and the file system are a record of functions,
--     `Environment`. Arguments/Accepted and
--     Arguments/Authorized are what accepted arguments satisfy, Arguments/Complete that
--     such arguments are accepted. The loop over the options before is not modelled.
--   * Options (windows/compat/src/getopt_long.c): getopt_long and handle_long of the Windows port on
--     byte strings; the global variables are a state.
--   * Prelude: shared names, tests on numbers, lists, signed integers.
--
-- The parts interact by calls: Udp and Tcp read and write through Net, the worker of a stream
-- (Rate/Send) sends through one of them and counts for the test, the main loops wait as long as Timer
-- says, and all take their times from Time.
--
-- Numbers are natural numbers, with the wrap of an unsigned word written out; an int64_t counter is
-- its bit pattern. A `while` loop is `Net.loop` on fuel, one more than the bytes that the loop still
-- has to move, which is enough since every round that goes on moves at least one; the theorems on the
-- loops show that they return. The loop of a caller of getopt_long has the length of the arguments as
-- fuel, of which every call that goes on uses some.
--
-- Doubles are a parameter with no laws, but that a JSON number holds an integer up to 2 ^ 53. Debug output is left out. Not modelled: set-up of sockets,
-- printing, threads.
pub mod Prelude
pub mod Time
pub mod Timer
pub mod Net
pub mod Udp
pub mod Tcp
pub mod Rate
pub mod Json
pub mod Params
pub mod Results
pub mod Stats
pub mod Control
pub mod Server
pub mod Client
pub mod Arguments
pub mod Options
