-- ===== src/Lib.antt =====
-- The C programs of this repository: a network performance tool with a server and clients over
-- eight transports, a chat server on a reactor, and a queue for active objects.
--
-- Files. Paths are from the root of the repository.
-- Base: the native numbers, lists, tests of C, signed integers, lemmas and rulesets that the other
--   files share.
-- Checksum: `compute_checksum` of task3_making-chat-on-c/server.c and `calculate_checksum` of
--   task3_making-chat-on-c/prartb_2.c. Bytes are numbers and a word is two of them, low byte first.
--   The `unsigned long` wraps at 2^64, and an overflow of the `int` is `none`. The loop that folds
--   the carries runs on 6 rounds of fuel, which is proved to be enough for 64 bits.
-- Os: a program as a tree of system calls, `Prog`. `call c k` makes the call and goes on with its
--   answer; `ret` returns, `exit` ends the process, `fault` is a write or read outside an array or
--   a call through `NULL`, and `spin` is out of fuel. The calls are code outside of the repository:
--   of every answer it is assumed only that a read gives no more bytes than there is room for, and
--   that `write` and `send` of some bytes take at least one and at most all of them (`Legal` in
--   Os/Guarantee). Os/Guarantee has the two forms of a guarantee over all answers, and Os/Ledger
--   the record of open descriptors and of data taken in and handed over.
-- Server: the eight `s_` functions of server.c (Server/Stream: TCP, stream socket, pipe;
--   Server/Datagram: UDP, datagram socket, file) and `server_main` (Server/Dispatch). Each stands
--   under the name that it has in the source. Server/Release is about what they close,
--   Server/Delivery about `s_ipv4_udp` on the datagrams that `c_ipv4_udp` sends, which Os/Feed
--   brings it.
-- Client: the eight `c_` functions of task3_making-chat-on-c/client.c (Client/Lines by `fgets`,
--   Client/Blocks by `fread`) and `client_main` (Client/Dispatch). Client/Sends is about what they
--   send, Client/Agreement about the words that choose the transport on both sides.
-- Link: a client of client.c and the loop of a server of server.c on the two ends of one stream, as
--   a step relation: each side makes its calls in any order, `send` takes some of what it is given,
--   and `recv` or `read` brings some of what is under way. Link/Sides is about what each side does
--   on its own, Link/Ends about both. Link/Datagrams has the datagrams of a run of `c_ipv4_udp` as
--   what `s_ipv4_udp` receives.
-- Queue: task5_designPattren/queue.c on a heap of nodes. Each operation holds the mutex from its
--   start to its end and is one step; a `dequeue` of the empty queue is `waiting`. Queue/Cells has
--   the nodes of a linked queue, Queue/Fifo the operations, Queue/Refines a sequence of them next to
--   the same on a plain list, Queue/Delete `deleteQueue`.
-- Reactor: task4_DesignPattern_Reactor/react_server.c: the table of events and the poll entries,
--   with `addFd`, `del_from_pfds` and `handleEvent`; Reactor/Loop is `startReactor`, of which the
--   loop over the entries is `scan`, one of its rounds `visit`, and the pass to the others
--   `broadcast`. A handler is a pointer that can be `NULL`. Reactor/AddFd and Reactor/Entries are
--   about the poll array, Reactor/Listener is `get_listener_socket`, Reactor/Handlers about the
--   table, Reactor/Broadcast about the messages. Reactor/Main is `main` with `destroyReactor`, `get_in_addr` and `waitForReactor`.
--   Whole runs are followed where `poll` reports no hang-up, on the answers of `IsQuiet` in
--   Reactor/Serving: Reactor/Calm is about the poll entries, Reactor/Room and Reactor/Accepting about a new
--   connection, Reactor/Rounds and Reactor/Scan about the loop over the entries, Reactor/Polls
--   about the loop around it, Reactor/Serves about `startReactor`, Reactor/Finishes about `main`. `Run` in Os/Assume is a run of a program
--   on answers that keep to an assumption.
-- Chat: the chat of task3_making-chat-on-c/stnc.c and the `main` of main.c, which hands over to
--   `client_main`, `server_main` or `main_chat`; the last is in no file and is a parameter. The
--   descriptor -1 is 2^32 - 1. Chat/Relay is about what the two loops of the chat pass on, on one
--   round of fuel more than there are chunks.
-- Perf: the performance tests of prartb_2.c. The eight `perform_` functions of the client
--   (Perf/Inet, Perf/Local), the server's, `generateFile` and `main` (Perf/Server). `DATA_SIZE` is
--   the argument `half` taken twice, 52428800 in the program. What comes after the set-up of a test
--   is a `transmit_` function. Perf/Transfer is about the loops that transmit, which get one round
--   of fuel more than there are bytes, Perf/Overflow about the checksum at the real
--   size, Perf/Release and Perf/Leaks about what is closed and freed with so little data that the
--   checksum does not overflow, which the program never has. The size of an open file is taken to be
--   known, and an array of 100 MB on the stack to fit.
-- Pipeline: `isPrime` and the functions of the active objects of task5_designPattren/st_pipeline.c.
--   `sqrt` is the C library's: the test `i <= sqrt(num)` is a parameter. `isPrime` runs on fuel, of
--   which 32768 rounds are proved to be enough for an `unsigned int`. Pipeline/Prime is about
--   `isPrime`, Pipeline/Numbers about what is printed. Pipeline/Shared is a step relation for the
--   numbers that `partD_a` passes on by the address of one local, taken to stay where it is while
--   its loop goes round; what holds when `sleep(1)` returns and which objects have a `flag` other
--   than 1, which nothing sets behind the first, are parameters. Pipeline/Stages,
--   Pipeline/Turns and Pipeline/Drains are about a sleep that is long enough, Pipeline/Races about
--   one that is too short.
-- Active: `run` of task5_designPattren/activeobject.c as a step relation over a line of objects, in
--   which the threads take their steps in any order. `dequeue` and `enqueue` are one step each, as
--   their mutex makes them; that `enqueue` can end the process is left out. Active/Order and
--   Active/Arrival are about the order of the tasks, Active/Progress about deadlock. Active/Main is
--   `main` and `partD_a` of st_pipeline.c over a line of four objects; Active/Steps is about what
--   the steps of its threads keep, Active/Phases about the line where `main` is, and
--   Active/Joined about what `main` comes to, Active/Ends about the number of steps.
--   Active/Stop is `createActiveObject`, `getQueue` and `stop` for one object.
-- Jobs: `doSomeThing` and `main` of threads_mutex_example/mutex.c and of
--   threads_mutex_example/problem.c as step relations, in which `counter += 1` is a read and a
--   write. Jobs/Main has `main`, which creates and joins the threads while they run. Jobs/Locked,
--   Jobs/Total, Jobs/Joined and Jobs/Ends are about mutex.c, Jobs/Unlocked and Jobs/Overrun about
--   problem.c. A join of a thread that was not created, and a write behind `tid`, are undefined.
-- Early: `main`, `ipv6_tcp` and `ipv6_udp` of task3_making-chat-on-c/partb.c (Early/Checksums), and
--   `ipv4_tcp` and `ipv4_udp` (Early/Chat). `sha256`, the bytes of `rand`, and what stands in memory
--   at the characters that the last two read as addresses are parameters. Early/Runs is about
--   the loop that receives a checksum, Early/Typed about the chat.
-- Examples: the programs of LIBS_GDB/examples. What `dlopen` and `dlsym` answer is a parameter.
--
-- Fuel. The loops of the servers, clients and the reactor read until a peer or a file ends, which
-- the source does not bound, so they take their fuel as an argument. A server or client is shown to
-- run out of fuel only after at least that many calls that read, so that fuel beyond the reads of a
-- run is enough for it. For the servers that add to an `int` the results hold up to 32768 rounds,
-- since each adds at most 65535. A quiet run of the reactor uses the same fuel for its rounds and
-- for each loop over the entries, and uses it up only if the rounds and the accepted connections
-- are together one less than the fuel at least.
--
-- Not modelled: of task5_designPattren a `main` in which an object cannot be allocated, and the
-- release of the queue itself, its mutex and its condition at the end of `deleteQueue`. The texts
-- of messages on the terminal are kept only in part, and the family, the protocol and the options
-- of a socket where no behaviour depends on them.
pub mod Base
pub mod Checksum
pub mod Os
pub mod Server
pub mod Client
pub mod Queue
pub mod Reactor
pub mod Pipeline
pub mod Active
pub mod Jobs
pub mod Perf
pub mod Chat
pub mod Early
pub mod Link
pub mod Examples
