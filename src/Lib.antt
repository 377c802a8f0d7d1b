-- ===== src/Lib.antt =====
-- cmtTCP: the TCP of a user-space network stack.
--
-- The program keeps, for each core, a manager (include/cmtTCP.h) with its streams (include/tcp.h),
-- three sender's lists, a retransmission store, a TIME_WAIT list and a list of idle connections. A
-- packet's segment goes through `cmt_tcp_process` of src/tcp.c: its checksum is checked, its
-- stream is looked up or created, its sequence number and timestamp are compared, a reset is
-- handled, and the handler of the stream's state runs, which takes the payload, the
-- acknowledgement and the FIN, files the stream in the lists and sets its timers. An expired timer
-- goes to `handle_rto` of src/timer.c.
--
-- Stream has the data: State, Recv, Send and Stream of include/tcp.h, Manager of include/cmtTCP.h.
-- The code's functions change one stream and the manager, which is the state `Ctx`; an action
-- (`Act`) runs on it and ends in a value or in a fault: `assert`, `exit`, a null pointer, a
-- division by zero, an index outside its array, or a loop that does not end (Run, with rules on
-- what holds afterwards in Run/Keeps). Each function of the C code is a definition of the same
-- name without its prefix `cmt_tcp_`; parts of long functions have names of their own and say
-- which lines they are.
--   Seq: the comparisons of sequence numbers of include/tcp.h.
--   SendLists: the control, send and ack lists of src/tcp.c.
--   Timer: the lists of src/timer.c. Retransmit: `handle_rto`. Expiry: the functions that walk over the
--   streams of a list, on a `World` of the manager and all its streams.
--   SendBuffer: `SBInit`, `SBPut`, `SBRemove` of src/tcp_buffer.c. Accept: its stream queue. Fragments:
--   the ranges of received data there, `CanMerge` and the range that merging gives.
--   Options: the TCP options of src/tcp.c, written and parsed.
--   Checksum: the checksums of src/tcp.c and src/icmp.c.
--   Rtt, Ack: `cmt_tcp_estimate_rtt`, `cmt_tcp_enqueue_acklist` and `cmt_tcp_process_ack`.
--   Segment: a segment, and what comes from outside. Connect: src/tcp_stream.c and the opening of
--   connections in src/tcp.c. Receive: `cmt_tcp_validseq`, `cmt_tcp_process_payload` and
--   `cmt_tcp_process_rst`. Handlers: one function for each state. Process: `cmt_tcp_process`;
--   Process/Opened and Handlers/Established follow a handshake from its SYN to the listener's queue.
--   Member, Filed: the invariant that ties a stream's flags to its manager's lists. The modules Filing
--   (and Listed, Lists) have its proofs. States: the table of the state machine and its proofs.
--   HashTable: the tables of src/tcp_stream_hash.c. Flows: their keys, and the operations on the flow
--   table and the listener table; HashTable/Lookup has the laws of a key, which Flows/Keys proves.
--   Rss: src/rss.c, the core of a connection. AddrPool: src/addr_pool.c, which asks Rss for the core.
--   Routes: the tables of src/arp.c and the choice of the interface in src/ip.c. Net: the packets of
--   src/eth.c, src/ip.c, src/icmp.c and src/arp.c, with what goes out (Output), and what comes in (Arp,
--   Icmp, Input); the other children have the proofs.
--   Sockets: the numbers and the free list of src/socket.c. ObjectPool: src/object_pool.c. Links: chains
--   of nodes in memory, for both. MemoryPool: src/cmt_memory_pool.c; Calls has the calls that use its
--   parts, Aligned its aligned memory, Chunks and Given the proofs.
--   Ring: include/ring.h and src/ring.c, a call at a time; Ring/Contents is the queue it stands for.
--   Ring/Threads: the steps of several producers and a consumer in any order.
--   Prelude: shared names, tests, words, bits and lists. Tests: the theorems at concrete values.
--
-- Numbers are natural numbers with the wrap-around of their width written out; an `int` is its
-- 32-bit pattern. The names NTY_TCP_* are read as CMT_TCP_*, `snd` and `sndvar`, `rcv`, `rcvvar`
-- and `recvvar`, `rcvbuf` and `recvbuf` as one field each, and `sndvar>ack_cnt++` as
-- `sndvar->ack_cnt++`. Where the text of a table, a pool or a ring does not compile
-- (`ht->tqh_first` for the bucket's, `ht->eqfn` for `ht->eq`, a struct for its address) it is read
-- as what it means. `CASra`, whose second argument is the address of the expected value, is given
-- the value itself in the ring and the ARP list, and is read as an exchange of values. The option
-- parsers run on fuel: one round more than the options have bytes, which is enough since each
-- round but one that comes back to its own byte goes on by a byte at least; running out is the
-- fault `diverges`.
--
-- `check_rtm_timeout` has the rounds of its outer loop as fuel; the loop over a slot has two
-- rounds more than the threshold, at which it stops. The hash reads the bytes of a flow as x86
-- lays them out.
--
-- Not modelled: `stream_ht_search`, whose bucket is never set, and `stream_ht_remove`, which
-- follows a link that the insertion does not set; the ring's copies of 32 and 128 bits, which a
-- pointer never takes; the receive buffer, whose functions name undeclared variables in all but
-- what Fragments has, and `cmt_tcp_handle_close_wait`, which is not defined, are parameters (Env
-- of Segment), as are the pools' chunks, the clock, the random numbers and the function
-- `NextIndex`; the flow table's answer is a parameter of `process`. Calls of functions with empty
-- bodies are noted in the manager (`calls`). Events that the code only has comments for, and
-- traces, are left out. The release and the buffers of the driver, the checksums of the card and
-- the loop of `request_ARP`, `cmt_allocate_socket` and `cmt_socket_free` under contention are
-- parameters or left out: with no other thread the exchange succeeds. `cmt_small_alloc`, which
-- reads the bins through a pointer that is never set, and its callers are left out, and
-- `cmt_create_pool`, which fills a copy of the control block: what `cmt_palloc` gives is a
-- parameter, and the links of small chunks and the sizes and links of large ones, which share
-- their bytes, are maps of their own; the text of the vectors does not compile, and the queues are
-- a copy of another system's. The loops that do not end have their rounds as fuel, and the
-- theorems hold for every number of rounds.
pub mod Prelude
pub mod Run
pub mod Seq
pub mod Stream
pub mod Member
pub mod Filed
pub mod SendLists
pub mod Links
pub mod ObjectPool
pub mod MemoryPool
pub mod Sockets
pub mod Timer
pub mod SendBuffer
pub mod Options
pub mod Checksum
pub mod Rtt
pub mod Ack
pub mod Retransmit
pub mod Expiry
pub mod Accept
pub mod Segment
pub mod Connect
pub mod Receive
pub mod Handlers
pub mod HashTable
pub mod Flows
pub mod Fragments
pub mod Routes
pub mod Net
pub mod Rss
pub mod AddrPool
pub mod Ring
pub mod Process
pub mod States
pub mod Tests
