-- ===== src/Lib.antt =====
-- The RDMA middleware of a replicated store: a head node writes logs into a ring buffer in the memory
-- of the next node of the chain, which reads keys and values out of it and passes them on.
--
-- Parts, and the files that model them:
--   Queue      src/unlock_queue.c: the queues between the threads. `Queue` has the record `UnQueue`
--              and the five functions, `Queue.Fifo` what their users rely on.
--   HashMap    src/mid_hashmap.c: the map of the keys that are written but not yet executed.
--              `default_put` and its kin are `defaultPut` and its kin; `HashMap.Text` has the hash and
--              the equality of C strings, `HashMap.Keys` what the map needs of any hash and equality.
--   Log        src/log_buffer.c, include/log_copy.h: `Log.Geometry` the pointers of the ring,
--              `Log.Writer` the sending side (`rb_write_mate`, `rb_write_data`, `head_node_write_log`,
--              `NIC_thread` as `nic_step`), `Log.Reader` and `Log.Pipeline` the receiving side
--              (`rb_read`, `read_log_key`, `read_log_value`, `top_log`, `send_log`, `free_log`,
--              `clean_log`), `Log.Bytes` the bytes of a log, `Log.Chars` the access to
--              single bytes and `read_one_log`. `Log.System` puts a writing and a reading node together:
--              each function that a thread calls is a step, and the steps come in any order. `Log.Loops`
--              has the loops of the threads around these functions, for one message after another.
--              `Log.Passing` has a node in the middle of the chain, with the ring of the node behind it.
--              `Log.Window`, `Reserve` and `Send` hold the lemmas on writing, `Read`, `Texts`,
--              `Entries`, `Delivery`, `Arrival`, `Arrives`, `Values`, `Waiting` those on reading, `Journey`
--              those on the way of a log through both, `Turns`, `Rounds` and `Reachable` those on
--              the system, `Marks`, `Addresses`, `Whole`, `Executed`, `Emptied`, `Sending` and
--              `Exchanged` those on the messages.
--   Client     src/mid_client_work.c, src/mid_rdma_top_api.c: `Client.Addresses` the addresses with the
--              node in their top bits, `Client.Table` the table of remote blocks, `Client.Works` the
--              calls and the handlers of their works, with the server's side of a message from
--              src/mid_rdma_recv_handler.c, `Client.Murmur` src/murmur3_hash.c. The lemmas stand in
--              `Client.Idle`, `Access` and `Messages`. `Client.Granting` has the server's side of a
--              malloc.
--   Connection src/mid_rdma_connection.c: `Connection.Resources` what the setup acquires and its error
--              paths release, `Connection.Events` the events of the connection manager at a node that
--              is a server, with the lemmas in `Connection.Listing` and `Clients`, `Connection.Opening` how
--              a transport listens, connects and is freed, `Connection.Rounds` the events one after
--              the other in the thread of `Context`.
--   Buffers    src/mid_rdma_recv_handler.c, src/mid_rdma_top_api.c, src/log_buffer.c: how a node gets the
--              ring of the next one: `dhmp_malloc_buff_request_handler` there, `dhmp_buff_malloc` and
--              `buff_init` here. `Buffers.Granted`, `Start`, `Initial` and `Ready` hold the lemmas; the
--              last two lead to the system of `Log.System` and its messages.
--   Transfer   src/mid_rdma_task.c, src/mid_rdma_transport.c, src/mid_rdma_cq_handler.c: a message in the
--              send region, the posted buffers, and the completions by which both sides go on.
--              `Transfer.OneSided` has the reads and writes of another node's memory with the blocks
--              and registrations that they take, `Transfer.Through` the lemmas on them.
--   Thread     src/mid_client_work.c: the work thread, `dhmp_work_handle_thread`, which runs the handlers
--              of `Client.Works` and `Buffers` for the works on its list.
--   Setup      src/dhmp_config.c, src/mid_rdma_init.c, test/test.c: `Setup.Config` the reading of the
--              configuration, `Setup.Current` the search for the own server, `Setup.Chain` the class
--              of a node and the connections that it opens, `Setup.Server` the start of its server,
--              `Setup.Serving` the events that come to a server after its start.
--   Devices    src/dhmp_dev.c: the list of the devices, with the blocks and the protection domains that
--              the process holds; the lemmas stand in `Devices.Listed`.
--   Context    src/mid_epoll_context.c: the event loop, whose handlers are functions on the state of the
--              program; the lemmas stand in `Context.Dispatch`.
--   Prelude    the shared names, tests, lists, and memory as a list of bytes; Tests the inputs on which
--              the definitions are run.
--
-- Conventions. An operation that updates a structure returns the new one. Integers are natural numbers,
-- with the wrap-around written out where the code can reach it; a negative result code is `none`. The
-- memory of a ring is a list of bytes. `none` in a result of type `Option` otherwise is undefined
-- behaviour, an `exit`, or a wait that never ends, as each file says. `malloc` succeeds, but in
-- `Connection.Resources`, `Buffers`, `Devices`, `Context`, `Setup.Server`, `Client.Granting` and
-- `Transfer.OneSided`, where its outcome is a parameter with those of librdmacm, libibverbs, epoll and
-- pthreads.
-- A transfer over a live connection has its effect in the memory of the other node when the call
-- returns. A connection is lost or comes back between the calls of the threads, not within one: of a call
-- that makes several transfers, either all take place or none. What the requests of a client's reads and
-- writes come to is a field of `Client`. A transfer of no bytes does
-- nothing. Threads meet at the queues: each function of a thread is one step. What a library reports
-- (completions, interfaces, the tree of an XML file, the answer of another node) is an argument.
--
-- Fuel. `default_put` and `reset_hash_map` call one another; the fuel counts the nesting, and the
-- callers give two, since no call from inside a resizing resizes again. `read_log_key` is recursive on
-- the number of logs that it may read, as its loop is.
--
-- Loops that wait on another node go over a list of what they find in each round: the memory of the
-- ring for `read_log_value`, the attempts for `dhmp_connect`, the completions for
-- `dhmp_comp_channel_handler`, the events of each call of `epoll_wait` for `dhmp_context_run`. The work
-- thread runs for a number of rounds.
--
-- Not modelled: the example threads of src/log_buffer.c, which only call the functions modelled,
-- `murmur3_32` of src/mid_hashmap.c, which has no caller and whose `int` arithmetic overflows, and
-- logging, which is output.
pub mod Prelude
pub mod Queue
pub mod HashMap
pub mod Log
pub mod Client
pub mod Connection
pub mod Buffers
pub mod Transfer
pub mod Thread
pub mod Setup
pub mod Devices
pub mod Context
mod Tests
