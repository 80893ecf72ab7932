-- ===== src/Lib.antt =====
-- TMPI runs the MPI processes of one machine as threads of one process. This library models the
-- part of its runtime that carries messages between them, and the data structures below it. Paths
-- are those of the repository.
--
-- Parts, and the files that model them:
-- - Base: the native numbers' Boolean tests, lists indexed by them, C's signed integers (only
--   compared here, never added).
-- - Queue: what src/runtime/src/utils/tqueue promises its clients, on lists of addresses: enQ puts
--   an entry at the tail, Q_probe returns the first that passes a test, Q_removeElem takes one
--   out.
-- - TQueue: src/runtime/src/utils/tqueue/tqueue.c itself, the circular list through the BUCKET in
--   front of each item and the cache of free buckets. The link fields of all buckets are two
--   functions of the address; Q_delElem faults at a link that is NULL. TQueue.Refine and
--   TQueue.Find relate each call to the operations of Queue, TQueue.Cache treats Q_newElem and
--   Q_freeElem, TQueue.Init Q_init, TQueue.Reset Q_reset.
-- - Util: tmpi_Usize of src/runtime/src/mpi/util/tmpi_util.c, over the platform's sizes.
-- - MBuffer: src/runtime/src/utils/buffer/mbuffer.c, the buffers of one process, of which buffered
--   sends use the system's. The handles are functions of the address, MBuffer.Blocks reads a
--   buffer as the list of its blocks, MBuffer.Fit, Alloc and Take treat mb_alloc, Merge, Free and
--   Release mb_free, Coalesced and Restore the two together, Setup mb_init and the user's buffer.
-- - Fifo: src/runtime/src/net/netd/fifo.c, the bounded ring between threads; Fifo.Items reads a
--   ring as the list of its items, Fifo.Refine relates the calls to that list.
-- - Group: src/runtime/src/mpi/context/group.c. A group's table is the list of its np entries, a
--   handle is null, empty or a group. `granted` says how many bytes a malloc of some number has
--   room for, and `junk` is what malloc leaves in a field; an access outside of a table is a
--   result of its own. Group.Ranks and Group.Sets treat union, intersection and difference,
--   Group.Compare comparison and translation, Group.Subset has inclusion and exclusion, which
--   Group.Complement relates.
-- - Barrier: src/runtime/src/intra/barrier.c, the barrier of a node's threads, whose two
--   sub-barriers take turns; Barrier.Round is about its rounds.
-- - Hash: src/compile/mpitrans/hash.c, the translator's hash table, with the links of all buckets
--   as functions of the address. findsym and nextsym run on fuel that is an argument. Hash.Laws
--   relates the calls to one another.
-- - Comm: src/runtime/src/mpi/context/comm.c. A communicator's table and group are none where they
--   are NULL, the table of communicators is a function of the local rank, and the objects of the
--   collective operations are addresses. Comm.Setup has the set-up and the end of MPI_COMM_WORLD,
--   Comm.Laws what works, Comm.Hazards what does not.
-- - Intra: src/runtime/src/intra/intra_sr.c, the matching of sends and receives. Intra.Types has
--   the handles of tmpi_struct.h and the state, a Node: the channels (a send queue and a receive
--   queue for each local process), the handles and the bytes at their addresses, what was handed
--   to the network (netq_send) and to mb_free. Intra.Channel has the queue tests sq_cmp and rq_cmp
--   and the release of handles, Intra.Create the constructors (Intra.Lengths is about their
--   arithmetic), Intra.Setup the set-up and the end of the channels, Intra.Start
--   tmpi_intra_start_sh and _rh, Intra.Complete the waits, Intra.Cancel the cancels and tests.
--   Intra.Quiet is the invariant of the matching, Intra.Runs its reach over all interleavings of
--   starts, waits, wakes, tests of receives and messages (cancels, tests of sends and waits for
--   ready-mode sends to this node are left out, some of which break it), Intra.Delivery says what
--   arrives where and when, Intra.Hazards where the code does not do what it means to.
--
-- - Api: src/runtime/src/mpi/pt2pt/mpi_sr.c, the library's point-to-point calls: Api.Request those
--   on a request, Api.Send and Api.Recv the blocking, immediate and persistent ones, Api.Many
--   those on arrays of requests. Api.Meets is about whole sends, Api.Indices about tmpi_Testsome,
--   Api.Lengths about long messages, Api.Hazards about calls that do not do what they mean to.
-- - Inter: src/runtime/src/intra/inter_sr.c, what a message from another machine does. Inter.Wire
--   has what a handler reads off the connection (netq_recvdata, tmpi_dump_data), Inter.Receives
--   and Inter.Sends the handlers, by whose handle they work on, Inter.Dispatch
--   tmpi_inter_msg_handle. Inter.Reads and Inter.Stream say what reading does, Inter.Quiet relates
--   the handlers to the invariant of the matching, Inter.Network puts two processes together, over
--   which Inter.Delivery runs whole sends; Inter.Framing and Inter.Hazards are about the
--   connection.
--
-- How the code is read:
-- - A critical section (under ch->lock, sh->lock or rh->lock) is one step. A call that waits on a
--   condition variable is cut at the wait: the function up to it ends in `sleeps`, and a wake_
--   function is what runs after it. `stuck`, or `none` for start_rh, is a call that waits for a
--   lock that an earlier call left held.
-- - Addresses are natural numbers and 0 is NULL; memory is a function from addresses to bytes, and
--   memcpy moves between buffers that do not overlap. The queues of Intra are lists, by Queue;
--   that Q_newElem clears the link `next` of an item which a queue still holds does not show
--   there.
-- - netq's translation of global ranks and its machine number are parameters (Env), malloc's
--   result is an argument of the functions that call it, and `got_msg` says whether
--   tmpi_inter_new_msg found a free message. tmpi_error only logs.
-- - The walks of Q_probe and Q_find run on fuel, count + 1 rounds, which suffice in a well-formed
--   queue: one for each entry and one for the end. So does the search of mb_alloc, and mb_init
--   makes one request for each megabyte at most. Q_reset runs on fuel that is an argument.
--
-- - A message handler returns, waits (for a lock, or for bytes that have not come), or faults (a
--   copy to NULL). Node keeps for each machine the bytes that netd_recvdat will still deliver; the
--   loop of tmpi_dump_data runs on as much fuel as there are bytes to throw away, and takes one at
--   least in each round. Two processes are joined by connections that keep the order, which is
--   what netq promises.
--
-- Not modelled: the rest of netq and the sockets below it, the inclusion and exclusion of ranges
-- of ranks in group.c, the collective operations but the barrier of a node, thread start-up, and
-- the rest of the translator under src/compile. Q_status and printQ only print.
pub mod Base
pub mod Queue
pub mod TQueue
pub mod Util
pub mod MBuffer
pub mod Group
pub mod Intra
pub mod Inter
pub mod Api
pub mod Barrier
pub mod Hash
pub mod Comm
pub mod Fifo
