-- ===== src/Lib.antt =====
-- The yfs file server: a network file system of a FUSE front end (fuse.cc) over yfs_client.cc, which
-- keeps files and directories in extents. Each client caches extents (extent_client.cc) and locks
-- (lock_client_cache.cc); a lock's owner writes its extents back before the lock leaves it. The lock
-- server (lock_server_cache.cc) queues the clients of a lock and calls them back; the extent server
-- keeps the extents in inodes on a block device (inode_manager.cc). All of them talk through an RPC
-- library (rpc/) which numbers the requests of a client, sends them again when no reply comes, and
-- filters the duplicates at the server.
--
-- What is modelled, and where:
-- - Lock/Server: lock_server_cache.h and .cc. One lock's state is `LockState`; `acquire` and `release`
--   are the handlers up to the point where they leave the mutex, and return the callback (`revoke`,
--   `retry`) that the handler then sends; `finish_handler` is the rest of a handler, on what that call came to.
--   A failed `assert` is `none`.
-- - Lock/Client: lock_client_cache.h and .cc. One lock's state at a client is `ClientLock`. A method
--   gives the mutex up at each RPC and in `pthread_cond_wait`, so each of its stretches is one function
--   (`acquire`, `acquire_replied`, `acquire_woken`, ...), whose `Todo` says what the thread does next.
-- - Lock/Protocol: the two together, one server and any number of clients, with the RPCs under way, as
--   a step relation; every order of delivery is a sequence of `Move`s. Nothing bounds the clients, the
--   threads or the steps.
-- - Lock/Plain: the lock server for clients that do not cache, lock_server.h and .cc; a round of the loop
--   of `acquire` is a step.
-- - Rpc/Window: `reply_window_` of one client in rpc/rpc.cc, with `checkduplicate_and_update` and
--   `add_reply`; buffers are numbers, 0 being NULL, and what is freed is returned.
-- - Rpc/Xid: `xid_rep_window_` and `update_xid_rep` of rpc/rpc.cc.
-- - Rpc/Marshall: rpc/marshall.h and the operators of rpc/rpc.cc. A buffer is a function from indices
--   to bytes; sizes and positions are written with the wrap-around of the types that hold them. What
--   the allocator leaves in new memory is a parameter.
-- - Rpc/Client: `rpcc` of rpc/rpc.h and rpc/rpc.cc. `call1` is a step for each of its stretches between
--   two waits, `call_start`, `begin_round`, `after_wait` and `call_end`, and `got_pdu` and `cancel` are
--   steps of other threads; any sequence of them is a run. `wait_loop` is the loop of a wait, on what
--   the calls of `pthread_cond_timedwait` give. The clock and new connections are arguments.
-- - Rpc/Dispatch: `rpcs::dispatch` of rpc/rpc.cc around the window and the headers, with the parts of
--   rpc/connection.cc that it uses. Handlers run outside the mutexes, so a request is two steps,
--   `arrive` and `finish`, and other requests come in between; the handlers are a parameter.
-- - Rpc/Connection: messages on a socket, rpc/connection.h and .cc. What a call of the system
--   returns is an argument; a wait ends a step.
-- - Rpc/Fifo: the queue of rpc/fifo.h, a round of a loop being a step.
-- - Rpc/Pool: the thread pool of rpc/thr_pool.cc over that queue.
-- - Rpc/Time: `cmp_timespec`, `diff_timespec` and `add_timespec` of rpc/rpc.cc; the loop of the last runs on as many rounds of fuel
--   as there are nanoseconds, each round taking a whole second off them.
-- - Extent/Client: extent_client.h and .cc. The extent server is a parameter `Rpc`; the `Laws` are those of
--   a server that has room for all contents.
-- - Extent/Block: `disk` and `block_manager` of inode_manager.h and .cc. The content of the stack buffer
--   of each operation is a parameter, since nothing sets it. `alloc_block` walks from the first data
--   block to the end of the disk, so its fuel is the number of blocks between them, and each round uses
--   one.
-- - Extent/Inode: `inode_manager` of inode_manager.h and .cc over those blocks: the inode table with its
--   bytes, and files with direct and indirect blocks. The loops run along the inode blocks, or along the
--   blocks of a file, so their fuel is the number of those. What lies behind a buffer, and the time, are
--   parameters.
--   A file has at most 160 blocks, as many as it has addresses. The bitmap keeps no record of the blocks
--   from 4099 on, so the theorems on files that grow count the free blocks in front of these.
-- - Extent/Server: extent_server.h and .cc over Extent/Inode, as an `Rpc` of Extent/Client. Flushed puts
--   the two together: a client that writes and flushes, the server with its disk, and a client that reads.
-- - Fs: yfs_client.h and .cc. Fs/Dir has the format of directories and the walks along them, which run
--   on one round more than the directory has bytes; Fs/Content what a write does to the contents of a
--   file; Fs/Client and Fs/Names the methods. What they stand on is `Below`, an interface of the extent
--   client and the lock client, with `Laws` that hold while no other client writes; `cached` makes one
--   of Extent/Client, and Fs/Cached fills the laws from those of the extent server.
-- Prelude passes on the library's names and adds Boolean tests, lists over the native numbers, maps as
-- functions and the chain of results.
--
-- Not modelled: handles, the lock client without a cache; making and
-- closing sockets, their lossy mode, polling, FUSE, the main programs and the test programs, which
-- are input and output. Threads are modelled only as far as the mutexes let them interleave;
-- fairness and time are not. What other clients do between the calls of one method of the file
-- system is not modelled; the locks keep them away. In Lock/Protocol the lock server's callbacks get
-- through, so its assertions on them are in Lock/Server only. Numbers of bytes, blocks and inodes are written without
-- wrap-around where the source only counts what fits its memory.
pub mod Prelude
pub mod Lock
pub mod Rpc
pub mod Extent
pub mod Fs
