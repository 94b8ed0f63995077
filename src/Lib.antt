-- ===== src/Lib.antt =====
-- alib4c, a C library of collections, allocation and error reporting.
--
-- The parts and their files here. Paths are from the repository's root.
--   a/error.c, a/error.h.in   Error, Error/*: the error stack that every failing call pushes to, and
--                             the texts of its modules.
--   a/die.c, a/old/die.c      Die, Die/*: the messages for fatal errors, and that of a/debug.c.
--   a/mem.c                   Mem, Mem/*: the allocation functions, over malloc and realloc.
--   a/collect.c, a/collect.h  Collect, Collect/Compare: the callbacks of the collections, and the
--                             stock ones on words.
--   a/hash.c, a/hash.h        Hash, Hash/*: the chained hash table, and its hash functions.
--   a/bintree.c, a/bintree.h  Bintree, Bintree/*: the search tree.
--   a/list.c, a/list.h        LinkedList, LinkedList/*: the intrusive list.
--   a/pot.c, a/pot.h          Pot, Pot/*: the priority queue, a heap in an array.
--   a/util.h.in               Swap: the swap by exclusive or, which the hash table and the
--                             priority queue use.
--   a/util.c                  Util, Util/*: paths, spaces at the end, and concatenation; Format,
--                             Format/Sizes: strings made by vsnprintf.
--   a/debug.c, a/to_do/util.c Hex, Hex/*: binary and hexadecimal text; Escape, Escape/Laws: colons.
--   a/resolve.c               Resolve, Resolve/*: names and addresses.
--   a/to_do/queue.c           SharedQueue, SharedQueue/*: the queue between threads.
--   a/to_do/daemon.c          Daemon, Daemon/*: services of Windows and daemons of Unix.
--   a/to_do/log.c, log.h      Log, Log/*: the log, the event log of Windows and its registry.
--   a/to_do/udp.c             Udp, Udp/*: a server and a client of datagrams.
--   a/to_do/socket.c          Socket, Socket/*: sockets, and the copy of a stream to a file.
--   a/old/vec.c               Vec, Vec/*: the vector of buffers.
--   a/old/error.c             Trace, Trace/*: the older list of errors.
--   a/old/clean.c             Clean, Clean/Thorough: cleanup calls, which report to that list.
--   old/byte_path_store.c     Cache, Cache/*: directories along a path, and cache files.
--   old/flail.c               Flail, Flail/Outcome: the error routine of the first version.
--   old/buffers.c             Buffers, Buffers/*: writing and reading a whole buffer.
-- Attempts has the calls of the service manager and of the registry that stop at the first failure.
-- World is what they all work in, Common holds the shared library names, numbers, bits and lists,
-- and Tests the runs at concrete inputs.
--
-- How they interact. The collections call the allocator, and the allocator reports a failure of
-- malloc by pushing the errno of a system call on the error stack, for which it needs malloc again.
-- What a collection returns is the code that a_error_get_alib_code reads off that stack. The
-- collections call the comparison, equality, hash and free functions of their user.
--
-- How state is modelled. A function of the C code keeps its name (a_mallocNULL and a_xmallocNULL
-- are a_malloc_null and a_xmalloc_null) and takes and returns the World: the answers that malloc
-- has left, errno, the error stack, and a log of the calls that free a key, a value or a block. A
-- run ends with a value, with a fault (undefined behaviour: a read through NULL, a second free) or
-- with the end of the process (a_die). A struct is a record and a chain or tree of nodes with one
-- owner is a data type, where `none`, `[]` and `leaf` stand for NULL. The list is intrusive, its
-- items belong to the user, so there the memory is a function from addresses to pointers. Calls of
-- a_debug, which only write to stderr, are left out. The user's comparison, equality and hash
-- functions are fields of the collection, as they are in C. What the theorems rely on is in
-- Collect: IsOrder, a total preorder by sign, and IsHashed, an equivalence that the hash respects,
-- and in Pot/Rising: IsPrior, an order of the items of a pot. The memory behind a key is taken not
-- to change while the key is in a collection.
--
-- The drafts and the older code stand on their own: their queue and their text helpers allocate by
-- xmalloc, which ends the process, and the vector and the buffers call malloc, realloc and free
-- directly. The queue is a transition system. What a thread does from the lock of the mutex to the
-- unlock, or to the wait on a condition, is one step, for the mutex lets no other thread in
-- between. A signal wakes one of the threads that sleep on its condition, if there is one, a
-- broadcast all of them, and a thread may wake without either, as pthread_cond_wait allows. The
-- calls of the system that the code only passes on are parameters: vsnprintf, write, read, recv,
-- writev, stat, mkdir, access and open, those that cleanup calls make, the functions of the
-- resolver, the service manager and the registry. A theorem names what it takes of them.
--
-- A service keeps its status, the counter of its check points and its error code, and the functions
-- of the daemon work on data of their own. The controls that the service manager sends are handled
-- while a function of the daemon runs, one after another; between the calls none arrives. The server
-- of datagrams and the copy of a stream take what recvfrom and recv answer as a list, and wait at
-- its end. The messages of a/die.c size their parts by a_vsprintf_find_len and take their text from
-- the error stack; the client of datagrams resolves its name by a_resolve.
--
-- Bounds. A pointer is 64 bits and sizeof(void *) is 8. `count` of a list is an unsigned int and
-- wraps. bits2size shifts an int, so a valid table has fewer than 31 bits, and a put that may
-- double the table asks for fewer than 30; the count is then below 2^31. The counts of the queue
-- are unsigned ints and wrap: its threads are fewer than 2^32 - 1. Those of a vector are size_t
-- and wrap at 2^64. The loop of hash_reduce runs on a fuel of 33 rounds: a 32-bit hash is shifted
-- by at least one bit a round. The loop of a_pot_resize has 65 rounds to reach a size of at most
-- 2^63 by doubling; it asks for a size in bytes, which wraps at 2^64, so the sizes of its theorems
-- are at most 2^59. The ints of old/buffers.c hold less than 2^31, and a sum that does not fit is
-- a fault. bubble_up halves its position and bubble_down doubles it, on as many rounds as the pot
-- has items, and one more for the test that ends the latter. The loops of write_buf,
-- a_vsprintf_find_len and clip_at_colon are on fuel: the first needs one round more than the
-- buffer has bytes, where write makes progress, the second one more than the text has, where
-- vsnprintf refuses sizes that are too small, and for the third no fuel is enough on some strings.
-- No other function has fuel. From 32 bits on hash_reduce has no result, for its shifts are
-- undefined there. The functions of the pot take what a cell that was never written reads as.
--
-- Not modelled: the module of a/error.c for Windows, a_xstrdup and a_die's message in a/mem.c,
-- a_fullpath of a/util.c, a/sock.c, which has code for Windows only, read_file of old/buffers.c, the
-- modules of a/old/error.c and the rest of the superseded code in a/old and old. Of the drafts in
-- a/to_do: the parts of daemon.c under #if 0 and the outline at its end, the opening of the event
-- log in log.c, and the functions of socket.c that open, close or size a file by one call of the
-- system. The string callbacks of a/collect.c call strcmp alone.
pub mod Common
pub mod Trace
pub mod Udp
pub mod Util
pub mod Vec
pub mod World
pub mod Daemon
pub mod Die
pub mod Error
pub mod Log
pub mod Mem
pub mod Clean
pub mod Collect
pub mod Attempts
pub mod Bintree
pub mod Buffers
pub mod Cache
pub mod Socket
pub mod Swap
pub mod Flail
pub mod Format
pub mod Hash
pub mod LinkedList
pub mod Escape
pub mod Hex
pub mod Pot
pub mod Resolve
pub mod SharedQueue
mod Tests
