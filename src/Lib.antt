-- ===== src/Lib.antt =====
-- A model of the library procshared_mem: memory that several processes map at different
-- addresses, with pointers, an allocator, smart pointers, a list and message channels that work
-- in it, and the set-up of the memory by the processes that share it.
--
-- The parts and their files (paths from the repository's root):
--   libipsm_mem/inc/offset_ptr.hpp                OffsetPtr (Atomic, Null, Void)
--     Addresses and offsets are 64-bit words with their wrap-around (add_word, sub_word of
--     Base/Word). A memory of pointer objects is a function from addresses to offsets, and
--     each member function is a function on it that takes the address of `this`. OffsetPtr/Relocate
--     describes a region without addresses, by the places of objects and targets in it, and
--     OffsetPtr/Moved runs programs on it wherever it is mapped. Void is the specialisation for
--     void, and Null the comparisons with nullptr.
--   libipsm_mem/src/offset_mallloc_impl.{hpp,cpp}  Malloc
--     The K&R allocator. The headers are two functions on addresses, `next` and `size`; the
--     next pointers are offset pointers of OffsetPtr. allocate and deallocate are the loops of
--     the source on fuel, with the branches as functions of their own (carve, take_whole,
--     release). The theorems ask for fuel of at least the length of the ring, which is the
--     number of turns a loop can take. Outcomes name the exceptions, and `fault` stands for a
--     null pointer that is followed. The memory as a whole, with the blocks that are handed out,
--     is in Malloc/Heap, and runs of requests and releases in Malloc/HeapRun; a call of a run
--     ends the same way for every fuel beyond what it needs.
--   libipsm_mem/src/offset_mallloc.cpp             OffsetMalloc
--     The handles that share an allocator, and its bind count.
--   libipsm_mem/inc/offset_malloc.hpp              Typed
--     Objects and arrays in memory of offset_malloc: the blocks that are handed out, the word in
--     front of an array, and the objects that are alive, by address.
--   libipsm_mem/inc/offset_unique_ptr.hpp          UniquePtr
--     Objects with a target, and a log of the calls of a deleter. UniquePtr/Factory has the
--     objects whose deleter gives back what Typed has made.
--   libipsm_mem/inc/offset_shared_ptr.hpp,
--   libipsm_mem/src/offset_shared_ptr.cpp          SharedPtr (Shared, Weak, Objects)
--     Control blocks by address, handles by index, and one function for each member
--     function of the two classes. An operation holds the mutex of its control block, so it is
--     one step, and a run of steps is an interleaving of the processes. A copy assignment locks
--     two control blocks, one after the other; SharedPtr/Assign has it in its three parts, each
--     of which is a step. SharedPtr/Resource and
--     Disposal follow one resource through a run, SharedPtr/Convert has the overloads for objects
--     of another type, and SharedPtr/Factory makes objects in memory of Typed.
--   libipsm_mem/inc/offset_list.hpp                OffsetList
--     Nodes by address. The loops take fuel, one more than the nodes they visit. Copies, moves
--     and swaps of whole lists are in OffsetList/Whole; the addresses of new nodes are given
--     as a list, in the order in which the allocator answers them.
--   libipsm_mem/inc/ipsm_time_util.hpp,
--   libipsm_mem/src/ipsm_time_util.cpp             TimeUtil
--     Time points as integers of seconds and nanoseconds (Base/Int).
--   libipsm_mem/src/ipsm_mem.cpp                   ShmMem, ShmMem/Locks
--     The guards of a mapping and of a lock file, over the descriptors and mappings that the
--     process holds; each system call's answer is a parameter. ShmMem/Setup is the constructor
--     of ipsm_mem::impl with its loop, for one process: each turn of the loop takes a record of
--     answers, and a list of turns that is too short has no result. ShmMem/Processes is the same
--     constructor and destructor as steps of any number of processes, in any order, with the
--     locks that flock gives; a process can die at any point.
--   libipsm_mem/inc/offset_string.hpp              OffsetString
--     Strings over one memory of characters, with the outer buffers that the allocator has handed
--     out. The loops that count characters take fuel, and have no result without it.
--   libipsm_mem/inc/ipsm_malloc.hpp,
--   libipsm_mem/src/ipsm_malloc.cpp                IpsmMalloc, Channels
--     IpsmMalloc is an object with its three parts, the memory (ShmMem/Setup), a handle on the
--     allocator in it (OffsetMalloc) and the address of the channels; what `setup` comes to is an
--     argument of its constructor. Channels is what it does on the channels:
--     The message channels, as lists of OffsetList in one memory of nodes. A call holds the mutex
--     from its first read to its last write, and a send notifies with it; a receive that waits
--     takes, for each time that it sleeps, the calls that the others make, and sleeps on unless
--     one of them notifies or it wakes up for no reason.
--   libipsm_mem/src/ipsm_mutex.cpp,
--   libipsm_mem/src/ipsm_condition_variable.cpp,
--   libipsm_mem/inc/ipsm_condition_variable.hpp    Sync
--     The functions of a pthread mutex are a parameter, and what POSIX says of a robust mutex is
--     the hypothesis IsRobust. The loops of the condition variable take the codes that pthread
--     answers, one for each call.
--
-- Base holds what the parts share: tests, lists, words, integers, and the counting of objects
-- in a memory (Base/Tally). A part's definitions are in the file of its name and its laws in
-- the files below it; the theorems are applied to small memories in its Tests.
--
-- How they interact: the allocator's blocks are linked by offset pointers; a handle of
-- OffsetMalloc calls the allocator at its address; a control block of SharedPtr owns its
-- resource as a unique pointer does; a channel is a list, used under the mutex. What the standard library or the operating system answers
-- is a parameter: the address of a new control block or node, whether a constructor throws, the
-- clock.
--
-- Not modelled: the allocate_instance functions of offset_memory_util and the allocator
-- adaptors, which hand calls on to the allocator and the standard library; a constructor of a
-- list's value that throws; the three-way comparisons of C++20; the
-- assignments of a shared pointer of another type and the compare-and-exchange of the atomic
-- pointer, which do not compile; logging, samples and tests.
mod Base
pub mod OffsetPtr
pub mod Malloc
pub mod UniquePtr
pub mod Channels
pub mod IpsmMalloc
pub mod Sync
pub mod Typed
pub mod OffsetString
pub mod SharedPtr
pub mod OffsetList
pub mod TimeUtil
pub mod ShmMem
pub mod OffsetMalloc
