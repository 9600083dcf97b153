-- ===== src/Lib.antt =====
-- wwos, a small operating system for aarch64: its containers, its scheduler and semaphores, its
-- allocators of pages and of the heap, its translation tables, the file system of its disk, the files
-- that its processes share, their descriptors, and the parser of its shell.
--
-- Parts. The kernel keeps its tasks, semaphores and file descriptors in maps, its ready tasks and
-- its clocks in search trees, and the bytes of its pipes in cyclic queues. The scheduler picks the
-- ready task with the least virtual runtime from a search tree of task pointers; a semaphore takes
-- tasks from the scheduler and gives them back. The file system divides a memory into blocks, with
-- bitmaps of those in use, inodes that list the blocks of a file, and directories that are files. A
-- process names a file by a path; the kernel finds its inode, keeps one shared node for each inode that
-- is open, with its readers, its writers and, for a FIFO, its bytes, and gives the process a
-- descriptor, which is the node, a mode and an offset.
--
-- Files.
--   Prelude (Tests, Lists): Boolean tests, the chaining of fallible steps, lists over the native
--     numbers.
--   Avl: include/wwos/avl.h, the nodes. A tree owns its nodes, so a subtree is a value; a pointer to
--     a node is the list of turns from the root; the loop of `update_height_and_rebalance` that
--     climbs the parent pointers is the way back of `modify` and `take_largest`. `operator<` compares
--     one number of the data, the argument `key`. Shape and Balance describe one round of that loop,
--     Sorted the insertion into sorted lists, Insert, Remove, Search, Find and Height the methods.
--   AvlTree (Clear): the class around the nodes, a root and a count of 64 bits.
--   Map (Strict, Laws): include/wwos/map.h over AvlTree, with keys that are numbers.
--   Queue (Deque, Window, Laws, Ends, Capacity): include/wwos/queue.h. Deque is the queue that the class stands for,
--     a list; Window reads the part of the array that is in use.
--   Scheduler (Ready, Schedule, Tasks, Lookup): kernel/scheduler.cc and kernel/scheduler.h. A task
--     pointer is a number, and the tasks that pointers lead to are a part of the state, since
--     `schedule` and `add_task` write the virtual runtimes that the tree compares.
--   Semaphores (Wait, Signal, Pair, Clocks): kernel/process.cc and kernel/process.h, the semaphores and
--     the clocks, over Map and Scheduler. Pointers are numbers; what they lead to is in the state.
--   Bytes (Words, Copies): buffers of bytes, and the words that casts of pointers read and write in
--     them; memset and memcpy of libwwos/alloc.cc.
--   Disk (Blocks, Inodes, Search, Bitmap, Release): libwwos/wwfs.cc and include/wwos/wwfs.h, the
--     memory, the layout, the inodes and the bitmaps. The memory is one buffer and an inode is its 128 bytes, so
--     that what overlaps in the memory overlaps in the model. Search is one search through the bits.
--   Wwfs (Content, Parts, Reads, Written, Writes, Data, Upto, Overwrite, Full): libwwos/wwfs.cc, the data
--     of files: the map from indices to blocks, the loop of `rw_inode_data_unaligned` for each value
--     of `write`, `resize_inode`, `read_data`, `write_data`. Content says where the bytes of a file stand.
--   Directory (Entries, Children): libwwos/wwfs.cc, `create`, `get_children` and `format`.
--   Vector (Arrays, Laws): include/wwos/vector.h. An iterator is an index.
--   Strings (Laws): include/wwos/string.h over Vector, with the 0 behind the characters; `stoi` of
--     include/wwos/string_view.h and `join_path` of include/wwos/algorithm.h over lists of characters.
--   Format (Decimal, Escape): include/wwos/format.h, without the format of vectors. An argument is an
--     integer, a pointer or a text. The digits of an integer have fuel for the 20 that 64 bits need,
--     and the loop of `printf` as much as the format is long, since a round takes a character at least.
--   Shell (Tokens, Statement): applications/shell/main.cc, `tokenize` and `statement_parser`. The
--     position of the parser, which only moves forward, is the list of the tokens that are left.
--   Pages (Ranges, Place, Merge, Free, Alloc): kernel/memory.cc and kernel/memory.h, the allocator of
--     physical pages, with the capacity of the vector that its list is. The index `i` that the search
--     loops compute is the split of the free list at `i`. Ranges says which bytes a list of ranges makes
--     free.
--   Paths (Names, Walk, Parent): kernel/filesystem.cc, `get_inode` and `get_parent_path`. The index into a path,
--     which only moves forward, is the list of the characters that are left.
--   Nodes (Pipes, Fifo, Disk, Opening, Opening/Sharing, Children): kernel/filesystem.cc and kernel/filesystem.h, over Map,
--     Queue, Wwfs, Directory and Paths. Pipes and Fifo are about the bytes of a FIFO, Disk about a
--     file, Opening has the calls that open, close and create, with Sharing about them, and Children is
--     about the names that are listed.
--   Descriptors (Open, Stream, Returns): kernel/process.cc and kernel/process.h, the calls of a process
--     on its descriptors, and their dispatch in kernel/syscall.cc. KA_BEGIN is the argument `ka_begin`.
--   Client (Names, Listing): libwwos/syscall.cc, the listing of a directory by a process; the system
--     call is an argument, which Listing takes from Descriptors.
--   Heap (Chain, Cut, Room, Back): libwwos/alloc.cc and include/wwos/alloc.h. The memory is given by its
--     words at the multiples of 8; Chain reads the list of free chunks from it.
--   Tables (Walk, Mapped): kernel/aarch64/memory.cc and kernel/aarch64/memory.h. The recursion over the
--     levels is on the number of levels below; Walk has the walk of the machine.
--   Sample below a part: data on which several tests are run.
--   Tests below a part: the same operations at concrete inputs.
--
-- Errors. A failed `wwassert` stops the program, as does the use of a null pointer: both are `none`.
-- Numbers. The types `size_t` and `uint64_t` wrap around at 2 ^ 64, written out at each sum and
-- difference; the capacity of a queue is at most 2 ^ 63 so that no sum of indices wraps. In the file
-- system this is so for the offsets and sizes of a caller, for -1 and for the number of a block; the
-- other numbers of blocks and addresses are bounded by the memory, and their sums are not reduced.
-- Heights, `int` in the code, are natural numbers, the null pointer's -1 being the zero of `above`.
-- Loops. Searches and climbs recurse on the tree. The stack of `items` and the loop of `clear` run on
-- fuel, the number of nodes plus one: each round takes one node away.
--
-- The searches in a bitmap and the loops over blocks run on the number of rounds that is left; the loop
-- of `get_children` on the size of the directory, since each round passes sixteen bytes at least.
--
-- The loops over the free chunks run on fuel that exceeds the number of chunks they pass; `get_inode` on
-- the length of the path, since each round takes a character at least; the loop that asks again for a
-- directory on the 999 rounds that its assertion allows.
--
-- Vectors. Outside of Vector and Strings a vector is a list: its capacity, and the move of its array
-- when it grows, are not modelled there.
--
-- Not modelled: the processor, the devices and the boot code, which read and write registers; the
-- log; memory exhaustion; `fork`, `exec` and the end of a process, which copy address spaces and load
-- programs; and of the applications all but the parser.
pub mod Prelude
pub mod Bytes
pub mod Vector
pub mod Strings
pub mod Format
pub mod Avl
pub mod AvlTree
pub mod Map
pub mod Queue
pub mod Heap
pub mod Scheduler
pub mod Semaphores
pub mod Pages
pub mod Tables
pub mod Disk
pub mod Wwfs
pub mod Directory
pub mod Paths
pub mod Nodes
pub mod Descriptors
pub mod Client
pub mod Shell
