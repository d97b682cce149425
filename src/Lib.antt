-- ===== src/Lib.antt =====
-- Pintos (Stanford CS140) as this repository extends it: models of parts of the kernel and their laws.
--
-- The repository holds four copies of the Pintos kernel, one for each project, a shell (Project1) and an
-- HTTP server (Project6). The kernel of "Project 4: File System" is the last and the largest, and most of
-- the modules below model it; its scheduler, donation and timer stand in "Project 1: Threads". Paths are
-- from the project's directory, which is Project 4 where no other is named.
--
-- Base        what the components share: Boolean tests on numbers, lists under native indices, and runs
--             that may stop. A result `none` is a failed ASSERT, a PANIC, or an access outside an array,
--             so that a result `some` says that none of these happens.
-- Bits        sums of powers of two, digit by digit: the machine words of a bitmap.
-- Bitmap      src/lib/kernel/bitmap.c over words of 32 bits. `change_elem` is the lock-prefixed
--             instruction of bitmap_mark, bitmap_reset and bitmap_flip. Bitmap/Words has the laws of one
--             bit, Bitmap/Ranges of ranges, Bitmap/Scan of the searches.
-- FreeMap     src/filesys/free-map.c on top of Bitmap. A write to the map file is whole or short, which
--             is an argument. FreeMap/Laws has the laws of allocation, FreeMap/Release of
--             release and initialisation.
-- Cache       src/filesys/cached_block.c on top of the transfers of src/devices/block.c. A state holds
--             the disk, the entries and the map from sectors to entries; which entries and sectors other
--             threads have locked is an argument. Cache/Inv has the invariant and the disk that a cache
--             stands for; Cache/Link, Single, Evict, Read, Write, Wraps and Flush have what each operation
--             does to them. Eviction makes two rounds over the entries, as the code does, and needs no fuel.
-- RwLock      src/threads/gio_synch.c: read-write locks. Each call runs with interrupts off up to the
--             next thread_block, so it is one step, and a thread that sleeps goes on in another step.
--             RwLock/System has the threads and all interleavings of their calls, RwLock/Effect and
--             Calls what a call does, RwLock/Exclusion the invariant, RwLock/Wakeup who is woken.
-- Memory      the mem functions of src/lib/string.c, over a memory that is a function from addresses to
--             bytes. Memory/Copy has what copies leave, Memory/Atomic the copy in words, Memory/Compare
--             comparison and search. The loops run on the size, which is enough for the copy in words.
-- CString     the str functions of src/lib/string.c. Their first argument is fuel, the number of bytes
--             that a loop may visit: the length of the strings and one more is enough. The children have
--             the laws of the functions they are named for.
-- LinkedList  src/lib/kernel/list.c, over the two pointers of each element. LinkedList/Ordered has the
--             operations that take an order. LinkedList/Chain says which elements a list holds,
--             LinkedList/Insert and Remove what pushing and popping do to them. Loops take fuel; the
--             number of elements and one more is enough for list_size.
-- Hash        src/lib/kernel/hash.c: an element is its address and a bucket the sequence of its elements;
--             the hash and the comparison are arguments, and so is whether malloc has memory. Hash/Seek
--             says what a table holds and what a search finds, Hash/Counts and Resize what rehash does,
--             Hash/Add, Remove, Empty and Calls the same for each call; Hash/Runs has sequences of calls
--             next to a map, Hash/Iterator the iterators. The loop of rehash takes the number of buckets
--             as fuel, the loop of hash_next the number of buckets, which is enough. hash_int is left out.
-- Intq        src/devices/intq.c: queues of bytes. A call that sleeps is cut into attempts and waits, so that
--             no loop is left. Intq/Fifo has the bytes of a queue in order, Intq/Wait two readers.
-- Inode       src/filesys/inode.c over Cache, FreeMap and RwLock: the index of sectors in three levels,
--             read and written through the cache. Inode/Index has what lookup finds, Inode/Range the
--             creation, reading, writing and freeing of sectors, Inode/Open the inodes in memory with their
--             counts and locks, Inode/Open/Laws the laws of these. The loops that read and write take the
--             size as fuel; a round moves at least one byte.
-- FixedPoint  Project 1, src/threads/fixedpoint.c: numbers in steps of 1 / 16384, as two's complement of 32
--             bits. A result `none` is a division that traps. FixedPoint/Laws has conversions and sums.
-- Thread      Project 1, src/threads/thread.c. A state is the array of queues, the threads, the locks and
--             the variables of the file; the context switch is a change of the current thread. It is sound
--             if each ready thread but the idle one is once in the queue of its priority, no queue holds
--             another thread, ready threads have valid structures, and those have priorities from 0 to 63.
--             Thread/Mlfqs has the values of the multi-level feedback queue, Thread/Donate the donation of
--             priorities, Thread/Life the start of a thread. Thread/Queues and Sound have the invariant,
--             Next, Schedule and Calls the choice of the next thread, Formula, Recompute and Load the laws
--             of Mlfqs; Donate/Greatest, Chain and Ends those of donation. Donation recurses on fuel: the
--             number of threads on the chain of locks and holders is enough.
-- Synch       Project 1, src/threads/synch.c: semaphores, locks and condition variables. A function that may
--             sleep is cut where it switches threads (lock_acquire is lock_acquire_begin, passes of
--             lock_acquire_down and lock_acquire_end). Synch/Wake has whom sema_up wakes, Synch/Locks and
--             Release the giving back of locks. cond_broadcast takes fuel: the number of waiters is enough.
-- Timer       Project 1, src/devices/timer.c: sleeping threads and the timer interrupt. Timer/Sorted and Cut
--             have the list of sleepers, Timer/Wake who wakes, Timer/Calm the other steps of the interrupt,
--             Timer/Interrupt the whole of it. The loop runs over the list.
-- Tests       runs at small inputs.
--
-- How they interact: the timer interrupt counts ticks, recomputes priorities in fixed-point numbers and
-- makes sleepers ready; locks donate priorities through the scheduler's queues and wake threads through
-- semaphores. The free map marks sectors in a bitmap; the cache moves sectors between memory and the
-- block device, copies with atomic_gio_memcpy and is used by the inodes; each inode has a read-write lock;
-- the lock's waiters and the inodes are linked lists. The lock keeps its waiters as a sequence, and the
-- cache copies slices of blocks, so those two state what Memory and LinkedList say of the pointers.
--
-- Not modelled: addresses wrap in the code at 2 ^ 32, and blocks here do not run past the end. Memory that
-- malloc refuses is an argument where the code tests for it. A call of inode.c that goes to sleep in the
-- read-write lock ends there. Interrupts are off where the code turns them off, and the assertions about
-- them are left out but in Intq; names, stacks and page directories of threads too. A page for a thread is an argument.
-- Directories and open files, user processes, devices but for the two transfers, the sleeping of the
-- timer and the queues of bytes, the shell and the server are not modelled.
pub mod Base
mod Bits
pub mod Bitmap
pub mod FixedPoint
pub mod FreeMap
pub mod Cache
pub mod RwLock
pub mod Memory
pub mod CString
pub mod LinkedList
pub mod Intq
pub mod Inode
pub mod Hash
pub mod Thread
pub mod Synch
pub mod Timer
mod Tests
