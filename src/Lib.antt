-- ===== src/Lib.antt =====
-- Verification of jemsys: the message-passing core of the C++ library.
--
-- Parts of the program and how they interact
--   src/support/atomicutils.hpp has the waiting primitives. A mailbox counts its free slots with a
--   semaphore_t, and its messages with a semaphore_t or, where one thread receives, an mpsc_counter_t.
--   src/agate has the mailboxes of the agent library: a private one (one thread), four local ones (one or
--   several senders and receivers) and stubs of shared ones. A sender acquires a slot, fills it and sends it;
--   a receiver receives the oldest message and keeps it until it condemns it; the slot then goes back.
--   src/quartz has the mailbox of the process: clients send requests (qtz_send) and wait for them (qtz_wait),
--   and one thread takes, dispatches and answers them. Three flags of a request decide which thread returns
--   its slot. A priority queue of requests is there too; the mailbox does not use it yet. What the process logs
--   goes through one of two buffered logs, each with a thread that prints.
--   src/support also has the table of objects: an object that is registered gets a cell of a page and a global
--   id, by which lookups find it; pages with free cells form a ring. src/ipc has pointers that hold the distance
--   to what they point to, so that they can stand in memory that processes map at different addresses.
--   src/agate2 is the next agent library: a sender attaches to the data of an async, the receiver answers it,
--   and the waiting side counts the answers; blocks for messages come from object pools; the senders of a
--   channel with several senders link their messages to one chain, a private channel keeps its messages until
--   they are released and condemned, and a context has pages of cells for its objects.
--
-- Files and the code they model
--   Base              Boolean tests on numbers, lists, and slots linked by index (Base/Store): stacks, queues,
--                     writes at one index.
--   Support/Wake      what a thread sees while it waits: releases by others, wake-ups, its deadline.
--   Support/Semaphore, Support/Counter, Support/Flags
--                     semaphore_t, mpsc_counter_t and atomic_flags of src/support/atomicutils.hpp; their laws
--                     in Laws.
--   Agate/Message     include/agate.h, src/agate/common.hpp, src/agate/impl_macros.hpp: slots and flags.
--   Agate/Private     src/agate/private_mailbox.cpp, make_private_mailbox of src/agate/agate.cpp; Rep has the
--                     representation, Receive and Fifo the theorems on it, Defects where the code departs.
--   Agate/Local       the macros of the local mailboxes; Mpsc, Spsc, Spmc, Mpmc the four files
--                     src/agate/*_mailbox.cpp; Chains and Stacks what their slots form; Race the atomic steps
--                     of local_mpsc_send.
--   Quartz/Request    src/quartz/internal.hpp, qtz_request; Lifecycle the interleavings of its two owners.
--   Quartz/Mailbox    src/quartz/internal.hpp, qtz_mailbox: slots and queue; Rep and Take its theorems.
--   Quartz/Mailbox/Process
--                     src/quartz/mailbox.cpp: the handlers, the dispatch, the rounds of the thread, qtz_send,
--                     qtz_wait; Laws and Client its theorems.
--   Quartz/RequestQueue
--                     src/quartz/internal.hpp, request_priority_queue: its array as a window (Window), insert
--                     (Insert), build_heap (Heapify), what it holds (Contents, Extract), the least
--                     entry (Order).
--   Quartz/Log        src/quartz/internal.hpp, async_buffered_output_log (Buffered) and big_buffered_log (Big).
--                     Of Buffered, Contents, Rep and Writes have the buffers and what they hold, Thread the
--                     calls and the rounds of the thread, Fifo, Start and Close the theorems; of Big, Mapped has
--                     its memory, Prints and Wraps the theorems.
--   Base/Bits         the laws of bit_and and bit_or that the code's masks rest on.
--   Support/ObjectId  src/support/object_manager.hpp: the fields of a global id, epochs; Laws its theorems.
--   Support/ObjectManager
--                     src/support/object_manager.hpp and .cpp: the cells, the pages and their list; Calls has
--                     take_cell to release. Ring and FreeList have the list of pages, Cells, Returned and Freed
--                     the cells of a page, Lookup the ids, Defects where the code departs.
--   Ipc/OffsetPtr     src/ipc/offset_ptr.hpp, offset_ptr<T>; Laws its theorems.
--   Agate2/Atomic     src/agate2/atomic.hpp and .cpp: the counters that the async data are made of.
--   Agate2/Async      src/agate2/async.cpp: the data; Handle has AgtAsync_st and the calls on it, Counts, Waits
--                     and Resets the theorems on answers, on waiting and on resetting.
--   Agate2/Pool       src/agate2/pool.hpp, Pool: its slabs and the chain of its blocks. Blocks has the
--                     blocks of a slab, Exhausted, Reuse and Bounds the theorems.
--   Agate2/Channel    src/agate2/channels.cpp, LocalMpMcChannel::send by its steps on shared memory;
--                     Chain and Sends the chain that the steps leave, Early what a receiver may see. Private
--                     is PrivateChannel with the messages of src/agate2/message.hpp, Lifecycle how they end.
--   Agate2/Context    src/agate2/context.cpp: ObjectId has the class Id, Page the cells, PageList the list of
--                     pages.
--   Tests             the models at concrete inputs.
--
-- How the state corresponds
--   A pointer to a slot is the slot's index; a member of all slots is a function from indices. A word of flags
--   is a record of its bits, except where the code computes with it: ids and offsets are numbers, as the code
--   has them. Pages of the table of objects are numbered from 1, so that 0 is both the null pointer and the
--   list's head; an address is a number, and 0 is nullptr. What committed memory reads as is a parameter.
--   Asserts are off, as in a release build. A cursor of a log is an offset in its buffer, and an offset in memory
--   that is mapped twice is cut to the one mapping when it is read or written.
--   Numbers are natural numbers; the counters of mpsc_counter_t, of the table of objects and of agate2 wrap at
--   2^32 or 2^64, as written there, and the theorems name the bound under which they do not. Elsewhere
--   subtractions stop at 0; the code subtracts where the number is not 0, but for the sizes of an array of fewer
--   than two slots.
--   A call of a mailbox is a function from the state to a status, a result and the state. It runs alone: a
--   compare-exchange then succeeds, and a call that would wait for another thread ends as blocked or waiting.
--   Interleavings are modelled where the code depends on them: Request/Lifecycle, Local/Race, Agate2/Channel.
--   Memory orders weaker than sequential consistency are not modelled.
--
-- Bounds and fuel
--   The loops of the priority queue run on fuel: an index is halved or doubled each round, so that the size of
--   the queue, or one more than the index that bounds the loop, suffices.
--   A wait runs along the list of the events that the thread sees, and is blocked where the list ends.
--   A compare-exchange loop runs along the list of the values that its attempts find; two attempts are enough
--   where nobody else writes.
--   The thread of a buffered log that is closed empties the queue in as many rounds as there are buffers; a number
--   is retried in a new buffer at most once for each buffer of the pool.
--
-- Not modelled
--   What lies outside a mailbox: the allocators of src/quartz answer through the record Allocators, and the
--   effects of the handlers are recorded in their order. Process start-up and the calls of the
--   operating system; agents, deputies and handles; of src/agate2, the channels but for those named above,
--   messages, agents, and of contexts what is not named above; of src/ipc, the segments and mailboxes;
--   src/opal, src/silica; the containers in src/support adapted from LLVM.
pub mod Base
pub mod Ipc
pub mod Support
pub mod Agate
pub mod Agate2
pub mod Quartz
pub mod Tests
