-- ===== src/Lib.antt =====
-- EducRTOS (educrtos/), a small real-time kernel for one x86 processor: tasks yield until a date, a
-- timer interrupt wakes them up, and a scheduler picks the ready task of the highest priority.
--
-- The configuration is that of educrtos/config.h and of the makefile: DYNAMIC_DESCRIPTORS,
-- DYNAMIC_TASK_CREATION, UNPRIVILEGED_IDLE, SCHED_PRIORITY_QUEUE_USE_LIST, DEBUG_PRINTING, NUM_CPUS 1,
-- no INJECT_BUG, and any of the three schedulers. The state is `Kernel` (Kernel.antt): one field for
-- each static variable of the C files, the memory of the contexts, and what has been loaded into the
-- processor. A function that does not return ends by resuming a context; its result is the kernel
-- after that. `Run` (Base/Ending.antt) is how code ends: with a value, in `fatal` or a failed
-- `assert` (`halt`), or in undefined behaviour (`fault`).
--
-- Base: lists, tests and `Run`; Bits: the bit operations of C on unsigned words.
-- Terminal: educrtos/terminal.c. The video memory is a function on cell indices; an access to a
-- cell out of the 80 by 25 screen is a fault.
-- Segment: the descriptors and selectors of educrtos/segment.h and educrtos/low_level.c.
-- Store: `struct context` and its parts, and the memory of the contexts by address.
-- Queue: the list that INSTANTIATE_HEAP of educrtos/heap.c makes; Queue/Chain says which contexts a
-- queue holds, Queue/Sorted is insertion into a list of these.
-- ArrayHeap: the binary heap in an array that the same macro makes under SCHED_PRIORITY_QUEUE_USE_HEAP;
-- ArrayHeap/Order is the order of its cells, ArrayHeap/Bag counts what an array holds.
-- PriorityQueue: what educrtos/heap.c promises, which PriorityQueue/Linked and PriorityQueue/InArray
-- fill, and a client of it, the unit test of that file (PriorityQueue/Drain).
-- Format: educrtos/lib/fprint.c and educrtos/error.c; a text is what is passed to putchar.
-- Image: educrtos/system_desc.c and `user_tasks_image` of educrtos/user_tasks.h.
-- PriorityScheduler and RoundRobin: the two files that implement educrtos/scheduler.h, both of type
-- `Scheduler` (Kernel.antt); Contract states what the kernel needs of either.
-- LowLevel, Interrupts: educrtos/low_level.c (Vectors: the exceptions; Vocabulary: the same as the
-- manual of the processor lists them; Filled: the table of interrupts). HighLevel:
-- educrtos/high_level.c, over any scheduler.
-- Timer: educrtos/pit_timer.c. UserTasks: the system call stubs of educrtos/user_tasks.h.
-- Handlers: what an entry into the kernel does, over any scheduler that keeps the contract: Entry (the
-- interrupt prologue and the switch), Calls, Tick, Boot, Duplicate (dup_thread), Disarmed (the timer
-- behind a tick), Punctual and OnTime (who runs behind a tick), Yielded and Rearmed (who runs and
-- who waits behind yield, and behind the tick after it), Exceptions. PriorityScheduler/Sound and
-- RoundRobin/Sound fill the contract; what `boot` needs beside it is in PriorityScheduler/Started and
-- in RoundRobin/Sound. RoundRobin/Links, RoundRobin/Turns, RoundRobin/Started and RoundRobin/Booted
-- follow the ring from its start.
-- System: the events of a running system as a step relation; System/Start goes from `_start` of
-- educrtos/low_level.c through low_level_init and `boot` to any later event.
-- Task: the system calls of the example program educrtos/task.c, of the loop in it the first rounds, as
-- many as one likes; Task/Periodic follows its dates into the kernel.
-- Libc: memcpy, memset and the stubs of libase/libc.c, on a memory of bytes; `rand_char`, `rand_int` and
-- the size of a termios are parameters.
-- IntBuiltins: libase/utils/int_builtins_c.c with GCC on 64 bits, over the count of leading zeroes of
-- the compiler.
-- Tests: examples at small kernels.
--
-- Machine integers keep their width: `% 2 ^ 32` and `% 2 ^ 64` are written out where the code adds. The
-- counter of timer interrupts wraps too, where C leaves the overflow of an int undefined; in Format and
-- Libc such an overflow is a fault.
-- Loops over an array take the number of rounds that C counts; the loop over a queue takes its size
-- plus one, and the loop that wakes contexts one round for each waiting context plus one: each round
-- leaves one context of the queue behind, and the last finds none. The loops of the array heap take its
-- size and one: an element climbs or sinks by at least one cell in each round.
--
-- Not modelled: the priority scheduler over the array heap, the multiboot header, exceptions that push
-- an error code, the configurations that config.h does not select, and the analyser in binsec/ and
-- libase/, which is OCaml, but for Libc and IntBuiltins. Contexts do not overlap with one another, and
-- memory accesses of the tasks themselves are not described.
pub mod ArrayHeap
pub mod Base
pub mod Bits
pub mod Contract
pub mod Format
pub mod Handlers
pub mod HighLevel
pub mod Image
pub mod IntBuiltins
pub mod Interrupts
pub mod Kernel
pub mod Libc
pub mod LowLevel
pub mod PriorityQueue
pub mod PriorityScheduler
pub mod Queue
pub mod RoundRobin
pub mod Segment
pub mod Store
pub mod System
pub mod Task
pub mod Terminal
pub mod Tests
pub mod Timer
pub mod UserTasks
