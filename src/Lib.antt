-- ===== src/Lib.antt =====
-- Nachos 3.4: the kernel and the simulated MIPS machine under code/, as definitions that can be run,
-- and theorems about them.
--
-- Parts and files. Each child module of a component holds proofs about it, or a part of it.
--   BitMap         code/userprog/bitmap.cc: `mark` is BitMap::Mark, and so on; `used` in BitMap/Bits is
--                  the abstract view, one bit per number. The free map of the disk is one.
--   FileHeader     code/filesys/filehdr.cc: the table of a file's sectors, taken from the free map by
--                  `allocate` and given back by `deallocate`.
--   Directory      code/filesys/directory.cc: the table of names. Directory/Names has the C library's
--                  strncmp and strncpy; Directory/Table the abstract view, a partial map from names.
--   Machine        the simulated processor: State (code/machine/machine.h and machine.cc, and the
--                  kernel's handler in code/userprog/exception.cc), Translate and Memory
--                  (code/machine/translate.cc), Words, Mult, Decode, Execute and Cycle
--                  (code/machine/mipssim.cc and mipssim.h), Boot (the constructor, and InitRegisters of
--                  code/userprog/addrspace.cc). Execute has one function for each case of
--                  the switch in Machine::OneInstruction, by kind of instruction; Cycle puts them
--                  together as `one_instruction`. Execute/Bounded and Cycle/Ready follow an
--                  instruction through every case.
--   Threads        State and Ids (code/threads/thread.h, thread.cc, system.h), Scheduler
--                  (code/threads/scheduler.cc, Fork, Yield, Sleep, Finish of thread.cc, and the
--                  PC in SWITCH of switch.s; Safety and Calls are about these), and
--                  Semaphore (code/threads/synch.cc), whose `Step` lets any number of threads use one
--                  semaphore in any order.
--   Interrupt      code/machine/interrupt.cc: the pending interrupts, sorted by time, and the clock. What
--                  the handlers do is a parameter, and Interrupt/Clock says what they may do; Tick and Idle
--                  are about OneTick and Idle.
--   AddrSpace      code/userprog/addrspace.cc: a program in a file of code/bin/noff.h, loaded into the
--                  memory of the machine; Identity is about its page table.
--   LinkedList     code/threads/list.cc: the list with its pointers, over a store of elements by address.
--                  Chain says which sequence a list stands for; Insert, Links, Queue, Remove and Sorted
--                  are about the operations, Refine about all of them against an abstract list.
--   SynchDisk      code/filesys/synchdisk.cc: the disk as one thread sees it.
--   OpenFile       code/filesys/openfile.cc: bytes of a file on sectors of the disk. Bytes has one request
--                  to the disk, Read, Sectors and Write are about ReadAt and WriteAt.
--   FileSystem     code/filesys/filesys.cc: files by name. Layout and Transfer are how maps, headers and
--                  directories go to the disk (FetchFrom and WriteBack of bitmap.cc, filehdr.cc and
--                  directory.cc); Mounted says what the disk holds, Whole and Back are about writing the
--                  map and the directory, Outcomes, Taken, Save and Create about FileSystem::Create, Freed
--                  and Remove about Remove, and Open about Open.
--   Elevator       code/machine/elevator.cc: the bank of elevators. Safety is about the interrupt, Calls
--                  about those of one elevator, Bank about those of the bank, Reach about all that
--                  they lead to.
--   Disk           code/machine/disk.cc: the latency of a request, and requests as reads and writes of
--                  sectors.
--   Shared         lists that are measured by native numbers, Boolean tests, bits, and `Result`.
--   Tests          runs at concrete inputs.
--
-- How the state is modelled. A C++ object is a record, and an operation a function that returns the
-- new one. `Result` says how an operation can end: `ok`, or `stop` with the reason. An assertion
-- that fails, the Halt call, a read or write outside an array and a sum or division that C++ leaves
-- undefined are all reasons. Pointers to threads are numbers. A 32-bit integer is its bit pattern,
-- a number below 2 ^ 32, with the wrap-around written out; the signed operations have names of
-- their own. Sizes and indices of the file system are natural numbers: negative arguments, which
-- the code never passes there, are left out; ReadAt and WriteAt stop where an int does not hold the
-- end of a request, and Schedule where it does not hold the time of an interrupt. The clock itself,
-- and the counters of ticks, are natural numbers: a run is taken to end before totalTicks
-- overflows. The memory of the machine is a list of bytes, on a little-endian host. What `new`
-- leaves in fresh memory is an argument of the constructors.
--
-- Loops. Each loop has its rounds left, or the list it walks, as its structural argument, so that none
-- can run out of it: for (i = 0; i < n; i++) starts with n rounds at index 0, and the loop of Mult with
-- its 32. Only the loop of OneTick and Idle over the interrupts that are due is on fuel, `none` where it
-- runs out: each round takes one interrupt that is due off the list, and a handler that schedules
-- with a positive delay adds none, so that more fuel than interrupts that are due is enough. The endless
-- loops of Semaphore::P and Thread::Sleep are cut into rounds, which the step relation of
-- Threads/Semaphore runs as often as they happen: interrupts are off there, and a thread loses the
-- processor only in Sleep.
--
-- The loops along a linked list have rounds as an argument, and stop with `no_rounds` where these run
-- out: one round for each element is enough.
--
-- Not modelled: debugging output and printing; stacks, and saved registers but for the PC that
-- SWITCH saves and goes to; threads that compete for the disk or a file; the other devices, and the
-- network; locks and condition variables, which are empty in the source.
pub mod Shared
pub mod AddrSpace
pub mod BitMap
pub mod FileHeader
pub mod Directory
pub mod Disk
pub mod Elevator
pub mod FileSystem
pub mod Interrupt
pub mod LinkedList
pub mod Machine
pub mod OpenFile
pub mod SynchDisk
pub mod Threads
pub mod Tests
