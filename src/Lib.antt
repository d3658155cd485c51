-- ===== src/Lib.antt =====
-- The kernel of NJU-OS-Lab, the library functions below it, and two programs beside it: a key-value store and a game.
-- The kernel runs on an abstract machine. Its modules call each other through tables of
-- functions: `pmm` gives out memory, `kmt` has tasks, spin locks and semaphores, `os` dispatches
-- interrupts, `dev` has the devices, and `vfs` is the file system that tasks see, in front of file systems that
-- each have a table of operations. All of them use the string functions of klib.
-- Files and what they model, with paths from the repository's root:
--   Prelude        numbers, lists and the halting monad that the other files share.
--   Pmm            src/kernel/src/pmm.c, `init`, `alloc` and `free` in the default build. The free list is
--                  a list of extents, the blocks in use are a second list that stands for the headers in
--                  memory. Addresses and sizes are 32 bits wide. A request that wraps around
--                  with its header is left out: there the new header overlaps the old one. Layout has the invariant,
--                  Alloc, Release, RoundTrip and Content have the theorems.
--   Klib           src/abstract-machine/libs/klib/src/string.c. Strings that are only read are lists of
--                  bytes without the NUL; functions that write act on a memory, a function from addresses
--                  to bytes. `strcpy`, `strcat` and `strlen` of memory run on fuel, and one more than the length of the longest string is enough.
--                  Format has src/abstract-machine/libs/klib/src/stdio.c: the arguments of a format are a list, and a `double` is the
--                  scaled integer that the code makes of it. 20 rounds are enough for the digits of 64 bits.
--   Path           src/kernel/src/path.c, on lists of bytes.
--   Vfs            src/kernel/src/vfs/vfs.c, with the types of src/kernel/include/common.h. A call is a
--                  run in a state monad that may halt: an assertion of the source, also one inside a file system, a use of
--                  `NULL`, and taking a lock that one holds, are halting. Around a call into a file system the lock is free, and a function `others` stands
--                  for what the other tasks do to the shared state there.
--   Blkfs          src/kernel/src/vfs/blkfs.c, on the bytes of a device, which is a ramdisk
--                  (src/kernel/src/devices/ramdisk/ramdisk.c). Blocks has the blocks, Inodes the table of inodes, Dirs
--                  the directories and the walk along a path, Files the operations on an open file, Calls the
--                  functions of the table `fsops`. Words are read and written byte by byte. Every buffer is a function
--                  from indices to bytes. A failed assertion, and a use of `NULL`, is halting.
--                  A call holds the lock `info->lock` from end to end and is one step; the operations on an open
--                  file are one step each. Calls of pmm are left out.
--   Kmt            src/kernel/src/kmt.c. Cli has the nesting of `pushcli`; Spin has a spin lock that any number
--                  of processors use, one access at a time in any order; Tasks has the list of tasks and the
--                  scheduler, whose loop runs on as many rounds as there are tasks. Semaphores
--                  has the value of a semaphore, one critical section of `sem_wait` or `sem_signal` at a time.
--   Os             src/kernel/src/os.c: the table of interrupt handlers and `trap`. A handler is a function on
--                  a state that stands for what it changes. Order has `on_irq`, Trap has `trap`.
--   Input          src/kernel/src/devices/input/input.c: the ring of 128 events between the keyboard and its
--                  reader, with the value of the semaphore that counts them, and the state of the keys (Keys). Service has
--                  events and reads in any order.
--   Tty            src/kernel/src/devices/tty/tty.c: the ring of typed bytes, whose 1024 places are the fuel of the
--                  loop of `tty_read`, and its line editor (Ring, Lines); the screen, what is drawn of it, and the paper
--                  that it is a window on (Screen); the task that takes the keys (Task).
--   ByteBuffer     src/kernel/src/buffer.c: the byte buffer of a fixed capacity (Queue).
--   Devfs          src/kernel/src/vfs/devfs.c, with `dev_lookup` of src/kernel/src/devices/dev.c and the ramdisks. A device is
--                  its index in the table of devices, and the operations of devices are the interface DevOps. Table makes it a file system
--                  of Vfs, Through and Session have the calls of Vfs on it, by a task that runs alone, Saved and Ramdisk what a task reads that has written.
--   Procfs         src/kernel/src/vfs/procfs.c, with `task_lookup` of src/kernel/src/kmt.c: the files of the tasks. A file owns the memory of its
--                  text; of pmm there are the next free address and the addresses in use. A string that is looked for in memory
--                  ends within 2^32 bytes. Contents has the text, Reads what a read returns, Files a file from lookup to close,
--                  Parts a file that is read in two parts, Life calls in any order.
--   Streams        src/kernel/src/io.c: the streams, with the buffer of ByteBuffer and the formats of Klib. The calls of the file system are the
--                  interface FileCalls; Reads and Writes are what Reading and Writing ask of them.
--   Kvdb           libkvdb/kvdb.c, the key-value store, with what it uses of `fgets` and `sscanf` (Scan). A file is a list
--                  of bytes; whether a file can be opened is a parameter. Each round of the scan takes a byte, so one round more than
--                  the file has bytes is enough. Journal has the file as a list of records, the calls on it, and a put that was cut off.
--   Game           amgame/src/game.c: the board of the game, a round, and the loop over the keys. A block is at most 3 places from the
--                  border, so 4 rounds of the inner loop are enough.
--   Numbers        src/kernel/src/string.c: `atoi`, where a result outside of 64 bits is a failure.
-- Bounds and fuel. Loops are recursion on a list or on the rounds that are left. The 32-bit wrap-around
-- of the allocator, and of positions in a file or on a device, is written out. The walk along a path has one round more
-- than the path has bytes, and each round takes a byte or ends. A name that is read from a
-- directory has at most 16 bytes, the size of its field.
-- Not modelled: the abstract machine, which is the platform; the frame buffer and the fonts, which only draw; the
-- copies of other projects under src/abstract-machine/libs, and the applications under src/abstract-machine/apps; the command-line tools and the
-- coroutines, which stand on the host's `ptrace`, `dlopen` and `setjmp`; and the shell, whose commands are calls of the modules above. The table `FsOps` of Vfs is
-- filled with the operations of Devfs, and not with those of Blkfs and Procfs, whose theorems are about their own operations.
pub mod Blkfs
pub mod ByteBuffer
pub mod Devfs
pub mod Game
pub mod Input
pub mod Klib
pub mod Kmt
pub mod Kvdb
pub mod Numbers
pub mod Os
pub mod Path
pub mod Pmm
pub mod Prelude
pub mod Procfs
pub mod Streams
pub mod Tty
pub mod Vfs
