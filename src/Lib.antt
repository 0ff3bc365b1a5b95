-- ===== src/Lib.antt =====
-- C-development-on-Linux: programs of a course on systems programming.
--
-- The repository has the driver of the Lunix:TNG sensor network
-- (DriversDev/lunix-tng-helpcode-20181010), a process scheduler with its shell (Scheduler), a
-- crypto device for virtual machines with a chat over it and a server that echoes (Virtio, Chat), and
-- a tool that joins two files (Merging_two_files_into_a_third). What is modelled:
--
-- - Base: lists, Boolean tests and bytes over the native numbers; Texts, Decimal and
--   Streams: C strings, numbers in decimal, atoi, and the lines of a stream.
-- - Lunix/Sensors: lunix-sensors.c and the pages of lunix.h. Sensors/Laws and
--   Opening: its theorems.
-- - Lunix/Protocol: lunix-protocol.c. Protocol/Layout and Bounds: where its position may stand;
--   Field: one field; Builds: with LUNIX_DEBUG and without it; Stuffing: escaped bytes; Frames and
--   RoundTrip: whole packets; Chunks, Buffers, Arrivals and Sessions: packets cut into buffers, and
--   one behind the other.
-- - Lunix/Readings: a measurement from the line to a reader, through all of these.
-- - Lunix/Chrdev: open and read of lunix-chrdev.c. Chrdev/Text: the printed text; Copies and
--   Reads: one read and reading in several calls; Opens: opening a node.
-- - Lunix/Ldisc: lunix-ldisc.c; Ldisc/Users: who may use it.
-- - Lunix/Module: lunix-module.c and the registration in lunix-chrdev.c; Module/Unload: what is left.
-- - Attach: lunix-attach.c. Modes: the settings of a line; Locks: the lock file; Program: opening,
--   closing and main. Ownership and Release: what the lock is worth, and what is left of a run;
--   Driver: the program with the line discipline behind it.
-- - Merging: dowrite.c, write_file.c and fconc.c; Merging/Join: what the third file holds.
-- - Scheduler/Ring: the circular list of tasks that both schedulers share, and what its writes do.
--   Scheduler/Runs and Children: what else they share, proc-common.c and request.h among it.
-- - Scheduler/Prio: scheduler-prio.c. State and Handlers: its functions; Start: `main`; Session: the
--   loop over requests, with the signals between them. Invariant, Turns, Deaths, Crashes,
--   Creation, Priorities, Requests, Started, Reach: the theorems.
-- - Scheduler/Plain: scheduler-shell.c, in the same way. Scheduler/Agreement: the two
--   compared, in Steps, Events and Begin.
-- - Scheduler/Shell: shell.c. Shell/Commands, Lines, Sessions and Ending: what is typed, how it is
--   read, whole sessions, and the end of the loop. Scheduler/Together: the shell and the scheduler
--   joined by their pipes.
-- - Virtio/Wire: the buffers on the queue. Virtio/Host: virtio-cryptodev.c of qemu-3.0.0/hw/char.
--   Virtio/Guest: the calls of crypto-chrdev.c (Virtio/virtio-cryptodev-helpcode/virtio-cryptodev/
--   guest); Devices: crypto-module.c and the registration. Calls, Files, Devices/Minors and
--   Devices/Loading: the theorems; Sample: a queue for tests. Trial: test_crypto.c over the driver;
--   Trial/Arrays and Verdicts: its data, and what it finds out.
-- - Chat: socket-client.c, socket-server.c and crypto-test.h of Chat/sockets. Lines, Talk and
--   Sessions: a line of the user, a line from one side to the other, and a second connection.
--   Device: the chat over the crypto device of a guest.
-- - Echo: socket-client.c and socket-server.c of Virtio/virtio-cryptodev-helpcode/sockets;
--   Echo/Sayings: what the client gets back.
-- - Lunix/Runs, and Tests of Lunix, Lunix/Chrdev, Lunix/Module, Attach, Merging, Scheduler,
--   Scheduler/Shell, Scheduler/Together, Virtio, Virtio/Trial, Chat and
--   Echo: runs at concrete inputs.
--
-- Source code and model. A C structure is a record and a list of bytes is List ℕ; an array is a list
-- with reads and writes out of range spelled out by `get_or`, `get_elem?` and `set`. Pointers to
-- nodes are numbers into a heap that is a record of functions; memory that is not there makes a step
-- return `none` or `crashed`, so that a theorem that a step runs says that no freed or missing memory
-- is touched. Signals and output are a list of effects. Locks of the driver have no model of
-- their own, except where a function gives one up: there what other processes do in between is an
-- argument.
--
-- Parameters. The page allocator, the clock, the build option LUNIX_DEBUG, the outcome of fork and
-- of wait, and the tables that mk_lookup_tables.c generates are arguments of the definitions. So are
-- the answers on the pipes of the shell, what select, read and write bring to the chat, the queue
-- between guest and host, the crypto device of the host and the numbers by which the host knows the
-- calls; their values stand in the patch for QEMU, and the examples use them. The memory that the
-- driver of the guest asks for in ioctl is taken to be there, and the host to give back as many bytes
-- as a buffer has. The number of a struct cdev, and which number cdev_del takes away, follow the
-- kernel: the last one added. An ioctl command has the structure that its argument points to as
-- data; copies from the user work. For the program that attaches a terminal the system calls, the user
-- database and two constants of headers are arguments; the bits of the settings have names, and those
-- without one are a number.
--
-- Fuel. A walk of the ring of tasks has nproc + 1 as fuel, and the theorems show that it
-- suffices; a loop of system calls recurses on what they return, and where enough calls are needed
-- the theorem says how many. The loop over a buffer recurses on its bytes; `%d` prints with ten
-- rounds, since an int has at most ten digits. The loop of the shell has one round more than its
-- input has bytes, and a theorem shows that it suffices.
--
-- Not modelled: printing of debug text, generated tables, the vendored cryptodev-linux and QEMU, the
-- other test programs, the template of the guest driver in Chat, and the addresses of the sockets.
pub mod Attach
pub mod Base
pub mod Echo
pub mod Lunix
pub mod Merging
pub mod Scheduler
pub mod Virtio
pub mod Chat
