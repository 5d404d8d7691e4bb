-- ===== src/Lib.antt =====
-- fleetcore: lock requests from a maintenance terminal to vehicle terminals, and acknowledgements back.
--
-- A maintenance terminal sends lock requests over TCP to `gateway`, which puts them into the message
-- queue of `locator`. `locator` looks the terminal up in a table in shared memory and puts the request
-- into the queue of the `termd` of that terminal, which sends it to the terminal over TCP and puts an
-- acknowledgement into the queue of `gateway`, which sends it to the maintenance terminal. Each
-- `termd` writes the state of its terminal's connection to the table.
--
-- Files and what they model:
--   Bytes          common/wire.cpp, load_be* and store_be*; the memory of a host of either byte order
--   Proto          common/proto.h, the wire structs
--   Wire           common/wire.h and wire.cpp; Layout, Decode and RoundTrip are about it
--   StreamBuffer   common/stream_buffer.h and .cpp, with the loop around `next` and `consume`
--   ShmTable       common/shm_table.h and .cpp; Rows has the loops over the rows, Open has `open`
--   MsgQueue       common/msgq.h and .cpp; Owners has all the objects of one process
--   TcpServer      common/tcp_server.h and .cpp
--   Process        common/process.h, process.cpp and error_policy.h; Stream has `run_stream`, Life the
--                  object with `init`, which the `main` of each process runs (Main)
--   IpcMessage     common/ipc_message.h
--   Gateway, Locator, Termd   gateway/main.cpp, locator/main.cpp and termd/main.cpp
--   Shared         any number of processes on one terminal table: the semaphore, and processes killed
--   Qt             what the two applications use of Qt; StreamBuffer/Serve has the loop that both run
--   CommWorker, LockWindow, TermGui      term_gui/comm_worker, lock_window and main.cpp
--   MaintWorker, MaintWindow, MaintGui   maint_gui/maint_worker, maint_window and main.cpp
--   Argument       std::from_chars as termd/main.cpp, term_gui/main.cpp and tools/msggen/main.cpp use it
--   Msggen, HoldLock, LayoutDump         tools/msggen, tools/hold_lock and common/layout_dump.cpp
--   Relay          a request and its acknowledgement through the handlers of the three processes
--   Fleet          the three processes as loops on one host, over the queues of the kernel and one table;
--                  Origin and Order say where what is sent comes from and in which order
--   Tests          concrete inputs
--   Prelude        the shared names, Boolean tests, and lemmas on lists and words of bits
--
-- An object is a record and an operation a function from its state to its result and the new state; an
-- out parameter is part of the result. Buffers are lists of bytes. Words are natural numbers with the
-- wrap of their width written out, and signed words are kept as their bit patterns. A function that
-- overwrites a struct copies the bytes of the struct in the order of the host, `Endian`, which is a
-- parameter of every theorem that depends on it.
--
-- Everything outside the program is a parameter. The answers of the kernel to socket, semaphore and
-- message calls are arguments, lists of answers where a call is repeated; the queues that a process
-- sends to are a record `Ipc` over a state of any type, and their laws, for queues with room, are in
-- `Fifo`; the wall clock is a number; a buffer on the stack has any contents before it is written to.
-- Where a loop waits for the kernel, the result is `none` for as long as the answers do not let it
-- end. The order in which events come to a process is a list of any events.
--
-- The loops over the messages of a stream have as fuel the number of bytes in the buffer: `next` hands
-- out at least 20 bytes or the whole buffer, which `consume` removes, so each round shortens it. The
-- table has its 64 rows as a list, whose length is part of its well-formedness; the loops over it are
-- recursion on it.
--
-- In the applications a thread is a sequence of slots: a socket signal, the end of a timer, a queued
-- signal, a press. A QTcpSocket is a record of operations on a state of any type, and a theorem takes
-- of it what it needs, as what one call returns. A text that is only shown is kept as what it is made
-- of.
--
-- Not modelled: logging and printing, how Qt lays out the windows, and the host names. In the runs of
-- gateway, locator and termd the semaphore is an answer of the kernel and a run starts from any table;
-- that other processes are kept from the table meanwhile is shown in Shared, where the write of one
-- field, or of a fresh row, is one step, so that of these none is half done when a process is killed.
-- There the semop that gives the semaphore up is taken to succeed: it never waits, and nothing in the
-- repository removes the set. How long nanosleep lasts, and whether msgget made the queue that it
-- answers with, is not part of the model: `waited` counts calls, and an owner removes either queue.
pub mod Prelude
pub mod Bytes
pub mod Proto
pub mod Wire
pub mod StreamBuffer
pub mod ShmTable
pub mod Shared
pub mod MsgQueue
pub mod TcpServer
pub mod Process
pub mod IpcMessage
pub mod Gateway
pub mod Locator
pub mod Argument
pub mod Termd
pub mod Qt
pub mod CommWorker
pub mod MaintWorker
pub mod LockWindow
pub mod TermGui
pub mod Msggen
pub mod LayoutDump
pub mod HoldLock
pub mod MaintWindow
pub mod MaintGui
pub mod Fleet
pub mod Relay
mod Tests
