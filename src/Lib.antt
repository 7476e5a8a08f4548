-- ===== src/Lib.antt =====
-- OpenGCL, a library of general components in C++ (README.md): the components that carry logic of
-- their own, modelled in the types of this library, with theorems about them.
--
-- The parts. Que.antt is class CircularQueue of src/gque.cpp and include/gque.h: a ring of items in
-- one block of memory, with byte offsets of 32 bits; Que/Peek.antt has its `peek_next`, `peek_prev`
-- and the iterators that Queue<T> builds from them. Linkable.antt is class Linkable and List<T> of
-- src/glist.cpp and include/glist.h, over an explicit heap of links. Tok.antt is class Tockenizer
-- of src/gtockenizer.cpp and include/gtockenizer.h. Hex.antt is the hexadecimal part of
-- src/util/gutil.cpp. Time.antt is include/gtime.h, src/gtime.cpp and src/gtime_sleep.cpp.
-- Socket.antt is the timed reading and writing of src/gsocket.cpp, Socket/Peer.antt connecting and
-- listening, Socket/Packet.antt the packets of the V protocol, Socket/Handle.antt,
-- Socket/Methods.antt and Socket/Calls.antt its class Socket. Semaphore.antt is
-- include/gsemaphore.h. Event.antt is class EventEmitter of src/gevent.cpp and include/gevent.h; it
-- stands on the circular queue. Event/Construct.antt is its constructor, and Event/Spec.antt the
-- list of listeners under their texts that it is compared with. Guard.antt is an object behind a
-- readers-writer lock, as AutoLockRead and AutoLockWrite of include/gthread.h are used;
-- Event/Threads.antt puts an EventEmitter there and QueueMt.antt a queue. QueueMt.antt is QueueMT
-- of include/gque.h. Thread.antt is class Thread of src/gthread.cpp and include/gthread.h,
-- Lock.antt and Lock/Handles.antt the mutex, the condition, the readers-writer lock and the
-- AutoLocks of include/gthread.h. MMap.antt is classes MMap and MMapFile of src/gmmap.cpp and
-- include/gmmap.h, with src/util/filelength.cpp; MMap/Calls.antt has their overloads,
-- MMap/Win32.antt what MMap does on Windows. A function of the model has the name of the function
-- that it models, where C++ overloads one with a suffix. A method takes the fields of its object as
-- a record and returns the new record; an output pointer becomes a part of the result. The other
-- components do not call one another, but for the clock, which a sleep and the socket loops read.
--
-- Bounds. `unsigned` and `uint64_t` values are natural numbers with their wrap-around written out
-- (Prelude/Words.antt). An access outside the memory that the code may touch is `fault`
-- (Prelude/Outcome.antt); a loop of the event emitter whose fuel runs out is `out_of_fuel`. The
-- loops of the code run on the number of rounds left, on the text left, or on fuel: length of the
-- list plus one for the traversals of a queue or a list, length of the text plus one for reading
-- all tokens, number of bytes plus one for the sockets: each round uses up one of what is counted.
-- A read from a peer that has closed moves no byte, and takes a round for each look at the clock.
--
-- Threads. Guard.antt and Thread.antt are step relations: a state is what the threads share and
-- where each of them stands (Prelude/Pool.antt), and a step is one step of one thread, in any
-- order. In Thread.antt a step is one access to what the threads share. In Guard.antt a call that
-- takes the lock for writing reads the object in one step and writes it back, with all that it has
-- done, in a later one; a call that takes it for reading looks at the object in two steps. The lock
-- does not fail there; Lock.antt has what AutoLockRead and AutoLockWrite do where it fails.
--
-- Parameters. What `new` returns, the C library's `toupper`, the readings of the system's clocks,
-- the calls of the system for sockets, files, semaphores and locks, and the listeners of events,
-- are arguments of the definitions that use them. Where a theorem is about what a system has open,
-- that is a set of numbers (Prelude/Open.antt), so that one descriptor or handle is told from
-- another.
--
-- Not modelled: `init` and `clear` of QueueMT, which do not compile as they are written, debug
-- messages, the DLL entry and the samples.
pub mod Event
pub mod Guard
pub mod Hex
pub mod Linkable
pub mod Lock
pub mod MMap
pub mod Prelude
pub mod Que
pub mod QueueMt
pub mod Semaphore
pub mod Socket
pub mod Thread
pub mod Time
pub mod Tok
