-- ===== src/Lib.antt =====
-- The file server fs-virtio9p of src/common/virtio9p: a QNX resource manager that serves a
-- directory of the host. It speaks 9P2000.L to a server on the host, over a virtio device.
--
-- The parts, from the wire up. A path is that of the repository.
--
-- Types, MessageType: src/common/virtio9p/include/protocol/nine_p_types.h, its constants, message
-- types and records. Bytes are the numbers below 256, strings are lists of bytes.
--
-- FidPool: src/common/virtio9p/src/protocol/fid_pool.cpp, the class FidPool. allocate, release,
-- is_allocated, size and reset are its methods; each holds the mutex throughout, so a call is a
-- step. FidPool/Fresh is about sequences of calls.
--
-- Message: src/common/virtio9p/src/protocol/nine_p_message.cpp, the class NinePMessage. A message
-- is its bytes and a read offset of 32 bits. put_* and get_* are the methods PutU8 to GetQid. A
-- read out of the bounds of the vector, which C++ leaves undefined, is the result `fault`.
-- Message/Build has the functions BuildTversion to BuildTrenameat, Message/Parse the functions
-- IsRlerror to ParseRrenameat. The other modules below Message hold an independent reader on lists
-- (Take, Receive) and writers of replies (Frame, Replies), and relate the code to them: Refines and
-- Readers for the decoders, Fields and Server for the builders, ReadDir and Entries for the two
-- replies with a byte count. ParseRreaddir's loop has the count as its fuel, since a round consumes
-- at least 24 bytes; where it does not end within that, the result is `stuck`.
--
-- Transport: src/common/virtio9p/include/transport/transport.h, the interface that the session
-- uses, as a record of operations over the state of any implementation. The errno values of the
-- platform are a record too. A return code is the bit pattern of an int32_t.
--
-- Virtqueue: src/common/virtio9p/src/transport/virtqueue.cpp, the class Virtqueue. The mappings
-- that it makes are lists of descriptors and ring entries. AddBuf is add_buf, and GetBuf get_buf,
-- whose loop takes a number of rounds as an argument: a chain is as long as the device's data make
-- it, and one that AddBuf wrote needs two. Virtqueue/Initialize has the construction and the
-- destructor: Initialize is initialize_modern, InitializeLegacy initialize_legacy; mmap,
-- mem_offset64 and munmap are parameters, with a hypothesis on how they change the number of
-- mappings where that is counted. Virtqueue/Chain defines the free list, Virtqueue/Buffers has what
-- AddBuf and GetBuf do to it, and Virtqueue/Start what initialization leaves.
--
-- Session: src/common/virtio9p/src/protocol/nine_p_session.cpp, the class NinePSession, over any
-- transport. A method is an action on the session's fields. Transact, Reinitialize and Initialize
-- call each other; the model bounds the nesting by 2, which is enough because the flag
-- reinitializing_ is set in the inner calls. Session/Ops has the operations on files, Session/Path
-- their string operations, and the others their laws: Keeps and Valid the rules for the invariant
-- of a session, Answers and Outcomes the results, Restart and Resend the re-initialization and a
-- request that is sent twice.
--
-- Args: src/common/virtio9p/src/resmgr/parse_args.cpp, with strtoull and strtoul as parameters.
-- Args/Chosen and Args/Options are about the configuration that a list of options makes.
--
-- Resmgr: the handlers of src/common/virtio9p/src/resmgr/fs_virtio9p.cpp over the session, with
-- iofunc_* and the platform's flags as parameters. Resmgr/Read is IoRead, Resmgr/Write IoWrite,
-- whose loop takes a number of rounds as an argument: each round of a client that keeps its word
-- sends a byte at least, so that nbytes are enough. Resmgr/Answers is about the other handlers,
-- Resmgr/Flags about the open flags, Resmgr/Listing about reads of directories, Resmgr/Chunks and
-- Resmgr/Sent about writes.
--
-- Registers, Machine, Link, Mmio, Pci: src/common/virtio9p/include/transport/virtio_defs.h and
-- src/common/virtio9p/src/transport/mmio_transport.cpp and pci_transport.cpp beside it, the
-- classes MmioTransportImpl and PciTransportImpl. Machine is what the transport uses of the
-- kernel and of the device, as a parameter: mappings, channels, interrupts, the volatile
-- accesses, errno, and what the device has written to the used ring and the response buffer when
-- the driver looks, of which it knows the memory that both share. Link has the queue, the bounce
-- buffers and the interrupt, as both transports handle them, Link/Exchange the core of Exchange,
-- which may end in `fault`, Link/Tag that of GetMountTag, and Link/Steps further steps of the
-- set-up. Mmio has the registers, NegotiateFeatures, SetupVirtqueue and Shutdown, Mmio/Start
-- Initialize and ResetDevice, whose polls are bounded by 100 as in the code, Mmio/Traffic
-- Exchange, WaitForCompletion and GetMountTag, which Mmio/Tag is about. The fuel is that of
-- GetBuf. Link/Reply says what a device does that answers, and Link/Serve, Mmio/Reply and
-- Pci/Reply are about the exchange with it; Virtqueue/Mappings, Virtqueue/Traffic, Link/Balance,
-- Link/Books, Link/Setup, Link/Traffic, Mmio/Balance, Mmio/Stages and Mmio/Life keep the books of
-- the kernel's resources. Base/Proc and Base/Run have the two kinds of stateful code and the
-- rules for what it guarantees, Base/Total those for code that comes to its end.
--
-- Pci: Pci has the fields of PciTransportImpl, NegotiateFeatures, SetupVirtqueue and
-- InitializeDevice, Pci/Start Initialize, ResetDevice and Shutdown, and Pci/Traffic Exchange,
-- WaitForCompletion and GetMountTag. DiscoverDevice is Pci/Discover, with the scan for capabilities
-- (Pci/Scan), the interrupts (Pci/Interrupts) and the registers (Pci/Bars) apart; an index out of
-- the bounds of bar_virt_ is the result `fault`. Pci/Bus is what it uses of the PCI server and of
-- the resource database, as a parameter. The scan has 48 rounds, since a round goes on by four bytes
-- at least. The loop of WaitForCompletion has no bound in the code: the model takes the number of
-- pulses as an argument, and is `stuck` where they run out. Pci/Reply is about an exchange with a
-- device that answers, Pci/Endless about one that does not, Pci/Tag about GetMountTag, Pci/Sane,
-- Pci/Returns, Pci/Ranges and Pci/Completes about the end of Initialize, and Pci/Balance, Pci/Find,
-- Pci/Obtain, Pci/Hold, Pci/Stages, Pci/Release and Pci/Life keep the books.
--
-- Main: FsVirtio9pMain of src/common/virtio9p/src/resmgr/fs_virtio9p.cpp, which
-- src/common/virtio9p/src/main.cpp calls. The calls of the system, dispatch_handler, which calls the
-- handlers, and the transports that CreateTransport chooses from are parameters; the loop takes a
-- number of messages as an argument, and as many rounds as messages come, and one more, are enough.
-- Main/Beginning and Main/Handshake are about what a process tells the one that has started it.
--
-- How they interact: a handler of Resmgr runs actions of Session; an action builds a request with
-- Message/Build, has the transport exchange it, and reads the answer with Message/Parse; FidPool
-- hands out the fids of both. A transport moves the bytes through a Virtqueue.
--
-- Not modelled: the log, the build rules, the scripts, the tests and the tools. Log calls and memory
-- barriers are left out of the code that is modelled.
pub mod Base
pub mod Types
pub mod MessageType
pub mod FidPool
pub mod Message
pub mod Transport
pub mod Session
pub mod Virtqueue
pub mod Resmgr
pub mod Args
pub mod Registers
pub mod Machine
pub mod Link
pub mod Mmio
pub mod Pci
pub mod Main
mod Tests
