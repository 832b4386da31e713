-- ===== src/Lib.antt =====
-- Privately distributed cloud: a network block device whose bytes are spread over IoT devices.
--
-- The kernel asks the daemon for reads and writes of the device. The daemon's reactor waits for the socket
-- of the kernel and for those of the IoTs, and turns what comes into tasks for a thread pool. The task
-- of a request cuts it into fragments of 1024 bytes, which go round the IoTs, and sends each to its
-- IoT. The server of an IoT works on its storage and answers. The task of an answer copies the bytes
-- into the buffer of the request and counts it; with the last one the request is done.
--
-- Which file is about which part, with paths from the repository's root:
--   Atlas                 concrete/atlas/atlas_header.h: the header of the messages
--   Nbd                   concrete/nbd_communication: the request, and NBDCommunication
--   Buse                  concrete/nbd_buse/buse.c: NbdOpen, NbdGetRequest, NbdRequestDone, their loops
--   Slicer                concrete/slicer/slicer.cpp: Slicer::Slice, IsReplyReady
--   Sender                Sender (concrete/slicer/slicer.cpp) and RequestSender
--   Splicer               Splicer of concrete/communication_manager/communication_manager.cpp
--   CommunicationManager  CommunicationManager over the interfaces Raid and Communication
--   Socket                ReadAll of concrete/daemon/daemon_main.cpp over a stream that is a parameter
--   Daemon                concrete/daemon/daemon_main.cpp: callbacks, tasks and connections, and with the
--                         children Device, DeviceRead and RoundTrip the whole path of requests
--   IotServer             concrete/atlas/iotserver_simple.cpp: the loop of main
--   System                the daemon's callbacks and tasks, the connections and the servers of the IoTs, with
--                         any number of requests at a time and their steps in any order
--   Disk                  what reads and writes mean for the whole device: the specification
--   Reactor, Select       framework/reactor: Reactor over IMonitor, and SelectMonitor, which fills it
--   WaitableQueue         framework/waitable_queue: WaitableQueue over a container, and FrontablePQ
--   ThreadPool            framework/thread_pool: the owner's calls, and what the threads do
--   Framework             framework/framework: the reactor with the pool, and the wait for the commands
--   Factory               framework/factory
--   Dispatcher            framework/dispatcher: Dispatcher and Callback
--   DirMonitor            framework/dir_monitor
--   Singleton             framework/singleton/singleton.hpp: getInstance as steps of threads, and cleanup
--   DllLoader             framework/dll_loader
--   Callable              CallableFunction (framework/thread_pool) and Function (framework/reactor/unused)
--   Scheduler             framework/scheduler
--   Asyncinjection        framework/async_injection
--   Logger                framework/logger
--   CommandLibrary        framework/command/command_library.cpp
--   Common                shared types, lists, machine words, memory and maps
--   Examples              tests, and the theorems at concrete inputs
--
-- Functions keep the names of the code in lower case (Slicer::Slice is Slicer.slice); a data member m_x is
-- the field x. Numbers are natural numbers, and what wraps in the code is reduced modulo 2 ^ 32 or
-- 2 ^ 64 where it does. Memory is a function from addresses to bytes. A call that throws, or that stops
-- the program, gives a fault (Common/Faults). A lock makes the calls that take it one step; what threads do
-- between is a relation (ThreadPool.Step, WaitableQueue.Histories, Singleton.Step, Logger.Step,
-- System.Step). In a System the task of a request sends its fragments one by one, and any thread may take any
-- task; it supposes that a uid is not given while a request waits under it, as after 2 ^ 32 requests it could.
-- A System has reads and writes only, each read without an error; a null pointer from NbdGetRequest makes the
-- task Daemon.null_request, which faults.
-- What is on its way in a System is followed by weights (System.Loads): a number for each task and fragment,
-- and the sum over all of them before and after each step. Writes are followed there as to their replies; their
-- data is a matter of Daemon.Device, without other requests between.
--
-- Loops without a bound in the code have a number of rounds here. ReadAll has as many as bytes to read,
-- since each recv that goes on takes one at least. The loops of buse.c go round at the end of a stream
-- as well, so they are given a number of rounds, and as many as bytes are enough if the bytes are there.
-- The reactor and the server have a number of rounds since they have no end. The wait for the commands
-- has the ten rounds of the code, and an Asyncinjection goes on as often as its timer runs out.
--
-- Parameters: the sockets (Socket.Stream, System.Network, Buse.Device), select (Select.System), the layouts of structs
-- (Atlas.HeaderLayout, Buse.NbdLayout), std::priority_queue (WaitableQueue.FrontablePq.PriorityQueue),
-- the results of socket and connect, the system calls of NbdOpen (Buse.Open.System), dlopen, inotify, and
-- the timers (Scheduler.Timers). A send is taken to send all that it is given, as the code does.
--
-- Not modelled: an access behind the 512 MB of a server's storage, which is a memory without an end here
-- (Daemon.Bounds and System.Ranges are about the offsets that are used), the time at which the last copy of a request's pointer goes, when the task of the request
-- outlives the last reply (Splicer.reply_to answers with the last reply), the set-up of the server's socket, the texts that are printed, the race on s_isReady of
-- Singleton, what the commands do (they have no body in the source), the drafts and the unused copies of
-- the reactor, the tests and exercises, and the third-party code of BUSE.
pub mod Common
pub mod Atlas
pub mod Nbd
pub mod Socket
pub mod Slicer
pub mod Disk
pub mod Sender
pub mod Splicer
pub mod CommunicationManager
pub mod IotServer
pub mod Daemon
pub mod System
pub mod Reactor
pub mod Select
pub mod WaitableQueue
pub mod ThreadPool
pub mod Buse
pub mod Factory
pub mod Framework
pub mod Dispatcher
pub mod DirMonitor
pub mod Singleton
pub mod DllLoader
pub mod Callable
pub mod Scheduler
pub mod Asyncinjection
pub mod Logger
pub mod CommandLibrary
pub mod Examples
