-- ===== src/Lib.antt =====
-- An online coflow simulator: a master that reads a trace of coflows and tells the clients which flows
-- to send, and the clients, which send them at a limited rate and report the end of each.
--
-- The parts, and how they meet:
--   - Common (src/common) is what both programs use. Common/Epoll: lib/epollFunctions.cpp.
--     Common/Socket: socket/socketManage.{h,cpp}, the send and the receive buffer of a connection;
--     addfd, removefd and modfd become values in the list `calls`. The kernel is a parameter `Kernel`;
--     Common/Socket/Kernels states what is relied on of send(2) and recv(2), and has kernels that do it.
--     Common/Listen: a listening socket, which client/RecvManager.cpp and client/main.cpp make alike.
--     Common/Pool: lib/ThreadPool.{h,cpp}, one action for each step of a thread in append or in run; an
--     interleaving is a list of actions.
--     Common/Float is the interface to `double`: the program only stores, compares, divides, multiplies,
--     casts, prints and reads such numbers. What is relied on of the standard library's printing and
--     reading stands in `FloatLaws`, and of the products of whole numbers in `WholeLaws`;
--     Common/Float/Whole shows that they can hold.
--   - Text is the language's `stringstream` and C strings on bytes: `ss >> int`, `ss >> char *`,
--     `ss << int`. Wire is the format of the messages, as a reader of single bytes.
--   - Client (src/client): Client/Startup is parseConfig of main.cpp, and coflowSimClient up to its event
--     loop; Client/Loop is that loop, of which Client/Inbox cuts instructions out of what arrives;
--     Client/Senders is SendManager.{h,cpp}: appendTask, one round of run, and the end of a Sender as a
--     step between the rounds; Client/Sender is Sender::run, with the data that it sends; Client/Traffic is
--     TrafficControlManager.{h,cpp}, the tc commands of each port; Client/Receiver is RecvManager.{h,cpp}
--     and receFile.{h,cpp}: Connections puts the manager, its workers and epoll together, as steps, and
--     computes from the calls that the manager makes what epoll watches.
--   - Master (src/master): Master/Coflow is datastructures/{flow,coflow,coflowCollection}; Master/Machine
--     is datastructures/machine, which cuts the reports of a client out of its stream; Master/Manager is
--     scheduler/MachineManager: the placement of logical machines, and sendTask; Master/Scheduler is
--     scheduler/Scheduler: one round of run in its phases (register, select, launch, poll), and in
--     Master/Scheduler/Run all the rounds; Master/Scheduler/Incoming says what is relied on of a kernel
--     that brings the reports, each on the descriptor of its machine. Master/Trace is
--     traceProducer/CoflowBenchmarkTraceProducer, which makes the coflows from the trace file. A
--     time or a size stands there as a text and the value that `ss >> double` reads from it;
--     Master/Startup is parseConfig and parseMachineDefine of main.cpp, on what rapidjson read, and
--     Master/Boot is coflowSimMaster, up to its event loop.
--   - Protocol puts the two programs together: what sendTask writes comes through the event loop of a
--     client to appendTask, what SendManager::run of the clients writes comes through the rounds of
--     Scheduler::run to the flows that end, and what a Sender sends, the ReceFile of another client
--     throws away.
--
-- State is passed explicitly. A result `none` is undefined behaviour: an out-of-bounds write, a null
-- pointer that is followed, an index that was never set. A comparison of two `int` of which one is not
-- set is a parameter `junk`. Each definition has the name of the function in the source, in snake case.
--
-- Bounds and fuel: m_sendBuf has 1024 bytes and m_recvBuf 2048, the text of a task 100, and an
-- instruction on the client 100. The loop of receiveMessage gets 101 rounds of fuel; each round reads a
-- byte or ends the loop, which stops at 100 bytes. The loops around sendTask and around setSendMsg get
-- one round: the first never needs another, and the second would repeat itself for ever.
--
-- The loop of ReceFile::run gets one round more than there are bytes to come, which each round but the
-- last makes fewer. run of the scheduler gets any number of rounds: it has no bound of its own.
--
-- Not modelled: the epoll loop of the master, every branch of which is a comment; the file name that
-- ReceFile::run builds and never uses; the wrappers of pthread (src/common/lib/locker.h), which stand
-- in the models as steps that are atomic and as counters; logging and console output; the libraries in
-- thirdparty. The 4096 bytes of tmprecv and recvbuf are taken to suffice.
mod Base
pub mod Text
pub mod Common
pub mod Wire
pub mod Master
pub mod Client
pub mod Protocol
