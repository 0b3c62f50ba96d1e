-- ===== src/Lib.antt =====
-- Verification of mudoReprint, a C++ rewrite of the muduo network library: one event loop per thread
-- over epoll, with timers, and TCP connections that are spread over a pool of loops.
--
-- The program. An EventLoop owns an Epoller, which maps descriptors to Channels and keeps the kernel's
-- interest list; poll fills the list of active Channels, and each dispatches its events to callbacks.
-- A TimerQueue is one such Channel, over a timerfd, and keeps its Timers in a std::set ordered by time
-- and address. Other threads hand functors to a loop by queueInLoop and wake it through an eventfd. A
-- TcpConnection has a Channel in the loop that EventLoopThreadPoll picked for it. The Acceptor hands each
-- accepted Socket to the TcpServer, which names the connection, keeps it in a map, and has its loop
-- establish it; closing a connection calls back into the server. EventLoopThread runs one loop.
--
-- The files. Base and the files under it hold what the components share: Base.Outcome the ways in
-- which an operation can stop (a failed assert, a fatal log line, an exception that nothing catches, a
-- dangling pointer), Base.Maps the association lists for std::map, Base.Int signed integers,
-- Base.Bits masks of flags, Base.Decimal what snprintf prints for %d, Base.Reachability the states that a step relation reaches.
--   Channel          Channel.h, Channel.cpp: masks and handleEvent
--   Epoller          Epoller.h, Epoller.cpp, with the members of Channel and EventLoop that lead there;
--                    Epoller.Kernel is the interest list that epoll_ctl is documented to keep, and
--                    Epoller.Refinement the abstract operation on it
--   EventLoop        EventLoop.h, EventLoop.cpp: queueInLoop, runInLoop, doPendingFunctor, wakeup, quit;
--                    EventLoop.Iteration is one round of loop(), EventLoop.Wakeup is loop() as steps
--                    between those of other threads, and EventLoop.Schedule a run of these steps
--   Timestamp        the interface of muduo::Timestamp and of the interval of a timer
--   TimerSet         TimerQueue.h, TimerQueue.cpp: std::set<Entry> and howMuchTimeFromNow;
--                    TimerSet.Abstract is the finite set, as a quotient of lists; the list itself stands
--                    for std::set of the standard library
--   TimerQueue       Timer.h, TimerQueue.h, TimerQueue.cpp, and runAt, runEvery, runAfter of EventLoop.cpp
--   Buffer           the interface of muduo::net::Buffer
--   TcpConnection    TcpConnection.h, TcpConnection.cpp; a call of shutDown is one step in the loop's thread,
--                    and two in another (TcpConnection.Race)
--   Socket           Socket.h, Socket.cpp: who owns a descriptor; Socket.Options the calls on a socket, over
--                    an interface of the system calls; Socket.Print the text of getTcpInfoString
--   Acceptor         Acceptor.h, Acceptor.cpp: handleRead
--   Connector        Connector.h, Connector.cpp
--   TcpServer        TcpServer.h, TcpServer.cpp: names, the map of connections, and their removal
--   EchoServer       main.cpp: the callbacks of the echo server, with TcpConnection;
--                    EchoServer.Server the server that it starts, EchoServer.Functors the functors with
--                    which it tries the loop
--   Lifetime         the constructors and destructors of EventLoop, TimerQueue, Acceptor and TcpServer, by
--                    what they register with the epoller; Lifetime.Served a connection up to its destructor
--   Service          a server with its connections in its own loop, up to its destructor: TcpServer.cpp,
--                    TcpConnection.cpp and Lifetime.Served over one reactor; Epoller.Serving is what holds
--                    of a reactor whose map keeps the descriptors of connections that are gone
--   LoopThread       EventLoopThread.h, EventLoopThread.cpp as steps of two threads
--   ThreadPool       EventLoopThreadPoll.h, EventLoopThreadPoll.cpp; ThreadPool.Trial the assertions of
--                    EventThreadPoll_test.cpp
-- A function has the name of the member that it models, in snake_case. Objects behind pointers are in
-- a store by address, where following a pointer to nothing is the fault `dangling`. The thread that
-- runs a member is an argument, compared with the loop's own as assertInLoopThread does. What the
-- kernel answers, the clock and the allocator's addresses are arguments, never chosen by a definition.
--
-- Bounds. The loops of the code run over lists or counts, and take no fuel. Only the printing of a number
-- does, in Base.Decimal: one more than the number, which is above the count of its digits. Sizes and
-- lengths are natural numbers; where the code narrows to int or wraps in size_t (sendInLoop), that is
-- written out.
--
-- Not modelled: the muduo base library (logging, Timestamp, Buffer, threads), which is not in the
-- repository, and the copies of its socket wrappers in SocketsOps and InetAddress; log lines, but for
-- the texts of Epoller.Print, TcpConnection.Print and Socket.Print; stringformat.h, which nothing calls;
-- and, but for the echo server and the functors run1 to run4, main.cpp and ConnTest.cpp, which are
-- demonstrations.
pub mod Base
pub mod Channel
pub mod Epoller
pub mod EventLoop
pub mod Timestamp
pub mod TimerSet
pub mod TimerQueue
pub mod Buffer
pub mod Socket
pub mod Acceptor
pub mod Connector
pub mod TcpConnection
pub mod TcpServer
pub mod EchoServer
pub mod Lifetime
pub mod Service
pub mod LoopThread
pub mod ThreadPool
