-- ===== src/Lib.antt =====
-- The servers and the client of CPPMultiThreadServer_BoosAsio. A packet is a head of four bytes, an id
-- and a length as shorts with the high byte first, and a text. A session collects the bytes that its
-- peer sends into packets and posts each to the logic system, one thread that answers a message by a
-- callback chosen by its id; the answer goes into the session's queue of packets to write. An acceptor
-- makes the sessions, on contexts of a pool, and keeps them in a map until they close.
--
-- MsgNode: SingleThreadAsyncServer/MsgNode.{h,cpp} and const.h, the arrays of packets;
--   CorotineServer has the same nodes with short lengths. Frame says what a packet is on the
--   wire, Head and Text what the nodes of a session hold.
-- Session: SingleThreadAsyncServer/CSession.{h,cpp}. Read is `Start` and `HandleRead`, ReadHead
--   is `HandleReadHead` and `HeadleReadMsg`, Write is `Send` and `HandleWrite`, Fresh the new
--   session. Read/Waiting, Read/Packet and Read/Packets are about whole packets, Read/Reads about
--   one read after the other, Read/Parted about a head in pieces, Read/Rest and Read/Split about a
--   text in pieces, Read/Negative about negative lengths, Read/Fuel about the end of the loop,
--   Read/Starts about what a handler
--   starts. Life is a session with its reads and writes that are under way, in any order of
--   completions and calls; Locked sets the bodies under `_send_lock` beside `HandleRead`.
-- Corotine: CorotineServer/CSession.{h,cpp}, MsgNode.{h,cpp} and const.h. Start is `Start`, with
--   Start/Frames on packets, Start/Good and Start/Ends on any bytes and Start/Negative on
--   negative lengths; Write is `Send` and `HandleWrite`; Logic, with its threads in
--   Logic/Threads, Server and ServicePool are LogicSystem, CServer and AsioIOServicePool of that
--   folder. Life is a session with its coroutine and its writes that are under way, in any order:
--   Sound and Spawned are about faults, writes and ends, Requeue, Alone and Sequential about what
--   the coroutine does.
-- Outbox: what `Send` and `HandleWrite` of both servers promise, as an interface; Outbox/Line is
--   a session with its writes, Outbox/Order what follows for the bytes on the wire, and
--   Outbox/Stalled what follows from a write that fails.
--   Session/Write/Promise and Corotine/Write/Promise fill it.
-- Logic: SingleThreadAsyncServer/LogicSystem.{h,cpp}. Logic/Threads is the worker, the posters
--   and the destructor as a step relation, in any order that `_mutex` and `_cv` allow, with
--   Safety and Progress.
-- ServicePool, Server: SingleThreadAsyncServer/AsioIOServicePool.{h,cpp} and CServer.{h,cpp};
--   Server/Registry is a plain set of uuids as the abstract view, and Server/Run a whole run;
--   Corotine/Server/Lifetime is the coroutine server's sessions that end, or whose writes fail, beside
--   `HandleAcceptor`, with Listed and Left.
-- ThreadPool: AsioThreadPool/, whose sessions share one context that several threads run. Session
--   is CSession.{h,cpp}, the bodies of the callback session with the handlers that pass through
--   the strand; Threads is one session on n threads as a step relation, with Single and Overlap on
--   the handlers that run at a time and Posts on what they post, against Alone, one thread that
--   reads; Server is CServer.{h,cpp}, and Logic is LogicSystem.{h,cpp}, the operations of `Logic`.
-- Shutdown: Services is main.cpp of SingleThreadAsyncServer and CorotineServer with the `Stop` of their
--   pools, and Shared is AsioThreadPool/AsioThreadPool.{h,cpp}.
-- Client: one round of the loop of Client/main.cpp, and Client/Rounds the loop. Exchange: one
--   round against the coroutine server; Exchange/Corotine and Exchange/Callback the loop against
--   the servers, and Exchange/Unreadable a packet that JsonCpp does not convert.
-- System: any number of clients of Client/main.cpp, each with its session, and the logic system, as a
--   step relation in any order of their steps. Service says what a server does for a request, as
--   an interface; Counts, Queues, Moves, Reads, Handles and Serving prove what follows
--   for all clients; Corotine, Callback and Pool are the three servers and fill it.
-- Echo: the coroutine of Asio协程/main.cpp and the line that TestClient/main.cpp sends.
-- Memory, Effect, Platform: outcomes and arrays, what a handler asks of Asio and of the other
--   parts, and what is taken from Boost.Asio and JsonCpp. Prelude: names and lemmas that all of
--   them share.
-- Tests: concrete runs.
--
-- A handler is a function from the state to an `Outcome`: the new state with the calls that it starts,
-- an exception, or a fault, which is an access outside an array or another undefined behaviour. Output
-- is left out, but not what is evaluated for it and may throw. A completed read brings its bytes as an
-- argument. The coroutine reads from the bytes that the peer sends until it closes, and `co_await` is
-- a plain call: `Send` and `HandleWrite` touch none of its nodes, and `_b_close`, which a failed write
-- sets, it reads only between two turns. Corotine/Life sets them beside its turns, each of which counts
-- when it ends, and a read of a closed socket fails.
--
-- The project files build for x64: little-endian, with an `int` of 32 bits and a `short` of 16.
-- `Platform` names what the libraries do: the byte order functions swap two bytes, a read of n bytes
-- gives the first n or throws at the end of the stream, and JSON is read and written by functions of
-- the text. Ids and lengths are integers that wrap at 16 bits where the code converts them; a text that
-- is sent is at most 2^31 - 6 bytes long, or 2^15 - 5 in the coroutine server.
--
-- The two loops take fuel. A round of the coroutine takes four bytes at least, and one of `HandleRead`
-- either returns or completes a packet, so that little more fuel than bytes is enough: where `HandleRead`
-- runs as a part of more, it gets two rounds more than bytes.
--
-- On the threads of AsioThreadPool the effect of a handler counts when its body is over. A handler that is
-- bound to the strand starts only while no other such handler of the session runs, and `run` returns
-- when its context is stopped, or has neither a work object nor an operation, as Boost.Asio documents.
--
-- A step of System is what one side does between two waits: a client writes its request, a session takes
-- the request off the wire and posts it, the logic system's thread finds its queue empty and sleeps, or
-- deals with a message and sends its answer, a write is over and its `HandleWrite` runs, and a client reads an
-- answer, before or after that `HandleWrite`. A notice that a post makes wakes the thread. A run has at most
-- six steps for each round of each client and one more, and needs no fuel. The request comes in with one
-- read, and no write fails.
--
-- Not modelled are the sockets, the generator of uuids, the singletons, the listener of Asio协程, AsioThreadPool/main.cpp, and
-- MsgNode and AsioIOServicePool of AsioThreadPool, which are those of SingleThreadAsyncServer byte for
-- byte. The worker's steps in Logic/Threads are those in which the callback
-- returns: an exception that leaves it ends the process.
pub mod Prelude
pub mod Memory
pub mod Platform
pub mod MsgNode
pub mod Effect
pub mod Corotine
pub mod Session
pub mod Outbox
pub mod Logic
pub mod ServicePool
pub mod Server
pub mod ThreadPool
pub mod Shutdown
pub mod Client
pub mod Exchange
pub mod System
pub mod Echo
pub mod Tests
