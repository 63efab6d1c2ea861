-- ===== src/Lib.antt =====
-- The layer 4 load balancer, l4lb/src, a single-threaded TCP proxy on epoll; and of the tutorial
-- server in its last version, code/day29, the HTTP server, its network layer, the timers and the
-- log.
--
-- The load balancer. main (l4lb/src/app/main.cpp) makes an event loop and a LoadBalancer. The
-- balancer's acceptor gives it each client's socket; it takes the next backend in turn and makes
-- a ProxySession, which it holds in a map by the client's descriptor until the session reports
-- that it has closed. A session holds the client's TcpConnection, a Connector until the backend
-- is reached, and then the backend's TcpConnection; it passes bytes both ways, pauses the side
-- whose bytes have to wait, and passes on the end of each stream. A TcpConnection has a Socket,
-- an input and an output Buffer, and a Channel, which keeps its interest registered with the
-- Epoller.
--
-- The tutorial server. An HttpContext reads an HttpRequest out of what a connection received,
-- one call for each read, and keeps its state between the calls; an HttpResponse is printed for
-- the answer of an HttpServer, which also closes what the parser refuses. A TcpServer deals the
-- connections to the loops of its threads; a TcpConnection reads into one Buffer and sends by
-- way of another. A TimerQueue keeps its descriptor set for its first timer. A LogStream formats
-- into a FixedBuffer; AsyncLogging collects such texts in large ones, which a thread of its own
-- writes to a LogFile.
--
-- The files.
--   Base: lists, options and numbers; Base/Errors the exceptions as values.
--   Net/System: the replies of system calls, which are inputs, and the context of a handler: the
--     caller's thread, and what epoll_ctl() and shutdown() answer.
--     EventLoop::AssertInLoopThread.
--   Net/Buffer: l4lb/src/net/Buffer.cpp. A pointer is an offset, size_t wraps at 2 ^ 64.
--   Net/Epoller, Net/Channel: l4lb/src/net/Epoller.cpp and Channel.cpp.
--   Net/Socket: l4lb/src/net/Socket.cpp and UniqueFd.h. The record also keeps the bytes that
--     went through the descriptor in each direction, so that theorems can speak of them.
--   Net/TimerQueue: l4lb/src/net/TimerQueue.cpp, over a clock and callbacks that are parameters.
--   Net/Acceptor: l4lb/src/net/Acceptor.cpp, over any owner of the connections.
--   Net/EventLoop: l4lb/src/net/EventLoop.cpp: rounds, functors and Quit, over any callbacks.
--   Net/TcpConnection: l4lb/src/net/TcpConnection.cpp. Invariant has the three states'
--     invariants; Closing, Reading, Sending, Writing and Opening say what each operation does.
--   Lb/Connector: l4lb/src/lb/Connector.cpp. Once has its handlers, Run has Start and whole
--     runs.
--   Lb/ProxySession: l4lb/src/lb/ProxySession.cpp. Relay has one direction of the exchange,
--     Invariant the three phases, Finish and the files of Step what every event does in them;
--     Step/Served has whole runs from the constructor on, Step/Promises what they guarantee.
--   Lb/LoadBalancer: l4lb/src/lb/LoadBalancer.cpp. Turns has the order of the backends, Admits
--     new connections, Accepting the acceptor before them, Keeps the map and Stop.
--   Http/StringMap, Http/HttpRequest: code/day29/http/HttpRequest.cpp; a std::map is its entries
--     in the order of their keys.
--   Http/HttpContext: code/day29/http/HttpContext.cpp. Line and Head have the cases of its
--     switch, Parase the loop; Printed is the text of a request and RoundTrip its way through
--     the parser; Safety has the exceptions, Bodies a body in several pieces.
--   Http/HttpResponse: code/day29/http/HttpResponse.cpp; Message has a reader of what it prints.
--   Http/HttpServer: code/day29/http/HttpServer.cpp over any callback. Upload has the uploaded
--     files, Serves the server over texts against the server over requests.
--   Tcp/Buffer, Tcp/TcpConnection: code/day29/tcp/Buffer.cpp and TcpConnection.cpp. Queue has
--     what is sent, Reads what is read, Files the sending of a file.
--   Tcp/Exchange: the connection with the HTTP server as its callback; Messages has the
--     theorems.
--   Tcp/TcpServer: code/day29/tcp/TcpServer.cpp and EventLoopThreadPool.cpp; Turns has the order
--     of the loops and ids.
--   Tcp/EventLoop: code/day29/tcp/EventLoop.cpp, its functors and the eventfd; Woken has the
--     orders of the threads' steps.
--   Timers, Timers/TimerQueue: code/day29/timer. Order has what is due, Armed the descriptor.
--   Log/FixedBuffer, Log/LogStream: code/day29/log/LogStream.h and LogStream.cpp.
--   Log/LogFile, Log/AsyncLogging: code/day29/log/LogFile.cpp and AsyncLogging.cpp. Sound has
--     the invariant, Appends and Rounds what the two sides do, Trace any order of their steps.
--   The Tests of Net, Net/Acceptor, Net/EventLoop, Lb, Lb/LoadBalancer, the HTTP, the Tcp and
--     the log modules: concrete inputs.
--
-- How state and calls correspond. A method is a function from the object to a Result: its new
-- state, or the exception. A callback is a value that a method returns beside the state, since
-- every method calls at most one callback, as the last thing that it does; the owner's function
-- then runs it. The loop is any list of events: which channel is ready, what read(), send(),
-- connect(), socket() and getsockopt() answer, a timer that fires, and Stop. The system calls
-- may be interrupted any number of times, may take or give any number of bytes, and may fail in
-- any way; epoll_ctl() and shutdown() succeed in the theorems about runs (Works).
--
-- In the parser a pointer is its offset from the beginning of the text, and the byte behind the
-- text, which the loop reads too, is an input. A text is a list of bytes; what is printed and
-- read as a number is an integer of at most 20 digits, and atoi is exact beyond int. In the log
-- a call of Append is one step under the mutex, and a round of the thread two, with its wait
-- between them; in the event loop of code/day29 a call of QueueOneFunc is two, since it writes
-- to the eventfd behind the mutex.
--
-- Bounds. Appending to a buffer of the load balancer asks that the bytes held and twice the
-- bytes added fit into a vector, less than 2 ^ 63; a session never holds more than one batch of
-- 16384 bytes on a side. The loop of Stop is given one turn for each session of the map, which
-- is what it needs. That of the digits has 20 rounds and that of LogFile::Write as many as it
-- has bytes; theorems show that they are enough. Sizes of texts in the parser, the responses and
-- the log are less than 2 ^ 31, so that int holds them. In the buffers of code/day29 an int that
-- would be too large is an error, and appending asks that the bytes held, twice the bytes added
-- and 8 fit an int.
--
-- Not modelled: calls of the event loop from other threads, the constructors that open
-- descriptors, addresses, main; of code/day29 its epoller and channel, the timers of idle
-- connections and the front end of the log; the other days under code. Destructors that only
-- release what is closed already are left out. Callbacks hold sessions weakly; the model runs
-- them while the session is held.
pub mod Base
pub mod Net
pub mod Tcp
pub mod Lb
pub mod Http
pub mod Log
pub mod Timers
