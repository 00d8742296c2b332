-- ===== src/Lib.antt =====
-- Verification library of the repository's C++ and C code: the HTTP server project/Webserv, three of
-- the exercises of project/cpp_module, the shell project/minishell, and project/Philosophers.
--
-- A client's bytes come to core Connection (lib/core/src/Connection.cc), which reads its socket and
-- calls its protocol handler. http HttpProtocolHandler (lib/http/protocol/src) gives them to
-- RequestParser, passes a whole request to a dispatcher, and binds the response to ResponseWriter,
-- which sends it through an ISinker; TcpSinker (lib/tcp/src) is the one over a socket. After each
-- call the connection asks the handler for its status and changes its own state by it. A Reactor
-- (src/Reactor.cc) owns the connections of one thread: it sets up those that its queue gives, and its
-- Poller (lib/core/src/Poller.cc) calls back for what epoll reports. The dispatcher is the routers
-- that RouterBuilder makes of the configuration (lib/config), in front of the handlers
-- (lib/http/handlers). Paths are below project/Webserv, where they do not start with project.
--
-- Files and code:
--   Base: lists, byte strings, std::map and std::unordered_map as association lists, std::stoi,
--     std::stoull and to_string.
--   Http, Http/Status: lib/http/common (Message.hpp, HttpStatus.hpp) and Method of Status.hpp.
--   Uri: url_decode and normalizeUriPath of lib/utils/src/FileUtils.cc, with the POSIX form of
--     std::filesystem's lexically_normal. Uri/Clean: the paths that are let through.
--     Uri/Query: what becomes of a query.
--   Mime: getMimeType of FileUtils.cc.
--   SafePath: resolveSafePath and getFileInfo of FileUtils.cc, and the interface of the disk.
--     SafePath/Inside: where the paths lead.
--   RequestParser and its RequestLine, Headers, Chunked and Loop: one function for each step of
--     RequestParser.cc, over a record of the parser's fields. Total, Progress, Segments, Splitting,
--     LastChunk, Valid and Safety hold its theorems.
--   Io: the results of I/O and the interface ISinker; Io/TcpSinker: TcpSinker.cc.
--   ResponseWriter: ResponseWriter.cc and Serializer.hpp. Delivery, Whole, Files and Kept: its
--     theorems.
--   Response: reasonPhraseFromEnum and ResponseFactory.cc.
--   ProtocolHandler: HttpProtocolHandler.cc. Lifecycle and Sending: its theorems.
--   Connection: Connection.cc over any protocol handler. Connection/Phases: its theorems.
--   Connection/TcpSource: TcpSource.cc.
--   Server: the connection over the HTTP handler.
--   Routing: RequestRouter.cc, GenericRouter.hpp and ExactRouter.hpp; Routing/Builder:
--     src/RouterBuilder.cc. Keys, Choice and Longest hold their theorems.
--   Poller: Poller.cc, Channel.hpp and bind_to_impl.hpp, over the interface of epoll.
--   Reactor: Reactor.cc, one reactor on its thread. Views: what is held of one descriptor; Calls,
--     Accepts, Safe and Turns: its callbacks, new connections, waits and loop; Http: the same over the
--     HTTP handler.
--   Config: parse_body_size; Config/Loader: the rest of ConfigLoader.cc. Bounds and Each: its
--     theorems.
--   Handlers: RedirectHandler.cc. Handlers/StaticFile, Upload, Cgi and CgiRunner: the other handlers
--     of lib/http/handlers/src. Lengths, Served, Touched and CgiOutput: their theorems.
--   Pmerge: project/cpp_module/CPP09/ex02. Order, Insertion, Search, Sort, Deque and Input: its
--     theorems.
--   Exchange: project/cpp_module/CPP09/ex00. Dates and Latest: its theorems.
--   Rpn: project/cpp_module/CPP09/ex01. Rpn/Postfix: expressions and its theorem.
--   Shell: project/minishell/include/minishell.h. Tokenizer, Parser and Expander are the files of these
--     names in src/frontend; Builtins, Descriptors (redirect.c), Search and Executor (executor.c)
--     those in src/backend; Repl: src/repl.c. Grammar and Source: what a command line is and how it is
--     written. The modules below them hold their theorems.
--   Philo: project/Philosophers/src. Events: the queue of utils.c; Ordered and Together: strategy_v1.c
--     and strategy_v2.c in the loop of routines.c; Routines: the rest of routines.c.
--   Samples and each Tests: concrete runs.
--
-- A char is a byte, a natural number below 256; size_t is 64 bits wide where a number is read, and
-- the lengths of buffers are natural numbers. A mutable object is a record that a call takes and
-- returns. Errors are values: a parser's step ends with a status code, or with a fault where C++
-- has no defined behaviour (back() of an empty string) or an exception leaves the parser. The loop
-- of `parse` runs on fuel, two rounds more than the buffer has bytes: all rounds but the last two
-- take a byte. The loop that erases doubled slashes has a round for each byte.
--
-- The binary search and the recursion of PmergeMe run on fuel that is the number of the values.
-- The objects of the connections have numbers, so that a pointer to an object that is gone is told
-- apart; the loop of a reactor takes what the outside gives it in each turn as a list.
--
-- The shell reads a line (repl.c), makes tokens of it, commands of the tokens and an argv of each
-- command's arguments, and runs the chain of the commands: a child for each, with pipes between them,
-- or a builtin of its own. A C string is a list of bytes, NULL is a constructor of its own, and the use
-- of NULL a result. The loops of the tokenizer and of the parser run on fuel that is the number of the
-- bytes or tokens; each round takes one. The descriptors of a process are a table; what the system
-- answers is a record (System, IsSystem, Libc). Allocations succeed.
--
-- The philosophers are threads. A step is what one of them does between two points at which another
-- can come in, and a run is any sequence of steps. With the ordered forks the monitor and the watchdog
-- take part in it, and a thread waits where the queue of events has no room; with both forks at once
-- the simulation may be stopped at any point, and nobody waits for the queue.
--
-- magic_enum, fmt's form of numbers, the JSON library, long double, the dispatcher and the system
-- calls are parameters, with what is relied on as named laws (IsEpoll, IsLongDouble, IsSendfile). The log is left
-- out. Not modelled: the server's threads and signals with their queue (ThreadSafeQueue.hpp), sockets,
-- the directory that the constructor of UploadHandler creates, the strategies of the philosophers
-- with clocks and random numbers (strategy_v3.c, strategy_v4.c), the shell's prompt and signals, and
-- the repository's other programs.
pub mod Base
pub mod Http
pub mod Uri
pub mod Mime
pub mod SafePath
pub mod RequestParser
pub mod Io
pub mod ResponseWriter
pub mod Response
pub mod ProtocolHandler
pub mod Connection
pub mod Server
pub mod Poller
pub mod Reactor
pub mod Routing
pub mod Config
pub mod Handlers
pub mod Exchange
pub mod Philo
pub mod Pmerge
pub mod Rpn
pub mod Shell
pub mod Samples
