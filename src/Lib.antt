-- ===== src/Lib.antt =====
-- rioring: asynchronous sockets over io_uring (src/, include/rioring under src/).
--
-- A user's socket (tcp_socket, udp_socket: subclasses of socket_object) keeps a buffer of received
-- bytes (io_buffer) and one of bytes to send (io_double_buffer). Its methods take a context from the
-- pool of the service (io_service, simple_pool, io_context), fill in what the kernel is to do, and
-- submit it to a ring. A thread of the service waits for completed requests and calls the socket back
-- (io_received, io_sent, io_shutdown), which calls the user back and submits the next request.
--
-- Where the parts are:
--   Memory          malloc and realloc, as parameters, and memcpy and memmove within a block
--   ByteQueue       a queue of bytes, as which io_buffer is specified
--   IoBuffer        src/io_buffer.cpp
--   IoDoubleBuffer  src/io_double_buffer.cpp
--   SimplePool      src/include/rioring/simple_pool.h
--   ObjectBase      src/object_base.cpp
--   SpinLock        src/thread_lock.cpp, with its threads as steps that interleave
--   IoContext       src/include/rioring/io_context.h and predefined.h
--   SocketObject    the state of socket_object and of its subclasses
--   IoService       src/io_service.cpp: the pool of contexts and the submission of requests
--   Session         src/socket_object.cpp, src/tcp_socket.cpp, src/udp_socket.cpp: the methods of a
--                   socket, on the socket and the service together
--   Completion      src/io_service.cpp: what io does with one completed request of a socket
--   TcpServer       src/tcp_server.cpp, and what io does with a completed request of a server
--   AddressResolver src/include/rioring/address_resolver.h
--   Connect         tcp_socket::connect (src/tcp_socket.cpp)
--   UdpSocket       udp_socket::activate (src/udp_socket.cpp) and src/udp_server.cpp
--   Startup         how io_service::run starts its threads (src/io_service.cpp)
--   Shutdown        how io_service::stop ends them, with their loop io (src/io_service.cpp) and
--                   src/thread_generator.cpp
--   Sockets         what the example programs call of the sockets of a service, by object id, one after
--                   the other
--   Chat            examples/chatserver and examples/chatclient: Scheme is scheme.h, Picking the loop
--                   that takes messages out of a buffer, Client client.cpp, Server receiver.cpp and
--                   pool.cpp, User and Leave chatclient/main.cpp, Talk all of them together, and
--                   Broadcast the server on the sockets of the library
--   Echo            examples/echoserver/main.cpp, with the library below it from the completed request on
--   UdpEcho         the callback of examples/udpserver/main.cpp
--   Programs        the main functions of the examples, on Linux
--   Rio             the Windows part of src/io_service.cpp, and in Rio.Socket those of
--                   src/socket_object.cpp, src/tcp_socket.cpp and src/udp_socket.cpp, in Rio.Connect and
--                   Rio.Datagrams how such sockets get a SOCKET, in Rio.Server that of
--                   src/tcp_server.cpp, and in Rio.Threads the service's threads
--   Tests           the fixtures and the runs at concrete inputs
--   Prelude         tests, lists, outcomes and machine words that the others share
--
-- A method of the C++ classes is a function of the same name from the old state to the new one. A run
-- ends in an `Outcome`: `done` with a result, `fault` where the code has undefined behaviour (a byte
-- outside its block, an index outside an array), `hang` where it never returns (a loop without end, a
-- mutex that its own thread holds). `size_t` is a natural number below 2^64 whose sums wrap. The two
-- loops of io_buffer::push run on fuel: the outer one gets 2 rounds, since one allocation suffices,
-- and the inner one as many as bytes are needed and 2 more, since a block has at least a byte; running
-- out of them is `hang`. The loop of the chat programs gets a round more than there are bytes in the
-- buffer, since every message has a byte at least; running out of them is `hang` too.
--
-- Not in the model: the contents of system calls (liburing, the random draw of a ring, the allocator,
-- and the answers of socket, bind, listen and connect are parameters), the failure of malloc, the
-- sharing of a socket by more than one thread at a time (each method is one step under its lock; in
-- Completion.Race the tests of send before its lock are a step of their own), the options set by
-- setsockopt, what inet_ntop prints (only of which address it prints), and what the programs print.
-- What happens while a main function waits is a parameter. On Windows the requests that were made are
-- kept, and not whether the kernel took them, which the code does not look at.
pub mod Prelude
pub mod Memory
pub mod ByteQueue
pub mod IoBuffer
pub mod IoDoubleBuffer
pub mod SimplePool
pub mod ObjectBase
pub mod SpinLock
pub mod IoContext
pub mod SocketObject
pub mod IoService
pub mod Session
pub mod Completion
pub mod TcpServer
pub mod AddressResolver
pub mod Sockets
pub mod Chat
pub mod Echo
pub mod Connect
pub mod UdpSocket
pub mod UdpEcho
pub mod Rio
pub mod Shutdown
pub mod Startup
pub mod Programs
pub mod Tests
