-- ===== src/Lib.antt =====
-- FilesEvent transfers files over TCP with a libevent loop. A client (TcpClient.cpp) connects, sends
-- the request `<get path="..."/>` and writes the answer to a file (TaskFileRecv.cpp); a server
-- (TcpServer.cpp) accepts, reads the request (Session.cpp) and sends the file (TaskFileSend.cpp) as a
-- reply with its length, frames of up to 1 MiB, and an end signal. The event loop calls `onRead` and
-- `onWrite` of a session, and these the task's `readBuffer` and `writeBuffer`.
--
-- Which file models what:
--   Prelude       numbers, lists, the `int` results, and `Run`: a call returns, touches memory it does
--                 not own (`fault`), or waits when the kernel's answers are used up (`blocked`)
--   Memory        blocks of bytes, `memcpy`, the little-endian `unsigned int` fields
--   Posix         `recv` and `send`, as the environment answers them: the stream comes in pieces of any
--                 size, and each `send` takes some bytes, says try again, or fails
--   Wire          common/protocol.h: NET_CMD, LOGIN_RET, FILE_GET, FILE_INFO
--   Buffers       common/basedef.h: tagCmdBuffer and tagFileProcBuffer
--   GQueue        common/GQueue.h
--   Transport     `sendEx` of both tasks, the lengths given to `recv`, the numbers in a command
--   Proto         PROTO_GetValueByName of BaseUtils.cpp; what it finds in Values and Searching
--   FileRecv      TaskFileRecv.cpp; below it the meaning of a byte stream (Stream), the invariant of the
--                 reassembly (Tracking, Reassembly, Head), sequences of events (Events, Waiting,
--                 Ending)
--   FileSend      TaskFileSend.cpp; its read side in Reading, the client's command to start in Starting, its
--                 write events in Frames, Events and Ends, the invariant of its buffers in Valid and Bounds,
--                 a task at any time in Life, files that do not open or shrink in Failing
--   Transfer      the packets of the server as the client understands them, a whole file, server and
--                 client one after the other (Whole), and both from the request on (Fetch)
--   SessionTable  SessionManager of Session.cpp, and Lookup its view as a map
--   Session       Session of Session.cpp: the requests (Requests, Serving), the client's request as it
--                 is read (Asking) and arrives (Arrival, Granting), recvEx (Receiving), the callbacks
--                 (Callbacks, Closing), what they leave alone (Frame, Tasks, Exiting), and the start of the
--                 sending (Starting), and a packet without data (Signalled)
--   Sockets       setBlock, tcpListen and tcpConnect of IOUtils.cpp, and tcpSendData (Pieces)
--   Server        EventGlobal.cpp, TcpServer.cpp, TcpClient.cpp; who enters the table in Accepting, the socket of
--                 the server in Listening
--   Udp           UdpServer.cpp
--   Reactor       ReactorStation.cpp: the loop's thread and the one that starts and stops it, one step for
--                 each access to what they share; the invariant of both (Invariant), what goes wrong
--                 (Safety) and how they end (Shutdown)
--   BufferCache   BufferCache.cpp over an interface for libevent's evbuffer: Search and Queueing
--   Log           pj_log of common/glog.c
--   Loop          the server while it runs: the sessions that are alive, their events in the loop, the table
--                 and the descriptors, under the callbacks in any order. What the callbacks leave in Events,
--                 the invariant in Invariant, Steps and Safety, what follows in Agreement, Reading, Tasks and
--                 Writing
--   NativeApi     NativeApi.cpp, the calls of a Java program, what they keep (Ready,
--                 Holding), and the order they need (Order)
--   Tests         runs on small inputs
--
-- How the state corresponds: a class is a record with its members; a pointer that may be null is an
-- Option; a file is the list of its bytes with a position, or what was written to it; what is asked of
-- libevent is a list of effects in order. `int` sums that may overflow keep `% 2 ^ 32`, and a
-- `uint16_t` keeps `% 2 ^ 16`. A session's argument (EventGlobal) is set before its events are added.
--
-- What the loop does is taken from libevent's documentation: an event that was added fires once, with the
-- pointer that it was set for, and one that was deleted does not fire. `accept` gives a descriptor that is
-- not open, below 2 ^ 16, and `new` a pointer that is not in use. `event_del` of an event with a null `ev_base`
-- does nothing; with another pointer that malloc left there it is a `fault`.
--
-- Fuel: `read_events` and `request_events` take the number of events, and as many events as bytes have
-- arrived are enough.
-- `sendEx` recurs on the kernel's answers; that it ends is stated for a kernel that takes the bytes. Ten
-- digits are enough for an `int` below 2 ^ 32.
--
-- Not modelled: libevent (net/), whose loop calls the callbacks, and whose evbuffer is a parameter;
-- common/gthread, which is not the repository's own; the UDP client, which does not fit the present
-- Session; the callbacks into Java and the command lines. A station is started and stopped
-- once. Between the calls of a Java program no event of the loop and no signal happens.
pub mod Prelude
pub mod Memory
pub mod Posix
pub mod Wire
pub mod Buffers
pub mod Transport
pub mod SessionTable
pub mod Proto
pub mod FileSend
pub mod FileRecv
pub mod Session
pub mod Transfer
pub mod GQueue
pub mod Sockets
pub mod Server
pub mod Reactor
pub mod Udp
pub mod BufferCache
pub mod Log
pub mod Loop
pub mod NativeApi
pub mod Tests
