-- ===== src/Lib.antt =====
-- Verification of the RPC server over ZeroMQ and MessagePack.
--
-- The server (rpcserver/rpcserver.cpp) subscribes to requests and publishes replies. A request is a
-- message of two frames, a topic that starts with "1/" and the MessagePack array
-- [{"request_id": id}, function, [parameters]]; a reply has the id as its topic and
-- ["SUCCESS", [value]] or ["ERROR", {"cause": c, "server": name}] as its payload.
--
-- Modules:
-- - Prelude: numbers, lists and byte strings; a C string is the bytes before the first NUL.
-- - External: what the program calls in MPack, ZeroMQ and the pointer hash (rpcserver/hash, a copy
--   of a hash over klib's table), as records of operations (`Mpack`, `RpcHash`, `ZmqQueue`) with what their documentation says of them as named laws
--   (`IsMpack`, `IsRpcHash`, `IsZmqQueue`). That code is not modelled: every theorem holds for any
--   library that has the laws. Mpack is also generic in the type of floats. External.Mpack.Reading
--   says which documents can be read, what the nodes of a parsed document hold, and, as the law
--   `CanRead`, that MPack reads what it writes.
-- - Instances: concrete libraries that have the laws (an association list, a reader and writer of
--   MessagePack in its 32-bit form, and a queue as a list), so that the tests run the model on
--   bytes; Instances.SimpleReading proves `CanRead` of that reader.
-- - Hash: rpcserver/test_hash.cpp, which checks the pointer hash by assertions.
-- - Server.World: the state of a request handler, the parsed tree with its error flag and the
--   frames sent so far, and its monad, in which `none` is a memory fault: a read past the end of a
--   buffer or a call through a null pointer.
-- - Server.Defs: `rpc_server_t` of rpcserver/rpcserver.h; `rpc_server_init`, `rpc_register_method`
--   and `rpc_get_callfunc` of rpcserver/rpcserver.cpp. Function pointers are the names of the
--   functions.
-- - Server.Request: `rpc_msg_get_request_id` of rpcserver.cpp and rpcserver/rpc_msg_comm.cpp.
-- - Server.Reply: `rpc_send_reply` and `rpc_send_error_reply` of rpcserver.cpp.
-- - Server.Add: rpcserver/rpc_application_add.cpp, the method "add".
-- - Server.Handler: `rpc_msg_handler`, `rpc_handle_req` and `rpc_recv_thread` of rpcserver.cpp.
-- - Server.Application: rpcserver/rpc_application.cpp and main.cpp, and `rpc_server_start` of
--   rpcserver.cpp.
-- - Server.RequestId, Params, ErrorReply, AddReply, Dispatch, Answer, Requests, Safety, Init,
--   Loop, Service and Framing: the proofs, named for what they are about. Server.Documents, Calls,
--   EndToEnd, ReadBack and Session go from the bytes that a client writes to those that it reads.
-- - Rep: the older server, whose workers answer [function, [parameters]] on a REP socket. Rep.Comm
--   is rpcserver/rpc_comm.h and rpc_comm.cpp, Rep.Add rpcserver/rpc_request_add.cpp, Rep.Manager
--   rpcserver/rpc_hashmgr.cpp and Rep.Worker rpcserver/rpcs.cpp; Rep.Start is the start of the
--   workers and the router (rpcs.cpp, rpcserver/zmq_rpcrouter.cpp) and the worker of
--   rpcserver/rpcs1.cpp. Rep.Buffers has `zmq_malloc` and `zmq_free` of rpc_comm.cpp, and what the
--   functions that reply do with their buffers; the buffers that are allocated are a list of
--   pointers. Rep.Main2 is `main2` of rpcserver/areqserver.cpp. Rep.Params, Rep.Sum, Rep.Answer,
--   Rep.EndToEnd, Rep.ReadBack, Rep.Freed and Rep.OpenRpc are the proofs.
-- - Arpc: the folder rpc, the first copy of the older server, translated on its own; Arpc.Main has
--   its `main` (rpc/arpcserver.cpp) and the one of rpcserver/areqserver.cpp. Arpc.Main2 is its
--   `main2`. Arpc.Same compares the copies, and Arpc.Serve and Calls go from `main` to
--   the replies.
-- - Router: newrpc/router3.cpp. Router.Poller has the poll thread between the ROUTER socket and
--   the handler, and the handler; Router.Dealer the thread that sends requests; Router.Start what
--   the threads do before their loops, and `poller_main`. Router.Threads puts the poll thread and
--   the handler beside each other: a step relation on the queues between them, and the states that
--   it reaches. Router.Echo, Address, Moves, Order, Progress and NoFault are the proofs.
-- - Dump: the text that `dump_msg` and `dump_zmq_msg` of router3.cpp print, and that of the copies
--   of `dump_msg` in rpcs.cpp and rpcs1.cpp of both folders (Dump.Rpcs, Dump.Arpcs); and the text
--   of a time in xpubxsub.cpp. Dump.Numbers, Dump.RoundTrip and Dump.Times read numbers,
--   dumps and times back.
-- - Broker: Broker.Event is rpcserver/zmq_event_helper.cpp, with the values of ZeroMQ's constants
--   as a parameter; Broker.Monitor the loop of rpcserver/xpubxsub.cpp that prints the events of a
--   broker's socket, and Broker.Print the text of such a line; Broker.Setup the set-up of the
--   brokers in that file, and Broker.Main its `main`; Broker.Names, Lines, Columns and Printed are
--   the proofs.
-- - Samples: rpcserver/mpack_test.cpp, to which rpc/mpack_test.cpp is equal. Samples.Build has two
--   builders, Samples.Parse the third one, the parsers and `test_mpack`; Samples.ReadBack, Stream
--   and Run are the proofs.
-- - Client: test_a_msgpack_req.c, which sends one message and reads one reply; Client.Safe and
--   Client.Exchange are the proofs.
-- - SubClient: the client of the server, a script in Python that rpcserver/help.h keeps behind `#if
--   0`; msgpack is a parameter. SubClient.Served is the proofs.
-- - Tests: the theorems and the model at concrete data.
--
-- The endless loop of `rpc_recv_thread` takes the results of `zmq_poll` as a list and ends with
-- it; the theorems on it hold for lists of any length, so no fuel bounds them. Buffers have the
-- sizes of the code: 128 bytes for an id and for a function name, 256 for a reply, 32 for a
-- server's name, 128 nodes for a tree, 256 for a reply to the dealer, 512 for the monitor's
-- addresses. The loop over parameters is bounded by the length of their array. The ten digits of a
-- dumped size are enough for any `int`. MPack without an allocator reads containers that are nested
-- at most 31 deep. Every loop that receives takes what it receives as a list; in Router.Threads the
-- steps of two threads interleave freely.
--
-- Not modelled: printing that only traces calls (dumps and the lines of the monitor are texts);
-- the threads of different programs against each other; what MPack, ZeroMQ and the pointer hash
-- over klib's table (a copy of another project's) do inside; the return values of calls that the
-- code does not look at; a `malloc` that fails; the other code that `#if 0` disables; the
-- Python scripts that are files of their own.
pub mod Prelude
pub mod External
pub mod Dump
pub mod Hash
pub mod Server
pub mod Rep
pub mod Arpc
pub mod Router
pub mod Broker
pub mod Client
pub mod Samples
pub mod Instances
pub mod SubClient
mod Tests
