-- ===== src/Server/Service.antt =====
-- The whole application, from its start to its answers (rpc_application.cpp, rpcserver.cpp).
use mathlib.Core.Path.{fun_ext}
use zeromq_rpc_test.Prelude.{
  ◌≡◌, refl, ap, arith, List, [], ◌∷◌, Option, some, Bytes, codes, and_then, length,
}
use zeromq_rpc_test.External.Mpack.{Mpack, IsMpack}
use zeromq_rpc_test.External.RpcHash.{RpcHash, IsRpcHash}
use zeromq_rpc_test.External.Zmq.{Frame, pub_socket, sub_socket}
use zeromq_rpc_test.Server.Defs.{Server, Resources, rpc_server_init, rpc_register_method}
use zeromq_rpc_test.Server.Handler.{Poll, pool_size}
use zeromq_rpc_test.Server.ErrorReply.{IsReady}
use zeromq_rpc_test.Server.Application.{
  Method, zmq_connect, zmq_subscribe, call_method, rpc_server_start, system_server, test_server,
}
use zeromq_rpc_test.Server.Answer.{HasAdd, answer, and_answer, rpc_msg_handler-answer}
use zeromq_rpc_test.Server.Init.{system_server-IsReady}
use zeromq_rpc_test.Server.Loop.{
  ready_count, all_frames, all_rounds, round_requests, handle_all, left_with,
  rpc_recv_thread-serves,
}

module _ {F : Type 0} (M : Mpack F) (K : RpcHash Method) (float_add : F → F → F)
    (server : Server K.Table) where
  -- The answers to the requests one after the other, up to the first fault.
  abbrev pub answer_all : List Bytes → List Frame → Option (List Frame)
  answer_all [] sent = some sent
  answer_all (content ∷ rest) sent =
      and_then (and_answer sent (answer M float_add server (M.tree_parse content pool_size)))
        (answer_all rest)

module _ {F : Type 0} (M : Mpack F) (L : IsMpack M) (K : RpcHash Method) (float_add : F → F → F)
    (server : Server K.Table) where
  handle_all-answer_all :
      IsReady server
      → HasAdd K server
      → (requests : List Bytes) (sent : List Frame)
      → handle_all M K (call_method M K float_add) server requests sent
        ≡ answer_all M K float_add server requests sent
  handle_all-answer_all ready has [] sent = refl
  handle_all-answer_all ready has (content ∷ rest) sent =
      rw (rpc_msg_handler-answer M L K float_add server ready has content sent) (
        ap
          (λ k.
            and_then (and_answer sent (answer M float_add server (M.tree_parse content pool_size)))
              k)
          (fun_ext (handle_all-answer_all ready has rest)))

module _ {F : Type 0} (M : Mpack F) (L : IsMpack M) (K : RpcHash Method) (LK : IsRpcHash K)
    (float_add : F → F → F) where
  -- What the made server connects: its publishing socket to port 5557 and its subscribing socket to
  -- port 5556.
  system_server-connects :
      (r : Resources) {server : Server K.Table}
      → system_server K r ≡ some server
      → (server.pub_sock ≡ r.zmq_socket r.zmq_ctx_new pub_socket)
        × (server.sub_sock ≡ r.zmq_socket r.zmq_ctx_new sub_socket)
        × (server.pub_url ≡ codes "tcp://127.0.0.1:5557")
        × (server.sub_url ≡ codes "tcp://127.0.0.1:5556")
  unfolding system_server rpc_server_init rpc_register_method
  system_server-connects r made = (ground arith, ground arith, ground arith, ground arith)

  -- With the sockets and the addresses of the server.
  pub test_server-runs :
      (r : Resources) {server : Server K.Table} (polls : List Poll) (ms : List (List Bytes))
      → system_server K r ≡ some server
      → ready_count polls ≡ length (all_rounds ms)
      → test_server M K float_add r polls (record { input = all_frames ms; sent = [] })
        ≡ some (
          zmq_connect server.pub_sock server.pub_url
              ∷ zmq_connect server.sub_sock server.sub_url
              ∷ zmq_subscribe server.sub_sock (codes "1/")
              ∷ [],
          left_with [] (answer_all M K float_add server (round_requests (all_rounds ms)) []),
        )
  unfolding test_server rpc_server_start
  test_server-runs r {server} polls ms made e =
      let (ready, has, handles, starts) = system_server-IsReady K LK r made in
      rw (
        made,
        starts,
        rpc_recv_thread-serves M K (call_method M K float_add) server handles polls ms [] e,
        handle_all-answer_all M L K float_add server ready has (round_requests (all_rounds ms)) [],
      )

  -- The application, from `test_server` on: where the server is made, it connects its publishing
  -- socket to tcp://127.0.0.1:5557 and its subscribing socket to tcp://127.0.0.1:5556, subscribes
  -- the latter to "1/", and then serves any stream of messages that is met by
  -- as many readable rounds as it takes: every request in it, the second part of each pair, is
  -- answered in order as `answer` says of its parse, until the messages end or an answer is a
  -- fault.
  pub test_server-serves :
      (r : Resources) {server : Server K.Table} (polls : List Poll) (ms : List (List Bytes))
      → system_server K r ≡ some server
      → ready_count polls ≡ length (all_rounds ms)
      → test_server M K float_add r polls (record { input = all_frames ms; sent = [] })
        ≡ some (
          zmq_connect (r.zmq_socket r.zmq_ctx_new pub_socket) (codes "tcp://127.0.0.1:5557")
              ∷ zmq_connect (r.zmq_socket r.zmq_ctx_new sub_socket) (codes "tcp://127.0.0.1:5556")
              ∷ zmq_subscribe (r.zmq_socket r.zmq_ctx_new sub_socket) (codes "1/")
              ∷ [],
          left_with [] (answer_all M K float_add server (round_requests (all_rounds ms)) []),
        )
  test_server-serves r polls ms made e =
      let (publisher, subscriber, to_fe, to_be) = system_server-connects r made in
      let runs = test_server-runs r polls ms made e in
      cc (runs, publisher, subscriber, to_fe, to_be)
