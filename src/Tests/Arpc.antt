-- ===== src/Tests/Arpc.antt =====
-- The copies of the older server at concrete data (the folders rpc and rpcserver).
use zeromq_rpc_test.Prelude.{
  ℕ, ◌+◌, ◌≡◌, refl, true, false, List, [], ◌∷◌, Option, none, some, codes,
}
use zeromq_rpc_test.External.RpcHash.{RpcHash}
use zeromq_rpc_test.External.Zmq.{received, recv_failed}
use zeromq_rpc_test.Instances.ListHash.{list_hash, list_hash-IsRpcHash}
use zeromq_rpc_test.Instances.SimplePack.{simple_pack, simple_pack-IsMpack, read_value}
use zeromq_rpc_test.Server.AddReply.{success_document}
use zeromq_rpc_test.Rep.Manager.{RequestFunc}
use zeromq_rpc_test.Rep.Sum.{reply_frame}
use zeromq_rpc_test.Rep.Worker as RepWorker
use zeromq_rpc_test.Rep.Start as RepStart
use zeromq_rpc_test.Rep.Buffers as RepBuffers
use zeromq_rpc_test.Rep.Start.{
  Zmq, ZmqCall, SocketKind, rep_kind, router_kind, dealer_kind, binds, connects, closes,
  starts_thread, terminates, runs_proxy,
}
use zeromq_rpc_test.Arpc.Comm.{Handler, zmq_malloc, zmq_free}
use zeromq_rpc_test.Arpc.Manager.{rpc_hash_mgr_init}
use zeromq_rpc_test.Arpc.Worker.{rpcs_worker_thread}
use zeromq_rpc_test.Arpc.Start.{main1, worker_thread, rpcs_thread_start}
use zeromq_rpc_test.Arpc.Main.{main, mainxxxxxxxxx}
use zeromq_rpc_test.Arpc.Same.{as_rep, copies_same}
use zeromq_rpc_test.Arpc.Serve.{main-serves}
use zeromq_rpc_test.Tests.Rep.{add_call}

abbrev pub handler : Handler
handler = record { socket = 5; tid = []; tid_size = 0 }

abbrev socket_of : SocketKind → ℕ
socket_of rep_kind = 5
socket_of router_kind = 6
socket_of dealer_kind = 7

-- Every call succeeds.
abbrev pub zmq : Zmq
zmq = record {
  zmq_init = some 1;
  zmq_socket = λ ctx kind. some (socket_of kind);
  zmq_bind = λ s url. true;
  zmq_connect = λ s url. true;
  zmq_threadstart = λ s. some 9;
}

abbrev pub calls : List ZmqCall
calls =
    binds 6 (codes "tcp://*:40000")
    ∷ binds 7 (codes "tcp://*:40001")
    ∷ connects 5 (codes "tcp://127.0.0.1:40001")
    ∷ starts_thread 5
    ∷ runs_proxy 6 7
    ∷ closes 6
    ∷ closes 7
    ∷ terminates 1
    ∷ []

pub main1_run : main1 zmq ≡ some calls
unfolding main1 rpcs_thread_start
main1_run = refl

copies_same_example :
    (rpcs_worker_thread simple_pack list_hash ◌+◌
        (rpc_hash_mgr_init list_hash none)
        handler
        (received add_call false ∷ recv_failed ∷ [])
        []
      ≡ RepWorker.rpcs_worker_thread simple_pack list_hash ◌+◌
          (rpc_hash_mgr_init list_hash none)
          (as_rep handler)
          (received add_call false ∷ recv_failed ∷ [])
          [])
    × (worker_thread simple_pack 5 (received add_call false ∷ recv_failed ∷ []) []
        ≡ RepStart.worker_thread simple_pack 5 (received add_call false ∷ recv_failed ∷ []) [])
    × (main1 zmq ≡ RepStart.main1 zmq)
    × (zmq_malloc (some 4) (4 ∷ 3 ∷ []) ≡ RepBuffers.zmq_malloc (some 4) (4 ∷ 3 ∷ []))
    × (zmq_free 3 (4 ∷ 3 ∷ []) ≡ RepBuffers.zmq_free 3 (4 ∷ 3 ∷ []))
copies_same_example =
    copies_same simple_pack list_hash ◌+◌ (rpc_hash_mgr_init list_hash none) handler
      (received add_call false ∷ recv_failed ∷ []) [] zmq (some 4) 3 (4 ∷ 3 ∷ [])

abbrev pub tables : RpcHash RequestFunc
tables = list_hash

main-serves_example :
    (rpc_hashmgr : Option tables.Table) × (main list_hash list_hash zmq ≡ some (rpc_hashmgr, calls))
    × (mainxxxxxxxxx list_hash zmq ≡ some (rpc_hashmgr, calls))
    × (rpcs_worker_thread simple_pack list_hash ◌+◌ rpc_hashmgr handler
          (received add_call false ∷ [])
          []
        ≡ some (reply_frame (as_rep handler) (simple_pack.encode (success_document 300)) ∷ []))
unfolding read_value
main-serves_example =
    main-serves simple_pack simple_pack-IsMpack list_hash list_hash-IsRpcHash list_hash
      list_hash-IsRpcHash ◌+◌ zmq handler ((add_call, false) ∷ []) [] main1_run
