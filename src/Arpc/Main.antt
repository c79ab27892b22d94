-- ===== src/Arpc/Main.antt =====
-- rpc/arpcserver.cpp: `main` up to the proxy, which runs for ever; and rpcserver/areqserver.cpp, whose
-- `main` is the same without the test of the hash.
use zeromq_rpc_test.Prelude.{Option, none, some, List, Bytes, and_then}
use zeromq_rpc_test.External.RpcHash.{RpcHash}
use zeromq_rpc_test.Hash.{my_test_hash_set}
use zeromq_rpc_test.Rep.Manager
use zeromq_rpc_test.Rep.Manager.{RequestFunc}
use zeromq_rpc_test.Rep.Start
use zeromq_rpc_test.Rep.Start.{Zmq, ZmqCall}
use zeromq_rpc_test.Arpc.Manager.{rpc_hash_mgr_init}
use zeromq_rpc_test.Arpc.Start.{main1}

module _ (K : RpcHash RequestFunc) where
  -- The global `rpc_hashmgr`, NULL at first, and the calls on the sockets; `none` where an
  -- assertion fails.
  unfoldable pub main : RpcHash Bytes → Zmq → Option (Option K.Table × List ZmqCall)
  main S z =
      let rpc_hashmgr = rpc_hash_mgr_init K none in
      and_then (my_test_hash_set S) λ _. and_then (main1 z) λ calls. some (rpc_hashmgr, calls)

  unfoldable pub mainxxxxxxxxx : Zmq → Option (Option K.Table × List ZmqCall)
  mainxxxxxxxxx z =
      let rpc_hashmgr = Manager.rpc_hash_mgr_init K none in
      and_then (Start.main1 z) λ calls. some (rpc_hashmgr, calls)
