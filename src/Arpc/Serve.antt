-- ===== src/Arpc/Serve.antt =====
-- `main` of rpc/arpcserver.cpp leaves a table with which the workers serve their requests.
use zeromq_rpc_test.Prelude.{◌≡◌, refl, ◌∙◌, Bool, List, [], ◌++◌, map, Option, none, some, Bytes}
use zeromq_rpc_test.External.Mpack.{Mpack, IsMpack}
use zeromq_rpc_test.External.RpcHash.{RpcHash, IsRpcHash}
use zeromq_rpc_test.External.Zmq.{Frame, received}
use zeromq_rpc_test.Hash.{my_test_hash_set-passes}
use zeromq_rpc_test.Rep.Manager as RepManager
use zeromq_rpc_test.Rep.Manager.{RequestFunc}
use zeromq_rpc_test.Rep.Worker.{pool_size}
use zeromq_rpc_test.Rep.Start.{Zmq, ZmqCall}
use zeromq_rpc_test.Rep.Sum.{reply_frame}
use zeromq_rpc_test.Rep.Answer.{reply_document, rpcs_worker_thread-replies}
use zeromq_rpc_test.Arpc.Comm.{Handler}
use zeromq_rpc_test.Arpc.Manager.{rpc_hash_mgr_init, rpc_hash_mgr_add_entry}
use zeromq_rpc_test.Arpc.Worker.{rpcs_worker_thread}
use zeromq_rpc_test.Arpc.Start.{main1}
use zeromq_rpc_test.Arpc.Main.{main, mainxxxxxxxxx}
use zeromq_rpc_test.Arpc.Same.{as_rep, main1_same, copies_same}

module _ {F : Type 0} (M : Mpack F) (LM : IsMpack M) (K : RpcHash RequestFunc) (L : IsRpcHash K)
    (S : RpcHash Bytes) (LS : IsRpcHash S) (float_add : F → F → F) (z : Zmq) where
  init_same : rpc_hash_mgr_init K none ≡ RepManager.rpc_hash_mgr_init K none
  unfolding rpc_hash_mgr_init rpc_hash_mgr_add_entry RepManager.rpc_hash_mgr_init
      RepManager.rpc_hash_mgr_add_entry
  init_same = refl

  -- With lawful tables, the assertions of the program's test of the hash never stop `main`: it makes
  -- the calls of `main1` where that makes any, as the main of the other copy does, and the table
  -- that both have made by then is such that a worker replies to every message that it receives,
  -- in order, by its one frame.
  pub main-serves :
      {calls : List ZmqCall} (handler : Handler) (ms : List (Bytes × Bool)) (sent : List Frame)
      → main1 z ≡ some calls
      → (rpc_hashmgr : Option K.Table) × (main K S z ≡ some (rpc_hashmgr, calls))
        × (mainxxxxxxxxx K z ≡ some (rpc_hashmgr, calls))
        × (rpcs_worker_thread M K float_add rpc_hashmgr handler
              (map (λ m. received m.0 m.1) ms)
              sent
            ≡ some (
                sent
                ++ map
                    (λ m.
                      reply_frame
                        (as_rep handler)
                        (M.encode (reply_document M float_add (M.tree_parse m.0 pool_size))))
                    ms))
  unfolding main mainxxxxxxxxx
  main-serves {calls} handler ms sent ran = (
    rpc_hash_mgr_init K none,
    rw ((my_test_hash_set-passes S LS).1, ran),
    rw (← main1_same z, ran, init_same),
    (copies_same M K float_add (rpc_hash_mgr_init K none) handler (map (λ m. received m.0 m.1) ms)
          sent z none 0 []).0
        ∙ rw init_same
            (rpcs_worker_thread-replies M LM K L float_add none (as_rep handler) ms sent),
  )
