-- ===== src/Arpc/Calls.antt =====
-- The older server from its `main` to the replies to calls, bytes in and bytes out
-- (rpc/arpcserver.cpp, rpc/rpcs.cpp, rpc/rpcrequest).
use zeromq_rpc_test.Prelude.{◌≡◌, ◌∙◌, ap, List, ◌++◌, map, Option, none, some, Bytes}
use zeromq_rpc_test.External.Mpack.{Mpack, IsMpack}
use zeromq_rpc_test.External.Mpack.Reading.{CanRead}
use zeromq_rpc_test.External.RpcHash.{RpcHash, IsRpcHash}
use zeromq_rpc_test.External.Zmq.{Frame, received}
use zeromq_rpc_test.Rep.Manager.{RequestFunc}
use zeromq_rpc_test.Rep.Start.{Zmq, ZmqCall}
use zeromq_rpc_test.Rep.EndToEnd.{RepCall, AllCan, call_bytes, call_reply, replies-calls}
use zeromq_rpc_test.Arpc.Comm.{Handler}
use zeromq_rpc_test.Arpc.Worker.{rpcs_worker_thread}
use zeromq_rpc_test.Arpc.Start.{main1}
use zeromq_rpc_test.Arpc.Main.{main}
use zeromq_rpc_test.Arpc.Same.{as_rep}
use zeromq_rpc_test.Arpc.Serve.{main-serves}

module _ {F : Type 0} (M : Mpack F) (L : IsMpack M) (R : CanRead M) (K : RpcHash RequestFunc)
    (LK : IsRpcHash K) (S : RpcHash Bytes) (LS : IsRpcHash S) (float_add : F → F → F)
    (z : Zmq) where
  -- With lawful tables and an MPack that reads what it writes: where `main1` makes its calls,
  -- `main` makes the same ones, and leaves a table with which a worker replies to the bytes of
  -- calls one by one, in order, by the bytes of the reply to each.
  pub main-call_replies :
      {calls : List ZmqCall} (handler : Handler) (cs : List (RepCall F)) (sent : List Frame)
      → main1 z ≡ some calls
      → AllCan R.IsFloat cs
      → (rpc_hashmgr : Option K.Table) × (main K S z ≡ some (rpc_hashmgr, calls))
        × (rpcs_worker_thread M K float_add rpc_hashmgr handler
              (map (λ m. received m.0 m.1) (map (call_bytes M) cs))
              sent
            ≡ some (sent ++ map (call_reply M R.narrow float_add (as_rep handler)) cs))
  main-call_replies {calls} handler cs sent ran can =
      let bytes = map (call_bytes M) cs in
      let (rpc_hashmgr, started, copy, served) =
        main-serves M L K LK S LS float_add z handler bytes sent ran in
      (
        rpc_hashmgr,
        started,
        served
            ∙ ap (λ (fs : List Frame). some (sent ++ fs))
                (replies-calls M L R K LK float_add none (as_rep handler) cs can),
      )
