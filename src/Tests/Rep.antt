-- ===== src/Tests/Rep.antt =====
-- The older server at work (rpcserver/rpcs.cpp).
use zeromq_rpc_test.Prelude.{◌+◌, ◌≡◌, false, [], ◌∷◌, ◌++◌, none, some, Bytes, codes}
use zeromq_rpc_test.External.Zmq.{received}
use zeromq_rpc_test.Instances.ListHash.{list_hash, list_hash-IsRpcHash}
use zeromq_rpc_test.Instances.SimplePack.{
  simple_pack, simple_pack-IsMpack, read_value, Value, list, double, more, no_more,
}
use zeromq_rpc_test.Server.World.{World}
use zeromq_rpc_test.Server.AddReply.{success_document}
use zeromq_rpc_test.Rep.Comm.{Handler}
use zeromq_rpc_test.Rep.Manager.{rpc_hash_mgr_init}
use zeromq_rpc_test.Rep.Worker.{rpcs_worker_thread}
use zeromq_rpc_test.Rep.Sum.{reply_frame, unknown_document, opresult_document}
use zeromq_rpc_test.Rep.Answer.{rpcs_worker_thread-replies}
use zeromq_rpc_test.Tests.Server.{text_bytes, two_doubles}

abbrev handler : Handler
handler = record { socket = 5; tid = []; tid_size = 0 }

-- [name, params]
abbrev call_bytes : Bytes → Bytes → Bytes
call_bytes name params = 0xdd ∷ 0 ∷ 0 ∷ 0 ∷ 2 ∷ (text_bytes name ++ params)

abbrev pub add_call : Bytes
add_call = call_bytes (codes "add") two_doubles

abbrev sub_call : Bytes
sub_call = call_bytes (codes "sub") two_doubles

abbrev params : Value
params = list (more (double 100) (more (double 200) no_more))

abbrev world : World simple_pack.Tree
world = record { tree = record { failed = false; root = params; left = [] }; sent = [] }

-- A call of add, a call of add without parameters, of another function, and no message at all.
rpcs_worker_thread-replies_example :
    rpcs_worker_thread simple_pack list_hash ◌+◌
      (rpc_hash_mgr_init list_hash none)
      handler
      (received add_call false
        ∷ received (call_bytes (codes "add") (text_bytes [])) false
        ∷ received sub_call false
        ∷ received (7 ∷ []) false
        ∷ [])
      []
    ≡ some (
        reply_frame handler (simple_pack.encode (success_document 300))
        ∷ reply_frame handler (simple_pack.encode (opresult_document false))
        ∷ reply_frame handler (simple_pack.encode unknown_document)
        ∷ reply_frame handler (simple_pack.encode unknown_document)
        ∷ [])
unfolding read_value
rpcs_worker_thread-replies_example =
    rpcs_worker_thread-replies simple_pack simple_pack-IsMpack list_hash list_hash-IsRpcHash ◌+◌
      none handler
      ((add_call, false)
        ∷ (call_bytes (codes "add") (text_bytes []), false)
        ∷ (sub_call, false)
        ∷ (7 ∷ [], false)
        ∷ [])
      []
