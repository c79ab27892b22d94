-- ===== src/Tests/Calls.antt =====
-- Calls of the older server and their replies over the small MessagePack (rpcserver/rpcs.cpp,
-- rpc/arpcserver.cpp).
use zeromq_rpc_test.Prelude.{ℕ, ◌≡◌, false, List, [], ◌∷◌, map, Option, none, some, codes, arith}
use zeromq_rpc_test.External.Doc.{Doc, str, float, arr, end, item}
use zeromq_rpc_test.External.Zmq.{Frame, received}
use zeromq_rpc_test.Instances.ListHash.{list_hash, list_hash-IsRpcHash}
use zeromq_rpc_test.Instances.SimplePack.{simple_pack, simple_pack-IsMpack}
use zeromq_rpc_test.Instances.SimpleReading.{IsFloat, simple_reading}
use zeromq_rpc_test.Server.AddReply.{success_document}
use zeromq_rpc_test.Rep.Comm.{Handler}
use zeromq_rpc_test.Rep.Manager.{rpc_hash_mgr_init}
use zeromq_rpc_test.Rep.Worker.{msg_handler, rpcs_worker_thread}
use zeromq_rpc_test.Rep.Sum.{reply_frame, unknown_document}
use zeromq_rpc_test.Rep.EndToEnd.{RepCall, AllCan, call_document, rpcs_worker_thread-call_replies}
use zeromq_rpc_test.Rep.ReadBack.{IsReadBack, msg_handler-IsReadBack}
use zeromq_rpc_test.Arpc.Worker as ArpcWorker
use zeromq_rpc_test.Arpc.Main.{main}
use zeromq_rpc_test.Arpc.Calls.{main-call_replies}
use zeromq_rpc_test.Tests.EndToEnd.{sum32, sum32-IsFloat, two_params}
use zeromq_rpc_test.Tests.Arpc.{zmq, calls, main1_run, tables}
use zeromq_rpc_test.Tests.Arpc as Older

abbrev handler : Handler
handler = record { socket = 5; tid = []; tid_size = 0 }

abbrev add_two : RepCall ℕ
add_two = record { name = codes "add"; params = two_params; more = false }

abbrev two_calls : List (RepCall ℕ)
two_calls = add_two ∷ record { name = codes "sub"; params = str (codes "x"); more = false } ∷ []

two_calls-AllCan : AllCan IsFloat two_calls
two_calls-AllCan = ground arith

abbrev two_replies : List Frame
two_replies =
    reply_frame handler (simple_pack.encode (success_document 300))
    ∷ reply_frame handler (simple_pack.encode unknown_document)
    ∷ []

abbrev sum_reply : Doc ℕ
sum_reply = arr (item (str (codes "SUCCESS")) (item (arr (item (float 300) end)) end))

rpcs_worker_thread-call_replies_example :
    rpcs_worker_thread simple_pack list_hash sum32
      (rpc_hash_mgr_init list_hash none)
      handler
      (map (λ c. received (simple_pack.encode (item (call_document c) end)) false) two_calls)
      []
    ≡ some two_replies
rpcs_worker_thread-call_replies_example =
    rpcs_worker_thread-call_replies simple_pack simple_pack-IsMpack simple_reading list_hash
      list_hash-IsRpcHash sum32 none handler two_calls [] two_calls-AllCan

msg_handler-IsReadBack_example :
    (msg_handler simple_pack list_hash sum32
        (rpc_hash_mgr_init list_hash none)
        handler
        (simple_pack.encode (item (call_document add_two) end))
        []
      ≡ some (reply_frame handler (simple_pack.encode (success_document 300)) ∷ []))
    × IsReadBack simple_pack simple_reading 128 (item sum_reply end)
msg_handler-IsReadBack_example =
    msg_handler-IsReadBack simple_pack simple_pack-IsMpack simple_reading list_hash
      list_hash-IsRpcHash sum32 sum32-IsFloat none handler add_two [] 128 two_calls-AllCan.0
      (omega arith)

main-call_replies_example :
    (rpc_hashmgr : Option tables.Table) × (main list_hash list_hash zmq ≡ some (rpc_hashmgr, calls))
    × (ArpcWorker.rpcs_worker_thread simple_pack list_hash sum32 rpc_hashmgr Older.handler
          (map (λ c. received (simple_pack.encode (item (call_document c) end)) false) two_calls)
          []
        ≡ some two_replies)
main-call_replies_example =
    main-call_replies simple_pack simple_pack-IsMpack simple_reading list_hash list_hash-IsRpcHash
      list_hash list_hash-IsRpcHash sum32 zmq Older.handler two_calls [] main1_run two_calls-AllCan
