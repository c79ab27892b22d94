-- ===== src/Tests/Parts.antt =====
-- The theorems on the server's parts at concrete data: requests as parsed trees.
use zeromq_rpc_test.Prelude.{
  ◌+◌, ◌≡◌, refl, false, [], ◌∷◌, ◌++◌, Option, none, some, Bytes, codes, replicate, arith,
}
use zeromq_rpc_test.External.MpackType.{double_type, uint_type}
use zeromq_rpc_test.Instances.ListHash.{list_hash, list_hash-IsRpcHash}
use zeromq_rpc_test.Instances.SimplePack.{
  simple_pack, simple_pack-IsMpack, read_value, Value, text, list, table, double, more, no_more,
}
use zeromq_rpc_test.Server.World.{World}
use zeromq_rpc_test.Server.Defs.{
  Server, Resources, strncpy, rpc_handle_req_fn, rpc_server_start_fn, rpc_server_init,
}
use zeromq_rpc_test.Server.Request.{rpc_check_params_validity}
use zeromq_rpc_test.Server.Reply.{call_send_error_reply, server_name}
use zeromq_rpc_test.Server.Add.{rpc_request_add}
use zeromq_rpc_test.Server.Handler.{rpc_msg_handler, rpc_recv_thread, poll_in, poll_error}
use zeromq_rpc_test.Server.Params.{rpc_check_params_validity_lem}
use zeromq_rpc_test.Server.ErrorReply.{
  IsReady, reply_frames, error_outcome, call_send_error_reply_lem,
}
use zeromq_rpc_test.Server.AddReply.{sent_after, success_document, rpc_request_add_lem}
use zeromq_rpc_test.Server.Application.{Method, rpc_request_add_method, call_method}
use zeromq_rpc_test.Server.Answer.{HasAdd}
use zeromq_rpc_test.Server.Dispatch.{rpc_msg_handler_dropped, rpc_msg_handler_incomplete}
use zeromq_rpc_test.Server.Init.{server_name-init, system_server-IsReady}
use zeromq_rpc_test.Server.Loop.{all_frames, left_with, handle_all, rpc_recv_thread-serves}
use zeromq_rpc_test.Tests.Server.{
  Table, resources, system, system_made, system-IsReady, add_request, other_request, text_bytes,
  messages,
}

abbrev params : Value
params = list (more (double 100) (more (double 200) no_more))

abbrev head : Value
head = table (more (text (codes "request_id")) (more (text (codes "A1")) no_more))

abbrev root : Value
root = list (more head (more (text (codes "add")) (more params no_more)))

abbrev world : World simple_pack.Tree
world = record { tree = record { failed = false; root = root; left = [] }; sent = [] }

abbrev call :
    Method
    → Server Table
    → Value
    → World simple_pack.Tree
    → Option (Unit {0} × World simple_pack.Tree)
call = call_method simple_pack list_hash ◌+◌

rpc_request_add_lem_example :
    sent_after (rpc_request_add simple_pack ◌+◌ system root world)
    ≡ some (reply_frames system (codes "A1") (simple_pack.encode (success_document 300)))
rpc_request_add_lem_example =
    rpc_request_add_lem simple_pack simple_pack-IsMpack ◌+◌ system system-IsReady root world refl
      refl (omega arith)

rpc_recv_thread-serves_example :
    rpc_recv_thread simple_pack list_hash call system
      (poll_in ∷ poll_error ∷ poll_in ∷ [])
      (record { input = all_frames messages; sent = [] })
    ≡ left_with []
        (handle_all simple_pack list_hash call system (add_request ∷ other_request ∷ []) [])
rpc_recv_thread-serves_example =
    rpc_recv_thread-serves simple_pack list_hash call system refl
      (poll_in ∷ poll_error ∷ poll_in ∷ []) messages [] refl

rpc_msg_handler_dropped_example :
    rpc_msg_handler simple_pack list_hash call system (7 ∷ []) [] ≡ some []
unfolding read_value
rpc_msg_handler_dropped_example =
    rpc_msg_handler_dropped simple_pack simple_pack-IsMpack list_hash call system (7 ∷ []) [] refl

-- A request without parameters, for a method that is not there.
abbrev short_request : Bytes
short_request =
    0xdd
    ∷ 0
    ∷ 0
    ∷ 0
    ∷ 2
    ∷ 0xdf
    ∷ 0
    ∷ 0
    ∷ 0
    ∷ 1
    ∷ (text_bytes (codes "request_id") ++ (text_bytes (codes "A1") ++ text_bytes (codes "sub")))

rpc_msg_handler_incomplete_example :
    rpc_msg_handler simple_pack list_hash call system short_request [] ≡ some []
unfolding read_value
rpc_msg_handler_incomplete_example =
    rpc_msg_handler_incomplete simple_pack simple_pack-IsMpack list_hash call system short_request
      [] ((codes "add", some rpc_request_add_method) ∷ []) system-IsReady refl refl refl refl

call_send_error_reply_lem_example :
    call_send_error_reply simple_pack system root (codes "no") world
    ≡ error_outcome simple_pack system head (codes "no") world
call_send_error_reply_lem_example =
    call_send_error_reply_lem simple_pack simple_pack-IsMpack system system-IsReady root
      (codes "no") world refl refl (omega arith) (omega arith)

rpc_check_params_validity_lem_example :
    rpc_check_params_validity simple_pack params (double_type ∷ uint_type ∷ []) 2 world
    ≡ some (false, world)
rpc_check_params_validity_lem_example =
    rpc_check_params_validity_lem simple_pack simple_pack-IsMpack params
      (double_type ∷ uint_type ∷ []) world refl

-- A name of 40 bytes is cut, and goes on in the memory behind it.
abbrev long_name : Bytes
long_name = replicate 40 65

abbrev dirty : Resources
dirty = record resources { after_name = 9 ∷ 9 ∷ 0 ∷ [] }

abbrev named_server : Server Table
named_server = record system {
  name = replicate 32 65;
  after_name = 9 ∷ 9 ∷ 0 ∷ [];
  rpc_hashmgr = some [];
}

server_name-init_example : server_name named_server ≡ replicate 32 65 ++ (9 ∷ 9 ∷ [])
unfolding rpc_server_init strncpy
server_name-init_example =
    server_name-init list_hash dirty long_name none none {server = named_server} refl refl

system_server-IsReady_example :
    IsReady system
    × HasAdd list_hash system
    × (system.handle_req ≡ some rpc_handle_req_fn)
    × (system.start ≡ some rpc_server_start_fn)
system_server-IsReady_example =
    system_server-IsReady list_hash list_hash-IsRpcHash resources system_made
