-- ===== src/Tests/Server.antt =====
-- The server "system" at work, byte by byte (rpcserver.cpp, rpc_application.cpp).
use zeromq_rpc_test.Prelude.{
  ℕ, ◌+◌, ◌<◌, ◌≡◌, ◌↔◌, refl, true, false, List, [], ◌∷◌, ◌++◌, Option, none, some, Bytes, codes,
  length, replicate, arith, bytes_eq,
}
use zeromq_rpc_test.External.Zmq.{Frame, sub_socket, pub_socket}
use zeromq_rpc_test.Instances.ListHash.{list_hash, list_hash-IsRpcHash}
use zeromq_rpc_test.Instances.SimplePack.{simple_pack, simple_pack-IsMpack, read_value, text}
use zeromq_rpc_test.Server.Defs.{
  Server, Resources, strncpy, rpc_server_init, rpc_register_method, rpc_get_callfunc,
  rpc_server_start_fn, rpc_handle_req_fn, rpc_send_reply_fn, rpc_send_error_reply_fn,
  rpc_register_method_fn, async_msgq_be, sync_msgq_fe,
}
use zeromq_rpc_test.Server.Application.{
  Method, rpc_request_add_method, system_server, test_server, zmq_connect, zmq_subscribe,
  call_method,
}
use zeromq_rpc_test.Server.ErrorReply.{IsReady, reply_frames, error_document}
use zeromq_rpc_test.Server.AddReply.{success_document}
use zeromq_rpc_test.Server.Answer.{HasAdd, answer, and_answer, rpc_msg_handler-answer}
use zeromq_rpc_test.Server.Init.{system_server-IsReady}
use zeromq_rpc_test.Server.Request.{rpc_msg_get_request_id, check_loop, rpc_check_params_validity}
use zeromq_rpc_test.Server.Reply.{
  rpc_send_reply, call_send_reply, rpc_encode_error_request_reply, rpc_send_error_reply,
  call_send_error_reply,
}
use zeromq_rpc_test.Server.Add.{add1, rpc_encode_add_request_reply, reply_sum, rpc_request_add}
use zeromq_rpc_test.Server.Handler.{rpc_msg_handler, handle_root, dispatch, poll_in, poll_idle}
use zeromq_rpc_test.Server.Loop.{all_frames, all_rounds, round_requests, left_with}
use zeromq_rpc_test.Server.Service.{answer_all, test_server-serves}
use zeromq_rpc_test.Server.Dispatch.{is_message, is_call}
use zeromq_rpc_test.Server.Requests.{IsRequest, rpc_msg_handler-request, rpc_msg_handler-spoiled_id}
use zeromq_rpc_test.Server.Safety.{rpc_msg_handler-fault_iff}

abbrev pub Table : Type 0
Table = List (Bytes × Option Method)

abbrev pub resources : Resources
resources = record {
  allocated = true;
  zmq_ctx_new = 1;
  zmq_socket = λ context type. elim type [ sub_socket ↦ 2 | pub_socket ↦ 3 ];
  after_name = [];
}

abbrev pub system : Server Table
system = record {
  name = codes "system" ++ replicate 26 0;
  after_name = [];
  context = 1;
  sub_url = async_msgq_be;
  pub_url = sync_msgq_fe;
  sub_sock = 2;
  pub_sock = 3;
  handle_req = some rpc_handle_req_fn;
  rpc_hashmgr = some ((codes "add", some rpc_request_add_method) ∷ []);
  timeout = 0;
  send_async = none;
  send_sync = none;
  start = some rpc_server_start_fn;
  register_method = some rpc_register_method_fn;
  send_error_reply = some rpc_send_error_reply_fn;
  send_reply = some rpc_send_reply_fn;
  send_reply2 = none;
}

pub system_made : system_server list_hash resources ≡ some system
unfolding system_server rpc_server_init rpc_register_method strncpy
system_made = refl

pub system-IsReady : IsReady system
system-IsReady = (system_server-IsReady list_hash list_hash-IsRpcHash resources system_made).0

pub system-HasAdd : HasAdd list_hash system
system-HasAdd = (system_server-IsReady list_hash list_hash-IsRpcHash resources system_made).1

-- The bytes of requests.
abbrev pub text_bytes : Bytes → Bytes
text_bytes s = 0xdb ∷ 0 ∷ 0 ∷ 0 ∷ length s ∷ s

abbrev pub double_bytes : ℕ → Bytes
double_bytes x = 0xcb ∷ 0 ∷ 0 ∷ 0 ∷ 0 ∷ 0 ∷ 0 ∷ 0 ∷ x ∷ []

abbrev pub request_bytes : Bytes → Bytes → Bytes → Bytes
request_bytes id name params =
    0xdd
    ∷ 0
    ∷ 0
    ∷ 0
    ∷ 3
    ∷ 0xdf
    ∷ 0
    ∷ 0
    ∷ 0
    ∷ 1
    ∷ (text_bytes (codes "request_id") ++ (text_bytes id ++ (text_bytes name ++ params)))

abbrev pub two_doubles : Bytes
two_doubles = 0xdd ∷ 0 ∷ 0 ∷ 0 ∷ 2 ∷ (double_bytes 100 ++ double_bytes 200)

abbrev pub add_request : Bytes
add_request = request_bytes (codes "REQ10003") (codes "add") two_doubles

abbrev pub other_request : Bytes
other_request = request_bytes (codes "REQ10003") (codes "sub") two_doubles

abbrev pub sum_frames : List Frame
sum_frames = reply_frames system (codes "REQ10003") (simple_pack.encode (success_document 300))

abbrev pub unsupported_frames : List Frame
unsupported_frames =
    reply_frames system (codes "REQ10003")
      (simple_pack.encode (error_document system (codes "unsupported function")))

abbrev pub messages : List (List Bytes)
messages = (codes "1/0" ∷ add_request ∷ []) ∷ (codes "1/1" ∷ other_request ∷ []) ∷ []

-- An id with a NUL in it.
abbrev pub nul_request : Bytes
nul_request = request_bytes (65 ∷ 0 ∷ 66 ∷ []) (codes "sub") two_doubles

add_request-IsRequest :
    IsRequest simple_pack
      (simple_pack.tree_parse add_request 128)
      (text (codes "REQ10003"))
      (codes "add")
unfolding read_value
add_request-IsRequest = record {
  sound = refl;
  listed = refl;
  long = omega arith;
  headed = refl;
  has_id = refl;
  named = (refl, omega arith, refl);
  name_is = refl;
}

nul_request-IsRequest :
    IsRequest simple_pack
      (simple_pack.tree_parse nul_request 128)
      (text (65 ∷ 0 ∷ 66 ∷ []))
      (codes "sub")
unfolding read_value
nul_request-IsRequest = record {
  sound = refl;
  listed = refl;
  long = omega arith;
  headed = refl;
  has_id = refl;
  named = (refl, omega arith, refl);
  name_is = refl;
}

handle : Bytes → List Frame → Option (List Frame)
unfolding read_value rpc_msg_handler handle_root dispatch rpc_get_callfunc rpc_request_add reply_sum
    rpc_msg_get_request_id rpc_check_params_validity check_loop call_send_reply rpc_send_reply add1
    rpc_encode_add_request_reply call_send_error_reply rpc_send_error_reply
    rpc_encode_error_request_reply
handle = rpc_msg_handler simple_pack list_hash (call_method simple_pack list_hash ◌+◌) system

add_runs : handle add_request [] ≡ some sum_frames
unfolding handle
add_runs = refl

other_runs : handle other_request [] ≡ some unsupported_frames
unfolding handle
other_runs = refl

-- Parameters of the wrong types are refused; parameters that are no array get no reply.
invalid_runs :
    (handle (request_bytes (codes "A1") (codes "add") (0xdd ∷ 0 ∷ 0 ∷ 0 ∷ 1 ∷ 7 ∷ [])) []
      ≡ some (
          reply_frames system
            (codes "A1")
            (simple_pack.encode (error_document system (codes "invalid parameters.")))))
    × (handle (request_bytes (codes "A1") (codes "add") (7 ∷ [])) [] ≡ some [])
unfolding handle
invalid_runs = (refl, refl)

-- An id of 200 bytes is a fault where the method is not there.
long_id_runs :
    (handle (request_bytes (replicate 200 65) (codes "sub") two_doubles) [] ≡ none)
    × (handle (request_bytes (replicate 200 65) (codes "add") two_doubles) [] ≡ some [])
unfolding handle
long_id_runs = (refl, refl)

test_server-serves_example :
    test_server simple_pack list_hash ◌+◌ resources
      (poll_idle ∷ poll_in ∷ poll_in ∷ [])
      (record { input = all_frames messages; sent = [] })
    ≡ some (
      zmq_connect 3 sync_msgq_fe ∷ zmq_connect 2 async_msgq_be ∷ zmq_subscribe 2 (codes "1/") ∷ [],
      left_with []
          (answer_all simple_pack list_hash ◌+◌ system (round_requests (all_rounds messages)) []),
    )
test_server-serves_example =
    test_server-serves simple_pack simple_pack-IsMpack list_hash list_hash-IsRpcHash ◌+◌ resources
      (poll_idle ∷ poll_in ∷ poll_in ∷ []) messages system_made refl

rpc_msg_handler-answer_example :
    handle add_request sum_frames
    ≡ and_answer sum_frames (answer simple_pack ◌+◌ system (simple_pack.tree_parse add_request 128))
unfolding handle
rpc_msg_handler-answer_example =
    rpc_msg_handler-answer simple_pack simple_pack-IsMpack list_hash ◌+◌ system system-IsReady
      system-HasAdd add_request sum_frames

rpc_msg_handler-request_example : handle add_request [] ≡ some sum_frames
unfolding handle
rpc_msg_handler-request_example =
    rpc_msg_handler-request simple_pack simple_pack-IsMpack list_hash ◌+◌ system system-IsReady
      system-HasAdd add_request [] (text (codes "REQ10003")) (codes "add") (codes "REQ10003")
      add_request-IsRequest ((refl, omega arith, refl), refl, omega arith)

rpc_msg_handler-spoiled_id_example :
    handle nul_request []
    ≡ some (
        reply_frames system
          (0 ∷ 0 ∷ 0 ∷ [])
          (simple_pack.encode (error_document system (codes "unsupported function"))))
unfolding handle
rpc_msg_handler-spoiled_id_example =
    rpc_msg_handler-spoiled_id simple_pack simple_pack-IsMpack list_hash ◌+◌ system system-IsReady
      system-HasAdd nul_request [] (text (65 ∷ 0 ∷ 66 ∷ [])) (codes "sub") nul_request-IsRequest
      (omega arith) (omega arith) refl

rpc_msg_handler-fault_iff_example : (handle add_request [] ≡ none) ↔ (
    (is_message simple_pack (simple_pack.tree_parse add_request 128) ≡ true)
    × (is_call simple_pack (simple_pack.tree_parse add_request 128) ≡ true)
    × (bytes_eq (codes "add") (codes "add") ≡ false)
    × (128 < 8))
unfolding handle
rpc_msg_handler-fault_iff_example =
    rpc_msg_handler-fault_iff simple_pack simple_pack-IsMpack list_hash ◌+◌ system system-IsReady
      system-HasAdd add_request []
