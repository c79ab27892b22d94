-- ===== src/Server/Reply.antt =====
-- The replies of rpcserver.cpp: the error document, and the two frames of a reply.
use zeromq_rpc_test.Prelude.{
  ℕ, true, false, List, [], ◌∷◌, ◌++◌, some, Bytes, codes, cstr, length, ◌==◌, if◌then◌else◌,
}
use zeromq_rpc_test.External.Doc.{
  Call, build_array, complete_array, build_map, complete_map, write_cstr,
}
use zeromq_rpc_test.External.Mpack.{Mpack}
use zeromq_rpc_test.Server.World.{
  Action, pure, fault, ◌>>=◌, ◌>>◌, on_tree, read_bytes, zmq_msg_send,
}
use zeromq_rpc_test.Server.Defs.{Server, rpc_send_reply_fn, rpc_send_error_reply_fn}
use zeromq_rpc_test.Server.Request.{requestid_size, requestid_buffer, rpc_msg_get_request_id}

module _ {T Tbl : Type 0} (server : Server Tbl) where
  unfoldable pub rpc_send_reply : Bytes → ℕ → Bytes → ℕ → Action T (Unit {0})
  rpc_send_reply topic topic_len msg msg_len = do
    reply ← read_bytes topic topic_len
    zmq_msg_send server.pub_sock reply true
    reply ← read_bytes msg msg_len
    zmq_msg_send server.pub_sock reply false

  -- `server->send_reply (...)`. No other function is ever stored there.
  unfoldable pub call_send_reply : Bytes → ℕ → Bytes → ℕ → Action T (Unit {0})
  call_send_reply topic topic_len msg msg_len = elim (server.send_reply) [
    | some rpc_send_reply_fn ↦ rpc_send_reply topic topic_len msg msg_len
    | _ ↦ fault
  ]

-- `server->name` as a C string, which goes on behind the array if the array holds no NUL.
abbrev pub server_name : {Tbl : Type 0} → Server Tbl → Bytes
server_name server = cstr (server.name ++ server.after_name)

-- The calls of the writer between its creation and the reading of its size.
unfoldable pub rpc_encode_error_request_reply :
    {F Tbl : Type 0} → Server Tbl → Bytes → List (Call F)
rpc_encode_error_request_reply server cause =
    build_array
    ∷ write_cstr (codes "ERROR")
    ∷ build_map
    ∷ write_cstr (codes "cause")
    ∷ write_cstr cause
    ∷ write_cstr (codes "server")
    ∷ write_cstr (server_name server)
    ∷ complete_map
    ∷ complete_array
    ∷ []

-- `char buffer[256]`
abbrev pub reply_size : ℕ
reply_size = 256

module _ {F Tbl : Type 0} (M : Mpack F) (server : Server Tbl) where
  unfoldable pub rpc_send_error_reply : M.Node → Bytes → Action M.Tree (Unit {0})
  rpc_send_error_reply root cause = do
    node ← on_tree (M.array_at root 0)
    (requestid, requestidsize) ← rpc_msg_get_request_id M node requestid_buffer requestid_size
    let buffer = M.buffer_used reply_size (rpc_encode_error_request_reply server cause)
    if requestidsize == 0
        then pure tt
        else call_send_reply server requestid requestidsize buffer (length buffer)

  -- `server->send_error_reply (...)`
  unfoldable pub call_send_error_reply : M.Node → Bytes → Action M.Tree (Unit {0})
  call_send_error_reply root cause = elim (server.send_error_reply) [
    | some rpc_send_error_reply_fn ↦ rpc_send_error_reply root cause
    | _ ↦ fault
  ]
