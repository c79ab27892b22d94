-- ===== src/Server/Add.antt =====
-- rpcserver/rpc_application_add.cpp: the method `add`.
use zeromq_rpc_test.Prelude.{
  ℕ, Bool, true, List, [], ◌∷◌, Bytes, codes, length, ◌==◌, if◌then◌else◌,
}
use zeromq_rpc_test.External.MpackType.{MpackType, double_type}
use zeromq_rpc_test.External.Doc.{Call, build_array, complete_array, write_cstr, write_float}
use zeromq_rpc_test.External.Mpack.{Mpack}
use zeromq_rpc_test.Server.World.{Action, pure, ◌>>=◌, on_tree}
use zeromq_rpc_test.Server.Defs.{Server}
use zeromq_rpc_test.Server.Request.{
  requestid_size, requestid_buffer, rpc_msg_get_request_id, rpc_check_params_validity,
}
use zeromq_rpc_test.Server.Reply.{reply_size, call_send_reply, call_send_error_reply}

-- The result is stored through the pointer; the returned flag is always true. The sum is that of
-- the machine's floats.
unfoldable pub add1 : {F : Type 0} → (F → F → F) → F → F → F × Bool
add1 float_add p1 p2 = (float_add p1 p2, true)

unfoldable pub rpc_encode_add_request_reply : {F : Type 0} → F → List (Call F)
rpc_encode_add_request_reply value =
    build_array
    ∷ write_cstr (codes "SUCCESS")
    ∷ build_array
    ∷ write_float value
    ∷ complete_array
    ∷ complete_array
    ∷ []

abbrev pub param_types : List MpackType
param_types = double_type ∷ double_type ∷ []

module _ {F Tbl : Type 0} (M : Mpack F) (float_add : F → F → F) (server : Server Tbl) where
  -- From the call of `add1` on: the parameters are valid, and the id is in its buffer.
  unfoldable pub reply_sum : M.Node → Bytes → ℕ → Action M.Tree (Unit {0})
  reply_sum params requestid requestidsize = do
    node0 ← on_tree (M.array_at params 0)
    p1 ← on_tree (M.node_float node0)
    node1 ← on_tree (M.array_at params 1)
    p2 ← on_tree (M.node_float node1)
    let (reply, result) = add1 float_add p1 p2
    let buffer = M.buffer_used reply_size (rpc_encode_add_request_reply reply)
    call_send_reply server requestid requestidsize buffer (length buffer)

  unfoldable pub rpc_request_add : M.Node → Action M.Tree (Unit {0})
  rpc_request_add root = do
    params ← on_tree (M.array_at root 2)
    node ← on_tree (M.array_at root 0)
    (requestid, requestidsize) ← rpc_msg_get_request_id M node requestid_buffer requestid_size
    if requestidsize == 0 then pure tt else do
      validity ← rpc_check_params_validity M params param_types (length param_types)
      if validity
          then reply_sum params requestid requestidsize
          else call_send_error_reply M server root (codes "invalid parameters.")
