-- ===== src/Arpc/Add.antt =====
-- rpc/rpcrequest/rpc_request_add.cpp: the method `add`.
use zeromq_rpc_test.Prelude.{Bool, true, false, not, List, [], ◌∷◌, codes, length, if◌then◌else◌}
use zeromq_rpc_test.External.MpackType.{MpackType, double_type}
use zeromq_rpc_test.External.Doc.{Call, build_array, complete_array, write_cstr, write_float}
use zeromq_rpc_test.External.Mpack.{Mpack}
use zeromq_rpc_test.Server.World.{Action, pure, ◌>>=◌, on_tree}
use zeromq_rpc_test.Arpc.Comm.{
  Handler, buff_size, rpc_send_reply, rpc_request_reply_opresult, rpc_check_param_validity,
}

-- The result is stored through the pointer; the returned flag is always true.
unfoldable pub add : {F : Type 0} → (F → F → F) → F → F → F × Bool
add float_add p1 p2 = (float_add p1 p2, true)

-- The calls of the writer in `rpc_send_add_request_reply`.
unfoldable pub add_request_calls : {F : Type 0} → F → List (Call F)
add_request_calls value =
    build_array
    ∷ write_cstr (codes "SUCCESS")
    ∷ build_array
    ∷ write_float value
    ∷ complete_array
    ∷ complete_array
    ∷ []

abbrev pub param_types : List MpackType
param_types = double_type ∷ double_type ∷ []

module _ {F : Type 0} (M : Mpack F) where
  unfoldable pub rpc_send_add_request_reply : Handler → F → Action M.Tree (Unit {0})
  rpc_send_add_request_reply handler value = do
    let buffer = M.buffer_used buff_size (add_request_calls value)
    rpc_send_reply handler buffer (length buffer)

  module _ (float_add : F → F → F) where
    -- The arguments of `add` are evaluated from the left.
    unfoldable pub rpc_request_add : Handler → M.Node → Action M.Tree (Unit {0})
    rpc_request_add handler root = do
      validity ← rpc_check_param_validity M root param_types (length param_types)
      if not validity
          then (do replied ← rpc_request_reply_opresult M handler false; pure tt)
          else do
            node0 ← on_tree (M.array_at root 0)
            p1 ← on_tree (M.node_float node0)
            node1 ← on_tree (M.array_at root 1)
            p2 ← on_tree (M.node_float node1)
            let (reply, result) = add float_add p1 p2
            rpc_send_add_request_reply handler reply
