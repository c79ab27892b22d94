-- ===== src/Server/Request.antt =====
-- The parts of a request: its id (rpcserver.cpp) and its parameters (rpc_msg_comm.cpp).
-- A request is the array [{"request_id": id}, function, [parameters]].
use zeromq_rpc_test.Prelude.{
  ℕ, zero, suc, ◌+◌, Bool, true, false, not, List, none, some, Bytes, codes, replicate, store_cstr,
  get_elem?, ◌==◌, if◌then◌else◌,
}
use zeromq_rpc_test.External.MpackType.{MpackType, is_type, map_type}
use zeromq_rpc_test.External.Mpack.{Mpack}
use zeromq_rpc_test.Server.World.{Action, pure, fault, ◌>>=◌, on_tree}

-- `char requestid[128] = {0}`
abbrev pub requestid_size : ℕ
requestid_size = 128

abbrev pub requestid_buffer : Bytes
requestid_buffer = replicate requestid_size 0

module _ {F : Type 0} (M : Mpack F) where
  -- The buffer and the size are updated; both are given back.
  unfoldable pub rpc_msg_get_request_id : M.Node → Bytes → ℕ → Action M.Tree (Bytes × ℕ)
  rpc_msg_get_request_id node requestid size =
      if is_type (M.node_tag node) map_type
      then (do
        requestid_node ← on_tree (M.map_cstr node (codes "request_id"))
        if M.node_len requestid_node == 0 then pure (requestid, 0) else do
          s ← on_tree (M.copy_cstr requestid_node size)
          pure (store_cstr s requestid, M.node_len requestid_node))
      else pure (requestid, 0)

  -- The loop at index `idx`, with `rounds` rounds left.
  unfoldable pub check_loop : M.Node → List MpackType → ℕ → ℕ → Action M.Tree Bool
  check_loop root param_types zero idx = pure true
  check_loop root param_types (suc rounds) idx = do
    tnode ← on_tree (M.array_at root idx)
    let rest = check_loop root param_types rounds (idx + 1)
    elim (get_elem? param_types idx) [
      | none ↦ fault
      | some type ↦ if is_type (M.node_tag tnode) type then rest else pure false
    ]

  unfoldable pub rpc_check_params_validity : M.Node → List MpackType → ℕ → Action M.Tree Bool
  rpc_check_params_validity root param_types size = do
    type ← on_tree (M.node_type root)
    length ← on_tree (M.array_length root)
    if not (length == size) then pure false else check_loop root param_types length 0

  unfoldable pub rpc_check_request_id_validity : M.Node → Action M.Tree Bool
  rpc_check_request_id_validity root = do
    node ← on_tree (M.array_at root 0)
    (requestid, requestidsize) ← rpc_msg_get_request_id node requestid_buffer requestid_size
    if requestidsize == 0 then pure false else pure true
