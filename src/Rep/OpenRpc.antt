-- ===== src/Rep/OpenRpc.antt =====
-- The handler of rpcserver/rpcs.cpp that the worker could call in place of `msg_handler`.
use zeromq_rpc_test.Prelude.{
  ℕ, zero, suc, ◌+◌, ◌≡◌, refl, List, some, Bytes, Bool-cases, inl, inr, codes,
}
use zeromq_rpc_test.External.MpackType.{is_type, map_type}
use zeromq_rpc_test.External.Mpack.{Mpack}
use zeromq_rpc_test.External.Zmq.{Frame}
use zeromq_rpc_test.Server.World.{World, ◌>>=◌, ◌>>◌}
use zeromq_rpc_test.Rep.Worker.{message_id_loop, openrpc_msg_handler, pool_size}

module _ {F : Type 0} (M : Mpack F) where
  -- The loop ends, and changes the error flag of the tree at most.
  loop_ends :
      (root : M.Node) (rounds idx : ℕ) (w : World M.Tree)
      → (t : M.Tree) × (message_id_loop M root rounds idx w ≡ some (tt, record w { tree = t }))
  unfolding message_id_loop
  loop_ends root zero idx w = (w.tree, refl)
  loop_ends root (suc rounds) idx w =
      let (node, t1) = M.array_at root idx w.tree in
      elim (Bool-cases (is_type (M.node_tag node) map_type)) [
        | inl is_map ↦
            let t2 = (M.map_cstr node (codes "message_id") t1).1 in
            let (t, ends) = loop_ends root rounds (idx + 1) (record w { tree = t2 }) in
            (t, rw (message_id_loop, is_map) ends)
        | inr other ↦
            let (t, ends) = loop_ends root rounds (idx + 1) (record w { tree = t1 }) in
            (t, rw (message_id_loop, other) ends)
      ]

  -- Whatever the message is, `openrpc_msg_handler` ends without a fault, and sends nothing: a REP
  -- socket that is served by it gets no reply.
  pub openrpc_msg_handler-silent :
      (content : Bytes) (sent : List Frame) → openrpc_msg_handler M content sent ≡ some sent
  unfolding openrpc_msg_handler
  openrpc_msg_handler-silent content sent =
      let (root, t) = M.tree_root (M.tree_parse content pool_size) in
      let (length, t') = M.array_length root t in
      let (t'', ends) = loop_ends root length 0 (record { tree = t'; sent = sent }) in
      rw (openrpc_msg_handler, ◌>>=◌, ◌>>◌, ends)
