-- ===== src/Server/Dispatch.antt =====
-- `rpc_msg_handler`: which messages reach which method, and which are dropped (rpcserver.cpp).
use zeromq_rpc_test.Prelude.{
  ◌≡◌, ◌∙◌, Bool, true, false, not, ◌&&◌, List, [], none, some, Bytes, codes, ltb, arith,
  if◌then◌else◌,
}
use zeromq_rpc_test.External.MpackType.{is_type, array_type, map_type}
use zeromq_rpc_test.External.Mpack.{Mpack, IsMpack}
use zeromq_rpc_test.External.Mpack.Laws.{is_copied}
use zeromq_rpc_test.External.RpcHash.{RpcHash}
use zeromq_rpc_test.External.Zmq.{Frame}
use zeromq_rpc_test.Server.World.{World, Action}
use zeromq_rpc_test.Server.Defs.{Server, rpc_get_callfunc}
use zeromq_rpc_test.Server.Handler.{
  pool_size, function_name_size, dispatch, handle_root, rpc_msg_handler,
}
use zeromq_rpc_test.Server.ErrorReply.{IsReady, call_send_error_reply_failed}
use zeromq_rpc_test.Server.AddReply.{sent_after}

module _ {F : Type 0} (M : Mpack F) where
  -- An array whose first element is a map, in a tree without error.
  abbrev pub is_message : M.Tree → Bool
  is_message t =
      not (M.failed t)
      && (is_type (M.node_tag (M.root t)) array_type
          && (ltb 0 (M.node_len (M.root t))
              && is_type (M.node_tag (M.child (M.root t) 0)) map_type))

  -- A message that names a function by a short string and has parameters.
  abbrev pub is_call : M.Tree → Bool
  is_call t = ltb 2 (M.node_len (M.root t)) && is_copied M (M.child (M.root t) 1) function_name_size

  abbrev pub start_of : Bytes → List Frame → World M.Tree
  start_of content sent = record { tree = M.tree_parse content pool_size; sent = sent }

module _ {F Func : Type 0} (M : Mpack F) (L : IsMpack M) (K : RpcHash Func)
    (call : Func → Server K.Table → M.Node → Action M.Tree (Unit {0})) (server : Server K.Table)
    (content : Bytes) (sent : List Frame) where
  abbrev pub tree : M.Tree
  tree = M.tree_parse content pool_size

  abbrev pub root : M.Node
  root = M.root tree

  -- What is no array with a map in front is dropped: nothing is sent, and no method is called.
  pub rpc_msg_handler_dropped :
      is_message M tree ≡ false → rpc_msg_handler M K call server content sent ≡ some sent
  unfolding rpc_msg_handler handle_root
  rpc_msg_handler_dropped no_message =
      ground (arith, L.tree_root_lem tree, L.array_at_lem root 0 tree, L.nil_node-tag)

  -- A message with a map in front that is a call (its name is a string of at most 127 bytes without
  -- NUL, and it has parameters) reaches what is registered under its name, on an unchanged tree.
  pub rpc_msg_handler-call :
      is_message M tree ≡ true
      → is_call M tree ≡ true
      → rpc_msg_handler M K call server content sent
        ≡ sent_after (
            dispatch M K call server
              (rpc_get_callfunc K server (M.content (M.child root 1)))
              root
              (start_of M content sent))
  unfolding rpc_msg_handler handle_root
  rpc_msg_handler-call message is_good = ground (
    arith,
    L.tree_root_lem tree,
    L.array_at_lem root 0 tree,
    L.array_at_lem root 1 tree,
    L.array_at_lem root 2 tree,
    L.copy_cstr_lem (M.child root 1) function_name_size tree,
  )

  -- The name that the table is asked for.
  abbrev pub name_read : Bytes
  name_read =
      if ltb 1 (M.node_len root) && is_copied M (M.child root 1) function_name_size
      then M.content (M.child root 1)
      else []

  abbrev pub flagged : World M.Tree
  flagged = record { tree = M.flag tree; sent = sent }

  pub message_flagged :
      is_message M tree ≡ true
      → is_call M tree ≡ false
      → rpc_msg_handler M K call server content sent
        ≡ sent_after (dispatch M K call server (rpc_get_callfunc K server name_read) root flagged)
  unfolding rpc_msg_handler handle_root
  message_flagged message bad = ground (
    arith,
    L.tree_root_lem tree,
    L.array_at_lem root 0 tree,
    L.array_at_lem root 1 tree,
    L.array_at_lem root 2 tree,
    L.array_at_lem root 2 (M.flag tree),
    L.copy_cstr_lem (M.child root 1) function_name_size tree,
    L.copy_cstr_lem M.nil_node function_name_size (M.flag tree),
    L.failed-flag tree,
  )

  -- For a ready server with a table: a message with a map in front that is no call (its name is no string of at most 127 bytes without NUL, or its
  -- parameters are missing) and whose name is not registered is dropped: the error reply for an
  -- unsupported function is not sent, because the tree is in error by then.
  pub rpc_msg_handler_incomplete :
      (table : K.Table)
      → IsReady server
      → server.rpc_hashmgr ≡ some table
      → is_message M tree ≡ true
      → is_call M tree ≡ false
      → K.rpc_hash_get table name_read ≡ none
      → rpc_msg_handler M K call server content sent ≡ some sent
  unfolding dispatch rpc_get_callfunc
  rpc_msg_handler_incomplete table ready has message bad unknown =
      message_flagged message bad
      ∙ ground (
        arith,
        call_send_error_reply_failed M L server ready root (codes "unsupported function") flagged
            (L.failed-flag tree),
      )
