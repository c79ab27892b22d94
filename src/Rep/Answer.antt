-- ===== src/Rep/Answer.antt =====
-- What the older server replies, and that its workers reply once to every request, in order
-- (rpcserver/rpcs.cpp, rpcserver/rpc_hashmgr.cpp).
use mathlib.Core.Option
use zeromq_rpc_test.Prelude.{
  ◌≡◌, ◌∙◌, ap, Bool, true, false, not, ◌&&◌, List, [], ◌∷◌, ◌++◌, map, Option, none, some, Bytes,
  codes, bytes_eq, ltb, Bool-cases, append_assoc, append-nil, inl, inr, arith, if◌then◌else◌,
}
use zeromq_rpc_test.External.MpackType.{is_type, array_type}
use zeromq_rpc_test.External.Doc.{Docs}
use zeromq_rpc_test.External.Mpack.{Mpack, IsMpack}
use zeromq_rpc_test.External.Mpack.Laws.{is_copied}
use zeromq_rpc_test.External.RpcHash.{RpcHash, IsRpcHash}
use zeromq_rpc_test.External.Zmq.{Frame, received}
use zeromq_rpc_test.Server.World.{World, ◌>>=◌}
use zeromq_rpc_test.Rep.Comm.{Handler}
use zeromq_rpc_test.Rep.Manager.{
  RequestFunc, rpc_request_add_func, rpc_get_func, rpc_hash_mgr_init, rpc_hash_mgr_add_entry,
}
use zeromq_rpc_test.Rep.Worker.{
  pool_size, cstr_size, call_entry, handle_tree, msg_handler, rpcs_worker_thread,
}
use zeromq_rpc_test.Rep.Sum.{
  reply_frame, replied, unknown_document, sum_document, rpc_request_add_reply, reply_unknown,
}

module _ (K : RpcHash RequestFunc) (L : IsRpcHash K) where
  -- Whatever the global was before, the initialised manager knows "add" alone.
  pub rpc_get_func-init :
      (before : Option K.Table) (name : Bytes)
      → rpc_get_func K (rpc_hash_mgr_init K before) name
        ≡ some (if bytes_eq (codes "add") name then some rpc_request_add_func else none)
  unfolding rpc_get_func rpc_hash_mgr_init rpc_hash_mgr_add_entry
  rpc_get_func-init before name = rw (
    L.rpc_hash_get-set K.rpc_hash_new (codes "add") (some rpc_request_add_func) name,
    L.rpc_hash_get-new name,
  )

module _ {F : Type 0} (M : Mpack F) (float_add : F → F → F) where
  -- A nonempty array in front of which a short C string names "add".
  abbrev pub calls_add : M.Tree → Bool
  calls_add t =
      not (M.failed t)
      && (is_type (M.node_tag (M.root t)) array_type
          && (ltb 0 (M.node_len (M.root t))
              && (is_copied M (M.child (M.root t) 0) cstr_size
                  && bytes_eq (codes "add") (M.content (M.child (M.root t) 0)))))

  -- The reply to a message.
  abbrev pub reply_document : M.Tree → Docs F
  reply_document t =
      if not (calls_add t)
      then unknown_document
      else if ltb 1 (M.node_len (M.root t))
      then sum_document M float_add (M.child (M.root t) 1) t
      else sum_document M float_add M.nil_node (M.flag t)

module _ {F : Type 0} (M : Mpack F) (LM : IsMpack M) (K : RpcHash RequestFunc) (L : IsRpcHash K)
    (float_add : F → F → F) (before : Option K.Table) (handler : Handler) where
  -- The frame that replies to a message.
  abbrev pub reply_to : Bytes → Frame
  reply_to content =
      reply_frame handler (M.encode (reply_document M float_add (M.tree_parse content pool_size)))

  -- The call of an entry, or the reply that there is none.
  call_entry_lem :
      (name : Bytes) (paras : M.Node) (w : World M.Tree)
      → call_entry M K float_add
          (rpc_hash_mgr_init K before)
          handler
          (rpc_get_func K (rpc_hash_mgr_init K before) name)
          paras
          w
        ≡ some (
          tt,
          replied handler
              (M.encode (
                if bytes_eq (codes "add") name
                then sum_document M float_add paras w.tree
                else unknown_document))
              w,
        )
  unfolding call_entry
  call_entry_lem name paras w = elim (Bool-cases (bytes_eq (codes "add") name)) [
    | inl add ↦ rw (
      rpc_get_func-init K L before name,
      add,
      rpc_request_add_reply M LM float_add handler paras w,
    )
    | inr other ↦ rw (rpc_get_func-init K L before name, other, ◌>>=◌, reply_unknown M LM handler w)
  ]

  -- The name that is read, and whether it is "add".
  abbrev name_read : M.Tree → Bytes × M.Tree
  name_read t =
      let (func, t') = M.array_at (M.tree_root t).0 0 (M.tree_root t).1 in
      M.copy_cstr func cstr_size t'

  name_read-add :
      (t : M.Tree)
      → calls_add M float_add t ≡ true
      → name_read t ≡ (M.content (M.child (M.root t) 0), t)
  name_read-add t h = ground (
    arith,
    LM.tree_root_lem t,
    LM.array_at_lem (M.root t) 0 t,
    LM.copy_cstr_lem (M.child (M.root t) 0) cstr_size t,
  )

  name_read-other :
      (t : M.Tree)
      → calls_add M float_add t ≡ false
      → bytes_eq (codes "add") (name_read t).0 ≡ false
  name_read-other t h = ground (
    arith,
    LM.tree_root_lem t,
    LM.array_at_lem (M.root t) 0 t,
    LM.array_at_lem M.nil_node 0 t,
    LM.copy_cstr_lem (M.child (M.root t) 0) cstr_size t,
    LM.copy_cstr_lem M.nil_node cstr_size t,
    LM.copy_cstr_lem M.nil_node cstr_size (M.flag t),
    LM.failed-flag t,
  )

  -- The parameters that are read.
  abbrev paras_read : M.Tree → M.Node × M.Tree
  paras_read t = M.array_at (M.tree_root t).0 1 (name_read t).1

  paras_read-add :
      (t : M.Tree)
      → calls_add M float_add t ≡ true
      → ltb 1 (M.node_len (M.root t)) ≡ true
      → paras_read t ≡ (M.child (M.root t) 1, t)
  paras_read-add t h two =
      rw (paras_read, name_read-add t h)
        (ground (arith, LM.tree_root_lem t, LM.array_at_lem (M.root t) 1 t))

  paras_read-short :
      (t : M.Tree)
      → calls_add M float_add t ≡ true
      → ltb 1 (M.node_len (M.root t)) ≡ false
      → paras_read t ≡ (M.nil_node, M.flag t)
  paras_read-short t h one =
      rw (paras_read, name_read-add t h)
        (ground (arith, LM.tree_root_lem t, LM.array_at_lem (M.root t) 1 t))

  name_read-is_add :
      (t : M.Tree) → calls_add M float_add t ≡ true → bytes_eq (codes "add") (name_read t).0 ≡ true
  name_read-is_add t h = rw (name_read-add t h) (ground arith)

  -- The document of the entry that is called.
  abbrev document_read : M.Tree → Docs F
  document_read t =
      if bytes_eq (codes "add") (name_read t).0
      then sum_document M float_add (paras_read t).0 (paras_read t).1
      else unknown_document

  document_read-reply_document : (t : M.Tree) → document_read t ≡ reply_document M float_add t
  document_read-reply_document t = elim (Bool-cases (calls_add M float_add t)) [
    | inr other ↦ rw (document_read, name_read-other t other, other)
    | inl add ↦ elim (Bool-cases (ltb 1 (M.node_len (M.root t)))) [
      | inl two ↦ rw (document_read, name_read-is_add t add, paras_read-add t add two, add, two)
      | inr one ↦ rw (document_read, name_read-is_add t add, paras_read-short t add one, add, one)
    ]
  ]

  handled_as_read :
      (content : Bytes) (sent : List Frame)
      → msg_handler M K float_add (rpc_hash_mgr_init K before) handler content sent
        ≡ some (
            sent
            ++ (reply_frame handler (M.encode (document_read (M.tree_parse content pool_size)))
                ∷ []))
  unfolding msg_handler handle_tree
  handled_as_read content sent =
      let t = M.tree_parse content pool_size in
      ap (λ r. Option.map (λ p. (p.1).sent) r)
        (call_entry_lem (name_read t).0 (paras_read t).0
          (record { tree = (paras_read t).1; sent = sent }))

  -- Once the manager is initialised, every message, whatever its bytes are, is answered by exactly
  -- one frame behind what was sent before, and is never a fault: a call of "add" by what it
  -- replies on its parameters, and anything else by ["FAILED", "unknown entry"].
  pub msg_handler-reply_to :
      (content : Bytes) (sent : List Frame)
      → msg_handler M K float_add (rpc_hash_mgr_init K before) handler content sent
        ≡ some (sent ++ (reply_to content ∷ []))
  msg_handler-reply_to content sent =
      rw (← document_read-reply_document (M.tree_parse content pool_size))
        (handled_as_read content sent)

  -- A worker replies to every message that it receives by its one frame, in order, from an
  -- initialised manager on.
  pub rpcs_worker_thread-replies :
      (ms : List (Bytes × Bool)) (sent : List Frame)
      → rpcs_worker_thread M K float_add
          (rpc_hash_mgr_init K before)
          handler
          (map (λ m. received m.0 m.1) ms)
          sent
        ≡ some (sent ++ map (λ m. reply_to m.0) ms)
  unfolding rpcs_worker_thread
  rpcs_worker_thread-replies [] sent = rw append-nil
  rpcs_worker_thread-replies ((content, more) ∷ ms) sent = rw (msg_handler-reply_to content sent) (
      rpcs_worker_thread-replies ms (sent ++ (reply_to content ∷ []))
      ∙ ap some (append_assoc sent (reply_to content ∷ []) (map (λ m. reply_to m.0) ms)))
