-- ===== src/Server/Safety.antt =====
-- What clients can rely on: when the handler faults, that it answers at most once, and which
-- requests are answered how (rpcserver.cpp, rpc_application_add.cpp).
use zeromq_rpc_test.Prelude.{
  ◌<◌, ◌≡◌, ◌↔◌, ◌⊎◌, refl, true, false, not, ◌&&◌, ◌||◌, List, [], ◌++◌, Option, none, some, Bytes,
  codes, bytes_eq, ◌==◌, length, take, length-take, Bool-cases, Option-cases, inl, inr, arith,
}
use zeromq_rpc_test.External.MpackType.{is_type, is_type_iff, array_type, str_type}
use zeromq_rpc_test.External.Doc.{Docs}
use zeromq_rpc_test.External.Mpack.{Mpack, IsMpack}
use zeromq_rpc_test.External.Mpack.Laws.{is_copied}
use zeromq_rpc_test.External.RpcHash.{RpcHash}
use zeromq_rpc_test.External.Zmq.{Frame}
use zeromq_rpc_test.Server.Defs.{Server}
use zeromq_rpc_test.Server.Request.{requestid_size, requestid_buffer}
use zeromq_rpc_test.Server.Handler.{pool_size, rpc_msg_handler}
use zeromq_rpc_test.Server.RequestId.{id_node, id_len, id_buffer, id_buffer-length}
use zeromq_rpc_test.Server.ErrorReply.{IsReady, reply_frames, error_document}
use zeromq_rpc_test.Server.AddReply.{add_answer, add_reply, are_params, sum_of, success_document}
use zeromq_rpc_test.Server.Dispatch.{is_message, is_call}
use zeromq_rpc_test.Server.Application.{Method, call_method}
use zeromq_rpc_test.Server.Answer.{HasAdd, answer, unsupported_answer, rpc_msg_handler-answer}

module _ {F Tbl : Type 0} (M : Mpack F) (server : Server Tbl) where
  -- One message under a topic that is not empty, with a document as payload.
  abbrev pub IsReply : List Frame → Type 0
  IsReply frames =
      (topic : Bytes) × (doc : Docs F) × (frames ≡ reply_frames server topic (M.encode doc))
      × (0 < length topic)

module _ {F Tbl : Type 0} (M : Mpack F) (L : IsMpack M) (float_add : F → F → F)
    (server : Server Tbl) where
  add_reply-IsReply :
      (v params : M.Node)
      → (add_reply M float_add server v params ≡ [])
        ⊎ IsReply M server (add_reply M float_add server v params)
  add_reply-IsReply v params =
      elim (Bool-cases (M.node_len v == 0 || not (is_copied M v requestid_size))) [
        | inl bad ↦ inl (rw bad)
        | inr good ↦ elim (Bool-cases (are_params M params)) [
          | inl valid ↦ inr (
              rw (good, valid)
                (M.content v, success_document (sum_of M float_add params), refl, nonempty v good))
          | inr invalid ↦ elim (Bool-cases (is_type (M.node_tag params) array_type)) [
            | inl listed ↦ inr (
                rw (good, invalid, listed)
                  (
                    M.content v,
                    error_document server (codes "invalid parameters."),
                    refl,
                    nonempty v good,
                  ))
            | inr other ↦ inl (rw (good, invalid, other))
          ]
        ]
      ]
    where
      nonempty :
          (v : M.Node)
          → M.node_len v == 0 || not (is_copied M v requestid_size) ≡ false
          → 0 < length (M.content v)
      nonempty v good = ground (arith, L.content_length v, is_type_iff (M.node_tag v) str_type)

  add_answer-IsReply :
      (root : M.Node)
      → (add_answer M float_add server root ≡ [])
        ⊎ IsReply M server (add_answer M float_add server root)
  add_answer-IsReply root = elim (Option-cases (id_node M (M.child root 0))) [
    | inl e ↦ inl (rw e)
    | inr (v, e) ↦ rw e (add_reply-IsReply v (M.child root 2))
  ]

  unsupported-IsReply :
      (head : M.Node) {frames : List Frame}
      → unsupported_answer M float_add server head ≡ some frames
      → (frames ≡ []) ⊎ IsReply M server frames
  unsupported-IsReply head {frames} e =
      let id = id_node M head in
      let buf = id_buffer M id requestid_size requestid_buffer in
      elim (Bool-cases (id_len M id == 0)) [
        | inl empty ↦ inl (ground arith)
        | inr pos ↦ inr (
          take (id_len M id) buf,
          error_document server (codes "unsupported function"),
          ground arith,
          ground (
            arith,
            length-take (id_len M id) buf,
            id_buffer-length M L id requestid_size requestid_buffer refl,
          ),
        )
      ]

  answer-IsReply :
      (t : M.Tree) {frames : List Frame}
      → answer M float_add server t ≡ some frames
      → (frames ≡ []) ⊎ IsReply M server frames
  answer-IsReply t {frames} e = elim (Bool-cases (is_message M t && is_call M t)) [
    | inr no_call ↦ inl (ground arith)
    | inl good ↦ elim (Bool-cases (bytes_eq (codes "add") (M.content (M.child (M.root t) 1)))) [
      | inl add ↦
          let same : add_answer M float_add server (M.root t) ≡ frames = ground arith in
          rw (← same) (add_answer-IsReply (M.root t))
      | inr other ↦ unsupported-IsReply (M.child (M.root t) 0) (rw (good, other) at e)
    ]
  ]

module _ {F : Type 0} (M : Mpack F) (L : IsMpack M) (K : RpcHash Method) (float_add : F → F → F)
    (server : Server K.Table) (ready : IsReady server) (has : HasAdd K server) (content : Bytes)
    (sent : List Frame) where
  abbrev tree : M.Tree
  tree = M.tree_parse content pool_size

  abbrev root : M.Node
  root = M.root tree

  abbrev handled : Option (List Frame)
  handled = rpc_msg_handler M K (call_method M K float_add) server content sent

  -- For a ready server whose table has "add" alone, the handler reads past the end of its buffer
  -- for the id exactly where the message is a call of a method other than "add" whose id is longer
  -- than the buffer.
  pub rpc_msg_handler-fault_iff : (handled ≡ none) ↔ (
      (is_message M tree ≡ true)
      × (is_call M tree ≡ true)
      × (bytes_eq (codes "add") (M.content (M.child root 1)) ≡ false)
      × (requestid_size < id_len M (id_node M (M.child root 0))))
  rpc_msg_handler-fault_iff =
      rw (rpc_msg_handler-answer M L K float_add server ready has content sent) (ground arith)

  -- For a ready server whose table has "add" alone, a message that is handled without a fault
  -- leads to no frame, or to one reply: two frames, the first a topic that is not empty, the
  -- second an encoded document.
  pub rpc_msg_handler-at_most_one :
      {after : List Frame}
      → handled ≡ some after
      → (frames : List Frame) × (after ≡ sent ++ frames) × ((frames ≡ []) ⊎ IsReply M server frames)
  rpc_msg_handler-at_most_one {after} h =
      let e = rw (rpc_msg_handler-answer M L K float_add server ready has content sent) at h in
      elim (Option-cases (answer M float_add server tree)) [
        | inl bad ↦ absurd (ground arith)
        | inr (frames, good) ↦ (frames, ground arith, answer-IsReply M L float_add server tree good)
      ]
