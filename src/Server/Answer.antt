-- ===== src/Server/Answer.antt =====
-- What the server answers, as a function of the parsed message, and that the handler implements it.
use mathlib.Core.Option
use zeromq_rpc_test.Prelude.{
  ◌<◌, ◌≡◌, ◌∙◌, true, false, not, ◌&&◌, List, [], ◌++◌, Option, none, some, Bytes, codes, bytes_eq,
  ◌==◌, leb, take, Bool-cases, append-nil, inl, inr, arith, if◌then◌else◌,
}
use zeromq_rpc_test.External.MpackType.{is_type_iff, array_type}
use zeromq_rpc_test.External.Mpack.{Mpack, IsMpack}
use zeromq_rpc_test.External.RpcHash.{RpcHash}
use zeromq_rpc_test.External.Zmq.{Frame}
use zeromq_rpc_test.Server.World.{World}
use zeromq_rpc_test.Server.Defs.{Server, rpc_get_callfunc}
use zeromq_rpc_test.Server.Request.{requestid_size, requestid_buffer}
use zeromq_rpc_test.Server.Handler.{pool_size, dispatch, rpc_msg_handler}
use zeromq_rpc_test.Server.RequestId.{id_node, id_len, id_buffer}
use zeromq_rpc_test.Server.ErrorReply.{
  IsReady, reply_frames, error_document, call_send_error_reply_lem,
}
use zeromq_rpc_test.Server.AddReply.{add_answer, rpc_request_add_lem, rpc_request_add_failed}
use zeromq_rpc_test.Server.Dispatch.{
  is_message, is_call, start_of, name_read, rpc_msg_handler_dropped, rpc_msg_handler-call,
  rpc_msg_handler_incomplete, message_flagged,
}
use zeromq_rpc_test.Server.Application.{Method, rpc_request_add_method, call_method}

module _ {F Tbl : Type 0} (M : Mpack F) (float_add : F → F → F) (server : Server Tbl) where
  -- The answer to a call of a method that is not there: none without an id, the error document
  -- under the id, and a fault (`none`) under an id of more than 128 bytes.
  abbrev pub unsupported_answer : M.Node → Option (List Frame)
  unsupported_answer head =
      let id = id_node M head in
      if id_len M id == 0
      then some []
      else if leb (id_len M id) requestid_size
      then some (
          reply_frames server (take (id_len M id) (id_buffer M id requestid_size requestid_buffer))
            (M.encode (error_document server (codes "unsupported function"))))
      else none

  abbrev pub answer : M.Tree → Option (List Frame)
  answer t =
      if not (is_message M t && is_call M t)
      then some []
      else if bytes_eq (codes "add") (M.content (M.child (M.root t) 1))
      then some (add_answer M float_add server (M.root t))
      else unsupported_answer (M.child (M.root t) 0)

-- The frames sent before, with those of an answer.
abbrev pub and_answer : List Frame → Option (List Frame) → Option (List Frame)
and_answer sent a = Option.map (λ frames. sent ++ frames) a

-- A table with the one method "add".
abbrev pub HasAdd : (K : RpcHash Method) → Server K.Table → Type 0
HasAdd K server =
    (table : K.Table) × (server.rpc_hashmgr ≡ some table)
    × ((name : Bytes)
        → K.rpc_hash_get table name
          ≡ (if bytes_eq (codes "add") name then some rpc_request_add_method else none))

module _ {F : Type 0} (M : Mpack F) (L : IsMpack M) (K : RpcHash Method) (float_add : F → F → F)
    (server : Server K.Table) (ready : IsReady server) (has : HasAdd K server) (content : Bytes)
    (sent : List Frame) where
  abbrev tree : M.Tree
  tree = M.tree_parse content pool_size

  abbrev root : M.Node
  root = M.root tree

  abbrev handled : Option (List Frame)
  handled = rpc_msg_handler M K (call_method M K float_add) server content sent

  handled_incomplete : is_message M tree ≡ true → is_call M tree ≡ false → handled ≡ some sent
  unfolding dispatch rpc_get_callfunc
  handled_incomplete message bad =
      let name = name_read M L K (call_method M K float_add) server content sent in
      let w : World M.Tree = record { tree = M.flag tree; sent = sent } in
      elim (Bool-cases (bytes_eq (codes "add") name)) [
        | inr other ↦
            rpc_msg_handler_incomplete M L K (call_method M K float_add) server content sent has.0
              ready has.1 message bad (has.2 name ∙ rw other)
        | inl add ↦
            message_flagged M L K (call_method M K float_add) server content sent message bad
            ∙ ground (
              arith,
              has.1,
              has.2 name,
              rpc_request_add_failed M L float_add server root w (L.failed-flag tree),
            )
      ]

  module _ (message : is_message M tree ≡ true) (good : is_call M tree ≡ true) where
    sound : M.failed tree ≡ false
    sound = ground arith

    listed : M.node_tag root ≡ array_type
    listed = ground (arith, is_type_iff (M.node_tag root) array_type)

    long : 2 < M.node_len root
    long = ground arith

    -- The name of the call.
    abbrev name : Bytes
    name = M.content (M.child root 1)

    handled_add :
        bytes_eq (codes "add") name ≡ true
        → handled ≡ some (sent ++ add_answer M float_add server root)
    unfolding dispatch rpc_get_callfunc
    handled_add add =
        rpc_msg_handler-call M L K (call_method M K float_add) server content sent message good
        ∙ ground (
          arith,
          has.1,
          has.2 name,
          rpc_request_add_lem M L float_add server ready root (start_of M content sent) sound listed
              long,
        )

    handled_other :
        bytes_eq (codes "add") name ≡ false
        → handled ≡ and_answer sent (unsupported_answer M float_add server (M.child root 0))
    unfolding dispatch rpc_get_callfunc
    handled_other other =
        rpc_msg_handler-call M L K (call_method M K float_add) server content sent message good
        ∙ ground (
          arith,
          has.1,
          has.2 name,
          append-nil sent,
          call_send_error_reply_lem M L server ready root (codes "unsupported function")
              (start_of M content sent) sound listed (omega (arith, long)) (omega arith),
        )

  -- For a ready server whose table has "add" alone, whatever the bytes of the message are, the
  -- handler sends what `answer` says of the parsed message behind what was sent before, and
  -- faults exactly where `answer` does.
  pub rpc_msg_handler-answer : handled ≡ and_answer sent (answer M float_add server tree)
  rpc_msg_handler-answer = elim (Bool-cases (is_message M tree)) [
    | inr no_message ↦
        rw (no_message, append-nil)
          (rpc_msg_handler_dropped M L K (call_method M K float_add) server content sent no_message)
    | inl message ↦ elim (Bool-cases (is_call M tree)) [
      | inr bad ↦ rw (message, bad, append-nil) (handled_incomplete message bad)
      | inl good ↦ elim (Bool-cases (bytes_eq (codes "add") (M.content (M.child root 1)))) [
        | inl add ↦ rw (message, good, add) (handled_add message good add)
        | inr other ↦ rw (message, good, other) (handled_other message good other)
      ]
    ]
  ]
