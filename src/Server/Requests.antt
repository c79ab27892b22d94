-- ===== src/Server/Requests.antt =====
-- How well-formed requests are answered, and the ids that spoil an answer (rpcserver.cpp,
-- rpc_application_add.cpp).
use zeromq_rpc_test.Prelude.{
  ℕ, ◌≤◌, ◌<◌, ◌≡◌, ◌∙◌, true, false, List, [], ◌++◌, Option, none, some, Bytes, codes, bytes_eq,
  ◌==◌, leb, take-replicate, replicate, Bool-cases, append-nil, inl, inr, arith, if◌then◌else◌,
}
use zeromq_rpc_test.External.MpackType.{is_type, array_type, map_type}
use zeromq_rpc_test.External.Doc.{Docs}
use zeromq_rpc_test.External.Mpack.{Mpack, IsMpack}
use zeromq_rpc_test.External.Mpack.Laws.{IsCopied, is_copied}
use zeromq_rpc_test.External.RpcHash.{RpcHash}
use zeromq_rpc_test.External.Zmq.{Frame}
use zeromq_rpc_test.Server.Defs.{Server}
use zeromq_rpc_test.Server.Request.{requestid_size, requestid_buffer}
use zeromq_rpc_test.Server.Handler.{pool_size, function_name_size, rpc_msg_handler}
use zeromq_rpc_test.Server.RequestId.{id_node, take-id_buffer}
use zeromq_rpc_test.Server.ErrorReply.{IsReady, reply_frames, error_document}
use zeromq_rpc_test.Server.AddReply.{are_params, sum_of, success_document}
use zeromq_rpc_test.Server.Dispatch.{is_message, is_call}
use zeromq_rpc_test.Server.Application.{Method, call_method}
use zeromq_rpc_test.Server.Answer.{HasAdd, rpc_msg_handler-answer}

module _ {F : Type 0} (M : Mpack F) where
  -- A message [{"request_id": v}, name, parameters], with a name that is a short string.
  pub record IsRequest (t : M.Tree) (v : M.Node) (name : Bytes) : Type 0 where
    pub sound : M.failed t ≡ false
    pub listed : M.node_tag (M.root t) ≡ array_type
    pub long : 2 < M.node_len (M.root t)
    pub headed : M.node_tag (M.child (M.root t) 0) ≡ map_type
    pub has_id : M.find (M.child (M.root t) 0) (codes "request_id") ≡ some v
    pub named : IsCopied M (M.child (M.root t) 1) function_name_size
    pub name_is : M.content (M.child (M.root t) 1) ≡ name

  -- A nonempty string that fits the buffer for ids.
  abbrev pub IsId : M.Node → Bytes → Type 0
  IsId v id = IsCopied M v requestid_size × (M.content v ≡ id) × (0 < M.node_len v)

module _ {F : Type 0} (M : Mpack F) (t : M.Tree) (v : M.Node) (name : Bytes)
    (req : IsRequest M t v name) where
  request-is_message : is_message M t ≡ true
  request-is_message = rw (req.sound, req.listed, req.headed) (ground (arith, req.long))

  request-is_call : is_call M t ≡ true
  request-is_call = ground (arith, req.long, req.named)

  request-id_node : id_node M (M.child (M.root t) 0) ≡ some v
  request-id_node = rw (req.headed, req.has_id)

module _ {F Tbl : Type 0} (M : Mpack F) (float_add : F → F → F) (server : Server Tbl) where
  -- The document that answers a request, if one does.
  abbrev pub response : Bytes → M.Node → Option (Docs F)
  response name params =
      if bytes_eq (codes "add") name
      then (if are_params M params
          then some (success_document (sum_of M float_add params))
          else if is_type (M.node_tag params) array_type
          then some (error_document server (codes "invalid parameters."))
          else none)
      else some (error_document server (codes "unsupported function"))

  abbrev pub response_frames : Bytes → Option (Docs F) → List Frame
  response_frames id none = []
  response_frames id (some doc) = reply_frames server id (M.encode doc)

module _ {F : Type 0} (M : Mpack F) (L : IsMpack M) (K : RpcHash Method) (float_add : F → F → F)
    (server : Server K.Table) (ready : IsReady server) (has : HasAdd K server) (content : Bytes)
    (sent : List Frame) where
  abbrev tree : M.Tree
  tree = M.tree_parse content pool_size

  abbrev root : M.Node
  root = M.root tree

  -- For a ready server whose table has "add" alone, a well-formed request with a good id is
  -- answered under exactly that id: "add" on an array of two doubles by their sum, "add" on
  -- another array by "invalid parameters.", and every other name by "unsupported function". Only
  -- "add" on what is no array has no answer.
  pub rpc_msg_handler-request :
      (v : M.Node) (name id : Bytes)
      → IsRequest M tree v name
      → IsId M v id
      → rpc_msg_handler M K (call_method M K float_add) server content sent
        ≡ some (
            sent
            ++ response_frames M float_add server id
                (response M float_add server name (M.child root 2)))
  rpc_msg_handler-request v name id req good =
      rpc_msg_handler-answer M L K float_add server ready has content sent
      ∙ ground (
        arith,
        req.sound,
        req.listed,
        req.long,
        req.headed,
        req.has_id,
        req.named,
        req.name_is,
        take-id_buffer M L v requestid_size requestid_buffer (ground arith) (ground arith),
        append-nil sent,
      )

  -- For a ready server whose table has "add" alone, a request whose id has a length from 1 to 128
  -- but cannot be copied (it is no string, holds a NUL, or has exactly 128 bytes) is not answered
  -- under its id: "add" does not answer at all, and any other name is answered under a topic of as
  -- many NULs as the id is long.
  pub rpc_msg_handler-spoiled_id :
      (v : M.Node) (name : Bytes)
      → IsRequest M tree v name
      → 0 < M.node_len v
      → M.node_len v ≤ requestid_size
      → is_copied M v requestid_size ≡ false
      → rpc_msg_handler M K (call_method M K float_add) server content sent
        ≡ some (
            if bytes_eq (codes "add") name
            then sent
            else sent
              ++ reply_frames server
                  (replicate (M.node_len v) 0)
                  (M.encode (error_document server (codes "unsupported function"))))
  rpc_msg_handler-spoiled_id v name req pos fits bad =
      let some_length : M.node_len v == 0 ≡ false = ground arith in
      let within : leb (M.node_len v) requestid_size ≡ true = ground arith in
      rpc_msg_handler-answer M L K float_add server ready has content sent
      ∙ rw
          (
            request-is_message M tree v name req,
            request-is_call M tree v name req,
            request-id_node M tree v name req,
            req.name_is,
            some_length,
            within,
            bad,
            take-replicate {A = ℕ} (M.node_len v) requestid_size 0 fits,
          )
          (elim (Bool-cases (bytes_eq (codes "add") name)) [
            | inl add ↦ rw (add, append-nil)
            | inr other ↦ rw other
          ])
