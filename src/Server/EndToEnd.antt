-- ===== src/Server/EndToEnd.antt =====
-- A call and its reply as documents, from the bytes that a client writes to those that the
-- server sends (rpcserver.cpp, rpc_application_add.cpp).
use zeromq_rpc_test.Prelude.{
  ℕ, ◌≡◌, Bool, true, false, List, ◌++◌, Option, none, some, Bytes, codes, bytes_eq, Bool-cases,
  inl, inr, arith, if◌then◌else◌,
}
use zeromq_rpc_test.External.Doc.{Doc, Docs, end, item}
use zeromq_rpc_test.External.Mpack.{Mpack, IsMpack}
use zeromq_rpc_test.External.Mpack.Reading.{CanRead}
use zeromq_rpc_test.External.RpcHash.{RpcHash}
use zeromq_rpc_test.External.Zmq.{Frame}
use zeromq_rpc_test.Server.Defs.{Server}
use zeromq_rpc_test.Server.Handler.{pool_size, rpc_msg_handler}
use zeromq_rpc_test.Server.ErrorReply.{IsReady, error_document}
use zeromq_rpc_test.Server.AddReply.{success_document}
use zeromq_rpc_test.Server.Application.{Method, call_method}
use zeromq_rpc_test.Server.Answer.{HasAdd}
use zeromq_rpc_test.Server.Requests.{response, response_frames, rpc_msg_handler-request}
use zeromq_rpc_test.Server.Documents.{as_params, is_array, IsRead, Shows-IsRead}
use zeromq_rpc_test.Server.Calls.{request_document, IsCall, request_read, tree-IsRequest}

module _ {F Tbl : Type 0} (narrow : ℕ → F) (float_add : F → F → F) (server : Server Tbl) where
  -- What `add` replies to two doubles, to another array, and to what is no array.
  abbrev pub reply_to_add : Option (ℕ × ℕ) → Bool → Option (Docs F)
  reply_to_add (some (a, b)) is_list = some (success_document (float_add (narrow a) (narrow b)))
  reply_to_add none true = some (error_document server (codes "invalid parameters."))
  reply_to_add none false = none

  -- The document that replies to a call, if one does.
  abbrev pub reply_to_call : Bytes → Doc F → Option (Docs F)
  reply_to_call name params =
      if bytes_eq (codes "add") name
      then reply_to_add (as_params params) (is_array params)
      else some (error_document server (codes "unsupported function"))

module _ {F Tbl : Type 0} (M : Mpack F) (narrow : ℕ → F) (float_add : F → F → F)
    (server : Server Tbl) where
  response-reply_to_call :
      (name : Bytes) (n : M.Node) (params : Doc F)
      → IsRead M narrow float_add n params
      → response M float_add server name n ≡ reply_to_call narrow float_add server name params
  response-reply_to_call name n params read = elim (Bool-cases (bytes_eq (codes "add") name)) [
    | inr other ↦ rw other
    | inl add ↦ elim read [
      | inl (a, b, two, valid, sum) ↦ rw (add, valid, two, sum)
      | inr (other, invalid, tag) ↦ rw (add, invalid, tag, other) (ground arith)
    ]
  ]

module _ {F : Type 0} (M : Mpack F) (L : IsMpack M) (R : CanRead M) (K : RpcHash Method)
    (float_add : F → F → F) (server : Server K.Table) (ready : IsReady server)
    (has : HasAdd K server) (sent : List Frame) where
  -- For a ready server whose table has "add" alone, and an MPack that reads what it writes: the
  -- bytes of a call are answered under its id, by the sum of the parameters, each rounded to a
  -- float, where "add" is called on an array of two doubles, by "invalid parameters." where it is
  -- called on another array, by nothing where on no array, and by "unsupported function" where
  -- another name is called.
  pub rpc_msg_handler-replies :
      (id name : Bytes) (params : Doc F)
      → IsCall R.IsFloat id name params
      → rpc_msg_handler M K
          (call_method M K float_add)
          server
          (M.encode (item (request_document id name params) end))
          sent
        ≡ some (
            sent
            ++ response_frames M float_add server id
                (reply_to_call R.narrow float_add server name params))
  rpc_msg_handler-replies id name params call =
      let bytes = M.encode (item (request_document id name params) end) in
      let (ok, shown) = request_read M R id name params call in
      let (v, req, good, read) =
        tree-IsRequest M R id name params call (M.tree_parse bytes pool_size) ok shown in
      rw
        (← response-reply_to_call M R.narrow float_add server name
          (M.child (M.root (M.tree_parse bytes pool_size)) 2) params
          (Shows-IsRead M R.narrow float_add _ params read))
        (rpc_msg_handler-request M L K float_add server ready has bytes sent v name id req good)
