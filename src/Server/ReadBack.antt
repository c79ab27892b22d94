-- ===== src/Server/ReadBack.antt =====
-- The replies as a client reads them (rpcserver.cpp, rpc_application_add.cpp).
use mathlib.Core.Path.{subst}
use zeromq_rpc_test.Prelude.{
  ℕ, ◌≤◌, ◌≡◌, false, Option, none, some, Bytes, codes, bytes_eq, length, Bool-cases, Option-cases,
  inl, inr, arith, List, ◌++◌, ◌∙◌,
}
use zeromq_rpc_test.External.Doc.{Doc, Docs, end, item}
use zeromq_rpc_test.External.Mpack.{Mpack, IsMpack}
use zeromq_rpc_test.External.Mpack.Reading.{Shows, CanRead}
use zeromq_rpc_test.Server.Defs.{Server}
use zeromq_rpc_test.Server.ErrorReply.{IsReady, reply_frames, error_document}
use zeromq_rpc_test.Server.AddReply.{success_document}
use zeromq_rpc_test.Server.Documents.{as_params, is_array}
use zeromq_rpc_test.Server.EndToEnd.{reply_to_add, reply_to_call, rpc_msg_handler-replies}
use zeromq_rpc_test.External.RpcHash.{RpcHash}
use zeromq_rpc_test.External.Zmq.{Frame}
use zeromq_rpc_test.Server.Handler.{rpc_msg_handler}
use zeromq_rpc_test.Server.Application.{Method, call_method}
use zeromq_rpc_test.Server.Answer.{HasAdd}
use zeromq_rpc_test.Server.Calls.{request_document, IsCall}

module _ {F Tbl : Type 0} (M : Mpack F) (R : CanRead M) (float_add : F → F → F)
    (sums : (a b : ℕ) → R.IsFloat (float_add (R.narrow a) (R.narrow b))) (server : Server Tbl)
    (ready : IsReady server) where
  -- The document is read again as itself, from a pool with eight nodes at least.
  abbrev IsReadBack : Doc F → Type 0
  IsReadBack d =
      (pool : ℕ)
      → 8 ≤ pool
      → (M.failed (M.tree_parse (M.encode (item d end)) pool) ≡ false)
        × Shows M R.narrow (M.root (M.tree_parse (M.encode (item d end)) pool)) d

  abbrev AllReadBack : Docs F → Type 0
  AllReadBack end = Unit
  AllReadBack (item d ds) = IsReadBack d × AllReadBack ds

  abbrev IfReadBack : Option (Docs F) → Type 0
  IfReadBack none = Unit
  IfReadBack (some ds) = AllReadBack ds

  success_document-read :
      (a b : ℕ) → AllReadBack (success_document (float_add (R.narrow a) (R.narrow b)))
  success_document-read a b = (
    λ pool fits.
        R.parse_written _ pool (ground (arith, sums a b)) (omega (arith, fits)) (omega arith),
    tt,
  )

  error_document-read :
      (cause : Bytes) → length cause ≤ 100 → AllReadBack (error_document server cause)
  error_document-read cause short = (
    λ pool fits.
        R.parse_written _ pool (ground (arith, short, ready.named)) (omega (arith, fits))
          (omega arith),
    tt,
  )

  reply_to_add-read_back :
      (params : Doc F)
      → IfReadBack (reply_to_add R.narrow float_add server (as_params params) (is_array params))
  reply_to_add-read_back params = elim (Option-cases (as_params params)) [
    | inr (two, e) ↦ rw e (success_document-read two.0 two.1)
    | inl e ↦ elim (Bool-cases (is_array params)) [
      | inl list ↦ rw (e, list) (error_document-read (codes "invalid parameters.") (omega arith))
      | inr other ↦ rw (e, other) tt
    ]
  ]

  reply_to_call-read_back :
      (name : Bytes) (params : Doc F)
      → IfReadBack (reply_to_call R.narrow float_add server name params)
  reply_to_call-read_back name params = elim (Bool-cases (bytes_eq (codes "add") name)) [
    | inr other ↦ rw other (error_document-read (codes "unsupported function") (omega arith))
    | inl add ↦ rw add (reply_to_add-read_back params)
  ]

  -- A reply to a call is read again as that reply.
  reply_to_call-read :
      (name : Bytes) (params d : Doc F)
      → reply_to_call R.narrow float_add server name params ≡ some (item d end)
      → IsReadBack d
  reply_to_call-read name params d e = (subst IfReadBack e (reply_to_call-read_back name params)).0

module _ {F : Type 0} (M : Mpack F) (L : IsMpack M) (R : CanRead M) (K : RpcHash Method)
    (float_add : F → F → F) (sums : (a b : ℕ) → R.IsFloat (float_add (R.narrow a) (R.narrow b)))
    (server : Server K.Table) (ready : IsReady server) (has : HasAdd K server) where
  -- For a ready server whose table has "add" alone, with sums that are floats and an MPack that
  -- reads what it writes: where a call has a reply, the server sends one message of two frames
  -- for the bytes of the call, first the id and then bytes that a client whose pool has eight
  -- nodes at least parses without error as exactly that reply.
  pub rpc_msg_handler-read :
      (id name : Bytes) (params d : Doc F) (sent : List Frame) (pool : ℕ)
      → IsCall R.IsFloat id name params
      → 8 ≤ pool
      → reply_to_call R.narrow float_add server name params ≡ some (item d end)
      → (rpc_msg_handler M K
            (call_method M K float_add)
            server
            (M.encode (item (request_document id name params) end))
            sent
          ≡ some (sent ++ reply_frames server id (M.encode (item d end))))
        × (M.failed (M.tree_parse (M.encode (item d end)) pool) ≡ false)
        × Shows M R.narrow (M.root (M.tree_parse (M.encode (item d end)) pool)) d
  rpc_msg_handler-read id name params d sent pool call fits e =
      let (sound, shown) =
        reply_to_call-read M R float_add sums server ready name params d e pool fits in
      (
        rpc_msg_handler-replies M L R K float_add server ready has sent id name params call ∙ rw e,
        sound,
        shown,
      )
