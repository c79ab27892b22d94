-- ===== src/Rep/ReadBack.antt =====
-- The replies of the older server as a client reads them (rpcserver/rpcs.cpp,
-- rpcserver/rpc_request_add.cpp, rpcserver/rpc_comm.cpp).
use zeromq_rpc_test.Prelude.{
  ℕ, ◌≤◌, ◌≡◌, ◌∙◌, ap, false, List, [], ◌∷◌, ◌++◌, Option, none, some, codes, bytes_eq, Bool-cases,
  inl, inr, arith,
}
use zeromq_rpc_test.External.Doc.{Docs, end, item}
use zeromq_rpc_test.External.Mpack.{Mpack, IsMpack}
use zeromq_rpc_test.External.Mpack.Reading.{Shows, CanRead}
use zeromq_rpc_test.External.RpcHash.{RpcHash, IsRpcHash}
use zeromq_rpc_test.External.Zmq.{Frame}
use zeromq_rpc_test.Server.Documents.{as_params}
use zeromq_rpc_test.Rep.Comm.{Handler}
use zeromq_rpc_test.Rep.Manager.{RequestFunc, rpc_hash_mgr_init}
use zeromq_rpc_test.Rep.Worker.{msg_handler}
use zeromq_rpc_test.Rep.Sum.{reply_frame}
use zeromq_rpc_test.Rep.Answer.{msg_handler-reply_to}
use zeromq_rpc_test.Rep.EndToEnd.{
  RepCall, call_document, CanCall, reply_to_add, reply_to_call, reply_to-call,
}

module _ {F : Type 0} (M : Mpack F) (R : CanRead M) where
  -- One document, which is read again as itself from a pool with four nodes at least.
  abbrev pub IsReadBack : ℕ → Docs F → Type 0
  IsReadBack pool (item d end) =
      (M.failed (M.tree_parse (M.encode (item d end)) pool) ≡ false)
      × Shows M R.narrow (M.root (M.tree_parse (M.encode (item d end)) pool)) d
  IsReadBack pool _ = ⊥

  module _ (float_add : F → F → F)
      (sums : (a b : ℕ) → R.IsFloat (float_add (R.narrow a) (R.narrow b))) (pool : ℕ)
      (fits : 4 ≤ pool) where
    reply_to_add-IsReadBack :
        (params : Option (ℕ × ℕ)) → IsReadBack pool (reply_to_add R.narrow float_add params)
    reply_to_add-IsReadBack (some (a, b)) =
        R.parse_written _ pool (ground (arith, sums a b)) (omega (arith, fits)) (omega arith)
    reply_to_add-IsReadBack none =
        R.parse_written _ pool (ground arith) (omega (arith, fits)) (omega arith)

    reply_to_call-IsReadBack :
        (c : RepCall F) → IsReadBack pool (reply_to_call R.narrow float_add c)
    reply_to_call-IsReadBack c = elim (Bool-cases (bytes_eq (codes "add") c.name)) [
      | inl add ↦ rw add (reply_to_add-IsReadBack (as_params c.params))
      | inr other ↦
          rw other (R.parse_written _ pool (ground arith) (omega (arith, fits)) (omega arith))
    ]

module _ {F : Type 0} (M : Mpack F) (L : IsMpack M) (R : CanRead M) (K : RpcHash RequestFunc)
    (LK : IsRpcHash K) (float_add : F → F → F)
    (sums : (a b : ℕ) → R.IsFloat (float_add (R.narrow a) (R.narrow b))) (before : Option K.Table)
    (handler : Handler) where
  -- With an initialised manager, sums that are floats and an MPack that reads what it writes: for
  -- the bytes of a call exactly one frame is sent, the reply to the call, and a client whose pool
  -- has four nodes at least parses it without error as that one document.
  pub msg_handler-IsReadBack :
      (c : RepCall F) (sent : List Frame) (pool : ℕ)
      → CanCall R.IsFloat c
      → 4 ≤ pool
      → (msg_handler M K float_add
            (rpc_hash_mgr_init K before)
            handler
            (M.encode (item (call_document c) end))
            sent
          ≡ some
              (sent ++ (reply_frame handler (M.encode (reply_to_call R.narrow float_add c)) ∷ [])))
        × IsReadBack M R pool (reply_to_call R.narrow float_add c)
  msg_handler-IsReadBack c sent pool can fits = (
    msg_handler-reply_to M L K LK float_add before handler (M.encode (item (call_document c) end))
          sent
        ∙ ap (λ (f : Frame). some (sent ++ (f ∷ []))) (reply_to-call M R float_add c can handler),
    reply_to_call-IsReadBack M R float_add sums pool fits c,
  )
