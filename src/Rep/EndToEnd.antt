-- ===== src/Rep/EndToEnd.antt =====
-- A call of the older server and its reply as documents, from the bytes that a client writes to
-- those that a worker sends (rpcserver/rpcs.cpp, rpcserver/rpc_request_add.cpp).
use zeromq_rpc_test.Prelude.{
  ℕ, ◌^◌, ◌≤◌, ◌<◌, ◌≡◌, ◌∙◌, refl, ap, Bool, false, not, ◌&&◌, List, [], ◌∷◌, ◌++◌, map, Option,
  none, some, Bytes, codes, bytes_eq, bytes_eq_iff, has_nul, length, Bool-cases, inl, inr, ltb,
  arith, if◌then◌else◌,
}
use zeromq_rpc_test.External.Doc.{Doc, Docs, str, arr, end, item}
use zeromq_rpc_test.External.Mpack.{Mpack, IsMpack}
use zeromq_rpc_test.External.Mpack.Reading.{IsReadable, nodes, depth, Shows, CanRead}
use zeromq_rpc_test.External.RpcHash.{RpcHash, IsRpcHash}
use zeromq_rpc_test.External.Zmq.{Frame, received}
use zeromq_rpc_test.Server.AddReply.{success_document}
use zeromq_rpc_test.Server.Documents.{as_params, Shows-IsRead}
use zeromq_rpc_test.Rep.Comm.{Handler}
use zeromq_rpc_test.Rep.Manager.{RequestFunc, rpc_hash_mgr_init}
use zeromq_rpc_test.Rep.Worker.{pool_size, cstr_size, rpcs_worker_thread}
use zeromq_rpc_test.Rep.Sum.{reply_frame, unknown_document, opresult_document}
use zeromq_rpc_test.Rep.Answer.{calls_add, reply_document, reply_to, rpcs_worker_thread-replies}

-- [name, params], and whether another frame follows.
pub record RepCall (F : Type 0) : Type 0 where
  pub name : Bytes
  pub params : Doc F
  pub more : Bool

module _ {F : Type 0} where
  abbrev pub call_document : RepCall F → Doc F
  call_document c = arr (item (str c.name) (item c.params end))

  -- The call can be read, and fits the pool.
  abbrev pub CanCall : (F → Type 0) → RepCall F → Type 0
  CanCall IsFloat c =
      (length c.name < 2 ^ 32)
      × IsReadable IsFloat c.params
      × (nodes c.params ≤ 126)
      × (depth c.params ≤ 30)

  abbrev pub AllCan : (F → Type 0) → List (RepCall F) → Type 0
  AllCan IsFloat [] = Unit
  AllCan IsFloat (c ∷ cs) = CanCall IsFloat c × AllCan IsFloat cs

  module _ (narrow : ℕ → F) (float_add : F → F → F) where
    abbrev pub reply_to_add : Option (ℕ × ℕ) → Docs F
    reply_to_add (some (a, b)) = success_document (float_add (narrow a) (narrow b))
    reply_to_add none = opresult_document false

    -- The document that replies to a call.
    abbrev pub reply_to_call : RepCall F → Docs F
    reply_to_call c =
        if bytes_eq (codes "add") c.name
        then reply_to_add (as_params c.params)
        else unknown_document

module _ {F : Type 0} (M : Mpack F) where
  abbrev pub call_bytes : RepCall F → Bytes × Bool
  call_bytes c = (M.encode (item (call_document c) end), c.more)

  -- The frame that replies to a call.
  abbrev pub call_reply : (ℕ → F) → (F → F → F) → Handler → RepCall F → Frame
  call_reply narrow float_add handler c =
      reply_frame handler (M.encode (reply_to_call narrow float_add c))

-- The name of the method is a C string that fits.
add_is_plain :
    (s : Bytes)
    → (ltb (length s) cstr_size && not (has_nul s)) && bytes_eq (codes "add") s
      ≡ bytes_eq (codes "add") s
add_is_plain s = elim (Bool-cases (bytes_eq (codes "add") s)) [
  | inl add ↦ rw (← (bytes_eq_iff (codes "add") s).0 add)
  | inr other ↦ rw other (ground arith)
]

module _ {F : Type 0} (M : Mpack F) (R : CanRead M) (float_add : F → F → F) (c : RepCall F)
    (can : CanCall R.IsFloat c) where
  abbrev call : Doc F
  call = call_document c

  call_read :
      (M.failed (M.tree_parse (M.encode (item call end)) pool_size) ≡ false)
      × Shows M R.narrow (M.root (M.tree_parse (M.encode (item call end)) pool_size)) call
  call_read =
      R.parse_written call pool_size (omega arith, (omega (arith, can.0), (can.1, tt)))
        (omega (arith, can.2)) (omega (arith, can.3))

  module _ (t : M.Tree) (ok : M.failed t ≡ false) (h : Shows M R.narrow (M.root t) call) where
    name_shown : calls_add M float_add t ≡ bytes_eq (codes "add") c.name
    unfolding Shows
    name_shown = rw (ok, h.0, h.1, h.2.0.0, h.2.0.1, h.2.0.2) (add_is_plain c.name)

    document_shown : reply_document M float_add t ≡ reply_to_call R.narrow float_add c
    unfolding Shows
    document_shown =
        let read = Shows-IsRead M R.narrow float_add (M.child (M.root t) 1) c.params h.2.1.0 in
        elim (Bool-cases (bytes_eq (codes "add") c.name)) [
          | inr other ↦ rw (name_shown, other)
          | inl add ↦ elim read [
            | inl (a, b, two, valid, sum) ↦ rw (name_shown, add, h.1, ok, valid, two, sum)
            | inr (other, invalid, tag) ↦ rw (name_shown, add, h.1, ok, invalid, other)
          ]
        ]

  -- The bytes of a call are replied to as the call.
  pub reply_to-call :
      (handler : Handler)
      → reply_frame handler (
          M.encode (reply_document M float_add (M.tree_parse (M.encode (item call end)) pool_size)))
        ≡ reply_frame handler (M.encode (reply_to_call R.narrow float_add c))
  reply_to-call handler =
      let t = M.tree_parse (M.encode (item call end)) pool_size in
      ap (λ (ds : Docs F). reply_frame handler (M.encode ds))
        (document_shown t call_read.0 call_read.1)

module _ {F : Type 0} (M : Mpack F) (L : IsMpack M) (R : CanRead M) (K : RpcHash RequestFunc)
    (LK : IsRpcHash K) (float_add : F → F → F) (before : Option K.Table) (handler : Handler) where
  pub replies-calls :
      (cs : List (RepCall F))
      → AllCan R.IsFloat cs
      → map (λ m. reply_to M L K LK float_add before handler m.0) (map (call_bytes M) cs)
        ≡ map (call_reply M R.narrow float_add handler) cs
  replies-calls [] can = refl
  replies-calls (c ∷ cs) can =
      rw (reply_to-call M R float_add c can.0 handler, replies-calls cs can.1)

  -- With an MPack that reads what it writes, a worker with an initialised manager replies to the
  -- bytes of calls one by one, in order: to "add" on an array of two doubles by the sum of them,
  -- each rounded to a float, to "add" on anything else by ["FAILED"], and to every other name by
  -- ["FAILED", "unknown entry"].
  pub rpcs_worker_thread-call_replies :
      (cs : List (RepCall F)) (sent : List Frame)
      → AllCan R.IsFloat cs
      → rpcs_worker_thread M K float_add
          (rpc_hash_mgr_init K before)
          handler
          (map (λ m. received m.0 m.1) (map (call_bytes M) cs))
          sent
        ≡ some (sent ++ map (call_reply M R.narrow float_add handler) cs)
  rpcs_worker_thread-call_replies cs sent can =
      rpcs_worker_thread-replies M L K LK float_add before handler (map (call_bytes M) cs) sent
      ∙ ap (λ (fs : List Frame). some (sent ++ fs)) (replies-calls cs can)
