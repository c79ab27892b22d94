-- ===== src/Rep/Sum.antt =====
-- The replies of the older server, and what its method `add` sends (rpcserver/rpc_comm.cpp,
-- rpcserver/rpc_request_add.cpp).
use zeromq_rpc_test.Prelude.{
  ◌≡◌, refl, Bool, true, false, [], ◌∷◌, ◌++◌, some, Bytes, codes, length, leb, take-all,
  Bool-cases, inl, inr, arith, if◌then◌else◌,
}
use zeromq_rpc_test.External.MpackType.{is_type_iff, array_type}
use zeromq_rpc_test.External.Doc.{Docs, str, arr, end, item}
use zeromq_rpc_test.External.Mpack.{Mpack, IsMpack}
use zeromq_rpc_test.External.Mpack.Laws.{array_at_ok, node_float_ok, buffer_used_fits}
use zeromq_rpc_test.External.Zmq.{Frame}
use zeromq_rpc_test.Server.World.{World, ◌>>=◌}
use zeromq_rpc_test.Server.AddReply.{success_document, sum_of, two_doubles}
use zeromq_rpc_test.Rep.Comm.{
  Handler, buff_size, rpc_send_reply, opresult_calls, opresult2_calls, rpc_request_reply_opresult,
  rpc_request_reply_opresult2,
}
use zeromq_rpc_test.Rep.Add.{
  add, add_request_calls, rpc_send_add_request_reply, rpc_request_add, param_types,
}
use zeromq_rpc_test.Rep.Params.{accepts, rpc_check_param_validity_lem}

-- A reply is one frame, the last of its message.
abbrev pub reply_frame : Handler → Bytes → Frame
reply_frame handler msg = record { socket = handler.socket; bytes = msg; more = false }

-- The state after a reply.
abbrev pub replied : {T : Type 0} → Handler → Bytes → World T → World T
replied handler msg w = record w { sent = w.sent ++ (reply_frame handler msg ∷ []) }

-- ["FAILED"], or ["SUCCESS"].
abbrev pub opresult_document : {F : Type 0} → Bool → Docs F
opresult_document result =
    item (arr (item (str (if result then codes "SUCCESS" else codes "FAILED")) end)) end

-- ["FAILED", "unknown entry"]
abbrev pub unknown_document : {F : Type 0} → Docs F
unknown_document =
    item (arr (item (str (codes "FAILED")) (item (str (codes "unknown entry")) end))) end

send_reply_whole :
    {T : Type 0} (handler : Handler) (msg : Bytes) (w : World T)
    → rpc_send_reply handler msg (length msg) w ≡ some (tt, replied handler msg w)
unfolding rpc_send_reply
send_reply_whole handler msg w =
    let fits : leb (length msg) (length msg) ≡ true = ground arith in
    rw (◌>>=◌, fits, take-all (length msg) msg (omega arith))

module _ {F : Type 0} (M : Mpack F) (L : IsMpack M) (handler : Handler) (w : World M.Tree) where
  -- The result of an operation is sent as ["SUCCESS"] or ["FAILED"].
  pub rpc_request_reply_opresult_lem :
      (result : Bool)
      → rpc_request_reply_opresult M handler result w
        ≡ some (true, replied handler (M.encode (opresult_document result)) w)
  unfolding rpc_request_reply_opresult opresult_calls
  rpc_request_reply_opresult_lem true =
      rw
        (buffer_used_fits M L buff_size (opresult_calls true) (opresult_document true) refl
          (omega arith))
        (ground (arith, send_reply_whole handler (M.encode (opresult_document true)) w))
  rpc_request_reply_opresult_lem false =
      rw
        (buffer_used_fits M L buff_size (opresult_calls false) (opresult_document false) refl
          (omega arith))
        (ground (arith, send_reply_whole handler (M.encode (opresult_document false)) w))

  -- The reply for a function that is not there.
  pub reply_unknown :
      rpc_request_reply_opresult2 M handler false (some (codes "unknown entry")) w
      ≡ some (true, replied handler (M.encode unknown_document) w)
  unfolding rpc_request_reply_opresult2 opresult2_calls
  reply_unknown =
      rw
        (buffer_used_fits M L buff_size (opresult2_calls false (some (codes "unknown entry")))
          unknown_document refl (omega arith))
        (ground (arith, send_reply_whole handler (M.encode unknown_document) w))

  send_sum :
      (value : F)
      → rpc_send_add_request_reply M handler value w
        ≡ some (tt, replied handler (M.encode (success_document value)) w)
  unfolding rpc_send_add_request_reply add_request_calls
  send_sum value =
      rw
        (buffer_used_fits M L buff_size (add_request_calls value) (success_document value) refl
          (omega arith))
        (send_reply_whole handler (M.encode (success_document value)) w)

module _ {F : Type 0} (M : Mpack F) (float_add : F → F → F) where
  -- What `add` replies on some parameters.
  abbrev pub sum_document : M.Node → M.Tree → Docs F
  sum_document n t =
      if accepts M n param_types t
      then success_document (sum_of M float_add n)
      else opresult_document false

module _ {F : Type 0} (M : Mpack F) (L : IsMpack M) (float_add : F → F → F) (handler : Handler)
    (n : M.Node) (w : World M.Tree) where
  add_accepted :
      accepts M n param_types w.tree ≡ true
      → rpc_request_add M float_add handler n w
        ≡ some (tt, replied handler (M.encode (success_document (sum_of M float_add n))) w)
  unfolding rpc_request_add add
  add_accepted good =
      let ok : M.failed w.tree ≡ false = ground arith in
      let tag : M.node_tag n ≡ array_type = ground (arith, is_type_iff (M.node_tag n) array_type) in
      let (two, d0, d1) = two_doubles M n (M.node_len n) (ground arith) in
      rw (◌>>=◌, rpc_check_param_validity_lem M L n param_types w, good)
        (ground (
          arith,
          array_at_ok M L n 0 w.tree ok tag (omega arith),
          array_at_ok M L n 1 w.tree ok tag (omega arith),
          node_float_ok M L (M.child n 0) w.tree ok (rw d0),
          node_float_ok M L (M.child n 1) w.tree ok (rw d1),
          send_sum M L handler w (sum_of M float_add n),
        ))

  -- Whatever its parameters and the tree are, `add` sends exactly one reply: the sum on an array
  -- of two doubles in a tree without error, and ["FAILED"] in every other case.
  pub rpc_request_add_reply :
      rpc_request_add M float_add handler n w
      ≡ some (tt, replied handler (M.encode (sum_document M float_add n w.tree)) w)
  unfolding rpc_request_add
  rpc_request_add_reply = elim (Bool-cases (accepts M n param_types w.tree)) [
    | inl good ↦ rw good (add_accepted good)
    | inr bad ↦ rw bad (
        ground (
          arith,
          rpc_check_param_validity_lem M L n param_types w,
          rpc_request_reply_opresult_lem M L handler w false,
        ))
  ]
