-- ===== src/Server/AddReply/Sum.antt =====
-- The reply of `add` that holds a sum (rpc_application_add.cpp).
use mathlib.Core.Option
use zeromq_rpc_test.Prelude.{
  ℕ, zero, suc, ◌≤◌, ◌≡◌, refl, Bool, true, false, ◌&&◌, List, ◌++◌, Option, some, Bytes, codes,
  length, take, arith,
}
use zeromq_rpc_test.External.MpackType.{is_type, is_type_iff, array_type, double_type}
use zeromq_rpc_test.External.Doc.{Docs, str, float, arr, end, item, written}
use zeromq_rpc_test.External.Mpack.{Mpack, IsMpack}
use zeromq_rpc_test.External.Mpack.Laws.{array_at_ok, node_float_ok, buffer_used_fits}
use zeromq_rpc_test.External.Zmq.{Frame}
use zeromq_rpc_test.Server.World.{World}
use zeromq_rpc_test.Server.Defs.{Server}
use zeromq_rpc_test.Server.Reply.{reply_size}
use zeromq_rpc_test.Server.Add.{add1, rpc_encode_add_request_reply, param_types, reply_sum}
use zeromq_rpc_test.Server.Params.{types_match, child_tags}
use zeromq_rpc_test.Server.ErrorReply.{IsReady, reply_frames, call_send_reply_lem}

-- The frames after an action, if it is no fault.
abbrev pub sent_after : {T : Type 0} → Option (Unit {0} × World T) → Option (List Frame)
sent_after r = Option.map (λ p. (p.1).sent) r

-- ["SUCCESS", [value]]
abbrev pub success_document : {F : Type 0} → F → Docs F
success_document value =
    item (arr (item (str (codes "SUCCESS")) (item (arr (item (float value) end)) end))) end

success_document-written :
    {F : Type 0} (value : F)
    → written (rpc_encode_add_request_reply value) ≡ some (success_document value)
unfolding rpc_encode_add_request_reply
success_document-written value = refl

module _ {F : Type 0} (M : Mpack F) (float_add : F → F → F) where
  -- The sum of the two parameters.
  abbrev pub sum_of : M.Node → F
  sum_of params = float_add (M.number (M.child params 0)) (M.number (M.child params 1))

module _ {F : Type 0} (M : Mpack F) where
  -- An array of two doubles.
  abbrev pub are_params : M.Node → Bool
  are_params params =
      is_type (M.node_tag params) array_type
      && types_match (child_tags M params (M.node_len params) 0) param_types

  pub two_doubles :
      (params : M.Node) (count : ℕ)
      → types_match (child_tags M params count 0) param_types ≡ true
      → (count ≡ 2)
        × (M.node_tag (M.child params 0) ≡ double_type)
        × (M.node_tag (M.child params 1) ≡ double_type)
  two_doubles params zero h = cc
  two_doubles params (suc zero) h = ground arith
  two_doubles params (suc (suc zero)) h = ground (
    arith,
    is_type_iff (M.node_tag (M.child params 0)) double_type,
    is_type_iff (M.node_tag (M.child params 1)) double_type,
  )
  two_doubles params (suc (suc (suc n))) h = ground arith

module _ {F Tbl : Type 0} (M : Mpack F) (L : IsMpack M) (float_add : F → F → F)
    (server : Server Tbl) (ready : IsReady server) where
  success_document-fits :
      (value : F)
      → M.buffer_used reply_size (rpc_encode_add_request_reply value)
        ≡ M.encode (success_document value)
  success_document-fits value =
      buffer_used_fits M L reply_size (rpc_encode_add_request_reply value) (success_document value)
        (success_document-written value) (omega arith)

  -- On two doubles the sum is sent under what the buffer holds of the id.
  pub reply_sum_lem :
      (params : M.Node) (requestid : Bytes) (size : ℕ) (w : World M.Tree)
      → M.failed w.tree ≡ false
      → are_params M params ≡ true
      → size ≤ length requestid
      → reply_sum M float_add server params requestid size w
        ≡ some (
          tt,
          record w {
            sent =
                w.sent
                ++ reply_frames server
                    (take size requestid)
                    (M.encode (success_document (sum_of M float_add params)));
          },
        )
  unfolding reply_sum add1
  reply_sum_lem params requestid size w ok good fits =
      let tag : M.node_tag params ≡ array_type =
        ground (arith, is_type_iff (M.node_tag params) array_type) in
      let (two, d0, d1) = two_doubles M params (M.node_len params) (ground arith) in
      let sum = sum_of M float_add params in
      ground (
        arith,
        array_at_ok M L params 0 w.tree ok tag (omega arith),
        array_at_ok M L params 1 w.tree ok tag (omega arith),
        node_float_ok M L (M.child params 0) w.tree ok (rw d0),
        node_float_ok M L (M.child params 1) w.tree ok (rw d1),
        call_send_reply_lem server ready requestid size (M.encode (success_document sum)) w,
        success_document-fits sum,
      )
