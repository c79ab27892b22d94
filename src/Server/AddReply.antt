-- ===== src/Server/AddReply.antt =====
-- `rpc_request_add` on every branch (rpc_application_add.cpp).
mod Sum
pub use Sum.*
use mathlib.Core.Option
use zeromq_rpc_test.Prelude.{
  ℕ, zero, suc, ◌≤◌, ◌<◌, ◌≡◌, refl, Bool, true, false, not, ◌&&◌, ◌||◌, List, [], ◌++◌, Option,
  none, some, Bytes, codes, ◌==◌, length, take, Bool-cases, Option-cases, append-nil, inl, inr,
  arith, if◌then◌else◌,
}
use zeromq_rpc_test.External.MpackType.{is_type, is_type_iff, array_type, double_type}
use zeromq_rpc_test.External.Doc.{Docs, str, float, arr, end, item, written}
use zeromq_rpc_test.External.Mpack.{Mpack, IsMpack}
use zeromq_rpc_test.External.Mpack.Laws.{
  is_copied, array_at_ok, array_at_failed, node_float_ok, buffer_used_fits,
}
use zeromq_rpc_test.External.Zmq.{Frame}
use zeromq_rpc_test.Server.World.{World}
use zeromq_rpc_test.Server.Defs.{Server}
use zeromq_rpc_test.Server.Request.{requestid_buffer, requestid_size}
use zeromq_rpc_test.Server.Reply.{reply_size}
use zeromq_rpc_test.Server.Add.{
  add1, rpc_encode_add_request_reply, param_types, reply_sum, rpc_request_add,
}
use zeromq_rpc_test.Server.RequestId.{
  id_node, id_len, id_buffer, id_buffer-length, take-id_buffer, rpc_msg_get_request_id_lem,
  rpc_msg_get_request_id_failed,
}
use zeromq_rpc_test.Server.Params.{
  types_match, child_tags, rpc_check_params_validity_lem, rpc_check_params_validity_failed,
}
use zeromq_rpc_test.Server.ErrorReply.{
  IsReady, reply_frames, error_document, call_send_reply_lem, call_send_error_reply_lem,
  call_send_error_reply_failed,
}

module _ {F Tbl : Type 0} (M : Mpack F) (float_add : F → F → F) (server : Server Tbl) where
  -- The frames that `add` sends for a request whose id is the given node.
  abbrev pub add_reply : M.Node → M.Node → List Frame
  add_reply v params =
      if M.node_len v == 0 || not (is_copied M v requestid_size)
      then []
      else if are_params M params
      then reply_frames server (M.content v)
          (M.encode (success_document (sum_of M float_add params)))
      else if is_type (M.node_tag params) array_type
      then reply_frames server (M.content v)
          (M.encode (error_document server (codes "invalid parameters.")))
      else []

  abbrev answer_under : Option M.Node → M.Node → List Frame
  answer_under none params = []
  answer_under (some v) params = add_reply v params

  abbrev pub add_answer : M.Node → List Frame
  add_answer root = answer_under (id_node M (M.child root 0)) (M.child root 2)

module _ {F Tbl : Type 0} (M : Mpack F) (L : IsMpack M) (float_add : F → F → F)
    (server : Server Tbl) (ready : IsReady server) (root : M.Node) (w : World M.Tree)
    (ok : M.failed w.tree ≡ false) (tag : M.node_tag root ≡ array_type)
    (long : 2 < M.node_len root) where
  abbrev head : M.Node
  head = M.child root 0

  abbrev params : M.Node
  params = M.child root 2

  -- Without an id, or with an empty one, nothing is sent.
  add_silent :
      id_len M (id_node M head) ≡ 0
      → sent_after (rpc_request_add M float_add server root w) ≡ some w.sent
  unfolding rpc_request_add
  add_silent none_there = ground (
    arith,
    array_at_ok M L root 2 w.tree ok tag long,
    array_at_ok M L root 0 w.tree ok tag (omega arith),
    rpc_msg_get_request_id_lem M L head requestid_buffer requestid_size w ok,
  )

  -- With an id that is no short string the tree is in error, and nothing is sent.
  add_uncopied :
      (v : M.Node)
      → id_node M head ≡ some v
      → M.node_len v == 0 ≡ false
      → is_copied M v requestid_size ≡ false
      → sent_after (rpc_request_add M float_add server root w) ≡ some w.sent
  unfolding rpc_request_add
  add_uncopied v e pos bad =
      let w' : World M.Tree = record w { tree = M.flag w.tree } in
      ground (
        arith,
        array_at_ok M L root 2 w.tree ok tag long,
        array_at_ok M L root 0 w.tree ok tag (omega arith),
        rpc_msg_get_request_id_lem M L head requestid_buffer requestid_size w ok,
        rpc_check_params_validity_failed M L params param_types w' (L.failed-flag w.tree)
            (omega arith),
        call_send_error_reply_failed M L server ready root (codes "invalid parameters.") w'
            (L.failed-flag w.tree),
      )

  module _ (v : M.Node) (e : id_node M head ≡ some v) (pos : M.node_len v == 0 ≡ false)
      (good : is_copied M v requestid_size ≡ true) where
    -- The prefix of the handler up to the test of the parameters, on a good id.
    add_sum :
        are_params M params ≡ true
        → sent_after (rpc_request_add M float_add server root w)
          ≡ some (
              w.sent
              ++ reply_frames server
                  (M.content v)
                  (M.encode (success_document (sum_of M float_add params))))
    unfolding rpc_request_add
    add_sum valid = ground (
      arith,
      array_at_ok M L root 2 w.tree ok tag long,
      array_at_ok M L root 0 w.tree ok tag (omega arith),
      rpc_msg_get_request_id_lem M L head requestid_buffer requestid_size w ok,
      rpc_check_params_validity_lem M L params param_types w ok,
      reply_sum_lem M L float_add server ready params
          (id_buffer M (some v) requestid_size requestid_buffer) (M.node_len v) w ok valid
          (ground (arith, id_buffer-length M L (some v) requestid_size requestid_buffer refl)),
      take-id_buffer M L v requestid_size requestid_buffer good pos,
    )

    add_invalid :
        is_type (M.node_tag params) array_type ≡ true
        → are_params M params ≡ false
        → sent_after (rpc_request_add M float_add server root w)
          ≡ some (
              w.sent
              ++ reply_frames server
                  (M.content v)
                  (M.encode (error_document server (codes "invalid parameters."))))
    unfolding rpc_request_add
    add_invalid list bad = ground (
      arith,
      array_at_ok M L root 2 w.tree ok tag long,
      array_at_ok M L root 0 w.tree ok tag (omega arith),
      rpc_msg_get_request_id_lem M L head requestid_buffer requestid_size w ok,
      rpc_check_params_validity_lem M L params param_types w ok,
      call_send_error_reply_lem M L server ready root (codes "invalid parameters.") w ok tag
          (omega arith) (omega arith),
      take-id_buffer M L v requestid_size requestid_buffer good pos,
    )

    add_no_list :
        is_type (M.node_tag params) array_type ≡ false
        → sent_after (rpc_request_add M float_add server root w) ≡ some w.sent
    unfolding rpc_request_add
    add_no_list other =
        let w' : World M.Tree = record w { tree = M.flag w.tree } in
        ground (
          arith,
          array_at_ok M L root 2 w.tree ok tag long,
          array_at_ok M L root 0 w.tree ok tag (omega arith),
          rpc_msg_get_request_id_lem M L head requestid_buffer requestid_size w ok,
          rpc_check_params_validity_lem M L params param_types w ok,
          call_send_error_reply_failed M L server ready root (codes "invalid parameters.") w'
              (L.failed-flag w.tree),
        )

module _ {F Tbl : Type 0} (M : Mpack F) (L : IsMpack M) (float_add : F → F → F)
    (server : Server Tbl) (ready : IsReady server) (root : M.Node) (w : World M.Tree)
    (ok : M.failed w.tree ≡ false) (tag : M.node_tag root ≡ array_type)
    (long : 2 < M.node_len root) where
  answer_with_id :
      (v : M.Node)
      → id_node M (M.child root 0) ≡ some v
      → sent_after (rpc_request_add M float_add server root w)
        ≡ some (w.sent ++ add_reply M float_add server v (M.child root 2))
  answer_with_id v e = elim (Bool-cases (M.node_len v == 0)) [
    | inl empty ↦
        rw (empty, append-nil)
          (add_silent M L float_add server ready root w ok tag long (rw e (ground arith)))
    | inr pos ↦ elim (Bool-cases (is_copied M v requestid_size)) [
      | inr bad ↦
          rw (pos, bad, append-nil)
            (add_uncopied M L float_add server ready root w ok tag long v e pos bad)
      | inl good ↦ elim (Bool-cases (are_params M (M.child root 2))) [
        | inl valid ↦
            rw (pos, good, valid)
              (add_sum M L float_add server ready root w ok tag long v e pos good valid)
        | inr invalid ↦ elim (Bool-cases (is_type (M.node_tag (M.child root 2)) array_type)) [
          | inl list ↦
              rw (pos, good, invalid, list)
                (add_invalid M L float_add server ready root w ok tag long v e pos good list
                  invalid)
          | inr other ↦
              rw (pos, good, invalid, other, append-nil)
                (add_no_list M L float_add server ready root w ok tag long v e pos good other)
        ]
      ]
    ]
  ]

  -- For a ready server and a message that is an array of at least three elements, on a tree
  -- without error, `add` sends exactly this: the sum as a success document under the id, if the id is a nonempty
  -- string of at most 127 bytes without NUL and the third element is an array of two doubles; the
  -- error document "invalid parameters." under such an id, if the third element is another array;
  -- and nothing in every other case. It is never a fault.
  pub rpc_request_add_lem :
      sent_after (rpc_request_add M float_add server root w)
      ≡ some (w.sent ++ add_answer M float_add server root)
  rpc_request_add_lem = elim (Option-cases (id_node M (M.child root 0))) [
    | inl e ↦ rw (e, append-nil) (add_silent M L float_add server ready root w ok tag long (rw e))
    | inr (v, e) ↦ rw e (answer_with_id v e)
  ]

module _ {F Tbl : Type 0} (M : Mpack F) (L : IsMpack M) (float_add : F → F → F)
    (server : Server Tbl) where
  -- On a tree in error `add` does nothing.
  pub rpc_request_add_failed :
      (root : M.Node) (w : World M.Tree)
      → M.failed w.tree ≡ true
      → rpc_request_add M float_add server root w ≡ some (tt, w)
  unfolding rpc_request_add
  rpc_request_add_failed root w bad = ground (
    arith,
    array_at_failed M L root 2 w.tree bad,
    array_at_failed M L root 0 w.tree bad,
    rpc_msg_get_request_id_failed M L M.nil_node requestid_buffer requestid_size w bad,
  )
