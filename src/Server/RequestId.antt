-- ===== src/Server/RequestId.antt =====
-- `rpc_msg_get_request_id` and `rpc_check_request_id_validity` on every branch.
use zeromq_rpc_test.Prelude.{
  ℕ, ◌<◌, ◌≡◌, refl, Bool, true, false, not, ◌&&◌, [], Option, none, some, Bytes, codes, ◌==◌,
  length, ltb, store_cstr, length-store_cstr, take, take-append, drop, ◌+◌, ◌∷◌, Bool-cases,
  Option-cases, inl, inr, arith, if◌then◌else◌,
}
use zeromq_rpc_test.External.MpackType.{is_type, is_type_iff, map_type, array_type, str_type}
use zeromq_rpc_test.External.Mpack.{Mpack, IsMpack}
use zeromq_rpc_test.External.Mpack.Laws.{is_copied}
use zeromq_rpc_test.Server.World.{World, ◌>>=◌}
use zeromq_rpc_test.Server.Request.{
  rpc_msg_get_request_id, rpc_check_request_id_validity, requestid_buffer, requestid_size,
}

module _ {F : Type 0} (M : Mpack F) where
  -- The value that the head of a message has for "request_id".
  abbrev pub id_node : M.Node → Option M.Node
  id_node n = if is_type (M.node_tag n) map_type then M.find n (codes "request_id") else none

  -- The size of the id: that of its node, and 0 where there is none.
  abbrev pub id_len : Option M.Node → ℕ
  id_len none = 0
  id_len (some v) = M.node_len v

  -- What the buffer of `size` bytes holds after the call.
  abbrev pub id_buffer : Option M.Node → ℕ → Bytes → Bytes
  id_buffer none size buf = buf
  id_buffer (some v) size buf =
      if M.node_len v == 0
      then buf
      else store_cstr (if is_copied M v size then M.content v else []) buf

  -- The tree after the call: in error where the map has no id, or the id cannot be copied.
  abbrev pub id_tree : M.Node → Option M.Node → ℕ → M.Tree → M.Tree
  id_tree n none size t = if is_type (M.node_tag n) map_type then M.flag t else t
  id_tree n (some v) size t =
      if M.node_len v == 0 then t else if is_copied M v size then t else M.flag t

  -- Whether the first element of an array has an id of some length.
  abbrev pub head_has_id : M.Node → Bool
  head_has_id root =
      (is_type (M.node_tag root) array_type && ltb 0 (M.node_len root))
      && not (id_len (id_node (M.child root 0)) == 0)

module _ {F : Type 0} (M : Mpack F) (L : IsMpack M) where
  id_absent :
      (n : M.Node) (buf : Bytes) (size : ℕ) (w : World M.Tree)
      → M.failed w.tree ≡ false
      → is_type (M.node_tag n) map_type ≡ true
      → M.find n (codes "request_id") ≡ none
      → rpc_msg_get_request_id M n buf size w ≡ some ((buf, 0), record w { tree = M.flag w.tree })
  unfolding rpc_msg_get_request_id
  id_absent n buf size w ok tag e = rw (
    tag,
    L.map_cstr_absent n (codes "request_id") w.tree ok ((is_type_iff _ _).0 tag) e,
    L.nil_node-len,
  )

  id_present :
      (n : M.Node) (buf : Bytes) (size : ℕ) (w : World M.Tree) (v : M.Node)
      → M.failed w.tree ≡ false
      → is_type (M.node_tag n) map_type ≡ true
      → M.find n (codes "request_id") ≡ some v
      → rpc_msg_get_request_id M n buf size w
        ≡ some (
          (id_buffer M (some v) size buf, M.node_len v),
          record w { tree = id_tree M n (some v) size w.tree },
        )
  unfolding rpc_msg_get_request_id
  id_present n buf size w v ok tag e =
      rw (tag, L.map_cstr_found n (codes "request_id") w.tree v ok ((is_type_iff _ _).0 tag) e)
        (elim (Bool-cases (is_copied M v size)) [
          | inl c ↦ ground (arith, L.copy_cstr_lem v size w.tree)
          | inr c ↦ ground (arith, L.copy_cstr_lem v size w.tree)
        ])

  pub rpc_msg_get_request_id_lem :
      (n : M.Node) (buf : Bytes) (size : ℕ) (w : World M.Tree)
      → M.failed w.tree ≡ false
      → rpc_msg_get_request_id M n buf size w
        ≡ some (
          (id_buffer M (id_node M n) size buf, id_len M (id_node M n)),
          record w { tree = id_tree M n (id_node M n) size w.tree },
        )
  rpc_msg_get_request_id_lem n buf size w ok = elim (Bool-cases (is_type (M.node_tag n) map_type)) [
    | inr other ↦ unfold rpc_msg_get_request_id in rw (other, other)
    | inl tag ↦ elim (Option-cases (M.find n (codes "request_id"))) [
      | inl e ↦ rw (tag, e, tag) (id_absent n buf size w ok tag e)
      | inr (v, e) ↦ rw (tag, e) (id_present n buf size w v ok tag e)
    ]
  ]

  -- In error there is no id.
  pub rpc_msg_get_request_id_failed :
      (n : M.Node) (buf : Bytes) (size : ℕ) (w : World M.Tree)
      → M.failed w.tree ≡ true
      → rpc_msg_get_request_id M n buf size w ≡ some ((buf, 0), w)
  unfolding rpc_msg_get_request_id
  rpc_msg_get_request_id_failed n buf size w bad =
      elim (Bool-cases (is_type (M.node_tag n) map_type)) [
        | inl tag ↦ rw (tag, L.map_cstr_in_error n (codes "request_id") w.tree bad, L.nil_node-len)
        | inr tag ↦ rw tag
      ]

  validity_of_head :
      (root : M.Node) (w : World M.Tree)
      → M.failed w.tree ≡ false
      → is_type (M.node_tag root) array_type && ltb 0 (M.node_len root) ≡ true
      → (w' : World M.Tree) × (rpc_check_request_id_validity M root w
          ≡ some (not (id_len M (id_node M (M.child root 0)) == 0), w'))
        × (w'.sent ≡ w.sent)
  unfolding rpc_check_request_id_validity
  validity_of_head root w ok e = (
    record w { tree = id_tree M (M.child root 0) (id_node M (M.child root 0)) 128 w.tree },
    rw
        (
          L.array_at_lem root 0 w.tree,
          ok,
          e,
          ◌>>=◌,
          rpc_msg_get_request_id_lem (M.child root 0) requestid_buffer requestid_size w ok,
        )
        (ground arith),
    refl,
  )

  no_head :
      (root : M.Node) (w : World M.Tree)
      → M.failed w.tree ≡ false
      → is_type (M.node_tag root) array_type && ltb 0 (M.node_len root) ≡ false
      → rpc_check_request_id_validity M root w
        ≡ some (head_has_id M root, record w { tree = M.flag w.tree })
  unfolding rpc_check_request_id_validity
  no_head root w ok e =
      rw
        (
          L.array_at_lem root 0 w.tree,
          ok,
          e,
          ◌>>=◌,
          rpc_msg_get_request_id_failed M.nil_node requestid_buffer requestid_size
              (record w { tree = M.flag w.tree }) (L.failed-flag w.tree),
        )
        (ground arith)

  -- On a tree without error, a message has a valid id exactly where it is an array whose first
  -- element is a map with a nonempty value for "request_id", whatever that value is.
  pub rpc_check_request_id_validity_lem :
      (root : M.Node) (w : World M.Tree)
      → M.failed w.tree ≡ false
      → (w' : World M.Tree) × (rpc_check_request_id_validity M root w
          ≡ some (head_has_id M root, w'))
        × (w'.sent ≡ w.sent)
  rpc_check_request_id_validity_lem root w ok =
      elim (Bool-cases (is_type (M.node_tag root) array_type && ltb 0 (M.node_len root))) [
        | inl e ↦ rw e (validity_of_head root w ok e)
        | inr e ↦ (record w { tree = M.flag w.tree }, no_head root w ok e, refl)
      ]

  -- The buffer keeps its length.
  pub id_buffer-length :
      (id : Option M.Node) (size : ℕ) (buf : Bytes)
      → length buf ≡ size
      → 0 < size
      → length (id_buffer M id size buf) ≡ size
  id_buffer-length none size buf e pos = e
  id_buffer-length (some v) size buf e pos = ground (
    arith,
    L.content_length v,
    length-store_cstr (M.content v) buf,
    length-store_cstr [] buf,
    is_type_iff (M.node_tag v) str_type,
  )

  -- The bytes that a reply takes from the buffer are the id itself, where it was copied.
  pub take-id_buffer :
      (v : M.Node) (size : ℕ) (buf : Bytes)
      → is_copied M v size ≡ true
      → M.node_len v == 0 ≡ false
      → take (M.node_len v) (id_buffer M (some v) size buf) ≡ M.content v
  take-id_buffer v size buf c pos = rw (
    pos,
    c,
    ← L.content_length v (ground (arith, is_type_iff (M.node_tag v) str_type)),
    take-append (M.content v) (0 ∷ drop (length (M.content v) + 1) buf),
  )
