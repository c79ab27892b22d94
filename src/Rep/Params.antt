-- ===== src/Rep/Params.antt =====
-- `rpc_check_param_validity` of the older server (rpcserver/rpc_comm.cpp).
use zeromq_rpc_test.Prelude.{
  ◌≡◌, Bool, false, not, ◌&&◌, List, some, ◌==◌, ==_iff, length, Bool-cases, inl, inr, arith,
}
use zeromq_rpc_test.External.MpackType.{MpackType, is_type, is_type_iff, array_type}
use zeromq_rpc_test.External.Mpack.{Mpack, IsMpack}
use zeromq_rpc_test.Server.World.{World}
use zeromq_rpc_test.Server.Params.{
  types_match, types_match-length, child_tags, check_loop_lem, lengths_differ,
}
use zeromq_rpc_test.Rep.Comm.{rpc_check_param_validity}

module _ {F : Type 0} (M : Mpack F) where
  -- An array whose elements have the wanted tags, in order, on a tree without error.
  abbrev pub accepts : M.Node → List MpackType → M.Tree → Bool
  accepts n wanted t =
      not (M.failed t)
      && (is_type (M.node_tag n) array_type && types_match (child_tags M n (M.node_len n) 0) wanted)

module _ {F : Type 0} (M : Mpack F) (L : IsMpack M) (n : M.Node) (wanted : List MpackType)
    (w : World M.Tree) where
  accepts_array :
      M.failed w.tree ≡ false
      → M.node_tag n ≡ array_type
      → rpc_check_param_validity M n wanted (length wanted) w
        ≡ some (types_match (child_tags M n (M.node_len n) 0) wanted, w)
  unfolding rpc_check_param_validity
  accepts_array ok tag = elim (Bool-cases (M.node_len n == length wanted)) [
    | inl same ↦
        rw (L.node_type_lem n w.tree, ok, tag, L.array_length_lem n w.tree, ok, tag, same)
          (check_loop_lem M L n wanted (M.node_len n) 0 w ok tag (omega arith)
            (omega (arith, (==_iff (M.node_len n) (length wanted)).0 same)))
    | inr other ↦
        rw
          (
            L.node_type_lem n w.tree,
            ok,
            tag,
            L.array_length_lem n w.tree,
            ok,
            tag,
            other,
            types_match-length (child_tags M n (M.node_len n) 0) wanted
                (lengths_differ M L n wanted other),
          )
          (ground arith)
  ]

  -- With as many wanted tags as `size` says, exactly those arrays are accepted whose elements have
  -- the wanted tags, in order; whatever the tree and the node are, the check changes nothing, and
  -- on a tree in error it refuses.
  pub rpc_check_param_validity_lem :
      rpc_check_param_validity M n wanted (length wanted) w ≡ some (accepts M n wanted w.tree, w)
  unfolding rpc_check_param_validity
  rpc_check_param_validity_lem = elim (Bool-cases (M.failed w.tree)) [
    | inl bad ↦ rw (L.node_type_lem n w.tree, bad) (ground arith)
    | inr ok ↦ elim (Bool-cases (is_type (M.node_tag n) array_type)) [
      | inl tag ↦ rw (ok, tag) (accepts_array ok ((is_type_iff (M.node_tag n) array_type).0 tag))
      | inr other ↦ rw (L.node_type_lem n w.tree, ok, other) (ground arith)
    ]
  ]
