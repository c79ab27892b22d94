-- ===== src/Server/Params.antt =====
-- `rpc_check_params_validity` compares the tags of the parameters with the wanted ones.
use zeromq_rpc_test.Prelude.{
  ℕ, zero, suc, ◌+◌, ◌≤◌, ◌<◌, ◌≡◌, ◌≢◌, refl, Bool, true, false, ◌&&◌, List, [], ◌∷◌, some, ◌==◌,
  ==_iff, ap, length, drop, drop-all, drop-get, Bool-cases, inl, inr, arith, if◌then◌else◌,
}
use zeromq_rpc_test.External.MpackType.{MpackType, is_type, is_type_iff, array_type}
use zeromq_rpc_test.External.Mpack.{Mpack, IsMpack}
use zeromq_rpc_test.External.Mpack.Laws.{array_at_ok}
use zeromq_rpc_test.Server.World.{World}
use zeromq_rpc_test.Server.Request.{check_loop, rpc_check_params_validity}

-- The same tags in the same order.
abbrev pub types_match : List MpackType → List MpackType → Bool
types_match [] [] = true
types_match [] (b ∷ bs) = false
types_match (a ∷ as_) [] = false
types_match (a ∷ as_) (b ∷ bs) = is_type a b && types_match as_ bs

pub types_match-length :
    (as_ bs : List MpackType) → length as_ ≢ length bs → types_match as_ bs ≡ false
types_match-length [] [] h = absurd (h refl)
types_match-length [] (b ∷ bs) h = refl
types_match-length (a ∷ as_) [] h = refl
types_match-length (a ∷ as_) (b ∷ bs) h =
    ground (arith, types_match-length as_ bs (λ e. h (ap suc e)))

module _ {F : Type 0} (M : Mpack F) where
  -- The tags of `count` elements from the index on.
  abbrev pub child_tags : M.Node → ℕ → ℕ → List MpackType
  child_tags n zero i = []
  child_tags n (suc count) i = M.node_tag (M.child n i) ∷ child_tags n count (i + 1)

module _ {F : Type 0} (M : Mpack F) (L : IsMpack M) where
  -- On an array with enough elements the loop compares the tags from the index on.
  pub check_loop_lem :
      (n : M.Node) (wanted : List MpackType) (rounds idx : ℕ) (w : World M.Tree)
      → M.failed w.tree ≡ false
      → M.node_tag n ≡ array_type
      → idx + rounds ≤ M.node_len n
      → idx + rounds ≡ length wanted
      → check_loop M n wanted rounds idx w
        ≡ some (types_match (child_tags M n rounds idx) (drop idx wanted), w)
  unfolding check_loop
  check_loop_lem n wanted zero idx w ok tag le e = rw (drop-all idx wanted (omega arith))
  check_loop_lem n wanted (suc rounds) idx w ok tag le e =
      let (type, got, split) = drop-get wanted idx (omega arith) in
      let at = array_at_ok M L n idx w.tree ok tag (omega arith) in
      elim (Bool-cases (is_type (M.node_tag (M.child n idx)) type)) [
        | inl same ↦
            rw (got, split, at, same)
              (check_loop_lem n wanted rounds (idx + 1) w ok tag (omega arith) (omega arith))
        | inr other ↦ rw (got, split, at, other)
      ]

  tags_count : (n : M.Node) (count i : ℕ) → length (child_tags M n count i) ≡ count
  tags_count n zero i = refl
  tags_count n (suc count) i = ap suc (tags_count n count (i + 1))

  pub lengths_differ :
      (n : M.Node) (wanted : List MpackType)
      → M.node_len n == length wanted ≡ false
      → length (child_tags M n (M.node_len n) 0) ≢ length wanted
  lengths_differ n wanted other e = ground (arith, tags_count n (M.node_len n) 0)

  not_array :
      (n : M.Node) (wanted : List MpackType) (w : World M.Tree)
      → M.failed w.tree ≡ false
      → is_type (M.node_tag n) array_type ≡ false
      → rpc_check_params_validity M n wanted (length wanted) w
        ≡ some (
            if is_type (M.node_tag n) array_type
            then (types_match (child_tags M n (M.node_len n) 0) wanted, w)
            else (length wanted == 0, record w { tree = M.flag w.tree }))
  unfolding rpc_check_params_validity check_loop
  not_array n [] w ok tag = rw (L.node_type_lem n w.tree, L.array_length_lem n w.tree, ok, tag)
  not_array n (x ∷ xs) w ok tag =
      rw (L.node_type_lem n w.tree, L.array_length_lem n w.tree, ok, tag) (ground arith)

  -- On a tree without error, with as many wanted tags as `size` says: an array is accepted exactly
  -- where the tags of its elements are the wanted ones, in order, and nothing changes; what is no
  -- array is refused, unless no parameter is wanted, and puts the tree in error.
  pub rpc_check_params_validity_lem :
      (n : M.Node) (wanted : List MpackType) (w : World M.Tree)
      → M.failed w.tree ≡ false
      → rpc_check_params_validity M n wanted (length wanted) w
        ≡ some (
            if is_type (M.node_tag n) array_type
            then (types_match (child_tags M n (M.node_len n) 0) wanted, w)
            else (length wanted == 0, record w { tree = M.flag w.tree }))
  unfolding rpc_check_params_validity
  rpc_check_params_validity_lem n wanted w ok =
      elim (Bool-cases (is_type (M.node_tag n) array_type)) [
        | inl tag ↦ elim (Bool-cases (M.node_len n == length wanted)) [
          | inl same ↦
              rw (L.node_type_lem n w.tree, L.array_length_lem n w.tree, ok, tag, same)
                (check_loop_lem n wanted (M.node_len n) 0 w ok ((is_type_iff _ _).0 tag)
                  (omega arith) (omega (arith, (==_iff (M.node_len n) (length wanted)).0 same)))
          | inr other ↦
              rw (L.node_type_lem n w.tree, L.array_length_lem n w.tree, ok, tag, other)
                (rw (
                  types_match-length (child_tags M n (M.node_len n) 0) wanted
                    (λ e. lengths_differ n wanted other e)))
        ]
        | inr tag ↦ not_array n wanted w ok tag
      ]

  -- On a tree in error no parameters are valid, if some are wanted.
  pub rpc_check_params_validity_failed :
      (n : M.Node) (wanted : List MpackType) (w : World M.Tree)
      → M.failed w.tree ≡ true
      → 0 < length wanted
      → rpc_check_params_validity M n wanted (length wanted) w ≡ some (false, w)
  unfolding rpc_check_params_validity check_loop
  rpc_check_params_validity_failed n [] w bad pos = absurd (omega arith)
  rpc_check_params_validity_failed n (x ∷ xs) w bad pos =
      rw (L.node_type_lem n w.tree, L.array_length_lem n w.tree, bad) (ground arith)
