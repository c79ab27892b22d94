-- ===== src/External/Mpack/Laws.antt =====
-- The equations of the calls, case by case, and which documents some calls write.
use zeromq_rpc_test.Prelude.{
  ℕ, ◌≤◌, ◌<◌, ◌≡◌, Bool, true, false, not, ◌&&◌, List, [], some, has_nul, arith, ltb,
}
use zeromq_rpc_test.External.MpackType.{is_type, array_type, str_type}
use zeromq_rpc_test.External.Doc.{Docs, Call, written, max_size_all}
use zeromq_rpc_test.External.Mpack.{Mpack, IsMpack, is_number}

module _ {F : Type 0} (M : Mpack F) where
  -- What a C string can be copied from, into `size` bytes.
  abbrev pub IsCopied : M.Node → ℕ → Type 0
  IsCopied n size =
      (M.node_tag n ≡ str_type) × (M.node_len n < size) × (has_nul (M.content n) ≡ false)

  abbrev pub is_copied : M.Node → ℕ → Bool
  is_copied n size =
      is_type (M.node_tag n) str_type && (ltb (M.node_len n) size && not (has_nul (M.content n)))

module _ {F : Type 0} (M : Mpack F) (L : IsMpack M) where
  pub tree_root_ok : (t : M.Tree) → M.failed t ≡ false → M.tree_root t ≡ (M.root t, t)
  tree_root_ok t h = rw (L.tree_root_lem t, h)

  pub array_at_ok :
      (n : M.Node) (i : ℕ) (t : M.Tree)
      → M.failed t ≡ false
      → M.node_tag n ≡ array_type
      → i < M.node_len n
      → M.array_at n i t ≡ (M.child n i, t)
  array_at_ok n i t h tag lt = ground (arith, L.array_at_lem n i t)

  pub array_at_failed :
      (n : M.Node) (i : ℕ) (t : M.Tree) → M.failed t ≡ true → M.array_at n i t ≡ (M.nil_node, t)
  array_at_failed n i t h = rw (L.array_at_lem n i t, h)

  -- An index past the end flags an error.
  pub array_at_short :
      (n : M.Node) (i : ℕ) (t : M.Tree)
      → M.failed t ≡ false
      → M.node_tag n ≡ array_type
      → M.node_len n ≤ i
      → M.array_at n i t ≡ (M.nil_node, M.flag t)
  array_at_short n i t h tag le = ground (arith, L.array_at_lem n i t)

  pub copy_cstr_ok :
      (n : M.Node) (size : ℕ) (t : M.Tree)
      → M.failed t ≡ false
      → IsCopied M n size
      → M.copy_cstr n size t ≡ (M.content n, t)
  copy_cstr_ok n size t h c = ground (arith, L.copy_cstr_lem n size t)

  pub copy_cstr_bad :
      (n : M.Node) (size : ℕ) (t : M.Tree)
      → M.failed t ≡ false
      → is_copied M n size ≡ false
      → M.copy_cstr n size t ≡ ([], M.flag t)
  copy_cstr_bad n size t h c = rw (L.copy_cstr_lem n size t, h, c)

  pub node_float_ok :
      (n : M.Node) (t : M.Tree)
      → M.failed t ≡ false
      → is_number (M.node_tag n) ≡ true
      → M.node_float n t ≡ (M.number n, t)
  node_float_ok n t h c = rw (L.node_float_lem n t, h, c)

  -- A message whose greatest possible size fits the buffer is written whole.
  pub buffer_used_fits :
      (size : ℕ) (calls : List (Call F)) (ds : Docs F)
      → written calls ≡ some ds
      → max_size_all ds ≤ size
      → M.buffer_used size calls ≡ M.encode ds
  buffer_used_fits size calls ds w h =
      L.buffer_used_lem size calls ds w (omega (arith, L.length-encode ds))
