-- ===== src/External/Mpack.antt =====
-- MPack as the program uses it: a tree with its error flag, nodes as pointers into the tree, and
-- a writer over a buffer. The observers say what the memory behind a node holds (`node.data->type`
-- and `node.data->len` are read by the program itself); each call has the equation that MPack's
-- documentation gives, its error cases included. In error every call gives its default value.
pub mod Laws
pub mod Reading
use zeromq_rpc_test.Prelude.{
  ℕ, ◌+◌, ◌-◌, ◌^◌, ◌≤◌, ◌≡◌, Bool, true, false, Option, none, some, List, [], ◌∷◌, Bytes, length,
  ltb, has_nul, not, ◌&&◌, ◌||◌, if◌then◌else◌,
}
use zeromq_rpc_test.External.MpackType.{
  MpackType, is_type, nil_type, str_type, array_type, map_type, int_type, uint_type, float_type,
  double_type, bool_type, bin_type, ext_type,
}
use zeromq_rpc_test.External.Doc.{Doc, Docs, Call, written, max_size_all}

-- Whether `mpack_node_float` has a value for a tag.
abbrev pub is_number : MpackType → Bool
is_number t =
    is_type t uint_type || (is_type t int_type || (is_type t float_type || is_type t double_type))

pub record Mpack (F : Type 0) : Type 1 where
  pub Tree : Type 0
  pub Node : Type 0
  -- Observers of the tree and of the memory behind a node.
  pub failed : Tree → Bool
  pub flag : Tree → Tree
  pub root : Tree → Node
  pub nil_node : Node
  pub node_tag : Node → MpackType
  pub node_len : Node → ℕ
  pub child : Node → ℕ → Node
  pub content : Node → Bytes
  pub find : Node → Bytes → Option Node
  pub number : Node → F
  pub natural : Node → ℕ
  pub truth : Node → Bool
  pub float_zero : F
  -- The bytes that a tree has not read yet.
  pub remaining : Tree → Bytes
  -- Calls.
  pub tree_parse : Bytes → ℕ → Tree
  -- `mpack_tree_init_pool` alone, and `mpack_tree_parse` again on the same tree.
  pub tree_init_pool : Bytes → ℕ → Tree
  pub tree_next : Tree → Tree
  pub tree_root : Tree → Node × Tree
  pub node_type : Node → Tree → MpackType × Tree
  pub array_length : Node → Tree → ℕ × Tree
  pub array_at : Node → ℕ → Tree → Node × Tree
  pub map_cstr : Node → Bytes → Tree → Node × Tree
  pub copy_cstr : Node → ℕ → Tree → Bytes × Tree
  pub node_float : Node → Tree → F × Tree
  pub node_str : Node → Tree → Option Bytes × Tree
  pub node_data : Node → Tree → Option Bytes × Tree
  pub node_bool : Node → Tree → Bool × Tree
  pub node_uint : Node → Tree → ℕ × Tree
  pub node_u8 : Node → Tree → ℕ × Tree
  pub encode : Docs F → Bytes
  -- The used part of a buffer of the given size after the calls.
  pub buffer_used : ℕ → List (Call F) → Bytes

-- What the documentation of MPack says of the calls.
pub record IsMpack {F : Type 0} (M : Mpack F) : Type 0 where
  pub failed-flag : (t : M.Tree) → M.failed (M.flag t) ≡ true
  pub nil_node-tag : M.node_tag M.nil_node ≡ nil_type
  pub nil_node-len : M.node_len M.nil_node ≡ 0
  pub content_length : (n : M.Node) → M.node_tag n ≡ str_type → length (M.content n) ≡ M.node_len n
  pub tree_root_lem :
      (t : M.Tree) → M.tree_root t ≡ (if M.failed t then M.nil_node else M.root t, t)
  pub node_type_lem :
      (n : M.Node) (t : M.Tree)
      → M.node_type n t ≡ (if M.failed t then nil_type else M.node_tag n, t)
  pub array_length_lem :
      (n : M.Node) (t : M.Tree)
      → M.array_length n t ≡ (
          if M.failed t
          then (0, t)
          else if is_type (M.node_tag n) array_type
          then (M.node_len n, t)
          else (0, M.flag t))
  pub array_at_lem :
      (n : M.Node) (i : ℕ) (t : M.Tree)
      → M.array_at n i t ≡ (
          if M.failed t
          then (M.nil_node, t)
          else if is_type (M.node_tag n) array_type && ltb i (M.node_len n)
          then (M.child n i, t)
          else (M.nil_node, M.flag t))
  pub map_cstr_in_error :
      (n : M.Node) (key : Bytes) (t : M.Tree)
      → M.failed t ≡ true
      → M.map_cstr n key t ≡ (M.nil_node, t)
  pub map_cstr_found :
      (n : M.Node) (key : Bytes) (t : M.Tree) (v : M.Node)
      → M.failed t ≡ false
      → M.node_tag n ≡ map_type
      → M.find n key ≡ some v
      → M.map_cstr n key t ≡ (v, t)
  pub map_cstr_absent :
      (n : M.Node) (key : Bytes) (t : M.Tree)
      → M.failed t ≡ false
      → M.node_tag n ≡ map_type
      → M.find n key ≡ none
      → M.map_cstr n key t ≡ (M.nil_node, M.flag t)
  pub map_cstr_other :
      (n : M.Node) (key : Bytes) (t : M.Tree)
      → M.failed t ≡ false
      → is_type (M.node_tag n) map_type ≡ false
      → M.map_cstr n key t ≡ (M.nil_node, M.flag t)
  pub copy_cstr_lem :
      (n : M.Node) (size : ℕ) (t : M.Tree)
      → M.copy_cstr n size t ≡ (
          if M.failed t
          then ([], t)
          else if is_type (M.node_tag n) str_type
              && (ltb (M.node_len n) size && not (has_nul (M.content n)))
          then (M.content n, t)
          else ([], M.flag t))
  pub node_float_lem :
      (n : M.Node) (t : M.Tree)
      → M.node_float n t ≡ (
          if M.failed t
          then (M.float_zero, t)
          else if is_number (M.node_tag n)
          then (M.number n, t)
          else (M.float_zero, M.flag t))
  -- The pointer that `mpack_node_str` gives is NULL in error; `mpack_node_data` gives the same on
  -- what is neither binary data nor an extension.
  pub node_str_lem :
      (n : M.Node) (t : M.Tree)
      → M.node_str n t ≡ (
          if M.failed t
          then (none, t)
          else if is_type (M.node_tag n) str_type
          then (some (M.content n), t)
          else (none, M.flag t))
  pub node_data_lem :
      (n : M.Node) (t : M.Tree)
      → is_type (M.node_tag n) bin_type || is_type (M.node_tag n) ext_type ≡ false
      → M.node_data n t ≡ M.node_str n t
  pub node_bool_lem :
      (n : M.Node) (t : M.Tree)
      → M.node_bool n t ≡ (
          if M.failed t
          then (false, t)
          else if is_type (M.node_tag n) bool_type
          then (M.truth n, t)
          else (false, M.flag t))
  -- A signed number that is not negative is read too; nothing is said of these.
  pub node_uint_lem :
      (n : M.Node) (t : M.Tree)
      → is_type (M.node_tag n) int_type ≡ false
      → M.node_uint n t ≡ (
          if M.failed t
          then (0, t)
          else if is_type (M.node_tag n) uint_type && ltb (M.natural n) (2 ^ 32)
          then (M.natural n, t)
          else (0, M.flag t))
  pub node_u8_lem :
      (n : M.Node) (t : M.Tree)
      → is_type (M.node_tag n) int_type ≡ false
      → M.node_u8 n t ≡ (
          if M.failed t
          then (0, t)
          else if is_type (M.node_tag n) uint_type && ltb (M.natural n) (2 ^ 8)
          then (M.natural n, t)
          else (0, M.flag t))
  pub tree_parse_lem :
      (s : Bytes) (pool : ℕ) → M.tree_parse s pool ≡ M.tree_next (M.tree_init_pool s pool)
  pub tree_init_pool-failed : (s : Bytes) (pool : ℕ) → M.failed (M.tree_init_pool s pool) ≡ false
  pub remaining-tree_init_pool : (s : Bytes) (pool : ℕ) → M.remaining (M.tree_init_pool s pool) ≡ s
  pub length-buffer_used :
      (size : ℕ) (calls : List (Call F)) → length (M.buffer_used size calls) ≤ size
  pub length-encode : (ds : Docs F) → length (M.encode ds) ≤ max_size_all ds
  pub buffer_used_lem :
      (size : ℕ) (calls : List (Call F)) (ds : Docs F)
      → written calls ≡ some ds
      → length (M.encode ds) ≤ size
      → M.buffer_used size calls ≡ M.encode ds
