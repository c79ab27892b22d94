-- ===== src/External/Mpack/Reading.antt =====
-- What the documentation of MPack and of the MessagePack format says of a document that is
-- written and parsed again: which documents can be read, and what the nodes then hold.
use zeromq_rpc_test.Prelude.{
  ℕ, suc, ◌+◌, ◌/◌, ◌^◌, ◌<◌, ◌≤◌, ◌≡◌, Bool, false, ◌||◌, some, Bytes, ◌++◌, bytes_eq, length,
}
use Prim.Native.Nat.{max}
use zeromq_rpc_test.External.MpackType.{
  str_type, float_type, double_type, uint_type, bool_type, array_type, map_type,
}
use zeromq_rpc_test.External.Doc.{
  Doc, Docs, str, float, double, uint, bool, arr, dict, end, item, count,
}
use zeromq_rpc_test.External.Mpack.{Mpack}

module _ {F : Type 0} where
  -- The nodes that a document takes of the pool.
  abbrev mutual
    pub nodes : Doc F → ℕ
    nodes (arr ds) = suc (nodes_all ds)
    nodes (dict ds) = suc (nodes_all ds)
    nodes _ = 1

    pub nodes_all : Docs F → ℕ
    nodes_all end = 0
    nodes_all (item d ds) = nodes d + nodes_all ds

  abbrev mutual
    pub depth : Doc F → ℕ
    depth (arr ds) = suc (depth_all ds)
    depth (dict ds) = suc (depth_all ds)
    depth _ = 1

    pub depth_all : Docs F → ℕ
    depth_all end = 0
    depth_all (item d ds) = max (depth d) (depth_all ds)

  -- Whether a string is a key among keys and values in turn.
  abbrev pub has_key : Docs F → Bytes → Bool
  has_key (item (str k) (item d ds)) key = bytes_eq k key || has_key ds key
  has_key (item _ (item d ds)) key = has_key ds key
  has_key _ key = false

  -- Keys that are strings, no two the same, each with a value.
  abbrev pub AreEntries : Docs F → Type 0
  AreEntries end = Unit
  AreEntries (item (str k) (item d ds)) = (has_key ds k ≡ false) × AreEntries ds
  AreEntries _ = ⊥

  -- The documents whose lengths and numbers the format has room for, where the floats are those
  -- of the machine, and whose maps have strings as keys, and none twice.
  module _ (IsFloat : F → Type 0) where
    abbrev mutual
      pub IsReadable : Doc F → Type 0
      IsReadable (str s) = length s < 2 ^ 32
      IsReadable (float x) = IsFloat x
      IsReadable (double b) = b < 2 ^ 64
      IsReadable (uint n) = n < 2 ^ 64
      IsReadable (bool b) = Unit
      IsReadable (arr ds) = (count ds < 2 ^ 32) × AreReadable ds
      IsReadable (dict ds) = (count ds < 2 ^ 32) × AreEntries ds × AreReadable ds

      pub AreReadable : Docs F → Type 0
      AreReadable end = Unit
      AreReadable (item d ds) = IsReadable d × AreReadable ds

module _ {F : Type 0} (M : Mpack F) (narrow : ℕ → F) where
  -- A node that holds a document: its type and length, what it contains, the elements of an array
  -- by their index and the values of a map by their keys. A double is read as a float.
  unfoldable mutual
    pub Shows : M.Node → Doc F → Type 0
    Shows n (str s) = (M.node_tag n ≡ str_type) × (M.node_len n ≡ length s) × (M.content n ≡ s)
    Shows n (float x) = (M.node_tag n ≡ float_type) × (M.number n ≡ x)
    Shows n (double b) = (M.node_tag n ≡ double_type) × (M.number n ≡ narrow b)
    Shows n (uint k) = (M.node_tag n ≡ uint_type) × (M.natural n ≡ k)
    Shows n (bool b) = (M.node_tag n ≡ bool_type) × (M.truth n ≡ b)
    Shows n (arr ds) = (M.node_tag n ≡ array_type) × (M.node_len n ≡ count ds) × Listed n 0 ds
    Shows n (dict ds) = (M.node_tag n ≡ map_type) × (M.node_len n ≡ count ds / 2) × Keyed n ds

    pub Listed : M.Node → ℕ → Docs F → Type 0
    Listed n i end = Unit
    Listed n i (item d ds) = Shows (M.child n i) d × Listed n (i + 1) ds

    pub Keyed : M.Node → Docs F → Type 0
    Keyed n (item (str k) (item d ds)) =
        ((v : M.Node) × (M.find n k ≡ some v) × Shows v d) × Keyed n ds
    Keyed n _ = Unit

-- The trees that some data and a pool of some size lead to.
pub data IsOver {F : Type 0} (M : Mpack F) (s : Bytes) (pool : ℕ) : M.Tree → Type 0 where
  started : IsOver M s pool (M.tree_init_pool s pool)
  parsed_again : {t : M.Tree} → IsOver M s pool t → IsOver M s pool (M.tree_next t)

-- MPack without an allocator keeps 32 levels, and each open container takes one above the first.
abbrev pub max_depth : ℕ
max_depth = 31

pub record CanRead {F : Type 0} (M : Mpack F) : Type 1 where
  -- The floats that are one of the machine's, and the float that a double is rounded to.
  pub IsFloat : F → Type 0
  pub narrow : ℕ → F
  pub parse_written :
      (d : Doc F) (pool : ℕ)
      → IsReadable IsFloat d
      → nodes d ≤ pool
      → depth d ≤ max_depth
      → (M.failed (M.tree_parse (M.encode (item d end)) pool) ≡ false)
        × Shows M narrow (M.root (M.tree_parse (M.encode (item d end)) pool)) d
  -- Documents stand one behind the other, and a tree that is parsed again reads the next one.
  pub encode_item :
      (d : Doc F) (ds : Docs F) → M.encode (item d ds) ≡ M.encode (item d end) ++ M.encode ds
  pub next_written :
      (d : Doc F) (s : Bytes) (pool : ℕ) (t : M.Tree) (rest : Bytes)
      → IsReadable IsFloat d
      → nodes d ≤ pool
      → depth d ≤ max_depth
      → IsOver M s pool t
      → M.failed t ≡ false
      → M.remaining t ≡ M.encode (item d end) ++ rest
      → (M.failed (M.tree_next t) ≡ false)
        × (M.remaining (M.tree_next t) ≡ rest)
        × Shows M narrow (M.root (M.tree_next t)) d
