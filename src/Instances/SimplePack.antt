-- ===== src/Instances/SimplePack.antt =====
-- A small MessagePack over natural numbers as floats. It writes every header in its 32-bit form,
-- and reads that form. A double is a number of eight bytes, which is not rounded.
mod Writer
mod Reader
unfoldable pub use Reader.*
pub use Writer.*
use zeromq_rpc_test.Prelude.{
  ℕ, ◌^◌, ◌≤◌, ◌≡◌, refl, Bool, true, false, not, ◌&&◌, [], Option, none, some, Bytes, length, ltb,
  leb, has_nul, arith, if◌then◌else◌,
}
use zeromq_rpc_test.External.MpackType.{
  is_type, nil_type, str_type, array_type, bool_type, uint_type, map_type,
}
use zeromq_rpc_test.External.Doc.{Docs, written}
use zeromq_rpc_test.External.Mpack.{Mpack, IsMpack, is_number}
use zeromq_rpc_test.External.Mpack.Reading.{max_depth}

abbrev Tree : Type 0
Tree = record { failed : Bool; root : Value; left : Bytes }

abbrev parsed : Option (Value × Bytes) → Tree
parsed none = record { failed = true; root = nothing; left = [] }
parsed (some (v, r)) = record { failed = false; root = v; left = r }

abbrev flag_tree : Tree → Tree
flag_tree t = record { failed = true; root = t.root; left = t.left }

abbrev used : ℕ → Option (Docs ℕ) → Bytes
used size none = []
used size (some ds) = if leb (length (encode_docs ds)) size then encode_docs ds else []

abbrev look_up : Option Value → Tree → Value × Tree
look_up none t = (nothing, flag_tree t)
look_up (some v) t = (v, t)

abbrev string_of : Value → Tree → Option Bytes × Tree
string_of n t =
    if t.failed
    then (none, t)
    else if is_type (tag_of n) str_type
    then (some (content_of n), t)
    else (none, flag_tree t)

abbrev pub simple_pack : Mpack ℕ
simple_pack = record {
  Tree = Tree;
  Node = Value;
  failed = λ t. t.failed;
  flag = flag_tree;
  root = λ t. t.root;
  nil_node = nothing;
  node_tag = tag_of;
  node_len = len_of;
  child = child_of;
  content = content_of;
  find = find_of;
  number = number_of;
  natural = number_of;
  truth = truth_of;
  float_zero = 0;
  remaining = λ t. t.left;
  tree_init_pool = λ s pool. record { failed = false; root = nothing; left = s };
  tree_next = λ t. if t.failed then t else parsed (read_value max_depth t.left);
  tree_parse = λ s pool. parsed (read_value max_depth s);
  tree_root = λ t. (if t.failed then nothing else t.root, t);
  node_type = λ n t. (if t.failed then nil_type else tag_of n, t);
  array_length = λ n t.
      if t.failed
      then (0, t)
      else if is_type (tag_of n) array_type
      then (len_of n, t)
      else (0, flag_tree t);
  array_at = λ n i t.
      if t.failed
      then (nothing, t)
      else if is_type (tag_of n) array_type && ltb i (len_of n)
      then (child_of n i, t)
      else (nothing, flag_tree t);
  map_cstr = λ n key t. if t.failed then (nothing, t) else look_up (find_of n key) t;
  copy_cstr = λ n size t.
      if t.failed
      then ([], t)
      else if is_type (tag_of n) str_type && (ltb (len_of n) size && not (has_nul (content_of n)))
      then (content_of n, t)
      else ([], flag_tree t);
  node_float = λ n t.
      if t.failed
      then (0, t)
      else if is_number (tag_of n)
      then (number_of n, t)
      else (0, flag_tree t);
  node_str = string_of;
  node_data = string_of;
  node_bool = λ n t.
      if t.failed
      then (false, t)
      else if is_type (tag_of n) bool_type
      then (truth_of n, t)
      else (false, flag_tree t);
  node_uint = λ n t.
      if t.failed
      then (0, t)
      else if is_type (tag_of n) uint_type && ltb (number_of n) (2 ^ 32)
      then (number_of n, t)
      else (0, flag_tree t);
  node_u8 = λ n t.
      if t.failed
      then (0, t)
      else if is_type (tag_of n) uint_type && ltb (number_of n) (2 ^ 8)
      then (number_of n, t)
      else (0, flag_tree t);
  encode = encode_docs;
  buffer_used = λ size calls. used size (written calls);
}

content_length : (n : Value) → tag_of n ≡ str_type → length (content_of n) ≡ len_of n
content_length (text s) e = refl
content_length _ e = cc

map_cstr_other :
    (n : Value) (key : Bytes) (t : Tree)
    → t.failed ≡ false
    → is_type (tag_of n) map_type ≡ false
    → (if t.failed then (nothing, t) else look_up (find_of n key) t) ≡ (nothing, flag_tree t)
map_cstr_other (table vs) key t ok h = cc
map_cstr_other _ key t ok h = rw ok

length-used : (size : ℕ) (ds : Option (Docs ℕ)) → length (used size ds) ≤ size
length-used size none = omega arith
length-used size (some ds) = ground arith

used_fits :
    (size : ℕ) (ds : Option (Docs ℕ)) (d : Docs ℕ)
    → ds ≡ some d
    → length (encode_docs d) ≤ size
    → used size ds ≡ encode_docs d
used_fits size ds d e h = rw e (ground arith)

pub simple_pack-IsMpack : IsMpack simple_pack
simple_pack-IsMpack = record {
  failed-flag = λ t. refl;
  nil_node-tag = refl;
  nil_node-len = refl;
  content_length = content_length;
  tree_root_lem = λ t. refl;
  node_type_lem = λ n t. refl;
  array_length_lem = λ n t. refl;
  array_at_lem = λ n i t. refl;
  map_cstr_in_error = λ n key t e. rw e;
  map_cstr_found = λ n key t v ok tag e. rw (ok, e);
  map_cstr_absent = λ n key t ok tag e. rw (ok, e);
  map_cstr_other = map_cstr_other;
  copy_cstr_lem = λ n size t. refl;
  node_float_lem = λ n t. refl;
  node_str_lem = λ n t. refl;
  node_data_lem = λ n t h. refl;
  node_bool_lem = λ n t. refl;
  node_uint_lem = λ n t h. refl;
  node_u8_lem = λ n t h. refl;
  tree_parse_lem = λ s pool. refl;
  tree_init_pool-failed = λ s pool. refl;
  remaining-tree_init_pool = λ s pool. refl;
  length-buffer_used = λ size calls. length-used size (written calls);
  length-encode = length-encode_docs;
  buffer_used_lem = λ size calls ds w h. used_fits size (written calls) ds w h;
}
