-- ===== src/Samples/Stream.antt =====
-- Documents one behind the other are read one after the other (rpcserver/mpack_test.cpp).
use mathlib.Core.Option
use zeromq_rpc_test.Prelude.{
  ℕ, ◌≤◌, ◌<◌, ◌^◌, ◌≡◌, ◌∙◌, refl, ap, false, [], ◌++◌, some, Bytes, codes, append_assoc, has_nul,
  length, arith,
}
use zeromq_rpc_test.External.Doc.{Doc, Docs, str, float, double, uint, end, item}
use zeromq_rpc_test.External.Mpack.{Mpack, IsMpack}
use zeromq_rpc_test.External.Mpack.Laws.{tree_root_ok, copy_cstr_ok}
use zeromq_rpc_test.External.Mpack.Reading.{
  IsReadable, nodes, depth, max_depth, Shows, CanRead, IsOver, started, parsed_again,
}
use zeromq_rpc_test.Samples.Parse.{Results, pool_size, cstr_size, rpc_parse_multi_simple}

-- "function", "reset", 100, and two numbers.
abbrev pub simple_documents : {F : Type 0} → F → ℕ → Docs F
simple_documents single bits =
    item (str (codes "function"))
      (item (str (codes "reset")) (item (uint 100) (item (float single) (item (double bits) end))))

module _ {F : Type 0} (M : Mpack F) (R : CanRead M) (s rest : Bytes) where
  -- A tree that is about to read some documents.
  record Reads (t : M.Tree) (ds : Docs F) : Type 0 where
    over : IsOver M s pool_size t
    sound : M.failed t ≡ false
    ahead : M.remaining t ≡ M.encode ds ++ rest

  step :
      (t : M.Tree) (d : Doc F) (ds : Docs F)
      → Reads t (item d ds)
      → IsReadable R.IsFloat d
      → nodes d ≤ pool_size
      → depth d ≤ max_depth
      → Reads (M.tree_next t) ds × Shows M R.narrow (M.root (M.tree_next t)) d
  step t d ds r ok fits shallow =
      let (sound, ahead, shown) =
        R.next_written d s pool_size t (M.encode ds ++ rest) ok fits shallow r.over r.sound (
          r.ahead
          ∙ ap (λ (l : Bytes). l ++ rest) (R.encode_item d ds)
          ∙ append_assoc (M.encode (item d end)) (M.encode ds) rest) in
      (record { over = parsed_again r.over; sound = sound; ahead = ahead }, shown)

module _ {F : Type 0} (M : Mpack F) (L : IsMpack M) (R : CanRead M) where
  string_read :
      (t : M.Tree) (k : Bytes)
      → M.failed t ≡ false
      → Shows M R.narrow (M.root t) (str k)
      → length k < cstr_size
      → has_nul k ≡ false
      → M.copy_cstr (M.root t) cstr_size t ≡ (k, t)
  unfolding Shows
  string_read t k ok shown short plain =
      copy_cstr_ok M L (M.root t) cstr_size t ok
        (shown.0, omega (arith, shown.1), ap has_nul shown.2 ∙ plain)
      ∙ ap (λ (s : Bytes). (s, t)) shown.2

module _ {F : Type 0} (M : Mpack F) (L : IsMpack M) (R : CanRead M) (single : F) (bits : ℕ)
    (fits : R.IsFloat single) (small : bits < 2 ^ 64) (rest : Bytes) where
  abbrev pub input : Bytes
  input = M.encode (simple_documents single bits) ++ rest

  abbrev pub start : M.Tree
  start = M.tree_init_pool input pool_size

  -- After the parse of each document.
  abbrev pub first : M.Tree
  first = M.tree_next start

  abbrev pub second : M.Tree
  second = M.tree_next first

  abbrev pub third : M.Tree
  third = M.tree_next second

  abbrev pub fourth : M.Tree
  fourth = M.tree_next third

  abbrev pub fifth : M.Tree
  fifth = M.tree_next fourth

  -- What is read behind the documents, whatever stands there.
  abbrev pub last_read : F
  last_read =
      let (node1, t) = M.tree_root (M.tree_next fifth) in
      (M.node_float (M.tree_root t).0 (M.tree_root t).1).0

  abbrev pub results : Results F
  results = record {
    first_cstr = codes "function";
    second_cstr = codes "reset";
    result1 = 100;
    result2 = single;
    result3 = R.narrow bits;
    result4 = last_read;
  }

  pub multi_reads :
      Option.map (λ r. r.0) (rpc_parse_multi_simple M (record { tree = start; sent = [] }))
      ≡ some results
  unfolding rpc_parse_multi_simple Shows
  multi_reads =
      let r0 : Reads M R input rest start (simple_documents single bits) = record {
        over = started;
        sound = L.tree_init_pool-failed input pool_size;
        ahead = L.remaining-tree_init_pool input pool_size;
      } in
      let (r1, s1) =
        step M R input rest start (str (codes "function")) _ r0 (omega arith) (omega arith)
          (omega arith) in
      let (r2, s2) =
        step M R input rest first (str (codes "reset")) _ r1 (omega arith) (omega arith)
          (omega arith) in
      let (r3, s3) =
        step M R input rest second (uint 100) _ r2 (omega arith) (omega arith) (omega arith) in
      let (r4, s4) =
        step M R input rest third (float single) _ r3 fits (omega arith) (omega arith) in
      let (r5, s5) =
        step M R input rest fourth (double bits) end r4 small (omega arith) (omega arith) in
      rw (
        tree_root_ok M L first r1.sound,
        tree_root_ok M L first r1.sound,
        string_read M L R first (codes "function") r1.sound s1 (omega arith) refl,
        tree_root_ok M L second r2.sound,
        string_read M L R second (codes "reset") r2.sound s2 (omega arith) refl,
        tree_root_ok M L third r3.sound,
        L.node_uint_lem (M.root third) third (rw (s3.0)),
        r3.sound,
        s3.0,
        s3.1,
        tree_root_ok M L fourth r4.sound,
        L.node_float_lem (M.root fourth) fourth,
        r4.sound,
        s4.0,
        s4.1,
        tree_root_ok M L fifth r5.sound,
        L.node_float_lem (M.root fifth) fifth,
        r5.sound,
        s5.0,
        s5.1,
      )
