-- ===== src/Arpc/Main2.antt =====
-- `main2` of rpc/arpcserver.cpp, behind the proxy: the samples, which are those of the other copy,
-- and a request in a literal.
use zeromq_rpc_test.Prelude.{◌≡◌, refl, [], ◌∷◌, ◌++◌, Option, Bytes, codes, take, and_then}
use zeromq_rpc_test.External.Mpack.{Mpack}
use zeromq_rpc_test.Samples.Parse.{Constants, test_mpack, run_on}
use zeromq_rpc_test.Rep.Main2 as RepMain2
use zeromq_rpc_test.Rep.Worker.{pool_size}
use zeromq_rpc_test.Rep.Start.{parse_request}

module _ {F : Type 0} (M : Mpack F) where
  unfoldable pub main2 : Constants F → Bytes → Bytes → Option (Unit {0})
  main2 c buffer behind =
      let literal =
        0x92
        ∷ 0x0a
        ∷ (codes "3add"
            ++ (0x82
                ∷ 0x0a
                ∷ (codes "1a"
                    ++ (0xaa
                        ∷ (codes "ddddddddd"
                            ++ (0x00 ∷ 0x0a ∷ (codes "1b" ++ (0x0f ∷ 0x00 ∷ [])))))))) in
      and_then (test_mpack M c buffer) λ samples.
        run_on M (M.tree_parse (take 100 (literal ++ behind)) pool_size) (parse_request M)

  -- The two copies do the same.
  main2_same :
      (c : Constants F) (buffer behind : Bytes)
      → main2 c buffer behind ≡ RepMain2.main2 M c buffer behind
  unfolding main2 RepMain2.main2
  main2_same c buffer behind = refl
