-- ===== src/Rep/Main2.antt =====
-- `main2` of rpcserver/areqserver.cpp, behind the proxy: the samples, and a request in a literal.
use zeromq_rpc_test.Prelude.{◌≡◌, refl, [], ◌∷◌, ◌++◌, Option, some, Bytes, codes, take, and_then}
use zeromq_rpc_test.External.Mpack.{Mpack}
use zeromq_rpc_test.Samples.Parse.{Constants, test_mpack, run_on}
use zeromq_rpc_test.Rep.Worker.{pool_size}
use zeromq_rpc_test.Rep.Start.{parse_request}

-- The literal with its NUL. Each \xa stands alone at the end of its part, so it is one byte.
abbrev pub literal : Bytes
literal =
    0x92
    ∷ 0x0a
    ∷ (codes "3add"
        ++ (0x82
            ∷ 0x0a
            ∷ (codes "1a"
                ++ (0xaa
                    ∷ (codes "ddddddddd" ++ (0x00 ∷ 0x0a ∷ (codes "1b" ++ (0x0f ∷ 0x00 ∷ []))))))))

module _ {F : Type 0} (M : Mpack F) where
  -- Of the 100 bytes that are given to `parse_request`, those past the literal are what memory
  -- holds behind it.
  unfoldable pub main2 : Constants F → Bytes → Bytes → Option (Unit {0})
  main2 c buffer behind =
      and_then (test_mpack M c buffer) λ samples.
        run_on M (M.tree_parse (take 100 (literal ++ behind)) pool_size) (parse_request M)

  -- It ends without a fault where `test_mpack` does, whatever lies behind the literal.
  pub main2-ends :
      (c : Constants F) (buffer behind : Bytes)
      → main2 c buffer behind ≡ and_then (test_mpack M c buffer) (λ samples. some tt)
  unfolding main2 parse_request
  main2-ends c buffer behind = refl
