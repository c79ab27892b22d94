-- ===== src/Hash.antt =====
-- rpcserver/test_hash.cpp: a program that uses the pointer hash and checks it by assertions.
use zeromq_rpc_test.Prelude.{
  ◌≡◌, Bool, false, not, Option, none, some, Bytes, codes, cstr, bytes_eq, ◌==◌, if◌then◌else◌,
}
use zeromq_rpc_test.External.RpcHash.{RpcHash, IsRpcHash}

-- `0 == strcmp (expected, actual)`; comparing with NULL never succeeds.
abbrev pub same_text : Bytes → Option Bytes → Bool
same_text expected none = false
same_text expected (some actual) = bytes_eq (cstr expected) (cstr actual)

module _ (K : RpcHash Bytes) where
  -- The final table; `none` where an assertion fails.
  unfoldable pub my_test_hash_set : Option K.Table
  my_test_hash_set =
      let hash = K.rpc_hash_new in
      let hash1 = K.rpc_hash_set hash (codes "name") (some (codes "tobi")) in
      let hash2 = K.rpc_hash_set hash1 (codes "species") (some (codes "ferret")) in
      if not (K.rpc_hash_size hash == 0)
      then none
      else if not (K.rpc_hash_size hash2 == 2)
      then none
      else if not (same_text (codes "tobi") (K.rpc_hash_get hash2 (codes "name")))
      then none
      else if not (same_text (codes "ferret") (K.rpc_hash_get hash2 (codes "species")))
      then none
      else some hash2

module _ (K : RpcHash Bytes) (L : IsRpcHash K) where
  -- With any table that has the laws, no assertion of the program fails.
  pub my_test_hash_set-passes : (table : K.Table) × (my_test_hash_set K ≡ some table)
  unfolding my_test_hash_set
  my_test_hash_set-passes =
      let hash = K.rpc_hash_new in
      let hash1 = K.rpc_hash_set hash (codes "name") (some (codes "tobi")) in
      let hash2 = K.rpc_hash_set hash1 (codes "species") (some (codes "ferret")) in
      let one : K.rpc_hash_size hash1 ≡ 1 = rw (
        L.rpc_hash_size-set hash (codes "name") (some (codes "tobi")),
        L.rpc_hash_has-new (codes "name"),
        L.rpc_hash_size-new,
      ) in
      let absent : K.rpc_hash_has hash1 (codes "species") ≡ false =
        rw (L.rpc_hash_has-set hash (codes "name") (some (codes "tobi")) (codes "species"))
          (L.rpc_hash_has-new (codes "species")) in
      let two : K.rpc_hash_size hash2 ≡ 2 =
        rw (L.rpc_hash_size-set hash1 (codes "species") (some (codes "ferret")), absent, one) in
      (
        hash2,
        rw (
          L.rpc_hash_size-new,
          two,
          L.rpc_hash_get-set hash1 (codes "species") (some (codes "ferret")) (codes "name"),
          L.rpc_hash_get-set hash (codes "name") (some (codes "tobi")) (codes "name"),
          L.rpc_hash_get-set hash1 (codes "species") (some (codes "ferret")) (codes "species"),
        ),
      )
