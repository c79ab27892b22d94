-- ===== src/Instances/ListHash.antt =====
-- The pointer hash over a list of pairs.
use zeromq_rpc_test.Prelude.{
  ◌+◌, ◌≡◌, refl, Bool, true, false, List, [], ◌∷◌, Option, none, Bytes, bytes_eq, bytes_eq_iff,
  length, arith, if◌then◌else◌,
}
use zeromq_rpc_test.External.RpcHash.{RpcHash, IsRpcHash}

same : (a b c : Bytes) → bytes_eq a b ≡ true → bytes_eq a c ≡ bytes_eq b c
same a b c h = rw ((bytes_eq_iff a b).0 h)

same_right : (a b c : Bytes) → bytes_eq b c ≡ true → bytes_eq a b ≡ bytes_eq a c
same_right a b c h = rw ((bytes_eq_iff b c).0 h)

abbrev Pairs : Type 0 → Type 0
Pairs A = List (Bytes × Option A)

module _ {A : Type 0} where
  abbrev get : Pairs A → Bytes → Option A
  get [] k = none
  get ((j, v) ∷ r) k = if bytes_eq j k then v else get r k

  abbrev has : Pairs A → Bytes → Bool
  has [] k = false
  has ((j, v) ∷ r) k = if bytes_eq j k then true else has r k

  abbrev set : Pairs A → Bytes → Option A → Pairs A
  set [] k v = (k, v) ∷ []
  set ((j, u) ∷ r) k v = if bytes_eq j k then (j, v) ∷ r else (j, u) ∷ set r k v

  abbrev pub list_hash : RpcHash A
  list_hash = record {
    Table = Pairs A;
    rpc_hash_new = [];
    rpc_hash_size = λ t. length t;
    rpc_hash_set = set;
    rpc_hash_get = get;
    rpc_hash_has = has;
  }

  get-set :
      (t : Pairs A) (k : Bytes) (v : Option A) (j : Bytes)
      → get (set t k v) j ≡ (if bytes_eq k j then v else get t j)
  get-set [] k v j = refl
  get-set ((i, u) ∷ r) k v j = ground (arith, same i k j, same_right i k j, get-set r k v j)

  has-set :
      (t : Pairs A) (k : Bytes) (v : Option A) (j : Bytes)
      → has (set t k v) j ≡ (if bytes_eq k j then true else has t j)
  has-set [] k v j = refl
  has-set ((i, u) ∷ r) k v j = ground (arith, same i k j, same_right i k j, has-set r k v j)

  size-set :
      (t : Pairs A) (k : Bytes) (v : Option A)
      → length (set t k v) ≡ (if has t k then length t else length t + 1)
  size-set [] k v = omega arith
  size-set ((i, u) ∷ r) k v = ground (arith, size-set r k v)

  pub list_hash-IsRpcHash : IsRpcHash list_hash
  list_hash-IsRpcHash = record {
    rpc_hash_get-new = λ k. refl;
    rpc_hash_get-set = get-set;
    rpc_hash_has-new = λ k. refl;
    rpc_hash_has-set = has-set;
    rpc_hash_size-new = refl;
    rpc_hash_size-set = size-set;
  }
