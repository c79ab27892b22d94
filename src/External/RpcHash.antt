-- ===== src/External/RpcHash.antt =====
-- The pointer hash that the program calls (rpcserver/hash/rpc_hash.h is a copy of a hash over klib's
-- table). A value is a pointer, so it is an option: `none` is NULL, and what is got for a key that
-- is absent. The keys are compared as C strings.
use zeromq_rpc_test.Prelude.{
  ℕ, ◌+◌, ◌≡◌, Bool, true, false, Option, none, Bytes, bytes_eq, if◌then◌else◌,
}

pub record RpcHash (V : Type 0) : Type 1 where
  pub Table : Type 0
  pub rpc_hash_new : Table
  pub rpc_hash_size : Table → ℕ
  pub rpc_hash_set : Table → Bytes → Option V → Table
  pub rpc_hash_get : Table → Bytes → Option V
  pub rpc_hash_has : Table → Bytes → Bool

-- What the documentation of the hash says: "set `key` to `val`", "get `key`'s value or NULL",
-- "check if `key` exists", and its size, the number of keys.
pub record IsRpcHash {V : Type 0} (K : RpcHash V) : Type 0 where
  pub rpc_hash_get-new : (k : Bytes) → K.rpc_hash_get K.rpc_hash_new k ≡ none
  pub rpc_hash_get-set :
      (t : K.Table) (k : Bytes) (v : Option V) (j : Bytes)
      → K.rpc_hash_get (K.rpc_hash_set t k v) j ≡ (if bytes_eq k j then v else K.rpc_hash_get t j)
  pub rpc_hash_has-new : (k : Bytes) → K.rpc_hash_has K.rpc_hash_new k ≡ false
  pub rpc_hash_has-set :
      (t : K.Table) (k : Bytes) (v : Option V) (j : Bytes)
      → K.rpc_hash_has (K.rpc_hash_set t k v) j
        ≡ (if bytes_eq k j then true else K.rpc_hash_has t j)
  pub rpc_hash_size-new : K.rpc_hash_size K.rpc_hash_new ≡ 0
  pub rpc_hash_size-set :
      (t : K.Table) (k : Bytes) (v : Option V)
      → K.rpc_hash_size (K.rpc_hash_set t k v)
        ≡ (if K.rpc_hash_has t k then K.rpc_hash_size t else K.rpc_hash_size t + 1)
