-- ===== src/Arpc/Manager.antt =====
-- rpc/rpcrequest/rpc_hashmgr.cpp: the table of methods in the global `rpc_hashmgr`, NULL at first.
-- A `none` around a result is the fault of a null table.
use zeromq_rpc_test.Prelude.{Option, none, some, Bytes, codes}
use zeromq_rpc_test.External.RpcHash.{RpcHash}
use zeromq_rpc_test.Rep.Manager.{RequestFunc, rpc_request_add_func}

module _ (K : RpcHash RequestFunc) where
  unfoldable pub rpc_hash_mgr_add_entry :
      Option K.Table → Bytes → Option RequestFunc → Option K.Table
  rpc_hash_mgr_add_entry none name func = none
  rpc_hash_mgr_add_entry (some table) name func = some (K.rpc_hash_set table name func)

  -- Whatever the global was.
  unfoldable pub rpc_hash_mgr_init : Option K.Table → Option K.Table
  rpc_hash_mgr_init rpc_hashmgr =
      rpc_hash_mgr_add_entry (some K.rpc_hash_new) (codes "add") (some rpc_request_add_func)

  unfoldable pub rpc_get_func : Option K.Table → Bytes → Option (Option RequestFunc)
  rpc_get_func none name = none
  rpc_get_func (some table) name = some (K.rpc_hash_get table name)
