-- ===== src/Server/Defs.antt =====
-- `rpc_server_t` (rpcserver.h), its creation, and the registration of methods (rpcserver.cpp).
use zeromq_rpc_test.Prelude.{
  ℕ, ◌++◌, Option, none, some, Bytes, codes, take, replicate, if◌then◌else◌, Bool,
}
use zeromq_rpc_test.External.RpcHash.{RpcHash}
use zeromq_rpc_test.External.Zmq.{SocketType, sub_socket, pub_socket}

abbrev pub async_msgq_fe : Bytes
async_msgq_fe = codes "tcp://127.0.0.1:5555"

abbrev pub async_msgq_be : Bytes
async_msgq_be = codes "tcp://127.0.0.1:5556"

abbrev pub sync_msgq_fe : Bytes
sync_msgq_fe = codes "tcp://127.0.0.1:5557"

abbrev pub sync_msgq_be : Bytes
sync_msgq_be = codes "tcp://127.0.0.1:5558"

abbrev pub rpc_server_name_size : ℕ
rpc_server_name_size = 32

-- The static functions whose addresses `rpc_server_init` stores.
pub data StaticFunction : Type 0 where
  rpc_server_start_fn rpc_handle_req_fn rpc_send_reply_fn : StaticFunction
  rpc_send_error_reply_fn rpc_register_method_fn : StaticFunction

-- `T` is the table of methods; a pointer is an option. `after_name` is what the memory behind
-- the array `name` holds.
pub record Server (T : Type 0) : Type 0 where
  pub name : Bytes
  pub after_name : Bytes
  pub context : ℕ
  pub sub_url : Bytes
  pub pub_url : Bytes
  pub sub_sock : ℕ
  pub pub_sock : ℕ
  pub handle_req : Option StaticFunction
  pub rpc_hashmgr : Option T
  pub timeout : ℕ
  pub send_async : Option StaticFunction
  pub send_sync : Option StaticFunction
  pub start : Option StaticFunction
  pub register_method : Option StaticFunction
  pub send_error_reply : Option StaticFunction
  pub send_reply : Option StaticFunction
  pub send_reply2 : Option StaticFunction

-- `strncpy` into an array of `n` bytes: padded with NULs, and cut without one.
unfoldable pub strncpy : Bytes → ℕ → Bytes
strncpy s n = take n (s ++ replicate n 0)

-- `p == NULL ? d : p`
abbrev url_or : Option Bytes → Bytes → Bytes
url_or none d = d
url_or (some url) d = url

-- What the allocator and ZeroMQ give to the new server.
pub record Resources : Type 0 where
  pub allocated : Bool
  pub zmq_ctx_new : ℕ
  pub zmq_socket : ℕ → SocketType → ℕ
  pub after_name : Bytes

module _ {Func : Type 0} (K : RpcHash Func) where
  unfoldable pub rpc_server_init :
      Resources → Bytes → Option Bytes → Option Bytes → Option (Server K.Table)
  unfolding strncpy
  rpc_server_init r name sub_url pub_url =
      if r.allocated
      then some (record {
        name = strncpy name rpc_server_name_size;
        after_name = r.after_name;
        context = r.zmq_ctx_new;
        sub_url = url_or sub_url async_msgq_be;
        pub_url = url_or pub_url sync_msgq_fe;
        sub_sock = r.zmq_socket r.zmq_ctx_new sub_socket;
        pub_sock = r.zmq_socket r.zmq_ctx_new pub_socket;
        handle_req = some rpc_handle_req_fn;
        rpc_hashmgr = some K.rpc_hash_new;
        timeout = 0;
        send_async = none;
        send_sync = none;
        start = some rpc_server_start_fn;
        register_method = some rpc_register_method_fn;
        send_error_reply = some rpc_send_error_reply_fn;
        send_reply = some rpc_send_reply_fn;
        send_reply2 = none;
      })
      else none

  -- Both pointers are tested: without a server or a table nothing happens.
  unfoldable pub rpc_register_method : Server K.Table → Bytes → Option Func → Server K.Table
  rpc_register_method server method func = elim (server.rpc_hashmgr) [
    | none ↦ server
    | some table ↦ record server { rpc_hashmgr = some (K.rpc_hash_set table method func) }
  ]

  -- The outer `none` is the fault of a null table.
  unfoldable pub rpc_get_callfunc : Server K.Table → Bytes → Option (Option Func)
  rpc_get_callfunc server name = elim (server.rpc_hashmgr) [
    | none ↦ none
    | some table ↦ some (K.rpc_hash_get table name)
  ]
