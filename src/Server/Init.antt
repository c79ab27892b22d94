-- ===== src/Server/Init.antt =====
-- What `rpc_server_init` and `rpc_register_method` leave behind (rpcserver.cpp), and that the
-- server of rpc_application.cpp is ready.
use mathlib.Core.Option
use zeromq_rpc_test.Prelude.{
  ℕ, zero, suc, ◌≤◌, ◌<◌, ◌≡◌, refl, false, [], ◌∷◌, ◌++◌, Option, none, some, Bytes, codes,
  bytes_eq, cstr, has_nul, ltb, length, take, replicate, Option-cases, inl, inr, arith,
  if◌then◌else◌,
}
use zeromq_rpc_test.External.RpcHash.{RpcHash, IsRpcHash}
use zeromq_rpc_test.Server.Defs.{
  Server, Resources, strncpy, rpc_server_init, rpc_register_method, rpc_get_callfunc,
  rpc_handle_req_fn, rpc_server_start_fn,
}
use zeromq_rpc_test.Server.Reply.{server_name}
use zeromq_rpc_test.Server.ErrorReply.{IsReady}
use zeromq_rpc_test.Server.Application.{Method, rpc_request_add_method, system_server}
use zeromq_rpc_test.Server.Answer.{HasAdd}

cstr-padded :
    (s : Bytes) (n m : ℕ) (after : Bytes)
    → n ≤ m
    → has_nul s ≡ false
    → cstr (take n (s ++ replicate m 0) ++ after)
      ≡ (if ltb (length s) n then s else take n s ++ cstr after)
cstr-padded [] zero m after le h = refl
cstr-padded [] (suc n) zero after le h = absurd (omega arith)
cstr-padded [] (suc n) (suc m) after le h = ground arith
cstr-padded (c ∷ s) zero m after le h = ground arith
cstr-padded (c ∷ s) (suc n) m after le h = ground (arith, cstr-padded s n m after)

length-server_name :
    (name after : Bytes)
    → has_nul name ≡ false
    → length name < 32
    → length (cstr (strncpy name 32 ++ after)) < 32
unfolding strncpy
length-server_name name after h short = ground (arith, cstr-padded name 32 32 after)

module _ {Func : Type 0} (K : RpcHash Func) where
  -- The name that a new server goes by in its error replies is the given name if that is shorter
  -- than the array of 32 bytes. Otherwise `strncpy` leaves no NUL: it is the first 32 bytes with
  -- whatever the memory behind the array holds up to its first NUL.
  pub server_name-init :
      (r : Resources) (name : Bytes) (sub_url pub_url : Option Bytes) {server : Server K.Table}
      → has_nul name ≡ false
      → rpc_server_init K r name sub_url pub_url ≡ some server
      → server_name server
        ≡ (if ltb (length name) 32 then name else take 32 name ++ cstr r.after_name)
  unfolding rpc_server_init strncpy
  server_name-init r name sub_url pub_url clean made =
      ground (arith, cstr-padded name 32 32 r.after_name)

  -- A new server is ready if its name is shorter than the array.
  pub rpc_server_init-IsReady :
      (r : Resources) (name : Bytes) (sub_url pub_url : Option Bytes) {server : Server K.Table}
      → has_nul name ≡ false
      → length name < 32
      → rpc_server_init K r name sub_url pub_url ≡ some server
      → IsReady server
  unfolding rpc_server_init
  rpc_server_init-IsReady r name sub_url pub_url clean short made = record {
    sends = ground arith;
    sends_errors = ground arith;
    named = ground (arith, length-server_name name r.after_name);
  }

module _ {Func : Type 0} (K : RpcHash Func) (L : IsRpcHash K) where
  -- On a server with a table, registering a method changes the pointer found under its name alone;
  -- on a server without one, registering changes nothing.
  pub rpc_get_callfunc-register :
      (server : Server K.Table) (method : Bytes) (func : Option Func) (name : Bytes)
      → rpc_get_callfunc K (rpc_register_method K server method func) name
        ≡ Option.map
            (λ found. if bytes_eq method name then func else found)
            (rpc_get_callfunc K server name)
  unfolding rpc_get_callfunc rpc_register_method
  rpc_get_callfunc-register server method func name = elim (Option-cases server.rpc_hashmgr) [
    | inl e ↦ ground (arith, e)
    | inr (table, e) ↦ ground (arith, e, L.rpc_hash_get-set table method func name)
  ]

module _ (K : RpcHash Method) (L : IsRpcHash K) where
  abbrev table_with_add : K.Table
  table_with_add = K.rpc_hash_set K.rpc_hash_new (codes "add") (some rpc_request_add_method)

  get-table_with_add :
      (name : Bytes)
      → K.rpc_hash_get table_with_add name
        ≡ (if bytes_eq (codes "add") name then some rpc_request_add_method else none)
  get-table_with_add name = rw (
    L.rpc_hash_get-set K.rpc_hash_new (codes "add") (some rpc_request_add_method) name,
    L.rpc_hash_get-new name,
  )

  -- The server of the application is ready, its table has "add" alone, and it handles the
  -- requests of the loop.
  pub system_server-IsReady :
      (r : Resources) {server : Server K.Table}
      → system_server K r ≡ some server
      → IsReady server
        × HasAdd K server
        × (server.handle_req ≡ some rpc_handle_req_fn)
        × (server.start ≡ some rpc_server_start_fn)
  unfolding system_server rpc_server_init rpc_register_method strncpy
  system_server-IsReady r {server} made = (
    record {
      sends = ground arith;
      sends_errors = ground arith;
      named = ground (arith, length-server_name (codes "system") r.after_name);
    },
    (table_with_add, ground arith, get-table_with_add),
    ground arith,
    ground arith,
  )
