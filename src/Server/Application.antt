-- ===== src/Server/Application.antt =====
-- rpcserver/rpc_application.cpp and main.cpp: the server "system" with its one method, and what
-- `rpc_server_start` (rpcserver.cpp) does before the loop.

use zeromq_rpc_test.Prelude.{ℕ, List, [], ◌∷◌, Option, none, some, Bytes, codes, and_then}
use zeromq_rpc_test.External.Mpack.{Mpack}
use zeromq_rpc_test.External.RpcHash.{RpcHash}
use zeromq_rpc_test.Server.World.{Action}
use zeromq_rpc_test.Server.Defs.{
  Server, Resources, async_msgq_be, sync_msgq_fe, rpc_server_init, rpc_register_method,
  rpc_server_start_fn, rpc_register_method_fn,
}
use zeromq_rpc_test.Server.Add.{rpc_request_add}
use zeromq_rpc_test.Server.Handler.{Poll, Channel, rpc_recv_thread}

-- The functions that the program registers.
pub data Method : Type 0 where
  rpc_request_add_method : Method

-- What is done with a socket before messages flow.
pub data Setup : Type 0 where
  zmq_connect zmq_subscribe : ℕ → Bytes → Setup

module _ (K : RpcHash Method) where
  -- The server that `test_server` starts; `none` where it goes through a null pointer.
  unfoldable pub system_server : Resources → Option (Server K.Table)
  system_server r =
      and_then (rpc_server_init K r (codes "system") (some async_msgq_be) (some sync_msgq_fe))
        λ server. elim (server.register_method) [
          | some rpc_register_method_fn ↦
              some (rpc_register_method K server (codes "add") (some rpc_request_add_method))
          | _ ↦ none
        ]

module _ {F : Type 0} (M : Mpack F) (K : RpcHash Method) (float_add : F → F → F) where
  abbrev pub call_method : Method → Server K.Table → M.Node → Action M.Tree (Unit {0})
  call_method rpc_request_add_method server root = rpc_request_add M float_add server root

  -- The calls on the sockets, then the loop.
  unfoldable pub rpc_server_start :
      Server K.Table → List Poll → Channel → List Setup × Option Channel
  rpc_server_start server polls c = (
    zmq_connect server.pub_sock server.pub_url
        ∷ zmq_connect server.sub_sock server.sub_url
        ∷ zmq_subscribe server.sub_sock (codes "1/")
        ∷ [],
    rpc_recv_thread M K call_method server polls c,
  )

  unfoldable pub test_server :
      Resources → List Poll → Channel → Option (List Setup × Option Channel)
  test_server r polls c = and_then (system_server K r) λ server. elim (server.start) [
    | some rpc_server_start_fn ↦ some (rpc_server_start server polls c)
    | _ ↦ none
  ]

  -- rpcserver/main.cpp: `main` only calls `test_server`.
  unfoldable pub main : Resources → List Poll → Channel → Option (List Setup × Option Channel)
  main r polls c = test_server r polls c
