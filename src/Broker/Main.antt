-- ===== src/Broker/Main.antt =====
-- `main` of rpcserver/xpubxsub.cpp. The loop that `test_server` ends in has no exit, so the threads
-- of the brokers, which are started behind it, are not.
use zeromq_rpc_test.Prelude.{List, Option}
use zeromq_rpc_test.External.Mpack.{Mpack}
use zeromq_rpc_test.External.RpcHash.{RpcHash}
use zeromq_rpc_test.Server.Defs.{Resources}
use zeromq_rpc_test.Server.Handler.{Channel, Poll}
use zeromq_rpc_test.Server.Application.{Method, Setup, test_server}

module _ {F : Type 0} (M : Mpack F) (K : RpcHash Method) (float_add : F → F → F) where
  unfoldable pub main : Resources → List Poll → Channel → Option (List Setup × Option Channel)
  main r polls c = test_server M K float_add r polls c
