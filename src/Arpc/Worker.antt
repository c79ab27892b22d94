-- ===== src/Arpc/Worker.antt =====
-- rpc/rpcs.cpp: the handling of one request, and the loop of a worker thread.
use mathlib.Core.Option
use zeromq_rpc_test.Prelude.{ℕ, false, List, [], ◌∷◌, Option, none, some, Bytes, codes, and_then}
use zeromq_rpc_test.External.Mpack.{Mpack}
use zeromq_rpc_test.External.RpcHash.{RpcHash}
use zeromq_rpc_test.External.Zmq.{Frame, Recv, recv_failed, received}
use zeromq_rpc_test.Server.World.{Action, pure, fault, ◌>>=◌, on_tree}
use zeromq_rpc_test.Arpc.Comm.{Handler, rpc_request_reply_opresult2}
use zeromq_rpc_test.Arpc.Add.{rpc_request_add}
use zeromq_rpc_test.Arpc.Manager.{rpc_get_func}
use zeromq_rpc_test.Rep.Manager.{RequestFunc, rpc_request_add_func}

-- `mpack_node_data_t pool[128]` and `char cstr[128]`
abbrev pub pool_size : ℕ
pool_size = 128

abbrev pub cstr_size : ℕ
cstr_size = 128

module _ {F : Type 0} (M : Mpack F) (K : RpcHash RequestFunc) (float_add : F → F → F)
    (rpc_hashmgr : Option K.Table) (handler : Handler) where
  -- `rpcfunc (handler, paras)`, or the reply that there is no such function.
  unfoldable pub call_entry : Option (Option RequestFunc) → M.Node → Action M.Tree (Unit {0})
  call_entry none paras = fault
  call_entry (some (some rpc_request_add_func)) paras = rpc_request_add M float_add handler paras
  call_entry (some none) paras = do
    replied ← rpc_request_reply_opresult2 M handler false (some (codes "unknown entry"))
    pure tt

  -- From the root of the parsed tree on. The root is not tested: on any other data the calls of
  -- MPack give their default values.
  unfoldable pub handle_tree : M.Node → Action M.Tree (Unit {0})
  handle_tree root = do
    func ← on_tree (M.array_at root 0)
    cstr ← on_tree (M.copy_cstr func cstr_size)
    paras ← on_tree (M.array_at root 1)
    call_entry (rpc_get_func K rpc_hashmgr cstr) paras

  unfoldable pub msg_handler : Bytes → List Frame → Option (List Frame)
  msg_handler content sent =
      Option.map (λ r. (r.1).sent)
        ((do root ← on_tree M.tree_root; handle_tree root)
          (record { tree = M.tree_parse content pool_size; sent = sent }))

  -- The endless loop, for as long as something is received. After a failed receive the size is
  -- -1, and the parser reads as many bytes as a `size_t` can hold from an empty message.
  unfoldable pub rpcs_worker_thread : List Recv → List Frame → Option (List Frame)
  rpcs_worker_thread [] sent = some sent
  rpcs_worker_thread (recv_failed ∷ rest) sent = none
  rpcs_worker_thread (received content more ∷ rest) sent =
      and_then (msg_handler content sent) (rpcs_worker_thread rest)
