-- ===== src/Arpc/Same.antt =====
-- The two copies of the older server, in the folders rpc and rpcserver, behave alike.
use mathlib.Core.Option
use mathlib.Core.Path.{fun_ext}
use zeromq_rpc_test.Prelude.{
  ℕ, ◌≡◌, refl, ap, Bool, false, codes, List, [], ◌∷◌, Option, none, some, Bytes, and_then,
  Bool-cases, inl, inr, ◌==◌,
}
use zeromq_rpc_test.External.Mpack.{Mpack}
use zeromq_rpc_test.External.RpcHash.{RpcHash}
use zeromq_rpc_test.External.Zmq.{Frame, Recv, recv_failed, received}
use zeromq_rpc_test.Server.World.{World, ◌>>=◌}
use zeromq_rpc_test.Rep.Comm as RepComm
use zeromq_rpc_test.Rep.Buffers as RepBuffers
use zeromq_rpc_test.Rep.Add as RepAdd
use zeromq_rpc_test.Rep.Manager as RepManager
use zeromq_rpc_test.Rep.Manager.{RequestFunc, rpc_request_add_func}
use zeromq_rpc_test.Rep.Worker as RepWorker
use zeromq_rpc_test.Rep.Start as RepStart
use zeromq_rpc_test.Rep.Start.{Zmq}
use zeromq_rpc_test.Arpc.Comm
use zeromq_rpc_test.Arpc.Comm.{Handler}
use zeromq_rpc_test.Arpc.Add
use zeromq_rpc_test.Arpc.Manager
use zeromq_rpc_test.Arpc.Worker
use zeromq_rpc_test.Arpc.Start

-- The handler as the other copy declares it.
abbrev pub as_rep : Handler → RepComm.Handler
as_rep h = record { socket = h.socket; tid = h.tid; tid_size = h.tid_size }

module _ {F : Type 0} (M : Mpack F) (K : RpcHash RequestFunc) (float_add : F → F → F) where
  add_same :
      (handler : Handler) (n : M.Node) (w : World M.Tree)
      → Add.rpc_request_add M float_add handler n w
        ≡ RepAdd.rpc_request_add M float_add (as_rep handler) n w
  unfolding Add.rpc_request_add RepAdd.rpc_request_add Add.add RepAdd.add
      Comm.rpc_check_param_validity RepComm.rpc_check_param_validity Comm.rpc_request_reply_opresult
      RepComm.rpc_request_reply_opresult Comm.opresult_calls RepComm.opresult_calls
      Comm.rpc_send_reply RepComm.rpc_send_reply Add.rpc_send_add_request_reply
      RepAdd.rpc_send_add_request_reply Add.add_request_calls RepAdd.add_request_calls
  add_same handler n w = refl

  unknown_same :
      (handler : Handler) (result : Bool) (cause : Option Bytes) (w : World M.Tree)
      → Comm.rpc_request_reply_opresult2 M handler result cause w
        ≡ RepComm.rpc_request_reply_opresult2 M (as_rep handler) result cause w
  unfolding Comm.rpc_request_reply_opresult2 RepComm.rpc_request_reply_opresult2
      Comm.opresult2_calls RepComm.opresult2_calls Comm.rpc_send_reply RepComm.rpc_send_reply
  unknown_same handler result cause w = refl

  -- The name that `msg_handler` reads.
  abbrev name_of : M.Tree → Bytes
  name_of t =
      let (func, t') = M.array_at (M.tree_root t).0 0 (M.tree_root t).1 in
      (M.copy_cstr func 128 t').0

  get_same :
      (rpc_hashmgr : Option K.Table) (name : Bytes)
      → Manager.rpc_get_func K rpc_hashmgr name ≡ RepManager.rpc_get_func K rpc_hashmgr name
  unfolding Manager.rpc_get_func RepManager.rpc_get_func
  get_same none name = refl
  get_same (some table) name = refl

  module _ (rpc_hashmgr : Option K.Table) (handler : Handler) where
    entry_same :
        (entry : Option (Option RequestFunc)) (paras : M.Node) (w : World M.Tree)
        → Worker.call_entry M K float_add rpc_hashmgr handler entry paras w
          ≡ RepWorker.call_entry M K float_add rpc_hashmgr (as_rep handler) entry paras w
    unfolding Worker.call_entry RepWorker.call_entry
    entry_same none paras w = refl
    entry_same (some none) paras w =
        rw (◌>>=◌, unknown_same handler false (some (codes "unknown entry")) w)
    entry_same (some (some rpc_request_add_func)) paras w = add_same handler paras w

    msg_handler_same :
        (content : Bytes) (sent : List Frame)
        → Worker.msg_handler M K float_add rpc_hashmgr handler content sent
          ≡ RepWorker.msg_handler M K float_add rpc_hashmgr (as_rep handler) content sent
    unfolding Worker.msg_handler RepWorker.msg_handler Worker.handle_tree RepWorker.handle_tree
    msg_handler_same content sent =
        rw (← get_same rpc_hashmgr (name_of (M.tree_parse content 128)))
          (ap (λ r. Option.map (λ p. (p.1).sent) r) (entry_same _ _ _))

    rpcs_worker_thread_same :
        (rs : List Recv) (sent : List Frame)
        → Worker.rpcs_worker_thread M K float_add rpc_hashmgr handler rs sent
          ≡ RepWorker.rpcs_worker_thread M K float_add rpc_hashmgr (as_rep handler) rs sent
    unfolding Worker.rpcs_worker_thread RepWorker.rpcs_worker_thread
    rpcs_worker_thread_same [] sent = refl
    rpcs_worker_thread_same (recv_failed ∷ rest) sent = refl
    rpcs_worker_thread_same (received content more ∷ rest) sent =
        rw (msg_handler_same content sent) (
          ap
            (and_then
              (RepWorker.msg_handler M K float_add rpc_hashmgr (as_rep handler) content sent))
            (fun_ext (rpcs_worker_thread_same rest)))

  worker_thread_same :
      (sock : ℕ) (rs : List Recv) (sent : List Frame)
      → Start.worker_thread M sock rs sent ≡ RepStart.worker_thread M sock rs sent
  unfolding Start.worker_thread RepStart.worker_thread Start.worker_round RepStart.worker_round
  worker_thread_same sock [] sent = refl
  worker_thread_same sock (recv_failed ∷ rest) sent = refl
  worker_thread_same sock (received content more ∷ rest) sent =
      ap (and_then (RepStart.worker_round M sock content sent))
        (fun_ext (worker_thread_same sock rest))

pub main1_same : (z : Zmq) → Start.main1 z ≡ RepStart.main1 z
unfolding Start.main1 RepStart.main1 Start.rpcs_thread_start RepStart.rpcs_thread_start
main1_same z = refl

zmq_malloc_same :
    (given : Option ℕ) (live : List ℕ)
    → Comm.zmq_malloc given live ≡ RepBuffers.zmq_malloc given live
unfolding Comm.zmq_malloc RepBuffers.zmq_malloc
zmq_malloc_same none live = refl
zmq_malloc_same (some buf) live = refl

zmq_free_same : (buf : ℕ) (live : List ℕ) → Comm.zmq_free buf live ≡ RepBuffers.zmq_free buf live
unfolding Comm.zmq_free RepBuffers.zmq_free
zmq_free_same buf [] = refl
zmq_free_same buf (p ∷ live) = elim (Bool-cases (p == buf)) [
  | inl found ↦ rw (Comm.zmq_free, RepBuffers.zmq_free, found)
  | inr other ↦ rw (Comm.zmq_free, RepBuffers.zmq_free, other, zmq_free_same buf live)
]

-- The two copies of the older server behave alike: whatever is received, failures included, their
-- workers send the same frames or fault at the same place, on the same table of methods; so do
-- their simple workers; both copies of `main1` make the same calls on their sockets; and both
-- allocate and free their reply buffers alike.
pub copies_same :
    {F : Type 0} (M : Mpack F) (K : RpcHash RequestFunc) (float_add : F → F → F)
    (rpc_hashmgr : Option K.Table) (handler : Handler) (rs : List Recv) (sent : List Frame)
    (z : Zmq) (given : Option ℕ) (buf : ℕ) (live : List ℕ)
    → (Worker.rpcs_worker_thread M K float_add rpc_hashmgr handler rs sent
        ≡ RepWorker.rpcs_worker_thread M K float_add rpc_hashmgr (as_rep handler) rs sent)
      × (Start.worker_thread M handler.socket rs sent
          ≡ RepStart.worker_thread M handler.socket rs sent)
      × (Start.main1 z ≡ RepStart.main1 z)
      × (Comm.zmq_malloc given live ≡ RepBuffers.zmq_malloc given live)
      × (Comm.zmq_free buf live ≡ RepBuffers.zmq_free buf live)
copies_same M K float_add rpc_hashmgr handler rs sent z given buf live = (
  rpcs_worker_thread_same M K float_add rpc_hashmgr handler rs sent,
  worker_thread_same M K float_add handler.socket rs sent,
  main1_same z,
  zmq_malloc_same given live,
  zmq_free_same buf live,
)
