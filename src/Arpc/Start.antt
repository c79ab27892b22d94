-- ===== src/Arpc/Start.antt =====
-- rpc/rpcs.cpp, rpcs1.cpp and zmq_rpcrouter.cpp: the start of the workers and of the router between
-- them and the clients, and the worker that answers every request alike.
use zeromq_rpc_test.Prelude.{
  ℕ, false, not, List, [], ◌∷◌, ◌++◌, Option, none, some, Bytes, codes, and_then, if◌then◌else◌,
}
use zeromq_rpc_test.External.Mpack.{Mpack}
use zeromq_rpc_test.External.Zmq.{Frame, Recv, recv_failed, received}
use zeromq_rpc_test.Server.World.{◌>>◌, zmq_msg_send}
use zeromq_rpc_test.Rep.Start.{
  Zmq, rep_kind, router_kind, dealer_kind, ZmqCall, binds, connects, closes, starts_thread,
  terminates, runs_proxy, parse_request,
}
use zeromq_rpc_test.Arpc.Worker.{pool_size}

abbrev pub worker_url : Bytes
worker_url = codes "tcp://127.0.0.1:40001"

-- The thread, if one is started, and the calls. A socket that cannot be connected is closed.
unfoldable pub rpcs_thread_start : Zmq → ℕ → Option ℕ × List ZmqCall
rpcs_thread_start z ctx = elim (z.zmq_socket ctx rep_kind) [
  | none ↦ (none, [])
  | some s ↦
      if not (z.zmq_connect s worker_url)
      then (none, connects s worker_url ∷ closes s ∷ [])
      else (z.zmq_threadstart s, connects s worker_url ∷ starts_thread s ∷ [])
]

-- The start of the worker of rpcs1.cpp, which is the same.
unfoldable pub start_rpcs_thread : Zmq → ℕ → Option ℕ × List ZmqCall
start_rpcs_thread z ctx = elim (z.zmq_socket ctx rep_kind) [
  | none ↦ (none, [])
  | some s ↦
      if not (z.zmq_connect s worker_url)
      then (none, connects s worker_url ∷ closes s ∷ [])
      else (z.zmq_threadstart s, connects s worker_url ∷ starts_thread s ∷ [])
]

-- What is done with the router and the dealer socket; `none` where an assertion fails.
abbrev router_calls : Zmq → ℕ → ℕ → ℕ → Option (List ZmqCall)
router_calls z ctx router_sock dealer_sock =
    if not (z.zmq_bind router_sock (codes "tcp://*:40000"))
    then none
    else if not (z.zmq_bind dealer_sock (codes "tcp://*:40001"))
    then none
    else some (
        binds router_sock (codes "tcp://*:40000")
        ∷ binds dealer_sock (codes "tcp://*:40001")
        ∷ ((rpcs_thread_start z ctx).1
            ++ (runs_proxy router_sock dealer_sock
                ∷ closes router_sock
                ∷ closes dealer_sock
                ∷ terminates ctx
                ∷ [])))

unfoldable pub main1 : Zmq → Option (List ZmqCall)
main1 z = and_then z.zmq_init λ ctx. and_then (z.zmq_socket ctx router_kind) λ router_sock.
    and_then (z.zmq_socket ctx dealer_kind)
      λ dealer_sock. router_calls z ctx router_sock dealer_sock

module _ {F : Type 0} (M : Mpack F) where
  -- One request of `worker_thread`.
  unfoldable pub worker_round : ℕ → Bytes → List Frame → Option (List Frame)
  worker_round sock content sent =
      elim ((do parse_request M; zmq_msg_send sock (codes "return string") false)
        (record { tree = M.tree_parse content pool_size; sent = sent })) [
          | none ↦ none
          | some (_, w) ↦ some w.sent
        ]

  -- The endless loop, for as long as something is received. After a failed receive the parser
  -- reads past the end of an empty message.
  unfoldable pub worker_thread : ℕ → List Recv → List Frame → Option (List Frame)
  worker_thread sock [] sent = some sent
  worker_thread sock (recv_failed ∷ rest) sent = none
  worker_thread sock (received content more ∷ rest) sent =
      and_then (worker_round sock content sent) (worker_thread sock rest)
