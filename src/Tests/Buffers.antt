-- ===== src/Tests/Buffers.antt =====
-- The reply buffers with a queue that takes two messages (rpcserver/rpc_comm.cpp).
use zeromq_rpc_test.Prelude.{ℕ, ◌≡◌, refl, List, [], ◌∷◌, some}
use zeromq_rpc_test.External.ZmqQueue.{count}
use zeromq_rpc_test.Instances.ListQueue.{list_queue, list_queue-IsZmqQueue}
use zeromq_rpc_test.Rep.Buffers.{
  zmq_malloc, zmq_free, BufferEvent, replies, releases, send_buffer, reply_buffer, run_buffers,
}
use zeromq_rpc_test.Rep.Freed.{run_buffers-owned}

-- The third reply is refused, so its buffer is freed at once.
abbrev replies_and_releases : List BufferEvent
replies_and_releases = replies 7 ∷ replies 8 ∷ replies 9 ∷ releases ∷ replies 7 ∷ []

buffers_run : run_buffers list_queue replies_and_releases ([], []) ≡ some (8 ∷ 7 ∷ [], 7 ∷ 8 ∷ [])
unfolding reply_buffer zmq_malloc zmq_free send_buffer
buffers_run = refl

run_buffers-owned_example :
    (z : List ℕ) × (live : List ℕ) × (run_buffers list_queue replies_and_releases ([], [])
      ≡ some (z, live))
    × (count 8 live ≡ count 8 z)
run_buffers-owned_example =
    run_buffers-owned list_queue list_queue-IsZmqQueue replies_and_releases 8
