-- ===== src/Rep/Buffers.antt =====
-- rpcserver/rpc_comm.cpp and rpc_request_add.cpp: the memory of the reply buffers, which `zmq_malloc`
-- gives to the functions that reply, and which ZeroMQ gives back by `zmq_free`.
use mathlib.Core.Option
use zeromq_rpc_test.Prelude.{
  ℕ, true, false, List, [], ◌∷◌, Option, none, some, ◌==◌, and_then, if◌then◌else◌,
}
use zeromq_rpc_test.External.ZmqQueue.{ZmqQueue}

-- What `malloc` gives, NULL or a buffer; and the buffers that are allocated from then on.
unfoldable pub zmq_malloc : Option ℕ → List ℕ → Option ℕ × List ℕ
zmq_malloc none live = (none, live)
zmq_malloc (some buf) live = (some buf, buf ∷ live)

-- `none` is a second `free`, or one of what was never allocated.
unfoldable pub zmq_free : ℕ → List ℕ → Option (List ℕ)
zmq_free buf [] = none
zmq_free buf (p ∷ live) = elim (p == buf) [
  | true ↦ some live
  | false ↦ Option.map (λ l. p ∷ l) (zmq_free buf live)
]

-- The I/O threads free the buffers that they are done with.
abbrev pub free_all : List ℕ → List ℕ → Option (List ℕ)
free_all [] live = some live
free_all (buf ∷ rest) live = and_then (zmq_free buf live) (free_all rest)

pub data BufferEvent : Type 0 where
  -- A reply in a buffer that `malloc` gives, and a turn of the I/O threads.
  replies : ℕ → BufferEvent
  releases : BufferEvent

module _ (Z : ZmqQueue) where
  -- The message refers to the buffer. After a send that is refused, `zmq_msg_close` frees it; after
  -- one that succeeds the message is empty.
  unfoldable pub send_buffer : ℕ → Z.State × List ℕ → Option (Z.State × List ℕ)
  send_buffer buf (z, live) =
      let (taken, z') = Z.send z buf in
      if taken then some (z', live) else Option.map (λ l. (z', l)) (zmq_free buf live)

  -- A function that replies: `none` is a write to a NULL buffer, or a bad `free`.
  unfoldable pub reply_buffer : Option ℕ → Z.State × List ℕ → Option (Z.State × List ℕ)
  reply_buffer given (z, live) =
      let (buffer, live') = zmq_malloc given live in
      elim buffer [ none ↦ none | some buf ↦ send_buffer buf (z, live') ]

  abbrev pub buffer_step : BufferEvent → Z.State × List ℕ → Option (Z.State × List ℕ)
  buffer_step (replies p) s = reply_buffer (some p) s
  buffer_step releases (z, live) =
      let (done, z') = Z.release z in Option.map (λ l. (z', l)) (free_all done live)

  abbrev pub run_buffers : List BufferEvent → Z.State × List ℕ → Option (Z.State × List ℕ)
  run_buffers [] s = some s
  run_buffers (e ∷ es) s = and_then (buffer_step e s) (run_buffers es)
