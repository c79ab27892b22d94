-- ===== src/Router/Dealer.antt =====
-- newrpc/router3.cpp: the thread that sends requests from a DEALER socket. A `none` is a read past
-- the end of a buffer.
use zeromq_rpc_test.Prelude.{
  ℕ, ◌+◌, false, List, [], ◌∷◌, ◌++◌, Option, none, some, Bytes, codes, length, take, drop,
  replicate, leb, if◌then◌else◌,
}
use zeromq_rpc_test.External.Zmq.{Frame, Recv, recv_failed, received}

-- `memcpy` into a buffer at an offset.
abbrev pub write_at : ℕ → Bytes → Bytes → Bytes
write_at offset s buffer = take offset buffer ++ (s ++ drop (offset + length s) buffer)

-- `sizeof (msg_head_t)` (three ints and three bytes, padded) and 1024 bytes.
abbrev pub msg_size : ℕ
msg_size = 1040

abbrev pub buf_size : ℕ
buf_size = 256

-- ZMQ_IDENTITY is set from eight bytes, of which the literal "MA1S" has five: `behind` is what the
-- memory behind it holds.
unfoldable pub dealer_identity : Bytes → Bytes
dealer_identity behind = take 8 (codes "MA1S" ++ (0 ∷ behind))

-- The message: zeros, "MA1S" at `src`, and digits at `content`.
unfoldable pub dealer_message : Bytes
dealer_message =
    write_at 14 (take 50 (codes "123456789012345678901234567890123456789012345678901234567890"))
      (write_at 4 (codes "MA1S") (replicate msg_size 0))

-- `zmq_recv` cuts what it stores but returns the whole size, and `dump_msg` reads that many bytes
-- of the buffer. After a failure the size is -1 and nothing is read.
unfoldable pub receive_and_dump : Recv → Bytes → Option Bytes
receive_and_dump recv_failed buf = some buf
receive_and_dump (received content more) buf =
    if leb (length content) buf_size then some (write_at 0 (take buf_size content) buf) else none

-- The endless loop, for as long as receives end: one message is sent before each.
unfoldable pub dealer_transmitter_thread :
    ℕ → List Recv → Bytes → List Frame → Option (Bytes × List Frame)
dealer_transmitter_thread dealer [] buf sent = some (buf, sent)
dealer_transmitter_thread dealer (r ∷ rest) buf sent = elim (receive_and_dump r buf) [
  | none ↦ none
  | some buf' ↦
      dealer_transmitter_thread dealer rest buf'
        (sent ++ (record { socket = dealer; bytes = dealer_message; more = false } ∷ []))
]
