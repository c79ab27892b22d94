-- ===== src/Broker/Event.antt =====
-- rpcserver/zmq_event_helper.cpp: the names of ZeroMQ's events. The values of the constants are
-- ZeroMQ's, so they are a parameter.
use zeromq_rpc_test.Prelude.{
  ℕ, zero, suc, ◌/◌, ◌%◌, ◌==◌, Bool, false, ◌&&◌, ◌||◌, List, [], ◌∷◌, Bytes, codes, if◌then◌else◌,
}

pub data ZmqEvent : Type 0 where
  connected connect_delayed connect_retried listening bind_failed : ZmqEvent
  accepted accept_failed closed close_failed disconnected monitor_stopped : ZmqEvent
  handshake_failed_no_detail handshake_succeeded : ZmqEvent
  handshake_failed_protocol handshake_failed_auth : ZmqEvent

-- `#event`
abbrev pub desc : ZmqEvent → Bytes
desc connected = codes "ZMQ_EVENT_CONNECTED"
desc connect_delayed = codes "ZMQ_EVENT_CONNECT_DELAYED"
desc connect_retried = codes "ZMQ_EVENT_CONNECT_RETRIED"
desc listening = codes "ZMQ_EVENT_LISTENING"
desc bind_failed = codes "ZMQ_EVENT_BIND_FAILED"
desc accepted = codes "ZMQ_EVENT_ACCEPTED"
desc accept_failed = codes "ZMQ_EVENT_ACCEPT_FAILED"
desc closed = codes "ZMQ_EVENT_CLOSED"
desc close_failed = codes "ZMQ_EVENT_CLOSE_FAILED"
desc disconnected = codes "ZMQ_EVENT_DISCONNECTED"
desc monitor_stopped = codes "ZMQ_EVENT_MONITOR_STOPPED"
desc handshake_failed_no_detail = codes "ZMQ_EVENT_HANDSHAKE_FAILED_NO_DETAIL"
desc handshake_succeeded = codes "ZMQ_EVENT_HANDSHAKE_SUCCEEDED"
desc handshake_failed_protocol = codes "ZMQ_EVENT_HANDSHAKE_FAILED_PROTOCOL"
desc handshake_failed_auth = codes "ZMQ_EVENT_HANDSHAKE_FAILED_AUTH"

abbrev pub zmq_event_table : List ZmqEvent
zmq_event_table =
    connected ∷ connect_delayed ∷ connect_retried ∷ listening ∷ bind_failed ∷ accepted
    ∷ accept_failed ∷ closed ∷ close_failed ∷ disconnected ∷ monitor_stopped
    ∷ handshake_failed_no_detail ∷ handshake_succeeded ∷ handshake_failed_protocol
    ∷ handshake_failed_auth ∷ []

-- Whether `a & b` is not 0, on the lowest `width` bits.
unfoldable pub bits_meet : ℕ → ℕ → ℕ → Bool
bits_meet zero a b = false
bits_meet (suc width) a b = (a % 2 == 1 && b % 2 == 1) || bits_meet width (a / 2) (b / 2)

-- `int` has 32 bits.
abbrev pub int_bits : ℕ
int_bits = 32

module _ (value : ZmqEvent → ℕ) where
  -- The loop over what is left of the table.
  unfoldable pub event_loop : List ZmqEvent → ℕ → Bytes
  event_loop [] event = codes "UNKNOWN EVENT"
  event_loop (entry ∷ rest) event =
      let found = event_loop rest event in
      if bits_meet int_bits event (value entry) then desc entry else found

  unfoldable pub zmq_strevent : ℕ → Bytes
  zmq_strevent event = event_loop zmq_event_table event
