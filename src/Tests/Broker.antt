-- ===== src/Tests/Broker.antt =====
-- The monitor of a broker's socket at concrete data (rpcserver/xpubxsub.cpp).
use zeromq_rpc_test.Prelude.{ℕ, ◌≡◌, refl, List, [], ◌∷◌, none, some, codes, arith}
use zeromq_rpc_test.Broker.Event.{
  ZmqEvent, bits_meet, zmq_strevent, event_loop, connected, connect_delayed, connect_retried,
  listening, bind_failed, accepted, accept_failed, closed, close_failed, disconnected,
  monitor_stopped, handshake_failed_no_detail, handshake_succeeded, handshake_failed_protocol,
  handshake_failed_auth,
}
use zeromq_rpc_test.Broker.Monitor.{Line, monitor_async_fe_event, at_event}
use zeromq_rpc_test.Broker.Print.{line_text, event_text}
use zeromq_rpc_test.Broker.Printed.{read_line, read_line-event_text}
use zeromq_rpc_test.Dump.{decimal, Tm, monitor_get_time}
use zeromq_rpc_test.Broker.Lines.{Event, all_recvs, monitor_async_fe_event-prints}

-- Bits of their own.
abbrev value : ZmqEvent → ℕ
value connected = 1
value connect_delayed = 2
value connect_retried = 4
value listening = 8
value bind_failed = 16
value accepted = 32
value accept_failed = 64
value closed = 128
value close_failed = 256
value disconnected = 512
value monitor_stopped = 1024
value handshake_failed_no_detail = 2048
value handshake_succeeded = 4096
value handshake_failed_protocol = 8192
value handshake_failed_auth = 16384

-- The event 512 with value 7; a local address alone, and one that is cut to the remote one.
abbrev events : List Event
events =
    record {
      head = 0 ∷ 2 ∷ 7 ∷ 0 ∷ 0 ∷ 0 ∷ [];
      local = codes "tcp://127.0.0.1:5556";
      remote = none;
    }
    ∷ record {
      head = 0 ∷ 2 ∷ 7 ∷ 0 ∷ 0 ∷ 0 ∷ [];
      local = codes "tcp://127.0.0.1:5556";
      remote = some (codes "tcp://h:1");
    }
    ∷ []

monitor_async_fe_event-prints_example :
    monitor_async_fe_event at_event (all_recvs events) []
    ≡ some (
        record { event = 512; value = 7; local = codes "tcp://127.0.0.1:5556"; remote = none }
        ∷ record {
          event = 512;
          value = 7;
          local = codes "tcp://127";
          remote = some (codes "tcp://h:1");
        }
        ∷ [])
monitor_async_fe_event-prints_example = monitor_async_fe_event-prints events [] refl

abbrev now : Tm
now = record { tm_year = 126; tm_mon = 0; tm_mday = 9; tm_hour = 8; tm_min = 59; tm_sec = 3 }

abbrev line : Line
line = record {
  event = 512;
  value = 7;
  local = codes "tcp://127";
  remote = some (codes "tcp://h:1");
}

event_run :
    event_text value now line
    ≡ codes
        "<20260109 08:59:03>  ZMQ_EVENT_DISCONNECTED                   7  tcp://127  tcp://h:1\r\n"
unfolding event_text line_text zmq_strevent event_loop bits_meet decimal monitor_get_time
event_run = refl

read_line-event_text_example :
    read_line (event_text value now line)
    ≡ some (record {
      time = now;
      name = codes "ZMQ_EVENT_DISCONNECTED";
      value = 7;
      local = codes "tcp://127";
      remote = some (codes "tcp://h:1");
    })
unfolding zmq_strevent event_loop bits_meet
read_line-event_text_example =
    read_line-event_text value now line
      (omega arith, omega arith, omega arith, omega arith, omega arith, omega arith) (omega arith)
      (refl, refl) (refl, refl)
