-- ===== src/Broker/Print.antt =====
-- rpcserver/xpubxsub.cpp: the text that the monitor prints for an event.
use zeromq_rpc_test.Prelude.{
  ℕ, ◌+◌, ◌-◌, [], ◌∷◌, ◌++◌, Option, none, some, Bytes, codes, cstr, length, replicate,
}
use zeromq_rpc_test.Dump.{ℤ, pos, negsuc, decimal, int_digits, int_of, Tm, monitor_get_time}
use zeromq_rpc_test.Broker.Event.{ZmqEvent, zmq_strevent}
use zeromq_rpc_test.Broker.Monitor.{Line}

-- `%-37s` and `%5d`: spaces up to the width, behind a name and in front of a number.
abbrev pub pad_right : ℕ → Bytes → Bytes
pad_right width text = text ++ replicate (width - length text) 32

abbrev pub pad_left : ℕ → Bytes → Bytes
pad_left width text = replicate (width - length text) 32 ++ text

abbrev pub int_decimal : ℤ → Bytes
int_decimal (pos n) = decimal int_digits n
int_decimal (negsuc n) = 45 ∷ decimal int_digits (n + 1)

abbrev pub name_width : ℕ
name_width = 37

-- The addresses, behind the number, and the end of the line.
abbrev pub addresses_text : Line → Bytes
addresses_text line = line.local ++ elim (line.remote) [
  | none ↦ 13 ∷ 10 ∷ []
  | some remote ↦ 32 ∷ 32 ∷ (remote ++ (13 ∷ 10 ∷ []))
]

-- What both formats have behind the time.
abbrev pub fields_text : Bytes → Line → Bytes
fields_text name line =
    pad_right name_width name
    ++ (pad_left 5 (int_decimal (int_of line.value)) ++ (32 ∷ 32 ∷ addresses_text line))

-- The time and the fields, by whether there is a remote address.
abbrev pub in_format : Option Bytes → Bytes → Bytes → Bytes
in_format none strtime fields = strtime ++ (codes ": EVENT: " ++ fields)
in_format (some remote) strtime fields = 60 ∷ (strtime ++ (codes ">  " ++ fields))

-- "%s: EVENT: %-37s%5d  %.*s\r\n" without a remote address, and "<%s>  %-37s%5d  %.*s  %.*s\r\n".
unfoldable pub line_text : (ZmqEvent → ℕ) → Bytes → Line → Bytes
line_text value strtime line =
    in_format line.remote strtime (fields_text (zmq_strevent value line.event) line)

-- `char strtime[128]`
abbrev pub strtime_size : ℕ
strtime_size = 128

-- The text of an event whose first frame is received at a time.
unfoldable pub event_text : (ZmqEvent → ℕ) → Tm → Line → Bytes
event_text value now line = line_text value (cstr (monitor_get_time now strtime_size)) line
