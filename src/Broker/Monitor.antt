-- ===== src/Broker/Monitor.antt =====
-- rpcserver/xpubxsub.cpp: the loop that prints the events of a monitored socket. An event is a
-- message of frames: the event and its value, the local address, and maybe a remote one.
use zeromq_rpc_test.Prelude.{
  ℕ, ◌+◌, ◌*◌, Bool, not, List, [], ◌∷◌, ◌++◌, Option, none, some, Bytes, length, take, drop, ltb,
  leb, cstr, if◌then◌else◌,
}
use zeromq_rpc_test.External.Zmq.{Recv, recv_failed, received}

-- `char local[512]` and `char remote[512]`
abbrev pub local_size : ℕ
local_size = 512

-- What is printed for an event, without the time: its number, its value and the addresses.
pub record Line : Type 0 where
  pub event : ℕ
  pub value : ℕ
  pub local : Bytes
  pub remote : Option Bytes

-- The place in the loop: before a frame of the first kind, the second or the third.
pub data Place : Type 0 where
  at_event : Place
  at_local : ℕ → ℕ → Place
  at_remote : ℕ → ℕ → Bytes → Place

-- A little-endian number of the first bytes.
abbrev pub little_endian : Bytes → ℕ
little_endian [] = 0
little_endian (b ∷ bs) = b + 256 * little_endian bs

-- What a receive leads to: a read or write past the end of a buffer, the end of the thread, or
-- a place and the lines that are printed.
pub data Outcome : Type 0 where
  overrun returned : Outcome
  moved : Place → List Line → Outcome

-- The first frame is read as two bytes and four bytes.
unfoldable pub take_event : Bytes → Bool → Outcome
take_event content more =
    if ltb (length content) 6
    then overrun
    else if not more
    then moved at_event []
    else moved (at_local (little_endian (take 2 content)) (little_endian (take 4 (drop 2 content))))
        []

-- The address is copied, and a NUL is stored behind it; as the last frame it is printed.
unfoldable pub take_local : ℕ → ℕ → Bytes → Bool → Outcome
take_local event value content more =
    if leb local_size (length content)
    then overrun
    else if not more
    then moved at_event (
        record {
          event = event;
          value = value;
          local = take (length content) (cstr content);
          remote = none;
        }
        ∷ [])
    else moved (at_remote event value content) []

-- Both addresses are printed with at most as many bytes as the remote one has.
unfoldable pub take_remote : ℕ → ℕ → Bytes → Bytes → Outcome
take_remote event value local content =
    if leb local_size (length content)
    then overrun
    else moved at_event (
        record {
          event = event;
          value = value;
          local = take (length content) (cstr local);
          remote = some (take (length content) (cstr content));
        }
        ∷ [])

unfoldable pub monitor_step : Place → Recv → Outcome
monitor_step at_event recv_failed = returned
monitor_step at_event (received content more) = take_event content more
monitor_step (at_local event value) recv_failed = moved at_event []
monitor_step (at_local event value) (received content more) = take_local event value content more
monitor_step (at_remote event value local) recv_failed = moved at_event []
monitor_step (at_remote event value local) (received content more) =
    take_remote event value local content

-- The loop, for as long as something is received; `none` is an overrun.
unfoldable pub monitor_async_fe_event : Place → List Recv → List Line → Option (List Line)
monitor_async_fe_event place [] lines = some lines
monitor_async_fe_event place (r ∷ rest) lines = elim (monitor_step place r) [
  | overrun ↦ none
  | returned ↦ some lines
  | moved place' printed ↦ monitor_async_fe_event place' rest (lines ++ printed)
]
