-- ===== src/Broker/Lines.antt =====
-- What the monitor prints for the events that ZeroMQ sends (rpcserver/xpubxsub.cpp).
use zeromq_rpc_test.Prelude.{
  ◌≡◌, ◌∙◌, ap, Bool, true, false, not, ◌&&◌, List, [], ◌∷◌, ◌++◌, map, Option, none, some, Bytes,
  length, take, drop, ltb, leb, cstr, Option-cases, inl, inr, append_assoc, append-nil, arith,
}
use zeromq_rpc_test.External.Zmq.{Recv, received}
use zeromq_rpc_test.Broker.Monitor.{
  Line, at_event, little_endian, local_size, take_event, take_local, take_remote, monitor_step,
  monitor_async_fe_event,
}

-- An event as it is sent: the first frame, the local address, and maybe a remote one.
pub record Event : Type 0 where
  pub head : Bytes
  pub local : Bytes
  pub remote : Option Bytes

abbrev pub event_recvs : Event → List Recv
event_recvs e = received e.head true ∷ elim (e.remote) [
  | none ↦ received e.local false ∷ []
  | some remote ↦ received e.local true ∷ received remote false ∷ []
]

abbrev pub all_recvs : List Event → List Recv
all_recvs [] = []
all_recvs (e ∷ es) = event_recvs e ++ all_recvs es

-- A first frame of at least six bytes, and addresses that fit their buffers with a NUL.
abbrev pub fits : Event → Bool
fits e =
    not (ltb (length e.head) 6)
    && (not (leb local_size (length e.local))
        && elim (e.remote) [ none ↦ true | some remote ↦ not (leb local_size (length remote)) ])

abbrev pub all_fit : List Event → Bool
all_fit [] = true
all_fit (e ∷ es) = fits e && all_fit es

-- The line of an event. The local address is cut to the length of the remote one.
abbrev pub line_of : Event → Line
line_of e = record {
  event = little_endian (take 2 e.head);
  value = little_endian (take 4 (drop 2 e.head));
  local = elim (e.remote) [
    | none ↦ take (length e.local) (cstr e.local)
    | some remote ↦ take (length remote) (cstr e.local)
  ];
  remote = elim (e.remote) [
    | none ↦ none
    | some remote ↦ some (take (length remote) (cstr remote))
  ];
}

one_event :
    (e : Event) (rest : List Recv) (lines : List Line)
    → fits e ≡ true
    → monitor_async_fe_event at_event (event_recvs e ++ rest) lines
      ≡ monitor_async_fe_event at_event rest (lines ++ (line_of e ∷ []))
unfolding monitor_async_fe_event monitor_step take_event take_local take_remote
one_event e rest lines h =
    let big : ltb (length e.head) 6 ≡ false = ground arith in
    let small : leb local_size (length e.local) ≡ false = ground arith in
    elim (Option-cases e.remote) [
      | inl none_there ↦ rw (
        none_there, monitor_async_fe_event, monitor_step, take_event, take_local, big, append-nil,
        none_there, small,
      )
      | inr (remote, there) ↦
          let small_too : leb local_size (length remote) ≡ false = ground arith in
          rw (
            there, monitor_async_fe_event, monitor_step, take_event, take_local, take_remote, big,
            append-nil, there, small, small_too, append-nil,
          )
    ]

-- From a stream of events whose frames fit the buffers the monitor prints one line for each, in
-- order: its number, its value, and its addresses up to their first NUL, the local one cut to as
-- many bytes as the remote one has where there is one.
pub monitor_async_fe_event-prints :
    (es : List Event) (lines : List Line)
    → all_fit es ≡ true
    → monitor_async_fe_event at_event (all_recvs es) lines ≡ some (lines ++ map line_of es)
unfolding monitor_async_fe_event
monitor_async_fe_event-prints [] lines h = rw append-nil
monitor_async_fe_event-prints (e ∷ es) lines h =
    one_event e (all_recvs es) lines (ground arith)
    ∙ monitor_async_fe_event-prints es (lines ++ (line_of e ∷ [])) (ground arith)
    ∙ ap some (append_assoc lines (line_of e ∷ []) (map line_of es))
