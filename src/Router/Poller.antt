-- ===== src/Router/Poller.antt =====
-- newrpc/router3.cpp: the poll thread between the ROUTER socket and the PAIR socket to the handler,
-- and the handler. A `none` is a read past the end of a message.
use zeromq_rpc_test.Prelude.{
  ℕ, Bool, true, false, not, List, [], ◌∷◌, ◌++◌, Option, none, some, Bytes, and_then, length, take,
  drop, ltb, if◌then◌else◌,
}
use zeromq_rpc_test.External.Zmq.{Frame, Recv, recv_failed, received}

-- What is still to be received from a socket, and what ZMQ_RCVMORE says of its last frame.
pub record Inbox : Type 0 where
  pub input : List Recv
  pub rcvmore : Bool

-- `zmq_msg_recv` into an empty message, which stays empty where it fails.
abbrev pub recv_msg : Inbox → Bytes × Inbox
recv_msg s = elim (s.input) [
  | [] ↦ ([], s)
  | recv_failed ∷ rest ↦ ([], record s { input = rest })
  | received content more ∷ rest ↦ (content, record { input = rest; rcvmore = more })
]

-- The state of the thread; `from_addr` is the global `fromAddr`.
pub record Poller : Type 0 where
  pub router_in : Inbox
  pub fwd_in : Inbox
  pub from_addr : Bytes
  pub sent : List Frame

-- The offset of `src` in `msg_head_t`, and the eight bytes that are copied from there.
abbrev pub src_offset : ℕ
src_offset = 4

abbrev pub addr_size : ℕ
addr_size = 8

abbrev pub address_of : Bytes → Bytes
address_of message = take addr_size (drop src_offset message)

-- What the handler's thread sends back on its socket: every frame that it receives.
unfoldable pub rpc_handling : ℕ → List Recv → List Frame → List Frame
rpc_handling sock [] sent = sent
rpc_handling sock (recv_failed ∷ rest) sent = rpc_handling sock rest sent
rpc_handling sock (received content more ∷ rest) sent =
    rpc_handling sock rest (sent ++ (record { socket = sock; bytes = content; more = false } ∷ []))

module _ (sock_router sock_fwd : ℕ) where
  -- The first frame is the address of the peer, of which an `int` is read to be printed. Only a
  -- second frame that is the last is forwarded.
  unfoldable pub router_handling_msg : Poller → Option Poller
  router_handling_msg p =
      let (from, s1) = recv_msg p.router_in in
      let (content, s2) = recv_msg s1 in
      if not s1.rcvmore
      then some (record p { router_in = s1 })
      else if ltb (length from) 4
      then none
      else if s2.rcvmore
      then some (record p { router_in = s2; from_addr = from })
      else some (record p {
        router_in = s2;
        from_addr = from;
        sent = p.sent ++ (record { socket = sock_fwd; bytes = content; more = false } ∷ []);
      })

  -- A reply from the handler goes to the address that it carries.
  unfoldable pub forward_reply : Poller → Option Poller
  forward_reply p =
      let (message, s) = recv_msg p.fwd_in in
      if ltb (length message) 12
      then none
      else some (record p {
        fwd_in = s;
        sent =
            p.sent
            ++ (record { socket = sock_router; bytes = address_of message; more = true }
                ∷ record { socket = sock_router; bytes = message; more = false }
                ∷ []);
      })

  -- One round of the loop: whether each of the two sockets is readable.
  unfoldable pub poll_events : Bool × Bool → Poller → Option Poller
  poll_events (router_ready, fwd_ready) p =
      and_then (if router_ready then router_handling_msg p else some p)
        λ p'. if fwd_ready then forward_reply p' else some p'

  -- The endless loop of `create_poll_thread`, for as long as events are given.
  unfoldable pub create_poll_thread : List (Bool × Bool) → Poller → Option Poller
  create_poll_thread [] p = some p
  create_poll_thread (e ∷ es) p = and_then (poll_events e p) (create_poll_thread es)
