-- ===== src/Router/Echo.antt =====
-- The round trip of requests through the router and its handler (newrpc/router3.cpp).
use zeromq_rpc_test.Prelude.{
  ℕ, ◌≡◌, ◌∙◌, Bool, true, false, ◌&&◌, List, [], ◌∷◌, ◌++◌, map, some, Bytes, length, leb, ltb,
  append_assoc, append-nil, arith,
}
use zeromq_rpc_test.External.Zmq.{Frame, Recv, received}
use zeromq_rpc_test.Router.Poller.{
  Inbox, address_of, rpc_handling, router_handling_msg, forward_reply, poll_events,
  create_poll_thread,
}

-- A request as the ROUTER socket gives it: the address of the peer, and one frame.
abbrev pub Request : Type 0
Request = Bytes × Bytes

-- An address of which an `int` can be read, and a message with a whole head.
abbrev pub is_whole : Request → Bool
is_whole (from, content) = leb 4 (length from) && leb 12 (length content)

abbrev pub all_whole : List Request → Bool
all_whole [] = true
all_whole (m ∷ ms) = is_whole m && all_whole ms

abbrev pub request_recvs : List Request → List Recv
request_recvs [] = []
request_recvs ((from, content) ∷ ms) =
    received from true ∷ received content false ∷ request_recvs ms

-- The frame that goes to the handler, and those that go back to the peer.
abbrev pub forwarded : ℕ → List Request → List Frame
forwarded fwd ms = map (λ m. record { socket = fwd; bytes = m.1; more = false }) ms

abbrev pub replies : ℕ → List Request → List Frame
replies router [] = []
replies router ((from, content) ∷ ms) =
    record { socket = router; bytes = address_of content; more = true }
    ∷ record { socket = router; bytes = content; more = false }
    ∷ replies router ms

-- The address of the last request, or the one from before.
abbrev pub last_from : Bytes → List Request → Bytes
last_from before [] = before
last_from before ((from, content) ∷ ms) = last_from from ms

-- What arrives of some frames at the other end of a PAIR.
abbrev pub delivered : List Frame → List Recv
delivered fs = map (λ f. received f.bytes f.more) fs

abbrev pub events : Bool × Bool → List Request → List (Bool × Bool)
events e ms = map (λ m. e) ms

-- The handler sends back the frames that it receives, unchanged and in order.
pub rpc_handling-echoes :
    (router fwd : ℕ) (ms : List Request) (sent : List Frame)
    → rpc_handling fwd (delivered (forwarded router ms)) sent ≡ sent ++ forwarded fwd ms
unfolding rpc_handling
rpc_handling-echoes router fwd [] sent = rw append-nil
rpc_handling-echoes router fwd ((from, content) ∷ ms) sent =
    let f : Frame = record { socket = fwd; bytes = content; more = false } in
    rpc_handling-echoes router fwd ms (sent ++ (f ∷ []))
    ∙ append_assoc sent (f ∷ []) (forwarded fwd ms)

module _ (sock_router sock_fwd : ℕ) where
  -- As many rounds as there are requests forward them all.
  forward_all :
      (ms : List Request) (fwd_in : Inbox) (before : Bytes) (sent : List Frame)
      (es : List (Bool × Bool))
      → all_whole ms ≡ true
      → create_poll_thread sock_router sock_fwd (events (true, false) ms ++ es) (record {
        router_in = record { input = request_recvs ms; rcvmore = false };
        fwd_in = fwd_in;
        from_addr = before;
        sent = sent;
      })
        ≡ create_poll_thread sock_router sock_fwd es (record {
          router_in = record { input = []; rcvmore = false };
          fwd_in = fwd_in;
          from_addr = last_from before ms;
          sent = sent ++ forwarded sock_fwd ms;
        })
  unfolding create_poll_thread poll_events router_handling_msg
  forward_all [] fwd_in before sent es whole = rw append-nil
  forward_all ((from, content) ∷ ms) fwd_in before sent es whole =
      let f : Frame = record { socket = sock_fwd; bytes = content; more = false } in
      let enough : ltb (length from) 4 ≡ false = ground arith in
      rw (enough, ← append_assoc sent (f ∷ []) (forwarded sock_fwd ms))
        (forward_all ms fwd_in from (sent ++ (f ∷ [])) es (ground arith))

  -- As many rounds as there are replies of the handler send them back.
  reply_all :
      (other : ℕ) (ms : List Request) (router_in : Inbox) (before : Bytes) (sent : List Frame)
      → all_whole ms ≡ true
      → create_poll_thread sock_router sock_fwd (events (false, true) ms) (record {
        router_in = router_in;
        fwd_in = record { input = delivered (forwarded other ms); rcvmore = false };
        from_addr = before;
        sent = sent;
      })
        ≡ some (record {
          router_in = router_in;
          fwd_in = record { input = []; rcvmore = false };
          from_addr = before;
          sent = sent ++ replies sock_router ms;
        })
  unfolding create_poll_thread poll_events forward_reply
  reply_all other [] router_in before sent whole = rw append-nil
  reply_all other ((from, content) ∷ ms) router_in before sent whole =
      let a : Frame = record { socket = sock_router; bytes = address_of content; more = true } in
      let b : Frame = record { socket = sock_router; bytes = content; more = false } in
      let enough : ltb (length content) 12 ≡ false = ground arith in
      rw (enough, ← append_assoc sent (a ∷ b ∷ []) (replies sock_router ms))
        (reply_all other ms router_in before (sent ++ (a ∷ b ∷ [])) (ground arith))

  -- Requests of one frame behind their peer's address, with addresses of at least 4 bytes and
  -- messages of at least 12: when the poll thread forwards them all, and the handler's echoes of
  -- what it forwarded come in, then each message is sent back, unchanged and in order, to the
  -- address in its own head (not to the peer that it came from).
  pub create_poll_thread-replies :
      (ms : List Request) (handler_sock : ℕ) (before : Bytes)
      → all_whole ms ≡ true
      → create_poll_thread sock_router sock_fwd
          (events (true, false) ms ++ events (false, true) ms)
          (record {
            router_in = record { input = request_recvs ms; rcvmore = false };
            fwd_in = record {
              input = delivered (rpc_handling handler_sock (delivered (forwarded sock_fwd ms)) []);
              rcvmore = false;
            };
            from_addr = before;
            sent = [];
          })
        ≡ some (record {
          router_in = record { input = []; rcvmore = false };
          fwd_in = record { input = []; rcvmore = false };
          from_addr = last_from before ms;
          sent = forwarded sock_fwd ms ++ replies sock_router ms;
        })
  create_poll_thread-replies ms handler_sock before whole =
      rw (rpc_handling-echoes sock_fwd handler_sock ms []) (
        forward_all ms _ before [] (events (false, true) ms) whole
        ∙ reply_all handler_sock ms _ _ (forwarded sock_fwd ms) whole)
