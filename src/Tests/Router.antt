-- ===== src/Tests/Router.antt =====
-- The router and the dealer at concrete data (newrpc/router3.cpp).
use zeromq_rpc_test.Prelude.{
  zero, ◌≡◌, ◌↔◌, refl, true, false, List, [], ◌∷◌, ◌++◌, none, some, codes, replicate,
}
use zeromq_rpc_test.External.Zmq.{received}
use zeromq_rpc_test.Router.Poller.{create_poll_thread, rpc_handling}
use zeromq_rpc_test.Router.Dealer.{
  dealer_identity, dealer_message, dealer_transmitter_thread, write_at, msg_size,
}
use zeromq_rpc_test.Router.Address.{dealer_identity-address_of, dealer_transmitter_thread-fault_iff}
use zeromq_rpc_test.Router.Poller.{address_of}
use zeromq_rpc_test.Router.Echo.{
  Request, events, request_recvs, delivered, forwarded, create_poll_thread-replies,
}

-- The dealer's message from its identity, and a short one from another peer.
abbrev requests : List Request
requests =
    (codes "MA1S" ++ replicate 4 0, write_at 4 (codes "MA1S") (replicate msg_size 0))
    ∷ (codes "PEER5", codes "abcdefghijkl")
    ∷ []

create_poll_thread-replies_example :
    create_poll_thread 1 2
      (events (true, false) requests ++ events (false, true) requests)
      (record {
        router_in = record { input = request_recvs requests; rcvmore = false };
        fwd_in = record {
          input = delivered (rpc_handling 3 (delivered (forwarded 2 requests)) []);
          rcvmore = false;
        };
        from_addr = [];
        sent = [];
      })
    ≡ some (record {
      router_in = record { input = []; rcvmore = false };
      fwd_in = record { input = []; rcvmore = false };
      from_addr = codes "PEER5";
      sent =
          forwarded 2 requests
          ++ (record { socket = 1; bytes = codes "MA1S" ++ replicate 4 0; more = true }
              ∷ record {
                socket = 1;
                bytes = write_at 4 (codes "MA1S") (replicate msg_size 0);
                more = false;
              }
              ∷ record { socket = 1; bytes = codes "efghijkl"; more = true }
              ∷ record { socket = 1; bytes = codes "abcdefghijkl"; more = false }
              ∷ []);
    })
create_poll_thread-replies_example = create_poll_thread-replies 1 2 requests 3 [] refl

dealer_identity-address_of_example :
    (dealer_identity (0 ∷ 0 ∷ 0 ∷ []) ≡ address_of dealer_message)
    ↔ ((zero ≡ 0) × (zero ≡ 0) × (zero ≡ 0))
dealer_identity-address_of_example = dealer_identity-address_of 0 0 0 []

-- The dealer does not survive the echo of its own message.
dealer_transmitter_thread-fault_iff_example :
    (dealer_transmitter_thread 4 (received (replicate msg_size 0) false ∷ []) (codes "hello") []
      ≡ none)
    ↔ (true ≡ true)
dealer_transmitter_thread-fault_iff_example =
    dealer_transmitter_thread-fault_iff 4 (received (replicate msg_size 0) false ∷ [])
      (codes "hello") []
