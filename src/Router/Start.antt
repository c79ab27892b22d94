-- ===== src/Router/Start.antt =====
-- newrpc/router3.cpp: the start of the router, of the handler and of the dealer, as the calls that
-- each thread makes. The sockets that ZeroMQ gives are arguments; no result of a call is looked at.
use zeromq_rpc_test.Prelude.{ℕ, List, [], ◌∷◌, ◌++◌, Bytes, codes}
use zeromq_rpc_test.Router.Dealer.{dealer_identity}

-- The functions that threads are started with, and their arguments.
pub data Thread : Type 0 where
  create_poll : Thread
  handling : ℕ → Thread
  dealer_transmitter : Bytes → Thread

pub data RouterCall : Type 0 where
  binds connects sets_identity : ℕ → Bytes → RouterCall
  starts_thread : Thread → RouterCall
  inits_from_addr : RouterCall

-- An entry of the array that is polled; all wait for ZMQ_POLLIN.
pub data PollItem : Type 0 where
  pollin : ℕ → PollItem

abbrev pub router_url : Bytes
router_url = codes "tcp://*:5555"

abbrev pub fwd_url : Bytes
fwd_url = codes "inproc://forwarder"

-- What `create_poll_thread` does before its loop, and what it polls.
unfoldable pub create_poll_thread_start : ℕ → ℕ → List RouterCall × List PollItem
create_poll_thread_start sock_router sock_fwd_reply = (
  binds sock_router router_url ∷ binds sock_fwd_reply fwd_url ∷ [],
  pollin sock_router ∷ pollin sock_fwd_reply ∷ [],
)

unfoldable pub create_handling_thread : ℕ → Bytes → List RouterCall
create_handling_thread sock_rpc_handler url =
    connects sock_rpc_handler url ∷ starts_thread (handling sock_rpc_handler) ∷ []

-- What `dealer_transmitter_thread` does before its loop; `behind` is the memory behind a literal.
unfoldable pub dealer_transmitter_thread_start : ℕ → Bytes → Bytes → List RouterCall
dealer_transmitter_thread_start dealer behind url =
    sets_identity dealer (dealer_identity behind) ∷ connects dealer url ∷ []

-- What is done before the endless loop that sleeps.
unfoldable pub poller_main : ℕ → List RouterCall
poller_main sock_rpc_handler =
    starts_thread create_poll
    ∷ inits_from_addr
    ∷ (create_handling_thread sock_rpc_handler fwd_url
        ++ (starts_thread (dealer_transmitter (codes "tcp://127.0.0.1:5555")) ∷ []))

module _ (sock_router sock_fwd_reply dealer : ℕ) (behind : Bytes) where
  -- What a thread does when it starts.
  abbrev pub thread_calls : Thread → List RouterCall
  thread_calls create_poll = (create_poll_thread_start sock_router sock_fwd_reply).0
  thread_calls (handling s) = []
  thread_calls (dealer_transmitter url) = dealer_transmitter_thread_start dealer behind url

  -- The calls with those of the threads that they start.
  abbrev pub with_threads : List RouterCall → List RouterCall
  with_threads [] = []
  with_threads (starts_thread t ∷ rest) = starts_thread t ∷ (thread_calls t ++ with_threads rest)
  with_threads (binds s url ∷ rest) = binds s url ∷ with_threads rest
  with_threads (connects s url ∷ rest) = connects s url ∷ with_threads rest
  with_threads (sets_identity s id ∷ rest) = sets_identity s id ∷ with_threads rest
  with_threads (inits_from_addr ∷ rest) = inits_from_addr ∷ with_threads rest
