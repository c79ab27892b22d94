-- ===== src/Router/Threads.antt =====
-- newrpc/router3.cpp: the poll thread and the handler's thread as they run beside each other. Each
-- end of the PAIR keeps what the other end sent until it is received. A step is one request that
-- arrives, one message that the poll thread takes from one of its two sockets, or one round of the
-- handler.
use zeromq_rpc_test.Prelude.{
  ℕ, suc, ◌<◌, ◌≡◌, true, false, List, [], ◌∷◌, ◌++◌, some, Bytes, length,
}
use zeromq_rpc_test.External.Zmq.{Frame, Recv}
use zeromq_rpc_test.Router.Poller.{Inbox, Poller, router_handling_msg, forward_reply, rpc_handling}
use zeromq_rpc_test.Router.Echo.{Request, is_whole, request_recvs, delivered}

-- The inboxes of the poll thread and of the handler, the global `fromAddr`, and what was sent on
-- the ROUTER socket. `arrived` are the requests so far, which no code looks at.
pub record System : Type 0 where
  pub router_in : Inbox
  pub fwd_in : Inbox
  pub handler_in : List Recv
  pub from_addr : Bytes
  pub out : List Frame
  pub arrived : List Request

abbrev pub poller_of : System → Poller
poller_of s = record {
  router_in = s.router_in;
  fwd_in = s.fwd_in;
  from_addr = s.from_addr;
  sent = [];
}

-- Before any request.
abbrev pub idle_system : System
idle_system = record {
  router_in = record { input = []; rcvmore = false };
  fwd_in = record { input = []; rcvmore = false };
  handler_in = [];
  from_addr = [];
  out = [];
  arrived = [];
}

module _ (sock_router sock_fwd sock_handler : ℕ) where
  -- A step of one of the two threads.
  pub data Work (s t : System) : Type 0 where
    route :
        (p : Poller)
        → 0 < length s.router_in.input
        → router_handling_msg sock_router sock_fwd (poller_of s) ≡ some p
        → t ≡ record s {
          router_in = p.router_in;
          from_addr = p.from_addr;
          handler_in = s.handler_in ++ delivered p.sent;
        }
        → Work s t
    handle :
        (r : Recv) (rest : List Recv)
        → s.handler_in ≡ r ∷ rest
        → t ≡ record s {
          handler_in = rest;
          fwd_in = record s.fwd_in {
            input = s.fwd_in.input ++ delivered (rpc_handling sock_handler (r ∷ []) []);
          };
        }
        → Work s t
    reply :
        (p : Poller)
        → 0 < length s.fwd_in.input
        → forward_reply sock_router sock_fwd (poller_of s) ≡ some p
        → t ≡ record s { fwd_in = p.fwd_in; out = s.out ++ p.sent }
        → Work s t

  pub data Step (s t : System) : Type 0 where
    arrive :
        (m : Request)
        → is_whole m ≡ true
        → t ≡ record s {
          router_in = record s.router_in { input = s.router_in.input ++ request_recvs (m ∷ []) };
          arrived = s.arrived ++ (m ∷ []);
        }
        → Step s t
    work : Work s t → Step s t

  pub data Reach : System → Type 0 where
    start : Reach idle_system
    later : {s t : System} → Reach s → Step s t → Reach t

  -- Steps of the threads alone, counted.
  pub data Run : ℕ → System → System → Type 0 where
    stop : {s : System} → Run 0 s s
    then_run : {n : ℕ} {s t u : System} → Work s t → Run n t u → Run (suc n) s u
