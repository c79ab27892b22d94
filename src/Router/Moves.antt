-- ===== src/Router/Moves.antt =====
-- Where the requests are while the two threads of the router run, and how a step of a thread moves
-- one of them on (newrpc/router3.cpp).
use zeromq_rpc_test.Prelude.{
  ℕ, ◌+◌, ◌*◌, ◌≡◌, refl, ◌∙◌, true, false, ◌&&◌, List, [], ◌∷◌, ◌++◌, some, Bytes, length, ltb,
  append_assoc, length-append, arith,
}
use zeromq_rpc_test.External.Zmq.{Recv, received}
use zeromq_rpc_test.Router.Poller.{Poller, router_handling_msg, forward_reply, rpc_handling}
use zeromq_rpc_test.Router.Echo.{
  Request, is_whole, all_whole, request_recvs, delivered, forwarded, replies,
}
use zeromq_rpc_test.Router.Threads.{System, poller_of, Work, route, handle, reply}

-- Where the requests are: waiting at the ROUTER socket, at the handler, echoed, and answered.
pub record Parts : Type 0 where
  pub from : Bytes
  pub answered : List Request
  pub echoed : List Request
  pub handling : List Request
  pub waiting : List Request

abbrev pub total : Parts → List Request
total x = x.answered ++ (x.echoed ++ (x.handling ++ x.waiting))

-- The steps that are left until all are answered.
abbrev pub weight : Parts → ℕ
weight x = 3 * length x.waiting + (2 * length x.handling + length x.echoed)

pub request_recvs-append :
    (ms ns : List Request) → request_recvs (ms ++ ns) ≡ request_recvs ms ++ request_recvs ns
request_recvs-append [] ns = refl
request_recvs-append ((a, b) ∷ ms) ns = cc (request_recvs-append ms ns)

replies-append :
    (r : ℕ) (ms ns : List Request) → replies r (ms ++ ns) ≡ replies r ms ++ replies r ns
replies-append r [] ns = refl
replies-append r ((a, b) ∷ ms) ns = cc (replies-append r ms ns)

delivered-append :
    (f : ℕ) (ms ns : List Request)
    → delivered (forwarded f (ms ++ ns)) ≡ delivered (forwarded f ms) ++ delivered (forwarded f ns)
delivered-append f [] ns = refl
delivered-append f ((a, b) ∷ ms) ns = cc (delivered-append f ms ns)

pub all_whole-append :
    (ms ns : List Request) → all_whole (ms ++ ns) ≡ (all_whole ms && all_whole ns)
all_whole-append [] ns = refl
all_whole-append (m ∷ ms) ns = ground (arith, all_whole-append ms ns)

module _ (sock_router sock_fwd sock_handler : ℕ) where
  -- The state that the parts make.
  abbrev pub state_of : Parts → System
  state_of x = record {
    router_in = record { input = request_recvs x.waiting; rcvmore = false };
    fwd_in = record { input = delivered (forwarded sock_handler x.echoed); rcvmore = false };
    handler_in = delivered (forwarded sock_fwd x.handling);
    from_addr = x.from;
    out = replies sock_router x.answered;
    arrived = total x;
  }

  -- What a step leads to: parts of the same requests, one step nearer to the end.
  pub record Moved (x : Parts) (t : System) : Type 0 where
    pub parts : Parts
    pub is_state : t ≡ state_of parts
    pub same : total parts ≡ total x
    pub nearer : weight parts + 1 ≡ weight x

  module _ (from : Bytes) (a e h w : List Request) (m : Request) where
    -- A request waits.
    abbrev pub before_route : Parts
    before_route = record { from = from; answered = a; echoed = e; handling = h; waiting = m ∷ w }

    abbrev after_route : Parts
    after_route = record {
      from = m.0;
      answered = a;
      echoed = e;
      handling = h ++ (m ∷ []);
      waiting = w;
    }

    pub routes :
        is_whole m ≡ true
        → router_handling_msg sock_router sock_fwd (poller_of (state_of before_route))
          ≡ some (record {
            router_in = record { input = request_recvs w; rcvmore = false };
            fwd_in = (state_of before_route).fwd_in;
            from_addr = m.0;
            sent = record { socket = sock_fwd; bytes = m.1; more = false } ∷ [];
          })
    unfolding router_handling_msg
    routes whole = let enough : ltb (length m.0) 4 ≡ false = ground arith in rw enough

    routed :
        {t : System} (p : Poller)
        → is_whole m ≡ true
        → router_handling_msg sock_router sock_fwd (poller_of (state_of before_route)) ≡ some p
        → t ≡ record (state_of before_route) {
          router_in = p.router_in;
          from_addr = p.from_addr;
          handler_in = delivered (forwarded sock_fwd h) ++ delivered p.sent;
        }
        → Moved before_route t
    routed p whole ran is = record {
      parts = after_route;
      is_state =
          ground
            (arith, routes whole, delivered-append sock_fwd h (m ∷ []), append_assoc h (m ∷ []) w);
      same = rw (append_assoc h (m ∷ []) w);
      nearer = omega (arith, length-append h (m ∷ []));
    }

  module _ (from : Bytes) (a e h w : List Request) (m : Request) where
    -- A request is at the handler.
    abbrev pub before_handle : Parts
    before_handle = record { from = from; answered = a; echoed = e; handling = m ∷ h; waiting = w }

    abbrev after_handle : Parts
    after_handle = record {
      from = from;
      answered = a;
      echoed = e ++ (m ∷ []);
      handling = h;
      waiting = w;
    }

    handled :
        {t : System} (r : Recv) (rest : List Recv)
        → delivered (forwarded sock_fwd (m ∷ h)) ≡ r ∷ rest
        → t ≡ record (state_of before_handle) {
          handler_in = rest;
          fwd_in = record {
            input =
                delivered (forwarded sock_handler e)
                ++ delivered (rpc_handling sock_handler (r ∷ []) []);
            rcvmore = false;
          };
        }
        → Moved before_handle t
    unfolding rpc_handling
    handled r rest taken is =
        let head : r ≡ received m.1 false = ground arith in
        let tail : rest ≡ delivered (forwarded sock_fwd h) = ground arith in
        record {
          parts = after_handle;
          is_state =
              is
              ∙ rw (
                head,
                tail,
                append_assoc e (m ∷ []) (h ++ w),
                delivered-append sock_handler e (m ∷ []),
              );
          same = rw (append_assoc e (m ∷ []) (h ++ w));
          nearer = omega (arith, length-append e (m ∷ []));
        }

    -- An echo has come back.
    abbrev pub before_reply : Parts
    before_reply = record { from = from; answered = a; echoed = m ∷ e; handling = h; waiting = w }

    abbrev after_reply : Parts
    after_reply = record {
      from = from;
      answered = a ++ (m ∷ []);
      echoed = e;
      handling = h;
      waiting = w;
    }

    pub answers :
        is_whole m ≡ true
        → forward_reply sock_router sock_fwd (poller_of (state_of before_reply))
          ≡ some (record {
            router_in = (state_of before_reply).router_in;
            fwd_in = record { input = delivered (forwarded sock_handler e); rcvmore = false };
            from_addr = from;
            sent = replies sock_router (m ∷ []);
          })
    unfolding forward_reply
    answers whole = let enough : ltb (length m.1) 12 ≡ false = ground arith in rw enough

    replied :
        {t : System} (p : Poller)
        → is_whole m ≡ true
        → forward_reply sock_router sock_fwd (poller_of (state_of before_reply)) ≡ some p
        → t ≡ record (state_of before_reply) {
          fwd_in = p.fwd_in;
          out = replies sock_router a ++ p.sent;
        }
        → Moved before_reply t
    replied p whole ran is = record {
      parts = after_reply;
      is_state = ground (
        arith,
        answers whole,
        replies-append sock_router a (m ∷ []),
        append_assoc a (m ∷ []) (e ++ (h ++ w)),
      );
      same = rw (append_assoc a (m ∷ []) (e ++ (h ++ w)));
      nearer = omega (arith, length-append a (m ∷ []));
    }

  pub all_whole_parts :
      (a e h w : List Request)
      → all_whole (a ++ (e ++ (h ++ w))) ≡ true
      → (all_whole e ≡ true) × (all_whole w ≡ true)
  all_whole_parts a e h w ok =
      ground (
        arith,
        all_whole-append a (e ++ (h ++ w)),
        all_whole-append e (h ++ w),
        all_whole-append h w,
      )

  -- A step of a thread moves one request on.
  pub Work-Moved :
      (from : Bytes) (a e h w : List Request) {t : System}
      → all_whole (a ++ (e ++ (h ++ w))) ≡ true
      → Work sock_router sock_fwd sock_handler
          (state_of (record { from = from; answered = a; echoed = e; handling = h; waiting = w }))
          t
      → Moved (record { from = from; answered = a; echoed = e; handling = h; waiting = w }) t
  Work-Moved from a e h [] ok (route p pos ran is) = absurd (omega (arith, pos))
  Work-Moved from a e h (m ∷ w) ok (route p pos ran is) =
      routed from a e h w m p (ground (arith, all_whole_parts a e h (m ∷ w) ok)) ran is
  Work-Moved from a e [] w ok (handle r rest taken is) = absurd (cc)
  Work-Moved from a e (m ∷ h) w ok (handle r rest taken is) = handled from a e h w m r rest taken is
  Work-Moved from a [] h w ok (reply p pos ran is) = absurd (omega (arith, pos))
  Work-Moved from a (m ∷ e) h w ok (reply p pos ran is) =
      replied from a e h w m p (ground (arith, all_whole_parts a (m ∷ e) h w ok)) ran is
