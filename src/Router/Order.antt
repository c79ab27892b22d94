-- ===== src/Router/Order.antt =====
-- However the two threads interleave, requests are answered once each, in the order of arrival
-- (newrpc/router3.cpp).
use zeromq_rpc_test.Prelude.{
  ℕ, ◌+◌, ◌≡◌, refl, ap, ◌∙◌, true, List, [], ◌∷◌, ◌++◌, append_assoc, arith,
}
use mathlib.Core.Path.{subst}
use zeromq_rpc_test.Router.Echo.{Request, all_whole, request_recvs, replies}
use zeromq_rpc_test.Router.Threads.{
  System, idle_system, Work, Step, arrive, work, Reach, start, later,
}
use zeromq_rpc_test.Router.Moves.{
  Parts, total, weight, state_of, Moved, Work-Moved, request_recvs-append, all_whole-append,
}

module _ (sock_router sock_fwd sock_handler : ℕ) where
  -- A state whose requests are whole and lie somewhere on their way, in order.
  pub record IsOrdered (s : System) : Type 0 where
    pub parts : Parts
    pub is_state : s ≡ state_of sock_router sock_fwd sock_handler parts
    pub whole : all_whole (total parts) ≡ true

  idle-IsOrdered : IsOrdered idle_system
  idle-IsOrdered = record {
    parts = record { from = []; answered = []; echoed = []; handling = []; waiting = [] };
    is_state = refl;
    whole = refl;
  }

  pub Work-IsOrdered :
      {s t : System} (o : IsOrdered s)
      → Work sock_router sock_fwd sock_handler s t
      → (o' : IsOrdered t) × (total o'.parts ≡ total o.parts)
        × (weight o'.parts + 1 ≡ weight o.parts)
  Work-IsOrdered {s} {t} o st =
      let x = o.parts in
      let moved : Moved sock_router sock_fwd sock_handler x t =
        Work-Moved sock_router sock_fwd sock_handler x.from x.answered x.echoed x.handling x.waiting
          o.whole (subst (λ u. Work sock_router sock_fwd sock_handler u t) o.is_state st) in
      (
        record { parts = moved.parts; is_state = moved.is_state; whole = rw moved.same o.whole },
        moved.same,
        moved.nearer,
      )

  -- A request that arrives waits behind the others.
  arrived_behind :
      (x : Parts) (m : Request) {s t : System}
      → s ≡ state_of sock_router sock_fwd sock_handler x
      → t ≡ record s {
        router_in = record s.router_in { input = s.router_in.input ++ request_recvs (m ∷ []) };
        arrived = s.arrived ++ (m ∷ []);
      }
      → t
        ≡ state_of sock_router sock_fwd sock_handler (record x { waiting = x.waiting ++ (m ∷ []) })
  arrived_behind x m at is =
      is
      ∙ rw (
        at,
        request_recvs-append x.waiting (m ∷ []),
        append_assoc x.answered (x.echoed ++ (x.handling ++ x.waiting)) (m ∷ []),
        append_assoc x.echoed (x.handling ++ x.waiting) (m ∷ []),
        append_assoc x.handling x.waiting (m ∷ []),
      )

  total-arrived :
      (x : Parts) (m : Request)
      → total (record x { waiting = x.waiting ++ (m ∷ []) }) ≡ total x ++ (m ∷ [])
  total-arrived x m = rw (
    append_assoc x.answered (x.echoed ++ (x.handling ++ x.waiting)) (m ∷ []),
    append_assoc x.echoed (x.handling ++ x.waiting) (m ∷ []),
    append_assoc x.handling x.waiting (m ∷ []),
  )

  Step-IsOrdered :
      {s t : System} → IsOrdered s → Step sock_router sock_fwd sock_handler s t → IsOrdered t
  Step-IsOrdered o (work st) = (Work-IsOrdered o st).0
  Step-IsOrdered o (arrive m good is) = record {
    parts = record o.parts { waiting = o.parts.waiting ++ (m ∷ []) };
    is_state = arrived_behind o.parts m o.is_state is;
    whole =
        rw (total-arrived o.parts m)
          (ground (arith, all_whole-append (total o.parts) (m ∷ []), o.whole));
  }

  pub Reach-IsOrdered : {s : System} → Reach sock_router sock_fwd sock_handler s → IsOrdered s
  Reach-IsOrdered start = idle-IsOrdered
  Reach-IsOrdered (later r st) = Step-IsOrdered (Reach-IsOrdered r) st

  -- However arrivals and the steps of the two threads interleave, when every request that arrives
  -- has an address of at least 4 bytes and a message of at least 12: what has been sent on the
  -- ROUTER socket are the replies to a first part of the requests, each once, unchanged, in the
  -- order of their arrival.
  pub Reach-in_order :
      {s : System}
      → Reach sock_router sock_fwd sock_handler s
      → (done left : List Request) × (s.arrived ≡ done ++ left) × (s.out ≡ replies sock_router done)
  Reach-in_order r =
      let o = Reach-IsOrdered r in
      (
        o.parts.answered,
        o.parts.echoed ++ (o.parts.handling ++ o.parts.waiting),
        ap (λ (u : System). u.arrived) o.is_state,
        ap (λ (u : System). u.out) o.is_state,
      )
