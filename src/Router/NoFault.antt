-- ===== src/Router/NoFault.antt =====
-- The poll thread never reads past the end of a message (newrpc/router3.cpp).
use mathlib.Core.Path.{subst}
use zeromq_rpc_test.Prelude.{
  ℕ, ◌≡◌, refl, sym, true, ◌⊎◌, inl, inr, List, [], ◌∷◌, ◌++◌, some, Bytes, arith,
}
use zeromq_rpc_test.Router.Poller.{Poller, router_handling_msg, forward_reply}
use zeromq_rpc_test.Router.Echo.{Request, all_whole}
use zeromq_rpc_test.Router.Threads.{System, poller_of, Reach}
use zeromq_rpc_test.Router.Moves.{state_of, all_whole_parts, routes, answers}
use zeromq_rpc_test.Router.Order.{Reach-IsOrdered}

module _ (sock_router sock_fwd sock_handler : ℕ) where
  -- What a thread does on what it can receive: nothing is there, or the message is taken without a
  -- fault.
  abbrev pub RoutesSafely : System → Type 0
  RoutesSafely s =
      (s.router_in.input ≡ [])
      ⊎ ((p : Poller) × (router_handling_msg sock_router sock_fwd (poller_of s) ≡ some p))

  abbrev pub RepliesSafely : System → Type 0
  RepliesSafely s =
      (s.fwd_in.input ≡ [])
      ⊎ ((p : Poller) × (forward_reply sock_router sock_fwd (poller_of s) ≡ some p))

  parts_safe :
      (from : Bytes) (a e h w : List Request)
      → all_whole (a ++ (e ++ (h ++ w))) ≡ true
      → RoutesSafely (
          state_of sock_router sock_fwd sock_handler
            (record { from = from; answered = a; echoed = e; handling = h; waiting = w }))
        × RepliesSafely (
            state_of sock_router sock_fwd sock_handler
              (record { from = from; answered = a; echoed = e; handling = h; waiting = w }))
  parts_safe from a e h w ok = (router_side w ok, reply_side e ok)
    where
      router_side :
          (w : List Request)
          → all_whole (a ++ (e ++ (h ++ w))) ≡ true
          → RoutesSafely (
              state_of sock_router sock_fwd sock_handler
                (record { from = from; answered = a; echoed = e; handling = h; waiting = w }))
      router_side [] ok = inl refl
      router_side (m ∷ w) ok = inr (
        _,
        routes sock_router sock_fwd sock_handler from a e h w m
            (ground (arith, all_whole_parts sock_router sock_fwd sock_handler a e h (m ∷ w) ok)),
      )

      reply_side :
          (e : List Request)
          → all_whole (a ++ (e ++ (h ++ w))) ≡ true
          → RepliesSafely (
              state_of sock_router sock_fwd sock_handler
                (record { from = from; answered = a; echoed = e; handling = h; waiting = w }))
      reply_side [] ok = inl refl
      reply_side (m ∷ e) ok = inr (
        _,
        answers sock_router sock_fwd sock_handler from a e h w m
            (ground (arith, all_whole_parts sock_router sock_fwd sock_handler a (m ∷ e) h w ok)),
      )

  -- In every state that whole requests and the two threads can reach, the poll thread takes what
  -- it can receive, on either socket, without reading past the end of a message.
  pub Reach-no_fault :
      {s : System} → Reach sock_router sock_fwd sock_handler s → RoutesSafely s × RepliesSafely s
  Reach-no_fault r =
      let o = Reach-IsOrdered sock_router sock_fwd sock_handler r in
      let x = o.parts in
      subst (λ u. RoutesSafely u × RepliesSafely u) (sym o.is_state)
        (parts_safe x.from x.answered x.echoed x.handling x.waiting o.whole)
