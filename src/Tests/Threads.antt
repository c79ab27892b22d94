-- ===== src/Tests/Threads.antt =====
-- The threads of the router in some concrete states (newrpc/router3.cpp).
use zeromq_rpc_test.Prelude.{
  ℕ, ◌*◌, ◌≤◌, ◌≡◌, ◌⊎◌, refl, false, List, [], ◌∷◌, ◌++◌, codes, length, arith,
}
use zeromq_rpc_test.Router.Poller.{router_handling_msg}
use zeromq_rpc_test.Router.Echo.{Request, replies, request_recvs, delivered}
use zeromq_rpc_test.Router.Threads.{
  System, idle_system, Work, route, arrive, work, Reach, start, later, Run, stop, then_run,
}
use zeromq_rpc_test.Router.Order.{Reach-in_order}
use zeromq_rpc_test.Router.Progress.{Reach-completes, Run-ends}
use zeromq_rpc_test.Router.NoFault.{RoutesSafely, RepliesSafely, Reach-no_fault}

abbrev first : Request
first = (codes "PEER5", codes "abcdefghijkl")

abbrev second : Request
second = (codes "PEER6", codes "mnopqrstuvwx")

abbrev arrived_two : System
arrived_two = record idle_system {
  router_in = record { input = request_recvs (first ∷ second ∷ []); rcvmore = false };
  arrived = first ∷ second ∷ [];
}

-- The first request is at the handler.
abbrev routed_one : System
routed_one = record arrived_two {
  router_in = record { input = request_recvs (second ∷ []); rcvmore = false };
  from_addr = codes "PEER5";
  handler_in = delivered (record { socket = 2; bytes = codes "abcdefghijkl"; more = false } ∷ []);
}

two_arrive : Reach 1 2 3 arrived_two
two_arrive = later (later start (arrive first refl refl)) (arrive second refl refl)

route_one : Work 1 2 3 arrived_two routed_one
unfolding router_handling_msg
route_one = route _ (omega arith) refl refl

one_is_routed : Reach 1 2 3 routed_one
one_is_routed = later two_arrive (work route_one)

Reach-in_order_example :
    (done left : List Request) × (first ∷ second ∷ [] ≡ done ++ left)
    × (routed_one.out ≡ replies 1 done)
Reach-in_order_example = Reach-in_order 1 2 3 one_is_routed

Reach-completes_example :
    (n : ℕ) × (t : System) × Run 1 2 3 n routed_one t × (t.out ≡ replies 1 (first ∷ second ∷ []))
Reach-completes_example = Reach-completes 1 2 3 one_is_routed

Run-ends_example :
    (1 ≤ 3 * length arrived_two.arrived)
    × (((u : System) × Work 1 2 3 routed_one u)
        ⊎ (routed_one.out ≡ replies 1 (first ∷ second ∷ [])))
Run-ends_example = Run-ends 1 2 3 two_arrive (then_run route_one stop)

Reach-no_fault_example : RoutesSafely 1 2 3 routed_one × RepliesSafely 1 2 3 routed_one
Reach-no_fault_example = Reach-no_fault 1 2 3 one_is_routed
