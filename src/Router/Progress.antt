-- ===== src/Router/Progress.antt =====
-- The two threads of the router never wait for each other, and come to an end with every request
-- answered (newrpc/router3.cpp).
use mathlib.Core.Path.{subst}
use zeromq_rpc_test.Prelude.{
  ℕ, zero, suc, ◌+◌, ◌*◌, ◌<◌, ◌≤◌, ◌≡◌, refl, sym, ap, ◌∙◌, true, ◌⊎◌, inl, inr, List, [], ◌∷◌,
  ◌++◌, Bytes, length, append-nil, length-append, arith,
}
use zeromq_rpc_test.Router.Echo.{Request, all_whole, replies}
use zeromq_rpc_test.Router.Threads.{System, Work, route, handle, reply, Reach, Run, stop, then_run}
use zeromq_rpc_test.Router.Moves.{Parts, total, weight, state_of, all_whole_parts, routes, answers}
use zeromq_rpc_test.Router.Order.{IsOrdered, Work-IsOrdered, Reach-IsOrdered}

module _ (sock_router sock_fwd sock_handler : ℕ) where
  -- While a request is on its way, some thread can take a step.
  can_work :
      (from : Bytes) (a e h w : List Request)
      → all_whole (a ++ (e ++ (h ++ w))) ≡ true
      → 0 < weight (record { from = from; answered = a; echoed = e; handling = h; waiting = w })
      → (t : System) × Work sock_router sock_fwd sock_handler
          (state_of sock_router sock_fwd sock_handler
            (record { from = from; answered = a; echoed = e; handling = h; waiting = w }))
          t
  can_work from a e h (m ∷ w) ok pos = (
    _,
    route _ (omega arith)
        (routes sock_router sock_fwd sock_handler from a e h w m
          (ground (arith, all_whole_parts sock_router sock_fwd sock_handler a e h (m ∷ w) ok)))
        refl,
  )
  can_work from a e (m ∷ h) [] ok pos = (_, handle _ _ refl refl)
  can_work from a (m ∷ e) [] [] ok pos = (
    _,
    reply _ (omega arith)
        (answers sock_router sock_fwd sock_handler from a e [] [] m
          (ground (arith, all_whole_parts sock_router sock_fwd sock_handler a (m ∷ e) [] [] ok)))
        refl,
  )
  can_work from a [] [] [] ok pos = absurd (omega (arith, pos))

  work_of :
      {s : System} (o : IsOrdered sock_router sock_fwd sock_handler s)
      → 0 < weight o.parts
      → (t : System) × Work sock_router sock_fwd sock_handler s t
  work_of o pos =
      let x = o.parts in
      subst (λ u. (t : System) × Work sock_router sock_fwd sock_handler u t) (sym o.is_state)
        (can_work x.from x.answered x.echoed x.handling x.waiting o.whole pos)

  -- Nothing is on its way: everything is answered.
  all_answered :
      (a e h w : List Request)
      → 3 * length w + (2 * length h + length e) ≡ 0
      → a ≡ a ++ (e ++ (h ++ w))
  all_answered a [] [] [] none_left = rw append-nil
  all_answered a e h (m ∷ w) none_left = absurd (omega (arith, none_left))
  all_answered a e (m ∷ h) [] none_left = absurd (omega (arith, none_left))
  all_answered a (m ∷ e) [] [] none_left = absurd (omega (arith, none_left))

  settled :
      {s : System} (o : IsOrdered sock_router sock_fwd sock_handler s)
      → weight o.parts ≡ 0
      → s.out ≡ replies sock_router s.arrived
  settled o none_left =
      let x = o.parts in
      ap (λ (u : System). u.out) o.is_state
      ∙ ap (replies sock_router) (all_answered x.answered x.echoed x.handling x.waiting none_left)
      ∙ sym (ap (λ (u : System). replies sock_router u.arrived) o.is_state)

  same_arrived :
      {s t : System} (o : IsOrdered sock_router sock_fwd sock_handler s)
      (o' : IsOrdered sock_router sock_fwd sock_handler t)
      → total o'.parts ≡ total o.parts
      → t.arrived ≡ s.arrived
  same_arrived o o' same =
      ap (λ (u : System). u.arrived) o'.is_state
      ∙ same
      ∙ sym (ap (λ (u : System). u.arrived) o.is_state)

  completes :
      (n : ℕ) {s : System} (o : IsOrdered sock_router sock_fwd sock_handler s)
      → weight o.parts ≡ n
      → (t : System) × Run sock_router sock_fwd sock_handler n s t
        × (t.out ≡ replies sock_router s.arrived)
  completes zero {s} o left = (s, stop, settled o left)
  completes (suc n) {s} o left =
      let (t, st) = work_of o (omega (arith, left)) in
      let (o', same, nearer) = Work-IsOrdered sock_router sock_fwd sock_handler o st in
      let (u, run, end) = completes n o' (omega (arith, nearer, left)) in
      (u, then_run st run, end ∙ ap (replies sock_router) (same_arrived o o' same))

  Run-IsOrdered :
      {n : ℕ} {s t : System} (o : IsOrdered sock_router sock_fwd sock_handler s)
      → Run sock_router sock_fwd sock_handler n s t
      → (o' : IsOrdered sock_router sock_fwd sock_handler t) × (total o'.parts ≡ total o.parts)
        × (n + weight o'.parts ≡ weight o.parts)
  Run-IsOrdered o stop = (o, refl, omega arith)
  Run-IsOrdered o (then_run st run) =
      let (o1, same1, nearer1) = Work-IsOrdered sock_router sock_fwd sock_handler o st in
      let (o2, same2, nearer2) = Run-IsOrdered o1 run in
      (o2, same2 ∙ same1, omega (arith, nearer1, nearer2))

  weight-le : (x : Parts) → weight x ≤ 3 * length (total x)
  weight-le x = omega (
    arith,
    length-append x.answered (x.echoed ++ (x.handling ++ x.waiting)),
    length-append x.echoed (x.handling ++ x.waiting),
    length-append x.handling x.waiting,
  )

  -- From every state that arrivals of whole requests and the two threads can reach, the threads
  -- alone can go on to a state in which every request that has arrived is answered, in order.
  pub Reach-completes :
      {s : System}
      → Reach sock_router sock_fwd sock_handler s
      → (n : ℕ) × (t : System) × Run sock_router sock_fwd sock_handler n s t
        × (t.out ≡ replies sock_router s.arrived)
  Reach-completes r =
      let o = Reach-IsOrdered sock_router sock_fwd sock_handler r in
      let (t, run, end) = completes (weight o.parts) o refl in (weight o.parts, t, run, end)

  -- From every state that arrivals of whole requests and the two threads can reach, the threads
  -- alone take at most three steps for each request that has arrived, in any order; and wherever
  -- they stand after some steps, a thread can go on or every request is answered: they never wait
  -- for each other.
  pub Run-ends :
      {n : ℕ} {s t : System}
      → Reach sock_router sock_fwd sock_handler s
      → Run sock_router sock_fwd sock_handler n s t
      → (n ≤ 3 * length s.arrived)
        × (((u : System) × Work sock_router sock_fwd sock_handler t u)
            ⊎ (t.out ≡ replies sock_router s.arrived))
  Run-ends {n} {s} {t} r run =
      let o = Reach-IsOrdered sock_router sock_fwd sock_handler r in
      let (o', same, left) = Run-IsOrdered o run in
      let count : length s.arrived ≡ length (total o.parts) =
        ap (λ (u : System). length u.arrived) o.is_state in
      (omega (arith, left, weight-le o.parts, count), go_on o o' same (weight o'.parts) refl)
    where
      go_on :
          (o : IsOrdered sock_router sock_fwd sock_handler s)
          (o' : IsOrdered sock_router sock_fwd sock_handler t)
          → total o'.parts ≡ total o.parts
          → (k : ℕ) → weight o'.parts ≡ k
          → ((u : System) × Work sock_router sock_fwd sock_handler t u)
            ⊎ (t.out ≡ replies sock_router s.arrived)
      go_on o o' same zero e =
          inr (settled o' e ∙ ap (replies sock_router) (same_arrived o o' same))
      go_on o o' same (suc k) e = inl (work_of o' (omega (arith, e)))
