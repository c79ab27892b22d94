-- ===== src/Server/Framing.antt =====
-- What the whole application sends, whatever it receives (rpc_application.cpp, rpcserver.cpp).
use mathlib.Core.Path.{subst}
use zeromq_rpc_test.Prelude.{
  ℕ, suc, ◌+◌, ◌≤◌, ◌<◌, ◌≡◌, ◌∙◌, sym, ap, true, false, List, [], ◌∷◌, ◌++◌, Option, none, some,
  Bytes, codes, length, Option-cases, append-nil, inl, inr, arith,
}
use zeromq_rpc_test.External.Doc.{Docs}
use zeromq_rpc_test.External.Mpack.{Mpack, IsMpack}
use zeromq_rpc_test.External.RpcHash.{RpcHash, IsRpcHash}
use zeromq_rpc_test.External.Zmq.{Frame, Recv, recv_failed, received}
use zeromq_rpc_test.Server.Defs.{Server, Resources, rpc_handle_req_fn}
use zeromq_rpc_test.Server.Handler.{
  Channel, Poll, poll_error, poll_idle, poll_in, rpc_msg_handler, rpc_handle_req, poll_round,
  rpc_recv_thread,
}
use zeromq_rpc_test.Server.ErrorReply.{IsReady, reply_frames}
use zeromq_rpc_test.Server.Application.{
  Method, Setup, zmq_connect, zmq_subscribe, call_method, rpc_server_start, system_server,
  test_server,
}
use zeromq_rpc_test.Server.Answer.{HasAdd}
use zeromq_rpc_test.Server.Init.{system_server-IsReady}
use zeromq_rpc_test.Server.Loop.{ready_count, left_with}
use zeromq_rpc_test.Server.Safety.{rpc_msg_handler-at_most_one}

-- So many replies, one behind the other: each is a message of two frames on the socket of the
-- server, a topic that is not empty and an encoded document.
pub data AreReplies {F Tbl : Type 0} (M : Mpack F) (server : Server Tbl)
    : List Frame → ℕ → Type 0 where
  no_reply : AreReplies M server [] 0
  and_reply :
      {frames : List Frame} {n : ℕ}
      → AreReplies M server frames n
      → (topic : Bytes) (doc : Docs F) → 0 < length topic
      → AreReplies M server (frames ++ reply_frames server topic (M.encode doc)) (suc n)

module _ {F Tbl : Type 0} (M : Mpack F) (server : Server Tbl) where
  -- At most so many replies have been sent, unless there was a fault.
  abbrev pub IsFramed : ℕ → Option Channel → Type 0
  IsFramed n none = Unit
  IsFramed n (some c) = (k : ℕ) × (k ≤ n) × AreReplies M server c.sent k

  weaken : (n m : ℕ) (o : Option Channel) → n ≤ m → IsFramed n o → IsFramed m o
  weaken n m none h framed = tt
  weaken n m (some c) h (k, le, replies) = (k, omega arith, replies)

module _ {F : Type 0} (M : Mpack F) (L : IsMpack M) (K : RpcHash Method) (float_add : F → F → F)
    (server : Server K.Table) (ready : IsReady server) (has : HasAdd K server) where
  rpc_msg_handler-IsFramed :
      (content : Bytes) (sent after : List Frame) (n : ℕ)
      → AreReplies M server sent n
      → rpc_msg_handler M K (call_method M K float_add) server content sent ≡ some after
      → (k : ℕ) × (k ≤ suc n) × AreReplies M server after k
  rpc_msg_handler-IsFramed content sent after n before e =
      let (frames, same, what) =
        rpc_msg_handler-at_most_one M L K float_add server ready has content sent e in
      elim what [
        | inl nothing ↦ (
          n,
          omega arith,
          subst (λ l. AreReplies M server l n)
              (sym (same ∙ ap (λ l. sent ++ l) nothing ∙ append-nil sent)) before,
        )
        | inr (topic, doc, reply, some_topic) ↦ (
          suc n,
          omega arith,
          subst (λ l. AreReplies M server l (suc n)) (sym (same ∙ ap (λ l. sent ++ l) reply))
              (and_reply before topic doc some_topic),
        )
      ]

  left-IsFramed :
      (rest : List Recv) (content : Bytes) (sent : List Frame) (n : ℕ)
      → AreReplies M server sent n
      → IsFramed M server
          (suc n)
          (left_with rest (rpc_msg_handler M K (call_method M K float_add) server content sent))
  left-IsFramed rest content sent n before =
      elim (Option-cases (rpc_msg_handler M K (call_method M K float_add) server content sent)) [
        | inl bad ↦ rw bad tt
        | inr (after, e) ↦ rw e (rpc_msg_handler-IsFramed content sent after n before e)
      ]

  rpc_handle_req-IsFramed :
      (input : List Recv) (sent : List Frame) (n : ℕ)
      → AreReplies M server sent n
      → IsFramed M server (suc n) (
          rpc_handle_req M K
            (call_method M K float_add)
            server
            (record { input = input; sent = sent }))
  unfolding rpc_handle_req
  rpc_handle_req-IsFramed [] sent n before = (n, omega arith, before)
  rpc_handle_req-IsFramed (recv_failed ∷ rest) sent n before = (n, omega arith, before)
  rpc_handle_req-IsFramed (received a false ∷ rest) sent n before = (n, omega arith, before)
  rpc_handle_req-IsFramed (received a true ∷ []) sent n before = (n, omega arith, before)
  rpc_handle_req-IsFramed (received a true ∷ recv_failed ∷ rest) sent n before =
      (n, omega arith, before)
  rpc_handle_req-IsFramed (received a true ∷ received b more ∷ rest) sent n before =
      left-IsFramed rest b sent n before

  module _ (handles : server.handle_req ≡ some rpc_handle_req_fn) where
    abbrev handled : Channel → Option Channel
    handled = rpc_handle_req M K (call_method M K float_add) server

    abbrev run : List Poll → Channel → Option Channel
    run = rpc_recv_thread M K (call_method M K float_add) server

    round_fault : (ps : List Poll) (c : Channel) → handled c ≡ none → run (poll_in ∷ ps) c ≡ none
    unfolding rpc_recv_thread poll_round
    round_fault ps c e = ground (arith, handles)

    round_handled :
        (ps : List Poll) (c c' : Channel) → handled c ≡ some c' → run (poll_in ∷ ps) c ≡ run ps c'
    unfolding rpc_recv_thread poll_round
    round_handled ps c c' e = ground (arith, handles)

    rpc_recv_thread-IsFramed :
        (polls : List Poll) (c : Channel) (n : ℕ)
        → AreReplies M server c.sent n
        → IsFramed M server (n + ready_count polls) (run polls c)
    unfolding rpc_recv_thread poll_round
    rpc_recv_thread-IsFramed [] c n before = (n, omega arith, before)
    rpc_recv_thread-IsFramed (poll_error ∷ ps) c n before = rpc_recv_thread-IsFramed ps c n before
    rpc_recv_thread-IsFramed (poll_idle ∷ ps) c n before = rpc_recv_thread-IsFramed ps c n before
    rpc_recv_thread-IsFramed (poll_in ∷ ps) c n before =
        elim (Option-cases (rpc_handle_req M K (call_method M K float_add) server c)) [
          | inl e ↦ rw (round_fault ps c e) tt
          | inr (c', e) ↦ rw (round_handled ps c c' e) (
              let (k, le, replies) =
                subst (IsFramed M server (suc n)) e
                  (rpc_handle_req-IsFramed c.input c.sent n before) in
              weaken M server (k + ready_count ps) (n + suc (ready_count ps))
                (rpc_recv_thread M K (call_method M K float_add) server ps c') (omega arith)
                (rpc_recv_thread-IsFramed ps c' k replies))
        ]

module _ {F : Type 0} (M : Mpack F) (L : IsMpack M) (K : RpcHash Method) (LK : IsRpcHash K)
    (float_add : F → F → F) where
  -- The application, from `test_server` on, where the server is made: whatever is received and
  -- polled, the run starts, and it ends in a fault or has sent, since its start, nothing but whole
  -- replies on the socket of the server, one at most for each readable round.
  pub test_server-IsFramed :
      (r : Resources) {server : Server K.Table} (polls : List Poll) (input : List Recv)
      → system_server K r ≡ some server
      → (setup : List Setup) × (left : Option Channel) × (test_server M K float_add r polls
            (record { input = input; sent = [] })
          ≡ some (setup, left))
        × IsFramed M server (ready_count polls) left
  unfolding test_server rpc_server_start
  test_server-IsFramed r {server} polls input made =
      let (ready, has, handles, starts) = system_server-IsReady K LK r made in
      (
        zmq_connect server.pub_sock server.pub_url
            ∷ zmq_connect server.sub_sock server.sub_url
            ∷ zmq_subscribe server.sub_sock (codes "1/")
            ∷ [],
        rpc_recv_thread M K (call_method M K float_add) server polls
            (record { input = input; sent = [] }),
        ground (arith, made, starts),
        weaken M server (0 + ready_count polls) (ready_count polls) _ (omega arith) (
            rpc_recv_thread-IsFramed M L K float_add server ready has handles polls
              (record { input = input; sent = [] }) 0 no_reply),
      )
