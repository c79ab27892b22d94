-- ===== src/Server/Loop.antt =====
-- The loop of the receiving thread over whole multi-part messages (rpcserver.cpp).
use mathlib.Core.Option
use zeromq_rpc_test.Prelude.{
  ℕ, suc, ◌≡◌, refl, ◌∙◌, Bool, true, false, List, [], ◌∷◌, ◌++◌, Option, some, Bytes, Option-cases,
  and_then, length, inl, inr, arith,
}
use zeromq_rpc_test.External.Mpack.{Mpack}
use zeromq_rpc_test.External.RpcHash.{RpcHash}
use zeromq_rpc_test.External.Zmq.{Frame, Recv, received}
use zeromq_rpc_test.Server.World.{Action}
use zeromq_rpc_test.Server.Defs.{Server, rpc_handle_req_fn}
use zeromq_rpc_test.Server.Handler.{
  Channel, Poll, poll_error, poll_idle, poll_in, rpc_msg_handler, rpc_handle_req, poll_round,
  rpc_recv_thread,
}

-- The parts of one message as ZeroMQ gives them: all but the last with more to follow.
abbrev pub frames_of : List Bytes → List Recv
frames_of [] = []
frames_of (a ∷ []) = received a false ∷ []
frames_of (a ∷ b ∷ parts) = received a true ∷ frames_of (b ∷ parts)

-- What one round of the loop takes: a frame with none behind it, or two frames.
pub data Round : Type 0 where
  lone : Bytes → Round
  paired : Bytes → Bytes → Bool → Round

abbrev pub rounds_of : List Bytes → List Round
rounds_of [] = []
rounds_of (a ∷ []) = lone a ∷ []
rounds_of (a ∷ b ∷ []) = paired a b false ∷ []
rounds_of (a ∷ b ∷ c ∷ parts) = paired a b true ∷ rounds_of (c ∷ parts)

abbrev round_frames : List Round → List Recv
round_frames [] = []
round_frames (lone a ∷ rs) = received a false ∷ round_frames rs
round_frames (paired a b more ∷ rs) = received a true ∷ received b more ∷ round_frames rs

-- The second frame of a pair is the request.
abbrev pub round_requests : List Round → List Bytes
round_requests [] = []
round_requests (lone a ∷ rs) = round_requests rs
round_requests (paired a b more ∷ rs) = b ∷ round_requests rs

round_frames-rounds_of : (parts : List Bytes) → round_frames (rounds_of parts) ≡ frames_of parts
round_frames-rounds_of [] = refl
round_frames-rounds_of (a ∷ []) = refl
round_frames-rounds_of (a ∷ b ∷ []) = refl
round_frames-rounds_of (a ∷ b ∷ c ∷ parts) = cc (round_frames-rounds_of (c ∷ parts))

round_frames-append :
    (rs qs : List Round) → round_frames (rs ++ qs) ≡ round_frames rs ++ round_frames qs
round_frames-append [] qs = refl
round_frames-append (lone a ∷ rs) qs = cc (round_frames-append rs qs)
round_frames-append (paired a b m ∷ rs) qs = cc (round_frames-append rs qs)

-- A stream of messages.
abbrev pub all_frames : List (List Bytes) → List Recv
all_frames [] = []
all_frames (m ∷ ms) = frames_of m ++ all_frames ms

abbrev pub all_rounds : List (List Bytes) → List Round
all_rounds [] = []
all_rounds (m ∷ ms) = rounds_of m ++ all_rounds ms

round_frames-all_rounds : (ms : List (List Bytes)) → round_frames (all_rounds ms) ≡ all_frames ms
round_frames-all_rounds [] = refl
round_frames-all_rounds (m ∷ ms) =
    round_frames-append (rounds_of m) (all_rounds ms)
    ∙ cc (round_frames-rounds_of m, round_frames-all_rounds ms)

-- The rounds in which the socket is readable.
abbrev pub ready_count : List Poll → ℕ
ready_count [] = 0
ready_count (poll_in ∷ ps) = suc (ready_count ps)
ready_count (poll_error ∷ ps) = ready_count ps
ready_count (poll_idle ∷ ps) = ready_count ps

-- What is left after the requests, with the frames that they led to.
abbrev pub left_with : List Recv → Option (List Frame) → Option Channel
left_with rest sent = Option.map (λ s. record { input = rest; sent = s }) sent

module _ {F Func : Type 0} (M : Mpack F) (K : RpcHash Func)
    (call : Func → Server K.Table → M.Node → Action M.Tree (Unit {0}))
    (server : Server K.Table) where
  -- The requests handled one after the other, up to the first fault.
  abbrev pub handle_all : List Bytes → List Frame → Option (List Frame)
  handle_all [] sent = some sent
  handle_all (content ∷ rest) sent =
      and_then (rpc_msg_handler M K call server content sent) (handle_all rest)

  handle_req_one :
      (a : Bytes) (rest : List Recv) (sent : List Frame)
      → rpc_handle_req M K call server (record { input = received a false ∷ rest; sent = sent })
        ≡ some (record { input = rest; sent = sent })
  unfolding rpc_handle_req
  handle_req_one a rest sent = refl

  handle_req_two :
      (a b : Bytes) (more : Bool) (rest : List Recv) (sent : List Frame)
      → rpc_handle_req M K call server
          (record { input = received a true ∷ received b more ∷ rest; sent = sent })
        ≡ left_with rest (rpc_msg_handler M K call server b sent)
  unfolding rpc_handle_req
  handle_req_two a b more rest sent = refl

  module _ (handles : server.handle_req ≡ some rpc_handle_req_fn) where
    serve_rounds :
        (polls : List Poll) (rs : List Round) (sent : List Frame)
        → ready_count polls ≡ length rs
        → rpc_recv_thread M K call server polls (record { input = round_frames rs; sent = sent })
          ≡ left_with [] (handle_all (round_requests rs) sent)
    unfolding rpc_recv_thread poll_round
    serve_rounds [] [] sent e = refl
    serve_rounds [] (r ∷ rs) sent e = absurd (omega arith)
    serve_rounds (poll_error ∷ ps) rs sent e = serve_rounds ps rs sent e
    serve_rounds (poll_idle ∷ ps) rs sent e = serve_rounds ps rs sent e
    serve_rounds (poll_in ∷ ps) [] sent e = absurd (omega arith)
    serve_rounds (poll_in ∷ ps) (lone a ∷ rs) sent e =
        ground (arith, handles, handle_req_one a (round_frames rs) sent, serve_rounds ps rs sent)
    serve_rounds (poll_in ∷ ps) (paired a b m ∷ rs) sent e =
        elim (Option-cases (rpc_msg_handler M K call server b sent)) [
          | inl bad ↦ ground (arith, handles, handle_req_two a b m (round_frames rs) sent)
          | inr (sent', ok) ↦ ground (
            arith,
            handles,
            handle_req_two a b m (round_frames rs) sent,
            serve_rounds ps rs sent',
          )
        ]

    -- For a server whose handler is `rpc_handle_req`: a stream of messages of any numbers of parts, met by as many readable rounds as it takes
    -- and any rounds of errors or without events between them, is consumed whole: of each message
    -- the second part of each pair is handled as a request, in order, and the others are dropped.
    -- The loop stops early exactly where handling a request is a fault.
    pub rpc_recv_thread-serves :
        (polls : List Poll) (ms : List (List Bytes)) (sent : List Frame)
        → ready_count polls ≡ length (all_rounds ms)
        → rpc_recv_thread M K call server polls (record { input = all_frames ms; sent = sent })
          ≡ left_with [] (handle_all (round_requests (all_rounds ms)) sent)
    rpc_recv_thread-serves polls ms sent e =
        rw (← round_frames-all_rounds ms) (serve_rounds polls (all_rounds ms) sent e)
