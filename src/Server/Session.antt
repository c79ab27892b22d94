-- ===== src/Server/Session.antt =====
-- The whole application at the calls of its clients, bytes in and bytes out (rpc_application.cpp,
-- rpcserver.cpp, rpc_application_add.cpp).
use zeromq_rpc_test.Prelude.{
  suc, ◌≡◌, ◌∙◌, refl, sym, ap, List, [], ◌∷◌, ◌++◌, map, some, Bytes, codes, length, append-nil,
  append_assoc,
}
use zeromq_rpc_test.External.Doc.{Doc, end, item}
use zeromq_rpc_test.External.Mpack.{Mpack, IsMpack}
use zeromq_rpc_test.External.Mpack.Reading.{CanRead}
use zeromq_rpc_test.External.RpcHash.{RpcHash, IsRpcHash}
use zeromq_rpc_test.External.Zmq.{Frame}
use zeromq_rpc_test.Server.Defs.{Server, Resources}
use zeromq_rpc_test.Server.Handler.{Poll, pool_size}
use zeromq_rpc_test.Server.ErrorReply.{IsReady}
use zeromq_rpc_test.Server.Application.{
  Method, zmq_connect, zmq_subscribe, system_server, test_server,
}
use zeromq_rpc_test.Server.Answer.{HasAdd, answer, and_answer, rpc_msg_handler-answer}
use zeromq_rpc_test.Server.Init.{system_server-IsReady}
use zeromq_rpc_test.Server.Loop.{ready_count, all_frames, all_rounds, round_requests}
use zeromq_rpc_test.Server.Requests.{response_frames}
use zeromq_rpc_test.Server.Service.{answer_all, test_server-runs}
use zeromq_rpc_test.Server.Calls.{request_document, IsCall}
use zeromq_rpc_test.Server.EndToEnd.{reply_to_call, rpc_msg_handler-replies}

-- A call under a topic, as a client sends it.
pub record TopicCall (F : Type 0) : Type 0 where
  pub topic : Bytes
  pub id : Bytes
  pub name : Bytes
  pub params : Doc F

abbrev pub AreCalls : {F : Type 0} → (F → Type 0) → List (TopicCall F) → Type 0
AreCalls IsFloat [] = Unit
AreCalls IsFloat (c ∷ cs) = IsCall IsFloat c.id c.name c.params × AreCalls IsFloat cs

module _ {F : Type 0} (M : Mpack F) where
  abbrev pub call_bytes : TopicCall F → Bytes
  call_bytes c = M.encode (item (request_document c.id c.name c.params) end)

  -- A message of two parts, the topic and the call.
  abbrev pub call_message : TopicCall F → List Bytes
  call_message c = c.topic ∷ call_bytes c ∷ []

  messages_requests :
      (cs : List (TopicCall F))
      → round_requests (all_rounds (map call_message cs)) ≡ map call_bytes cs
  messages_requests [] = refl
  messages_requests (c ∷ cs) = ap (λ l. call_bytes c ∷ l) (messages_requests cs)

  messages_rounds :
      (cs : List (TopicCall F)) → length (all_rounds (map call_message cs)) ≡ length cs
  messages_rounds [] = refl
  messages_rounds (c ∷ cs) = ap suc (messages_rounds cs)

module _ {F : Type 0} (M : Mpack F) (L : IsMpack M) (R : CanRead M) (K : RpcHash Method)
    (float_add : F → F → F) where
  module _ (server : Server K.Table) where
    abbrev call_replies : TopicCall F → List Frame
    call_replies c =
        response_frames M float_add server c.id
          (reply_to_call R.narrow float_add server c.name c.params)

    -- The frames that reply to the calls, in order.
    abbrev pub all_replies : List (TopicCall F) → List Frame
    all_replies [] = []
    all_replies (c ∷ cs) = call_replies c ++ all_replies cs

    module _ (ready : IsReady server) (has : HasAdd K server) where
      answer-call :
          (c : TopicCall F) (sent : List Frame)
          → IsCall R.IsFloat c.id c.name c.params
          → and_answer sent (answer M float_add server (M.tree_parse (call_bytes M c) pool_size))
            ≡ some (sent ++ call_replies c)
      answer-call c sent call =
          sym (rpc_msg_handler-answer M L K float_add server ready has (call_bytes M c) sent)
          ∙ rpc_msg_handler-replies M L R K float_add server ready has sent c.id c.name c.params
              call

      answer_all-calls :
          (cs : List (TopicCall F)) (sent : List Frame)
          → AreCalls R.IsFloat cs
          → answer_all M K float_add server (map (call_bytes M) cs) sent
            ≡ some (sent ++ all_replies cs)
      answer_all-calls [] sent calls = rw append-nil
      answer_all-calls (c ∷ cs) sent calls = rw (answer-call c sent calls.0) (
          answer_all-calls cs (sent ++ call_replies c) calls.1
          ∙ ap some (append_assoc sent (call_replies c) (all_replies cs)))

  module _ (LK : IsRpcHash K) where
    -- The application, from `test_server` on, with an MPack that reads what it writes: where the
    -- server is made and each of the messages is the bytes of a call behind a topic, as many
    -- readable rounds as calls take them all, and what is sent is the reply to each call, in
    -- order, under its id, and nothing else.
    pub test_server-replies :
        (r : Resources) {server : Server K.Table} (polls : List Poll) (cs : List (TopicCall F))
        → system_server K r ≡ some server
        → ready_count polls ≡ length cs
        → AreCalls R.IsFloat cs
        → test_server M K float_add r polls
            (record { input = all_frames (map (call_message M) cs); sent = [] })
          ≡ some (
            zmq_connect server.pub_sock server.pub_url
                ∷ zmq_connect server.sub_sock server.sub_url
                ∷ zmq_subscribe server.sub_sock (codes "1/")
                ∷ [],
            some (record { input = []; sent = all_replies server cs }),
          )
    test_server-replies r {server} polls cs made e calls =
        let (ready, has, handles, starts) = system_server-IsReady K LK r made in
        test_server-runs M L K LK float_add r polls (map (call_message M) cs) made
          (e ∙ sym (messages_rounds M cs))
        ∙ rw (messages_requests M cs, answer_all-calls server ready has cs [] calls)
