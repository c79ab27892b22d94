-- ===== src/SubClient/Served.antt =====
-- What the client of rpcserver/help.h sends and keeps subscribed, and what the server makes of it.
use zeromq_rpc_test.Prelude.{
  ℕ, ◌+◌, ◌-◌, ◌≡◌, ◌∙◌, refl, ap, Bool, true, List, [], ◌∷◌, Option, none, some, Bytes, codes,
  bytes_eq, length, replicate, arith, if◌then◌else◌,
}
use zeromq_rpc_test.External.Doc.{double, arr, item, end}
use zeromq_rpc_test.External.Mpack.{Mpack}
use zeromq_rpc_test.External.RpcHash.{RpcHash}
use zeromq_rpc_test.Server.Defs.{Server}
use zeromq_rpc_test.Server.Session.{TopicCall}
use zeromq_rpc_test.SubClient.{
  SockCall, subscribes, unsubscribes, sends, is_printed, request_id, loop, script, get_reply_socket,
}

-- The messages that are sent.
abbrev pub messages : List SockCall → List (List Bytes)
messages [] = []
messages (sends m ∷ calls) = m ∷ messages calls
messages (_ ∷ calls) = messages calls

-- How often a topic is subscribed to: ZeroMQ counts its subscriptions.
abbrev pub subscribed : Bytes → ℕ → List SockCall → ℕ
subscribed topic n [] = n
subscribed topic n (subscribes t ∷ calls) =
    subscribed topic (if bytes_eq t topic then n + 1 else n) calls
subscribed topic n (unsubscribes t ∷ calls) =
    subscribed topic (if bytes_eq t topic then n - 1 else n) calls
subscribed topic n (_ ∷ calls) = subscribed topic n calls

-- Every answer is printed or late; and how many are late.
abbrev pub AreAnswers : (Bytes → Bool) → List (Option (List Bytes)) → Type 0
AreAnswers unpacks [] = Unit
AreAnswers unpacks (none ∷ answers) = AreAnswers unpacks answers
AreAnswers unpacks (some msg ∷ answers) =
    (is_printed unpacks msg ≡ true) × AreAnswers unpacks answers

abbrev pub late : List (Option (List Bytes)) → ℕ
late [] = 0
late (none ∷ answers) = late answers + 1
late (some msg ∷ answers) = late answers

module _ (unpacks : Bytes → Bool) (packed : Bytes) where
  loop-messages :
      (answers : List (Option (List Bytes)))
      → AreAnswers unpacks answers
      → ((loop unpacks packed answers).1 ≡ true)
        × (messages (loop unpacks packed answers).0
            ≡ replicate (length answers) (codes "1/0" ∷ packed ∷ []))
  unfolding loop
  loop-messages [] h = (refl, refl)
  loop-messages (none ∷ answers) h =
      let (runs, sent) = loop-messages answers h in
      (runs, ap (λ l. (codes "1/0" ∷ packed ∷ []) ∷ l) sent)
  loop-messages (some msg ∷ answers) h =
      let (runs, sent) = loop-messages answers h.1 in
      rw h.0 (runs, ap (λ l. (codes "1/0" ∷ packed ∷ []) ∷ l) sent)

  loop-subscribed :
      (answers : List (Option (List Bytes))) (n : ℕ)
      → AreAnswers unpacks answers
      → subscribed request_id n (loop unpacks packed answers).0 ≡ n + late answers
  unfolding loop
  loop-subscribed [] n h = omega arith
  loop-subscribed (none ∷ answers) n h = loop-subscribed answers (n + 1) h ∙ omega arith
  loop-subscribed (some msg ∷ answers) n h =
      rw h.0 (loop-subscribed answers (n + 1 - 1) h.1 ∙ omega arith)

  -- Where every answer can be printed or comes too late, the script goes on: it sends its request
  -- behind the topic "1/0" once a round, and in the end is subscribed to the request's id as often
  -- as an answer was late, since only an answer in time is followed by an unsubscription.
  pub script-rounds :
      (answers : List (Option (List Bytes)))
      → AreAnswers unpacks answers
      → ((script unpacks packed answers).1 ≡ true)
        × (messages (script unpacks packed answers).0
            ≡ replicate (length answers) (codes "1/0" ∷ packed ∷ []))
        × (subscribed request_id 0 (script unpacks packed answers).0 ≡ late answers)
  unfolding script get_reply_socket
  script-rounds answers h =
      let (runs, sent) = loop-messages answers h in
      (runs, sent, loop-subscribed answers 0 h ∙ omega arith)

abbrev pub the_call : {F : Type 0} → ℕ → ℕ → TopicCall F
the_call x y = record {
  topic = codes "1/0";
  id = request_id;
  name = codes "add";
  params = arr (item (double x) (item (double y) end));
}
