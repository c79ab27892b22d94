-- ===== src/Tests/EndToEnd.antt =====
-- Calls and their replies over the small MessagePack, whose sums stay within 32 bits (rpcserver.cpp,
-- rpcserver/rpcs.cpp).
use zeromq_rpc_test.Prelude.{
  ℕ, ◌+◌, ◌%◌, ◌^◌, ◌≡◌, refl, true, false, List, [], ◌∷◌, ◌++◌, map, Option, some, codes, arith,
}
use zeromq_rpc_test.External.Doc.{Doc, str, double, arr, end, item}
use zeromq_rpc_test.External.Mpack.Reading.{Shows}
use zeromq_rpc_test.External.Zmq.{Frame, Recv, recv_failed, received}
use zeromq_rpc_test.Instances.ListHash.{list_hash, list_hash-IsRpcHash}
use zeromq_rpc_test.Instances.SimplePack.{simple_pack, simple_pack-IsMpack}
use zeromq_rpc_test.Instances.SimpleReading.{IsFloat, simple_reading}
use zeromq_rpc_test.Server.Handler.{Channel, rpc_msg_handler, poll_in, poll_idle}
use zeromq_rpc_test.Server.ErrorReply.{reply_frames, error_document}
use zeromq_rpc_test.Server.AddReply.{success_document}
use zeromq_rpc_test.Server.Application.{Setup, zmq_connect, zmq_subscribe, call_method, test_server}
use zeromq_rpc_test.Server.Defs.{async_msgq_be, sync_msgq_fe}
use zeromq_rpc_test.Server.Loop.{all_frames}
use zeromq_rpc_test.Server.Calls.{request_document, IsCall}
use zeromq_rpc_test.Server.ReadBack.{rpc_msg_handler-read}
use zeromq_rpc_test.Server.Framing.{IsFramed, test_server-IsFramed}
use zeromq_rpc_test.Server.Session.{TopicCall, call_message, test_server-replies}
use zeromq_rpc_test.Tests.Server.{resources, system, system_made, system-IsReady, system-HasAdd}

abbrev pub sum32 : ℕ → ℕ → ℕ
sum32 x y = (x + y) % 2 ^ 32

pub sum32-IsFloat : (a b : ℕ) → IsFloat (sum32 a b)
sum32-IsFloat a b = omega arith

abbrev pub two_params : Doc ℕ
two_params = arr (item (double 100) (item (double 200) end))

add-IsCall : IsCall IsFloat (codes "REQ10003") (codes "add") two_params
add-IsCall = record {
  id_there = omega arith;
  id_fits = omega arith;
  id_plain = refl;
  name_fits = omega arith;
  name_plain = refl;
  readable = (omega arith, (omega arith, (omega arith, tt)));
  few = omega arith;
  shallow = omega arith;
}

sub-IsCall : IsCall IsFloat (codes "REQ10004") (codes "sub") (str (codes "x"))
sub-IsCall = record {
  id_there = omega arith;
  id_fits = omega arith;
  id_plain = refl;
  name_fits = omega arith;
  name_plain = refl;
  readable = omega arith;
  few = omega arith;
  shallow = omega arith;
}

abbrev pub sum_frames : List Frame
sum_frames = reply_frames system (codes "REQ10003") (simple_pack.encode (success_document 300))

abbrev unsupported_frames : List Frame
unsupported_frames =
    reply_frames system (codes "REQ10004")
      (simple_pack.encode (error_document system (codes "unsupported function")))

abbrev sum_reply : Doc ℕ
sum_reply = arr (item (str (codes "SUCCESS")) (item (arr (item (Doc.float 300) end)) end))

rpc_msg_handler-read_example :
    (rpc_msg_handler simple_pack list_hash
        (call_method simple_pack list_hash sum32)
        system
        (simple_pack.encode
          (item (request_document (codes "REQ10003") (codes "add") two_params) end))
        []
      ≡ some sum_frames)
    × (simple_pack.failed (simple_pack.tree_parse (simple_pack.encode (item sum_reply end)) 128)
        ≡ false)
    × Shows simple_pack
        (λ b. b)
        (simple_pack.root (simple_pack.tree_parse (simple_pack.encode (item sum_reply end)) 128))
        sum_reply
rpc_msg_handler-read_example =
    rpc_msg_handler-read simple_pack simple_pack-IsMpack simple_reading list_hash sum32
      sum32-IsFloat system system-IsReady system-HasAdd (codes "REQ10003") (codes "add") two_params
      sum_reply [] 128 add-IsCall (omega arith) refl

abbrev calls : List (TopicCall ℕ)
calls =
    record { topic = codes "1/0"; id = codes "REQ10003"; name = codes "add"; params = two_params }
    ∷ record {
      topic = codes "1/1";
      id = codes "REQ10004";
      name = codes "sub";
      params = str (codes "x");
    }
    ∷ []

test_server-replies_example :
    test_server simple_pack list_hash sum32 resources
      (poll_idle ∷ poll_in ∷ poll_in ∷ [])
      (record { input = all_frames (map (call_message simple_pack) calls); sent = [] })
    ≡ some (
      zmq_connect 3 sync_msgq_fe ∷ zmq_connect 2 async_msgq_be ∷ zmq_subscribe 2 (codes "1/") ∷ [],
      some (record { input = []; sent = sum_frames ++ unsupported_frames }),
    )
test_server-replies_example =
    test_server-replies simple_pack simple_pack-IsMpack simple_reading list_hash sum32
      list_hash-IsRpcHash resources (poll_idle ∷ poll_in ∷ poll_in ∷ []) calls system_made refl
      (add-IsCall, (sub-IsCall, tt))

-- A frame without a second part, a failed receive, bytes that are no request, and a call.
abbrev odd_input : List Recv
odd_input =
    received (codes "1/0") false
    ∷ recv_failed
    ∷ received (codes "1/1") true
    ∷ received (7 ∷ []) false
    ∷ received (codes "1/2") true
    ∷ received
        (simple_pack.encode
          (item (request_document (codes "REQ10003") (codes "add") two_params) end))
        false
    ∷ []

test_server-IsFramed_example :
    (setup : List Setup) × (left : Option Channel) × (test_server simple_pack list_hash sum32
        resources
        (poll_in ∷ poll_idle ∷ poll_in ∷ poll_in ∷ poll_in ∷ [])
        (record { input = odd_input; sent = [] })
      ≡ some (setup, left))
    × IsFramed simple_pack system 4 left
test_server-IsFramed_example =
    test_server-IsFramed simple_pack simple_pack-IsMpack list_hash list_hash-IsRpcHash sum32
      resources (poll_in ∷ poll_idle ∷ poll_in ∷ poll_in ∷ poll_in ∷ []) odd_input system_made
