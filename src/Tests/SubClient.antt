-- ===== src/Tests/SubClient.antt =====
-- The client of rpcserver/help.h at two rounds, the second of which ends without an answer.
use zeromq_rpc_test.Prelude.{◌≡◌, refl, Bool, true, List, [], ◌∷◌, Option, none, some, Bytes, codes}
use zeromq_rpc_test.Instances.SimplePack.{simple_pack}
use zeromq_rpc_test.SubClient.{request, request_id, script}
use zeromq_rpc_test.SubClient.Served.{messages, subscribed, script-rounds}

abbrev unpacks : Bytes → Bool
unpacks body = true

abbrev answers : List (Option (List Bytes))
answers = some (codes "REQ10003" ∷ codes "reply" ∷ []) ∷ none ∷ []

abbrev packed : Bytes
packed = simple_pack.encode (request 100 200)

script-rounds_example :
    ((script unpacks packed answers).1 ≡ true)
    × (messages (script unpacks packed answers).0
        ≡ (codes "1/0" ∷ packed ∷ []) ∷ (codes "1/0" ∷ packed ∷ []) ∷ [])
    × (subscribed request_id 0 (script unpacks packed answers).0 ≡ 1)
script-rounds_example = script-rounds unpacks packed answers (refl, tt)
