-- ===== src/Tests/Client.antt =====
-- The client with the small MessagePack, at a peer that answers (test_a_msgpack_req.c).
use zeromq_rpc_test.Prelude.{
  ℕ, ltb, if◌then◌else◌, ◌≡◌, ◌↔◌, true, false, List, Bytes, [], ◌∷◌, none, some, codes, refl,
  arith,
}
use zeromq_rpc_test.External.Doc.{item, end}
use zeromq_rpc_test.External.Zmq.{Recv, recv_failed, received}
use zeromq_rpc_test.Instances.SimplePack.{simple_pack, simple_pack-IsMpack}
use zeromq_rpc_test.Instances.SimpleReading.{simple_reading}
use zeromq_rpc_test.Client.{
  Net, IsNet, bind_to, main, connects, sends, receives, closes, terminates,
}
use zeromq_rpc_test.Client.Safe.{dump_line, reaches, main-fault_iff}
use zeromq_rpc_test.Client.Exchange.{message_document, answer, main-exchanges}

-- At most the largest `int`.
abbrev returned : ℕ → ℕ
returned n = if ltb n 2147483648 then n else 2147483647

abbrev net : Net
net = record {
  grown = true;
  zmq_init = some 3;
  zmq_socket = λ ctx. some 4;
  connected = true;
  first_sent = true;
  returned = returned;
  msg_closed = true;
  socket_closed = true;
  terminated = true;
}

net-IsNet : IsNet net
net-IsNet = record {
  returned_within = λ n. ground arith;
  returned_int = λ n. ground arith;
  returned_whole = λ n h. ground arith;
}

abbrev args : List Bytes
args = codes "req" ∷ codes "tcp://peer:1" ∷ []

abbrev first : Recv
first = received (codes "SLOT12") true

main-fault_iff_example :
    (main simple_pack net 1005 105 args first recv_failed ≡ none)
    ↔ (reaches net ≡ true) × (recv_failed ≡ recv_failed)
main-fault_iff_example =
    main-fault_iff simple_pack simple_pack-IsMpack net net-IsNet 1005 105 args first recv_failed

main-exchanges_example :
    main simple_pack net 1005 105 args first
      (received (simple_pack.encode (item (answer (codes "dd") 15) end)) false)
    ≡ some (record {
      succeeds = true;
      calls =
          connects 4 (codes "tcp://peer:1")
          ∷ sends 4 (codes "SLOT12") true
          ∷ sends 4 (simple_pack.encode (message_document 1005 105)) false
          ∷ receives 4
          ∷ receives 4
          ∷ closes 4
          ∷ terminates 3
          ∷ [];
      printed =
          dump_line (codes "SLOT12")
          ∷ dump_line (simple_pack.encode (item (answer (codes "dd") 15) end))
          ∷ dump_line (codes "dd")
          ∷ [];
      value = some 15;
    })
unfolding bind_to
main-exchanges_example =
    main-exchanges simple_pack simple_pack-IsMpack simple_reading net net-IsNet 3 4
      (refl, refl, refl, refl, refl, refl, refl, refl) 1005 105 args (codes "SLOT12") true false
      (codes "dd") 15 (omega arith) (omega arith) (omega arith) (omega arith)
