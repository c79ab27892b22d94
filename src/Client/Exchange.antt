-- ===== src/Client/Exchange.antt =====
-- A whole exchange of the client, with a peer that answers by a map (test_a_msgpack_req.c).
use zeromq_rpc_test.Prelude.{
  ℕ, ltb, take-all, Bool, ◌<◌, ◌^◌, ◌≡◌, refl, true, false, List, [], ◌∷◌, some, Bytes, codes,
  length, arith,
}
use zeromq_rpc_test.External.Doc.{Doc, Docs, str, float, uint, bool, dict, end, item}
use zeromq_rpc_test.External.Mpack.{Mpack, IsMpack}
use zeromq_rpc_test.External.Mpack.Laws.{tree_root_ok}
use zeromq_rpc_test.External.Mpack.Reading.{Shows, CanRead}
use zeromq_rpc_test.External.Zmq.{received}
use zeromq_rpc_test.Server.World.{◌>>=◌}
use zeromq_rpc_test.Dump.{int_of}
use zeromq_rpc_test.Client.{
  Net, IsNet, dump_msg, bind_to, connects, sends, receives, closes, terminates, message_calls,
  build_msg_data, dumped, parse_msg_data, main, pool_size,
}
use zeromq_rpc_test.Client.Safe.{dump_line, dump_all}

module _ {F : Type 0} where
  -- {"compact": true, "schema": 10, "Vref": vref, "Complex": {"Vref": vref2}}
  abbrev pub message_document : F → F → Docs F
  message_document vref vref2 =
      item
        (dict (
          item (str (codes "compact")) (
            item (bool true) (
              item (str (codes "schema")) (
                item (uint 10) (
                  item (str (codes "Vref")) (
                    item (float vref) (
                      item (str (codes "Complex")) (
                        item (dict (item (str (codes "Vref")) (item (float vref2) end)))
                          end)))))))))
        end

  -- {"a": text, "b": n}
  abbrev pub answer : Bytes → ℕ → Doc F
  answer text n =
      dict (item (str (codes "a")) (item (str text) (item (str (codes "b")) (item (uint n) end))))

-- Where every call of ZeroMQ succeeds.
abbrev pub AllSucceed : Net → ℕ → ℕ → Type 0
AllSucceed net ctx s =
    (net.grown ≡ true)
    × (net.zmq_init ≡ some ctx)
    × (net.zmq_socket ctx ≡ some s)
    × (net.connected ≡ true)
    × (net.first_sent ≡ true)
    × (net.msg_closed ≡ true)
    × (net.socket_closed ≡ true)
    × (net.terminated ≡ true)

module _ {F : Type 0} (M : Mpack F) (L : IsMpack M) (R : CanRead M) where
  read_answer :
      (t : M.Tree) (text : Bytes) (n : ℕ)
      → M.failed t ≡ false
      → n < 2 ^ 8
      → length text < 2147483648
      → Shows M R.narrow (M.root t) (answer text n)
      → parse_msg_data M (record { tree = t; sent = [] })
        ≡ some ((dump_line text, n), record { tree = t; sent = [] })
  unfolding parse_msg_data Shows
  read_answer t text n ok small short h =
      let (tag, len, keyed) = h in
      let ((v, at_a, shown), rest) = keyed in
      let ((w, at_b, shown2), _) = rest in
      let at_root = tree_root_ok M L t ok in
      let first = L.map_cstr_found (M.root t) (codes "a") t v ok tag at_a in
      let read = L.node_str_lem v t in
      let second = L.map_cstr_found (M.root t) (codes "b") t w ok tag at_b in
      let line : dump_msg text (int_of (M.node_len v)) ≡ some (dump_line text) =
        let fits : ltb (M.node_len v) 2147483648 ≡ true = ground (arith, shown.1, short) in
        rw fits (dump_all text (M.node_len v) shown.1) in
      let value : M.node_u8 w t ≡ (n, t) =
        ground (arith, L.node_u8_lem w t (rw (shown2.0)), ok, shown2.0, shown2.1, small) in
      rw (
        at_root, first, read, ok, shown.0, shown.2, first, ◌>>=◌, dumped, line, at_root, first,
        read, ok, shown.0, first, second, value,
      )

  -- Where every call of ZeroMQ succeeds, a receive returns the number of bytes of its message as
  -- far as an `int` holds it, the peer answers by {"a": text, "b": n} in its second frame with n
  -- below 256, and both frames and the text are shorter than 2^31: the program connects to its
  -- argument or the default, sends the name and its message in two frames, receives two, prints
  -- both and the text, reads n, closes all, and returns 0.
  pub main-exchanges :
      (net : Net)
      → IsNet net
      → (ctx s : ℕ) → AllSucceed net ctx s
      → (vref vref2 : F) → (args : List Bytes) → (first : Bytes) → (more more2 : Bool)
      → (text : Bytes) → (n : ℕ) → length first < 2147483648
      → length (M.encode (item (answer text n) end)) < 2147483648
      → length text < 2147483648
      → n < 2 ^ 8
      → main M net vref vref2 args
          (received first more)
          (received (M.encode (item (answer text n) end)) more2)
        ≡ some (record {
          succeeds = true;
          calls =
              connects s (bind_to args)
              ∷ sends s (codes "SLOT12") true
              ∷ sends s (M.encode (message_document vref vref2)) false
              ∷ receives s
              ∷ receives s
              ∷ closes s
              ∷ terminates ctx
              ∷ [];
          printed =
              dump_line first
              ∷ dump_line (M.encode (item (answer text n) end))
              ∷ dump_line text
              ∷ [];
          value = some n;
        })
  unfolding main build_msg_data message_calls
  main-exchanges net laws ctx s good vref vref2 args first more more2 text n few whole short small =
      let content = M.encode (item (answer text n) end) in
      let (ok, shows) =
        R.parse_written (answer text n) pool_size (ground (arith, short, small)) (omega arith)
          (omega arith) in
      let all_first = laws.returned_whole (length first) few in
      let all_of = laws.returned_whole (length content) whole in
      let read = read_answer (M.tree_parse content pool_size) text n ok small short shows in
      let (e0, e1, e2, e3, e4, e5, e6, e7) = good in
      rw (
        e1,
        e2,
        e3,
        e4,
        all_first,
        dump_all first (length first) refl,
        all_of,
        dump_all content (length content) refl,
        take-all (length content) content (omega arith),
        read,
        e5,
        e6,
        e7,
        e0,
      )
