-- ===== src/Client/Safe.antt =====
-- The client reads only what it has received (test_a_msgpack_req.c).
use zeromq_rpc_test.Prelude.{
  ℕ, ◌-◌, ◌≤◌, ltb, take, ◌≡◌, ◌↔◌, refl, sym, ap, ◌∙◌, Bool, true, false, List, ◌&&◌, [], ◌∷◌,
  Option, none, some, Bytes, codes, length, leb, take-all, ◌++◌, Bool-cases, Option-cases, inl, inr,
  arith,
}
use zeromq_rpc_test.External.MpackType.{is_type, is_type_iff, str_type, map_type}
use zeromq_rpc_test.External.Mpack.{Mpack, IsMpack}
use zeromq_rpc_test.External.Zmq.{Recv, recv_failed, received}
use zeromq_rpc_test.Server.World.{◌>>=◌}
use zeromq_rpc_test.Dump.{pos, int_of, negsuc, int_text, hex_text}
use zeromq_rpc_test.Client.{
  Net, IsNet, dump_msg, pointed, parse_msg_data, read_reply, main, pool_size, content_of, size_of,
  exchange, exchanged, close_all,
}

-- The dump of a message of the given bytes.
abbrev pub dump_line : Bytes → Bytes
dump_line s = 91 ∷ (int_text 3 (pos (length s)) ++ (93 ∷ 32 ∷ (hex_text s ++ (10 ∷ []))))

-- A size within the content leads to no read past its end.
dump_within : (s : Bytes) (n : ℕ) → n ≤ length s → (text : Bytes) × (dump_msg s (pos n) ≡ some text)
unfolding dump_msg
dump_within s n h =
    let fits : leb n (length s) ≡ true = ground arith in
    (
      91 ∷ (int_text 3 (pos n) ++ (93 ∷ 32 ∷ (hex_text (take n s) ++ (10 ∷ [])))),
      rw (dump_msg, fits),
    )

pub dump_all : (s : Bytes) (n : ℕ) → n ≡ length s → dump_msg s (pos n) ≡ some (dump_line s)
unfolding dump_msg
dump_all s n e =
    let fits : leb (length s) (length s) ≡ true = ground arith in
    ap (λ k. dump_msg s (pos k)) e ∙ rw (dump_msg, fits, take-all (length s) s (omega arith))

-- A length that is negative as an `int` dumps no bytes.
dump_int_of :
    (s : Bytes) (n : ℕ) → n ≡ length s → (text : Bytes) × (dump_msg s (int_of n) ≡ some text)
unfolding dump_msg
dump_int_of s n e = elim (Bool-cases (ltb n 2147483648)) [
  | inl small ↦ let (text, e') = dump_within s n (omega (arith, e)) in (text, rw small e')
  | inr big ↦ (
    91 ∷ (int_text 3 (negsuc (4294967295 - n)) ++ (93 ∷ 32 ∷ (hex_text [] ++ (10 ∷ [])))),
    rw big,
  )
]

-- What `main` reaches once the socket is connected and the first frame is sent.
abbrev pub reaches : Net → Bool
reaches net = elim net.zmq_init [
  | none ↦ false
  | some ctx ↦ elim (net.zmq_socket ctx) [ none ↦ false | some s ↦ net.connected && net.first_sent ]
]

module _ {F : Type 0} (M : Mpack F) (L : IsMpack M) where
  -- The node of "a", its bytes, and the node again.
  abbrev first_node : M.Node → M.Tree → M.Node × M.Tree
  first_node m t = M.map_cstr m (codes "a") t

  abbrev bytes_read : M.Node → M.Tree → Option Bytes × M.Tree
  bytes_read m t = M.node_str (first_node m t).0 (first_node m t).1

  abbrev again : M.Node → M.Tree → M.Node × M.Tree
  again m t = M.map_cstr m (codes "a") (bytes_read m t).1

  abbrev Dumps : M.Node → M.Tree → Type 0
  Dumps m t =
      (text : Bytes) × (dump_msg (pointed (bytes_read m t).0) (int_of (M.node_len (again m t).0))
        ≡ some text)

  Dumps-of :
      (m : M.Node) (t : M.Tree) (a : Option Bytes) (t1 : M.Tree) (n : M.Node) (t2 : M.Tree)
      → bytes_read m t ≡ (a, t1)
      → M.map_cstr m (codes "a") t1 ≡ (n, t2)
      → M.node_len n ≡ length (pointed a)
      → Dumps m t
  Dumps-of m t a t1 n t2 read found long =
      let at : again m t ≡ (n, t2) =
        ap (λ (r : Option Bytes × M.Tree). M.map_cstr m (codes "a") r.1) read ∙ found in
      let same : M.node_len (again m t).0 ≡ length (pointed a) =
        ap (λ (r : M.Node × M.Tree). M.node_len r.0) at ∙ long in
      let (text, dumps) = dump_int_of (pointed a) (M.node_len (again m t).0) same in
      (
        text,
        ap
              (λ (r : Option Bytes × M.Tree).
                dump_msg (pointed r.0) (int_of (M.node_len (again m t).0)))
              read
            ∙ dumps,
      )

  -- Where the look-up ends in error, NULL and the length 0 are dumped.
  nothing-Dumps :
      (m n : M.Node) (t t' : M.Tree) → M.failed t' ≡ true → first_node m t ≡ (n, t') → Dumps m t
  nothing-Dumps m n t t' bad e =
      Dumps-of m t none t' M.nil_node t'
        (ap (λ (r : M.Node × M.Tree). M.node_str r.0 r.1) e ∙ rw (L.node_str_lem n t', bad))
        (L.map_cstr_in_error m (codes "a") t' bad) L.nil_node-len

  found-Dumps :
      (m v : M.Node) (t : M.Tree) → M.failed t ≡ false → first_node m t ≡ (v, t) → Dumps m t
  found-Dumps m v t ok e = elim (Bool-cases (is_type (M.node_tag v) str_type)) [
    | inl is_str ↦
        Dumps-of m t (some (M.content v)) t v t
          (ap (λ (r : M.Node × M.Tree). M.node_str r.0 r.1) e ∙ rw (L.node_str_lem v t, ok, is_str))
          e (sym (L.content_length v ((is_type_iff (M.node_tag v) str_type).0 is_str)))
    | inr other ↦
        Dumps-of m t none (M.flag t) M.nil_node (M.flag t)
          (ap (λ (r : M.Node × M.Tree). M.node_str r.0 r.1) e ∙ rw (L.node_str_lem v t, ok, other))
          (L.map_cstr_in_error m (codes "a") (M.flag t) (L.failed-flag t)) L.nil_node-len
  ]

  -- Whatever node and tree: what is dumped of "a" is there.
  any-Dumps : (m : M.Node) (t : M.Tree) → Dumps m t
  any-Dumps m t = elim (Bool-cases (M.failed t)) [
    | inl bad ↦ nothing-Dumps m M.nil_node t t bad (L.map_cstr_in_error m (codes "a") t bad)
    | inr ok ↦ elim (Bool-cases (is_type (M.node_tag m) map_type)) [
      | inr other ↦
          nothing-Dumps m M.nil_node t (M.flag t) (L.failed-flag t)
            (L.map_cstr_other m (codes "a") t ok other)
      | inl is_map ↦
          let tag = (is_type_iff (M.node_tag m) map_type).0 is_map in
          elim (Option-cases (M.find m (codes "a"))) [
            | inl absent ↦
                nothing-Dumps m M.nil_node t (M.flag t) (L.failed-flag t)
                  (L.map_cstr_absent m (codes "a") t ok tag absent)
            | inr (v, there) ↦
                found-Dumps m v t ok (L.map_cstr_found m (codes "a") t v ok tag there)
          ]
    ]
  ]

  -- A reply that is received is read without a fault, whatever its bytes are.
  parse_whole :
      (net : Net) (content : Bytes) (more : Bool)
      → (r : Bytes × ℕ) × (read_reply M net (received content more) ≡ some r)
  unfolding parse_msg_data
  parse_whole net content more =
      let t = M.tree_parse (take (net.returned (length content)) content) pool_size in
      let (text, e) = any-Dumps (M.tree_root t).0 (M.tree_root t).1 in
      (
        (
          text,
          (M.node_u8
              (M.map_cstr (M.tree_root t).0 (codes "b")
                (again (M.tree_root t).0 (M.tree_root t).1).1).0
              (M.map_cstr (M.tree_root t).0 (codes "b")
                (again (M.tree_root t).0 (M.tree_root t).1).1).1).0,
        ),
        rw (read_reply, parse_msg_data, ◌>>=◌, e),
      )

  dump_recv :
      (net : Net)
      → IsNet net
      → (r : Recv) → (text : Bytes) × (dump_msg (content_of r) (size_of net r) ≡ some text)
  unfolding dump_msg
  dump_recv net laws recv_failed =
      (91 ∷ (int_text 3 (negsuc 0) ++ (93 ∷ 32 ∷ (hex_text [] ++ (10 ∷ [])))), refl)
  dump_recv net laws (received content more) =
      dump_within content (net.returned (length content)) (laws.returned_within (length content))

  -- Once the first frame is sent, only a second receive that fails leads to a fault.
  exchange-fault_iff :
      (net : Net)
      → IsNet net
      → (vref vref2 : F) → (args : List Bytes) → (id reply : Recv) → (ctx s : ℕ)
      → (exchange M net vref vref2 args id reply ctx s ≡ none) ↔ (reply ≡ recv_failed)
  exchange-fault_iff net laws vref vref2 args id recv_failed ctx s =
      let (first, e) = dump_recv net laws id in
      let (second, e') = dump_recv net laws recv_failed in
      ((λ _. refl), (λ _. rw (exchange, e, e')))
  exchange-fault_iff net laws vref vref2 args id (received content more) ctx s =
      let (first, e) = dump_recv net laws id in
      let (second, e') = dump_recv net laws (received content more) in
      let (r, e'') = parse_whole net content more in
      let ends : exchange M net vref vref2 args id (received content more) ctx s
          ≡ some (
              close_all M net vref vref2 args id (received content more) ctx s
                (exchanged M net vref vref2 args id (received content more) s)
                (first ∷ second ∷ r.0 ∷ []) r.1) =
        rw (exchange, e, e', e'') in
      ((λ gone. ground (arith, gone, ends)), (λ gone. ground (arith, gone, ends)))

  -- Where a receive returns the number of bytes of its message, as far as an `int` holds it: the
  -- program faults exactly where the socket is connected, the first frame is sent, and the second
  -- frame of the reply is not received: the size -1 is then the parser's.
  pub main-fault_iff :
      (net : Net)
      → IsNet net
      → (vref vref2 : F) → (args : List Bytes) → (id reply : Recv)
      → (main M net vref vref2 args id reply ≡ none) ↔ (reaches net ≡ true) × (reply ≡ recv_failed)
  unfolding main
  main-fault_iff net laws vref vref2 args id reply = elim (Option-cases net.zmq_init) [
    | inl e ↦ ground (arith, e)
    | inr (ctx, e) ↦ elim (Option-cases (net.zmq_socket ctx)) [
      | inl e' ↦ ground (arith, e, e')
      | inr (s, e') ↦
          let last = exchange-fault_iff net laws vref vref2 args id reply ctx s in
          elim (Bool-cases net.connected) [
            | inr c ↦ ground (arith, e, e', c)
            | inl c ↦ elim (Bool-cases net.first_sent) [
              | inr d ↦ ground (arith, e, e', c, d)
              | inl d ↦ ground (arith, e, e', c, d, last)
            ]
          ]
    ]
  ]
