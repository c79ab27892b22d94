-- ===== src/Client.antt =====
-- test_a_msgpack_req.c: a client that sends one message of two frames, and reads a reply of two.
pub mod Exchange
pub mod Safe
use mathlib.Core.Option
use zeromq_rpc_test.Prelude.{
  ℕ, ◌≤◌, ◌<◌, ◌≡◌, take, Bool, true, false, not, List, [], ◌∷◌, ◌++◌, Option, none, some, Bytes,
  codes, length, and_then, if◌then◌else◌,
}
use zeromq_rpc_test.External.Doc.{
  Call, build_map, complete_map, write_cstr, write_float, write_uint, write_bool, written,
}
use zeromq_rpc_test.External.Mpack.{Mpack}
use zeromq_rpc_test.External.Zmq.{Recv, recv_failed, received}
use zeromq_rpc_test.Server.World.{Action, pure, fault, ◌>>=◌, on_tree}
use zeromq_rpc_test.Dump.{ℤ, pos, negsuc, int_of}
use zeromq_rpc_test.Dump as Texts

-- What ZeroMQ gives, and which calls succeed; `grown` is that the growable writer gets its memory,
-- and `returned` what a receive returns for a message of so many bytes.
pub record Net : Type 0 where
  pub grown : Bool
  pub zmq_init : Option ℕ
  pub zmq_socket : ℕ → Option ℕ
  pub connected : Bool
  pub first_sent : Bool
  pub returned : ℕ → ℕ
  pub msg_closed : Bool
  pub socket_closed : Bool
  pub terminated : Bool

-- A receive returns the number of bytes of the message, as far as an `int` holds it.
pub record IsNet (net : Net) : Type 0 where
  pub returned_within : (n : ℕ) → net.returned n ≤ n
  pub returned_int : (n : ℕ) → net.returned n < 2147483648
  pub returned_whole : (n : ℕ) → n < 2147483648 → net.returned n ≡ n

pub data ClientCall : Type 0 where
  connects : ℕ → Bytes → ClientCall
  sends : ℕ → Bytes → Bool → ClientCall
  receives closes terminates : ℕ → ClientCall

-- How `main` ends: whether it returns 0, the calls on the socket, the texts of the dumps, and the
-- value that it reads from the reply, if it comes to that.
pub record Ended : Type 0 where
  pub succeeds : Bool
  pub calls : List ClientCall
  pub printed : List Bytes
  pub value : Option ℕ

-- The calls of the writer in `build_msg_data`, with 10.05 and 1.05.
unfoldable pub message_calls : {F : Type 0} → F → F → List (Call F)
message_calls vref vref2 =
    build_map
    ∷ write_cstr (codes "compact")
    ∷ write_bool true
    ∷ write_cstr (codes "schema")
    ∷ write_uint 10
    ∷ write_cstr (codes "Vref")
    ∷ write_float vref
    ∷ write_cstr (codes "Complex")
    ∷ build_map
    ∷ write_cstr (codes "Vref")
    ∷ write_float vref2
    ∷ complete_map
    ∷ complete_map
    ∷ []

-- `dump_msg`; `none` is a read past the end.
unfoldable pub dump_msg : Bytes → ℤ → Option Bytes
dump_msg content size = elim (Texts.first_bytes content size) [
  | none ↦ none
  | some bytes ↦
      some (91 ∷ (Texts.int_text 3 size ++ (93 ∷ 32 ∷ (Texts.hex_text bytes ++ (10 ∷ [])))))
]

-- Where `main` connects to: its only argument, or the default.
unfoldable pub bind_to : List Bytes → Bytes
bind_to (_ ∷ address ∷ []) = address
bind_to args = codes "tcp://127.0.0.1:5560"

-- From NULL nothing can be read.
abbrev pub pointed : Option Bytes → Bytes
pointed none = []
pointed (some s) = s

-- The length of a node is passed on as an `int`.
abbrev pub dumped : {T : Type 0} → Bytes → ℕ → Action T Bytes
dumped content size w = Option.map (λ text. (text, w)) (dump_msg content (int_of size))

abbrev pub pool_size : ℕ
pool_size = 128

-- The content and the result of a receive, an `int`.
abbrev pub content_of : Recv → Bytes
content_of recv_failed = []
content_of (received content more) = content

abbrev pub size_of : Net → Recv → ℤ
size_of net recv_failed = negsuc 0
size_of net (received content more) = pos (net.returned (length content))

module _ {F : Type 0} (M : Mpack F) where
  -- The message, or the NULL that the writer leaves in error.
  unfoldable pub build_msg_data : Bool → F → F → Option Bytes
  build_msg_data grown vref vref2 =
      if grown then Option.map M.encode (written (message_calls vref vref2)) else none

  -- The text that is dumped of "a", and the value of "b".
  unfoldable pub parse_msg_data : Action M.Tree (Bytes × ℕ)
  parse_msg_data = do
    map ← on_tree M.tree_root
    node ← on_tree (M.map_cstr map (codes "a"))
    a ← on_tree (M.node_str node)
    node ← on_tree (M.map_cstr map (codes "a"))
    text ← dumped (pointed a) (M.node_len node)
    node ← on_tree (M.map_cstr map (codes "b"))
    b ← on_tree (M.node_u8 node)
    pure (text, b)

  -- After a failed receive the parser is given the largest size of an empty message.
  abbrev pub read_reply : Net → Recv → Option (Bytes × ℕ)
  read_reply net recv_failed = none
  read_reply net (received content more) =
      let tree = M.tree_parse (take (net.returned (length content)) content) pool_size in
      Option.map (λ r. r.0) (parse_msg_data (record { tree = tree; sent = [] }))

  module _ (net : Net) (vref vref2 : F) (args : List Bytes) (id reply : Recv) where
    -- The end of `main`, from the closing of the message on.
    abbrev pub close_all : ℕ → ℕ → List ClientCall → List Bytes → ℕ → Ended
    close_all ctx s calls printed value =
        if not net.msg_closed
        then record { succeeds = false; calls = calls; printed = printed; value = some value }
        else record {
          succeeds = if net.socket_closed then net.terminated else false;
          calls = calls ++ (closes s ∷ (if net.socket_closed then terminates ctx ∷ [] else []));
          printed = printed;
          value = some value;
        }

    abbrev pub exchanged : ℕ → List ClientCall
    exchanged s =
        connects s (bind_to args)
        ∷ sends s (codes "SLOT12") true
        ∷ sends s (pointed (build_msg_data net.grown vref vref2)) false
        ∷ receives s
        ∷ receives s
        ∷ []

    -- The two frames, once the first is sent, and the two that come back.
    abbrev pub exchange : ℕ → ℕ → Option Ended
    exchange ctx s = and_then (dump_msg (content_of id) (size_of net id)) λ first.
        and_then (dump_msg (content_of reply) (size_of net reply)) λ second.
          and_then (read_reply net reply)
            λ (text, b). some (close_all ctx s (exchanged s) (first ∷ second ∷ text ∷ []) b)

    abbrev failed_after : List ClientCall → Option Ended
    failed_after calls =
        some (record { succeeds = false; calls = calls; printed = []; value = none })

    -- Whether `build_msg_data` fails is not looked at: NULL is sent as no bytes.
    unfoldable pub main : Option Ended
    main = elim net.zmq_init [
      | none ↦ failed_after []
      | some ctx ↦ elim (net.zmq_socket ctx) [
        | none ↦ failed_after []
        | some s ↦
            if not net.connected
            then failed_after (connects s (bind_to args) ∷ [])
            else if not net.first_sent
            then failed_after (connects s (bind_to args) ∷ sends s (codes "SLOT12") true ∷ [])
            else exchange ctx s
      ]
    ]
