-- ===== src/Server/ErrorReply.antt =====
-- The two frames of a reply, and the error reply on every branch.
use zeromq_rpc_test.Prelude.{
  ℕ, ◌≤◌, ◌<◌, ◌≡◌, refl, true, false, List, [], ◌∷◌, ◌++◌, Option, none, some, Bytes, codes, ◌==◌,
  leb, length, take, take-all, append_assoc, arith, if◌then◌else◌,
}
use zeromq_rpc_test.External.MpackType.{array_type}
use zeromq_rpc_test.External.Doc.{Docs, str, arr, dict, end, item, written}
use zeromq_rpc_test.External.Mpack.{Mpack, IsMpack}
use zeromq_rpc_test.External.Mpack.Laws.{array_at_ok, array_at_failed, buffer_used_fits}
use zeromq_rpc_test.External.Zmq.{Frame}
use zeromq_rpc_test.Server.World.{World}
use zeromq_rpc_test.Server.Defs.{Server, rpc_send_reply_fn, rpc_send_error_reply_fn}
use zeromq_rpc_test.Server.Request.{requestid_buffer, requestid_size}
use zeromq_rpc_test.Server.Reply.{
  rpc_send_reply, call_send_reply, server_name, rpc_encode_error_request_reply, reply_size,
  rpc_send_error_reply, call_send_error_reply,
}
use zeromq_rpc_test.Server.RequestId.{
  id_node, id_len, id_buffer, id_tree, id_buffer-length, rpc_msg_get_request_id_lem,
  rpc_msg_get_request_id_failed,
}

-- A server whose pointers are those that `rpc_server_init` stores, with a name that its array
-- ends with a NUL.
pub record IsReady {Tbl : Type 0} (server : Server Tbl) : Type 0 where
  pub sends : server.send_reply ≡ some rpc_send_reply_fn
  pub sends_errors : server.send_error_reply ≡ some rpc_send_error_reply_fn
  pub named : length (server_name server) < 32

-- One message of two frames, the topic and the payload.
abbrev pub reply_frames : {Tbl : Type 0} → Server Tbl → Bytes → Bytes → List Frame
reply_frames server topic msg =
    record { socket = server.pub_sock; bytes = topic; more = true }
    ∷ record { socket = server.pub_sock; bytes = msg; more = false }
    ∷ []

-- ["ERROR", {"cause": cause, "server": name}]
abbrev pub error_document : {F Tbl : Type 0} → Server Tbl → Bytes → Docs F
error_document server cause =
    item
      (arr (
        item (str (codes "ERROR")) (
          item
            (dict (
              item (str (codes "cause")) (
                item (str cause)
                  (item (str (codes "server")) (item (str (server_name server)) end)))))
            end)))
      end

-- The calls of the writer are balanced, and write the error document.
error_document-written :
    {F Tbl : Type 0} (server : Server Tbl) (cause : Bytes)
    → written (rpc_encode_error_request_reply {F = F} server cause)
      ≡ some (error_document server cause)
unfolding rpc_encode_error_request_reply
error_document-written server cause = refl

module _ {T Tbl : Type 0} (server : Server Tbl) (ready : IsReady server) where
  -- A reply is sent as two frames, the first with ZMQ_SNDMORE, if both reads stay within their
  -- buffers; and is a fault otherwise.
  pub call_send_reply_lem :
      (topic : Bytes) (topic_len : ℕ) (msg : Bytes) (w : World T)
      → call_send_reply server topic topic_len msg (length msg) w ≡ (
          if leb topic_len (length topic)
          then some
              (tt, record w { sent = w.sent ++ reply_frames server (take topic_len topic) msg })
          else none)
  unfolding call_send_reply rpc_send_reply
  call_send_reply_lem topic topic_len msg w = ground (
    arith,
    ready.sends,
    take-all (length msg) msg,
    append_assoc w.sent
        (record { socket = server.pub_sock; bytes = take topic_len topic; more = true } ∷ [])
        (record { socket = server.pub_sock; bytes = msg; more = false } ∷ []),
  )

module _ {F Tbl : Type 0} (M : Mpack F) (server : Server Tbl) where
  -- What an error reply does once the head of the message is known.
  abbrev pub error_outcome : M.Node → Bytes → World M.Tree → Option (Unit {0} × World M.Tree)
  error_outcome head cause w =
      let id = id_node M head in
      let w' : World M.Tree = record w { tree = id_tree M head id requestid_size w.tree } in
      if id_len M id == 0
      then some (tt, w')
      else if leb (id_len M id) requestid_size
      then some (
        tt,
        record w' {
          sent =
              w.sent
              ++ reply_frames server
                  (take (id_len M id) (id_buffer M id requestid_size requestid_buffer))
                  (M.encode (error_document server cause));
        },
      )
      else none

module _ {F Tbl : Type 0} (M : Mpack F) (L : IsMpack M) (server : Server Tbl)
    (ready : IsReady server) where
  -- The reply fits its buffer.
  error_document-fits :
      (cause : Bytes)
      → length cause ≤ 100
      → M.buffer_used reply_size (rpc_encode_error_request_reply server cause)
        ≡ M.encode (error_document server cause)
  error_document-fits cause short =
      buffer_used_fits M L reply_size (rpc_encode_error_request_reply server cause)
        (error_document server cause) (error_document-written server cause)
        (omega (arith, ready.named))

  -- For a ready server, a cause of at most 100 bytes, and on a tree without error a message that is
  -- an array with a first element: without an id
  -- nothing is sent; with an id of at most 128 bytes the error document is sent under what the
  -- buffer holds of it; and a longer id is a fault, since the buffer is read past its end.
  pub call_send_error_reply_lem :
      (root : M.Node) (cause : Bytes) (w : World M.Tree)
      → M.failed w.tree ≡ false
      → M.node_tag root ≡ array_type
      → 0 < M.node_len root
      → length cause ≤ 100
      → call_send_error_reply M server root cause w
        ≡ error_outcome M server (M.child root 0) cause w
  unfolding call_send_error_reply rpc_send_error_reply
  call_send_error_reply_lem root cause w ok tag pos short =
      let head = M.child root 0 in
      let id = id_node M head in
      let w' : World M.Tree = record w { tree = id_tree M head id requestid_size w.tree } in
      ground (
        arith,
        ready.sends_errors,
        array_at_ok M L root 0 w.tree ok tag pos,
        rpc_msg_get_request_id_lem M L head requestid_buffer requestid_size w ok,
        call_send_reply_lem server ready (id_buffer M id requestid_size requestid_buffer)
            (id_len M id) (M.encode (error_document server cause)) w',
        id_buffer-length M L id requestid_size requestid_buffer refl,
        error_document-fits cause short,
      )

  -- On a tree in error no error reply is sent.
  pub call_send_error_reply_failed :
      (root : M.Node) (cause : Bytes) (w : World M.Tree)
      → M.failed w.tree ≡ true
      → call_send_error_reply M server root cause w ≡ some (tt, w)
  unfolding call_send_error_reply rpc_send_error_reply
  call_send_error_reply_failed root cause w bad = ground (
    arith,
    ready.sends_errors,
    array_at_failed M L root 0 w.tree bad,
    rpc_msg_get_request_id_failed M L M.nil_node requestid_buffer requestid_size w bad,
  )
