-- ===== src/Arpc/Comm.antt =====
-- rpc/rpcrequest/rpc_comm.h and rpc_comm.cpp, and `rpc_send_reply` of
-- rpc/rpcrequest/rpc_request_add.cpp.
use mathlib.Core.Option
use zeromq_rpc_test.Prelude.{
  ℕ, Bool, true, false, not, List, [], ◌∷◌, ◌++◌, Option, none, some, Bytes, codes, length, ◌==◌,
  if◌then◌else◌,
}
use zeromq_rpc_test.External.MpackType.{MpackType, is_type, array_type}
use zeromq_rpc_test.External.Doc.{Call, build_array, complete_array, write_cstr}
use zeromq_rpc_test.External.Mpack.{Mpack}
use zeromq_rpc_test.Server.World.{Action, pure, ◌>>=◌, ◌>>◌, on_tree, read_bytes, zmq_msg_send}
use zeromq_rpc_test.Server.Request.{check_loop}

abbrev pub buff_size : ℕ
buff_size = 128

-- What `malloc` gives, NULL or a buffer; and the buffers that are allocated from then on.
unfoldable pub zmq_malloc : Option ℕ → List ℕ → Option ℕ × List ℕ
zmq_malloc none live = (none, live)
zmq_malloc (some buf) live = (some buf, buf ∷ live)

-- `none` is a second `free`, or one of what was never allocated.
unfoldable pub zmq_free : ℕ → List ℕ → Option (List ℕ)
zmq_free buf [] = none
zmq_free buf (p ∷ live) = elim (p == buf) [
  | true ↦ some live
  | false ↦ Option.map (λ l. p ∷ l) (zmq_free buf live)
]

-- `rpc_handler_t`
pub record Handler : Type 0 where
  pub socket : ℕ
  pub tid : Bytes
  pub tid_size : ℕ

-- The buffer is given to ZeroMQ, which sends its first `size` bytes.
unfoldable pub rpc_send_reply : {T : Type 0} → Handler → Bytes → ℕ → Action T (Unit {0})
rpc_send_reply handler data_ size = do
  reply ← read_bytes data_ size
  zmq_msg_send handler.socket reply false

-- The calls of the writer.
unfoldable pub opresult_calls : {F : Type 0} → Bool → List (Call F)
opresult_calls result =
    build_array
    ∷ write_cstr (if result then codes "SUCCESS" else codes "FAILED")
    ∷ complete_array
    ∷ []

-- A cause is written where it is not NULL.
unfoldable pub opresult2_calls : {F : Type 0} → Bool → Option Bytes → List (Call F)
opresult2_calls result cause =
    build_array
    ∷ write_cstr (if result then codes "SUCCESS" else codes "FAILED")
    ∷ (elim cause [ none ↦ [] | some text ↦ write_cstr text ∷ [] ] ++ (complete_array ∷ []))

module _ {F : Type 0} (M : Mpack F) where
  unfoldable pub rpc_request_reply_opresult : Handler → Bool → Action M.Tree Bool
  rpc_request_reply_opresult handler result = do
    let buffer = M.buffer_used buff_size (opresult_calls result)
    rpc_send_reply handler buffer (length buffer)
    pure true

  unfoldable pub rpc_request_reply_opresult2 : Handler → Bool → Option Bytes → Action M.Tree Bool
  rpc_request_reply_opresult2 handler result cause = do
    let buffer = M.buffer_used buff_size (opresult2_calls result cause)
    rpc_send_reply handler buffer (length buffer)
    pure true

  -- The loop is the one of the server's `rpc_check_params_validity`.
  unfoldable pub rpc_check_param_validity : M.Node → List MpackType → ℕ → Action M.Tree Bool
  rpc_check_param_validity root param_types size = do
    type ← on_tree (M.node_type root)
    if not (is_type type array_type) then pure false else do
      length ← on_tree (M.array_length root)
      if not (length == size) then pure false else check_loop M root param_types length 0
