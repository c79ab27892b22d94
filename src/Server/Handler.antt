-- ===== src/Server/Handler.antt =====
-- rpcserver/rpcserver.cpp: the handler of one message, the reading of a message's two frames, and
-- the loop of the receiving thread.
use mathlib.Core.Option
use zeromq_rpc_test.Prelude.{ℕ, not, List, [], ◌∷◌, Option, none, some, Bytes, codes, if◌then◌else◌}
use zeromq_rpc_test.External.MpackType.{is_type, array_type, map_type}
use zeromq_rpc_test.External.Mpack.{Mpack}
use zeromq_rpc_test.External.RpcHash.{RpcHash}
use zeromq_rpc_test.External.Zmq.{Frame, Recv, recv_failed, received}
use zeromq_rpc_test.Server.World.{Action, pure, fault, ◌>>=◌, on_tree}
use zeromq_rpc_test.Server.Defs.{Server, rpc_get_callfunc, rpc_handle_req_fn}
use zeromq_rpc_test.Server.Reply.{call_send_error_reply}

-- `mpack_node_data_t pool[128]` and `char cstr[128]`
abbrev pub pool_size : ℕ
pool_size = 128

abbrev pub function_name_size : ℕ
function_name_size = 128

-- The frames that are still to be received, and those sent so far.
pub record Channel : Type 0 where
  pub input : List Recv
  pub sent : List Frame

-- A receive, when nothing more is given to receive, fails.
abbrev pub next_recv : List Recv → Recv × List Recv
next_recv [] = (recv_failed, [])
next_recv (r ∷ rs) = (r, rs)

-- What `zmq_poll` gives: an error, no event on the socket, or ZMQ_POLLIN.
pub data Poll : Type 0 where
  poll_error poll_idle poll_in : Poll

-- `Func` is the type of method pointers, `call` the code behind them.
module _ {F Func : Type 0} (M : Mpack F) (K : RpcHash Func)
    (call : Func → Server K.Table → M.Node → Action M.Tree (Unit {0}))
    (server : Server K.Table) where
  -- `rpcfunc (server, root)`, or the reply that there is no such function.
  unfoldable pub dispatch : Option (Option Func) → M.Node → Action M.Tree (Unit {0})
  dispatch none root = fault
  dispatch (some none) root = call_send_error_reply M server root (codes "unsupported function")
  dispatch (some (some func)) root = call func server root

  -- From the root of the parsed tree on.
  unfoldable pub handle_root : M.Node → Action M.Tree (Unit {0})
  handle_root root = if not (is_type (M.node_tag root) array_type) then pure tt else do
    map ← on_tree (M.array_at root 0)
    if not (is_type (M.node_tag map) map_type) then pure tt else do
      func ← on_tree (M.array_at root 1)
      cstr ← on_tree (M.copy_cstr func function_name_size)
      paras ← on_tree (M.array_at root 2)
      dispatch (rpc_get_callfunc K server cstr) root

  unfoldable pub rpc_msg_handler : Bytes → List Frame → Option (List Frame)
  rpc_msg_handler content sent =
      Option.map (λ r. (r.1).sent)
        ((do root ← on_tree M.tree_root; handle_root root)
          (record { tree = M.tree_parse content pool_size; sent = sent }))

  -- The first frame is the topic, the second the message.
  unfoldable pub rpc_handle_req : Channel → Option Channel
  rpc_handle_req c =
      let (topic, rest) = next_recv c.input in
      let c1 : Channel = record c { input = rest } in
      elim topic [
        | recv_failed ↦ some c1
        | received _ more ↦
            if not more
            then some c1
            else let (msg, rest2) = next_recv rest in
              let c2 : Channel = record c { input = rest2 } in
              elim msg [
                | recv_failed ↦ some c2
                | received content _ ↦
                    Option.map (λ sent. record c2 { sent = sent }) (rpc_msg_handler content c.sent)
              ]
      ]

  -- One round of the loop: a null handler is skipped.
  unfoldable pub poll_round : Poll → Channel → Option Channel
  poll_round poll_error c = some c
  poll_round poll_idle c = some c
  poll_round poll_in c = elim (server.handle_req) [
    | none ↦ some c
    | some rpc_handle_req_fn ↦ rpc_handle_req c
    | some _ ↦ none
  ]

  -- The endless loop, for as long as events are given.
  unfoldable pub rpc_recv_thread : List Poll → Channel → Option Channel
  rpc_recv_thread [] c = some c
  rpc_recv_thread (p ∷ ps) c = elim (poll_round p c) [
    | none ↦ none
    | some c' ↦ rpc_recv_thread ps c'
  ]
