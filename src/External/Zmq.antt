-- ===== src/External/Zmq.antt =====
-- ZeroMQ as the program uses it. What a receive gives is decided by the network: a list of
-- results stands for it. What the program sends is the list of its frames, in order.
use zeromq_rpc_test.Prelude.{ℕ, Bool, Bytes}

-- The result of `zmq_msg_recv`: -1, or a frame and whether more of its message follows.
pub data Recv : Type 0 where
  recv_failed : Recv
  received : Bytes → Bool → Recv

-- One call of `zmq_msg_send`: the socket, the bytes, and whether ZMQ_SNDMORE is given.
pub record Frame : Type 0 where
  pub socket : ℕ
  pub bytes : Bytes
  pub more : Bool

pub data SocketType : Type 0 where
  sub_socket pub_socket : SocketType
