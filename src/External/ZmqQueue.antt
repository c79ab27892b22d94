-- ===== src/External/ZmqQueue.antt =====
-- What ZeroMQ does with the buffers of the messages that are given to it by `zmq_msg_init_data`: it
-- takes a message or refuses it (ZMQ_DONTWAIT), and later calls the function that frees a buffer,
-- once for each message that it no longer needs.
use zeromq_rpc_test.Prelude.{
  ℕ, suc, ◌+◌, ◌≡◌, Bool, true, false, List, [], ◌∷◌, ◌==◌, if◌then◌else◌,
}

-- How often a buffer stands in a list.
abbrev pub count : ℕ → List ℕ → ℕ
count p [] = 0
count p (q ∷ qs) = let rest = count p qs in if q == p then suc rest else rest

pub record ZmqQueue : Type 1 where
  pub State : Type 0
  pub idle : State
  -- The buffers of the messages that are still needed.
  pub holds : State → List ℕ
  -- `zmq_msg_send` of a message with this buffer: whether it is taken.
  pub send : State → ℕ → Bool × State
  -- What the I/O threads do next: the buffers that they free.
  pub release : State → List ℕ × State

pub record IsZmqQueue (Z : ZmqQueue) : Type 0 where
  pub holds-idle : Z.holds Z.idle ≡ []
  pub send_taken :
      (z : Z.State) (buffer p : ℕ)
      → (Z.send z buffer).0 ≡ true
      → count p (Z.holds (Z.send z buffer).1) ≡ count p (Z.holds z) + count p (buffer ∷ [])
  pub send_refused :
      (z : Z.State) (buffer p : ℕ)
      → (Z.send z buffer).0 ≡ false
      → count p (Z.holds (Z.send z buffer).1) ≡ count p (Z.holds z)
  pub release_once :
      (z : Z.State) (p : ℕ)
      → count p (Z.holds z) ≡ count p (Z.release z).0 + count p (Z.holds (Z.release z).1)
