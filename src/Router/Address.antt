-- ===== src/Router/Address.antt =====
-- Where the replies to the dealer go, and what it does with them (newrpc/router3.cpp).
use zeromq_rpc_test.Prelude.{
  ℕ, ◌≡◌, ◌↔◌, refl, Bool, true, false, ◌||◌, List, [], ◌∷◌, none, Bytes, length, ltb, leb, arith,
  Bool-cases, inl, inr,
}
use zeromq_rpc_test.External.Zmq.{Frame, Recv, recv_failed, received}
use zeromq_rpc_test.Router.Poller.{address_of}
use zeromq_rpc_test.Router.Dealer.{
  buf_size, dealer_identity, dealer_message, receive_and_dump, dealer_transmitter_thread,
}

-- The eight bytes that a reply to the dealer's message is addressed to are "MA1S" and the four
-- bytes of the message id. With at least three bytes behind the literal in memory, they are the
-- identity that the dealer has set exactly where those three bytes are NULs.
pub dealer_identity-address_of :
    (a b c : ℕ) (behind : Bytes)
    → (dealer_identity (a ∷ b ∷ c ∷ behind) ≡ address_of dealer_message)
      ↔ ((a ≡ 0) × (b ≡ 0) × (c ≡ 0))
unfolding dealer_identity dealer_message
dealer_identity-address_of a b c behind = ground arith

-- Whether a reply is longer than the buffer.
abbrev pub is_long : Recv → Bool
is_long recv_failed = false
is_long (received content more) = ltb buf_size (length content)

abbrev pub any_long : List Recv → Bool
any_long [] = false
any_long (r ∷ rest) = is_long r || any_long rest

-- The dealer's loop reads past the end of its buffer exactly where some reply has more than 256
-- bytes.
pub dealer_transmitter_thread-fault_iff :
    (dealer : ℕ) (rs : List Recv) (buf : Bytes) (sent : List Frame)
    → (dealer_transmitter_thread dealer rs buf sent ≡ none) ↔ (any_long rs ≡ true)
unfolding dealer_transmitter_thread receive_and_dump
dealer_transmitter_thread-fault_iff dealer [] buf sent = ground arith
dealer_transmitter_thread-fault_iff dealer (recv_failed ∷ rest) buf sent =
    dealer_transmitter_thread-fault_iff dealer rest _ _
dealer_transmitter_thread-fault_iff dealer (received content more ∷ rest) buf sent =
    elim (Bool-cases (ltb buf_size (length content))) [
      | inl long ↦
          let cut : leb (length content) buf_size ≡ false = ground arith in
          rw (dealer_transmitter_thread, receive_and_dump, cut, long) ((λ e. refl), λ e. refl)
      | inr fits ↦
          let whole : leb (length content) buf_size ≡ true = ground arith in
          rw (dealer_transmitter_thread, receive_and_dump, whole, fits)
            (dealer_transmitter_thread-fault_iff dealer rest _ _)
    ]
