-- ===== src/Broker/Names.antt =====
-- `zmq_strevent` names single events (rpcserver/zmq_event_helper.cpp).
use zeromq_rpc_test.Prelude.{
  ℕ, ◌≡◌, refl, Bool, true, false, List, [], ◌∷◌, codes, Bool-cases, bytes_eq, bytes_eq_iff, not,
  ◌&&◌, ◌||◌, sym, ◌∙◌, inl, inr, arith,
}
use zeromq_rpc_test.Broker.Event.{
  ZmqEvent, desc, bits_meet, int_bits, event_loop, zmq_strevent, zmq_event_table, connected,
  connect_delayed, connect_retried, listening, bind_failed, accepted, accept_failed, closed,
  close_failed, disconnected, monitor_stopped, handshake_failed_no_detail, handshake_succeeded,
  handshake_failed_protocol, handshake_failed_auth,
}

-- Whether some entry of a table shares a bit with the event.
abbrev pub any_meets : (ZmqEvent → ℕ) → List ZmqEvent → ℕ → Bool
any_meets value [] event = false
any_meets value (e ∷ es) event = bits_meet int_bits event (value e) || any_meets value es event

andb_left : (a b : Bool) → a && b ≡ true → a ≡ true
andb_left a b h = ground arith

module _ (value : ZmqEvent → ℕ) where
  -- Entries that share no bit with the event are passed over.
  event_loop_skip :
      (e : ZmqEvent) (es : List ZmqEvent) (event : ℕ)
      → bits_meet int_bits event (value e) ≡ false
      → event_loop value (e ∷ es) event ≡ event_loop value es event
  unfolding event_loop
  event_loop_skip e es event h = rw h

  event_loop_hit :
      (e : ZmqEvent) (es : List ZmqEvent) (event : ℕ)
      → bits_meet int_bits event (value e) ≡ true
      → event_loop value (e ∷ es) event ≡ desc e
  unfolding event_loop
  event_loop_hit e es event h = rw h

  event_loop_unknown :
      (es : List ZmqEvent) (event : ℕ)
      → any_meets value es event ≡ false
      → event_loop value es event ≡ codes "UNKNOWN EVENT"
  unfolding event_loop
  event_loop_unknown [] event h = refl
  event_loop_unknown (e ∷ es) event h =
      event_loop_skip e es event (ground arith) ∙ event_loop_unknown es event (ground arith)

  -- An event that shares a bit with no constant of the table is unknown.
  pub zmq_strevent-unknown :
      (event : ℕ)
      → any_meets value zmq_event_table event ≡ false
      → zmq_strevent value event ≡ codes "UNKNOWN EVENT"
  unfolding zmq_strevent
  zmq_strevent-unknown event h = event_loop_unknown zmq_event_table event h

  -- Whether the constant shares bits with no constant of the list that has another name.
  abbrev pub is_alone : ZmqEvent → List ZmqEvent → Bool
  is_alone e [] = true
  is_alone e (f ∷ es) =
      (not (bits_meet int_bits (value e) (value f)) || bytes_eq (desc e) (desc f)) && is_alone e es

  event_loop_own :
      (e : ZmqEvent) (es : List ZmqEvent)
      → is_alone e es ≡ true
      → any_meets value es (value e) ≡ true
      → event_loop value es (value e) ≡ desc e
  event_loop_own e [] only h = absurd (ground arith)
  event_loop_own e (f ∷ es) only h = elim (Bool-cases (bits_meet int_bits (value e) (value f))) [
    | inl met ↦
        event_loop_hit f es (value e) met
        ∙ sym ((bytes_eq_iff (desc e) (desc f)).0 (andb_left _ _ (rw met at only)))
    | inr missed ↦
        event_loop_skip f es (value e) missed
        ∙ event_loop_own e es (rw missed at only) (rw missed at h)
  ]

  table-any_meets :
      (e : ZmqEvent)
      → bits_meet int_bits (value e) (value e) ≡ true
      → any_meets value zmq_event_table (value e) ≡ true
  table-any_meets connected own = ground (arith, own)
  table-any_meets connect_delayed own = ground (arith, own)
  table-any_meets connect_retried own = ground (arith, own)
  table-any_meets listening own = ground (arith, own)
  table-any_meets bind_failed own = ground (arith, own)
  table-any_meets accepted own = ground (arith, own)
  table-any_meets accept_failed own = ground (arith, own)
  table-any_meets closed own = ground (arith, own)
  table-any_meets close_failed own = ground (arith, own)
  table-any_meets disconnected own = ground (arith, own)
  table-any_meets monitor_stopped own = ground (arith, own)
  table-any_meets handshake_failed_no_detail own = ground (arith, own)
  table-any_meets handshake_succeeded own = ground (arith, own)
  table-any_meets handshake_failed_protocol own = ground (arith, own)
  table-any_meets handshake_failed_auth own = ground (arith, own)

  -- An event that is one of the table's constants has the name of that constant, where the
  -- constant is not 0 and shares no bit with a constant of another name.
  pub zmq_strevent-desc :
      (e : ZmqEvent)
      → bits_meet int_bits (value e) (value e) ≡ true
      → is_alone e zmq_event_table ≡ true
      → zmq_strevent value (value e) ≡ desc e
  unfolding zmq_strevent
  zmq_strevent-desc e own only = event_loop_own e zmq_event_table only (table-any_meets e own)
