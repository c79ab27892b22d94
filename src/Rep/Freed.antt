-- ===== src/Rep/Freed.antt =====
-- Every reply buffer is freed once (rpcserver/rpc_comm.cpp and rpc_request_add.cpp).
use zeromq_rpc_test.Prelude.{
  ℕ, ◌+◌, ◌≤◌, ◌<◌, ◌≡◌, refl, List, [], ◌∷◌, Option, some, ◌==◌, Bool-cases, inl, inr, arith,
}
use zeromq_rpc_test.External.ZmqQueue.{count, ZmqQueue, IsZmqQueue}
use zeromq_rpc_test.Rep.Buffers.{
  zmq_malloc, zmq_free, free_all, BufferEvent, replies, releases, send_buffer, reply_buffer,
  buffer_step, run_buffers,
}

count-cons : (p q : ℕ) (qs : List ℕ) → count p (q ∷ qs) ≡ count p (q ∷ []) + count p qs
count-cons p q qs = ground arith

count_self : (q : ℕ) (qs : List ℕ) → 0 < count q (q ∷ qs)
count_self q qs = ground arith

-- A buffer that is allocated can be freed, once.
zmq_free-count :
    (buf : ℕ) (live : List ℕ)
    → 0 < count buf live
    → (rest : List ℕ) × (zmq_free buf live ≡ some rest)
      × ((p : ℕ) → count p live ≡ count p (buf ∷ []) + count p rest)
unfolding zmq_free
zmq_free-count buf [] there = absurd (omega (arith, there))
zmq_free-count buf (q ∷ live) there = elim (Bool-cases (q == buf)) [
  | inl found ↦
      let same : q ≡ buf = ground arith in
      (live, rw (zmq_free, found), λ p. rw same (count-cons p buf live))
  | inr other ↦
      let (rest, freed, counts) = zmq_free-count buf live (ground arith) in
      (
        q ∷ rest,
        rw (zmq_free, other, freed),
        λ p. omega (arith, count-cons p q live, count-cons p q rest, counts p),
      )
]

-- Buffers that are all allocated can all be freed.
free_all-count :
    (done live : List ℕ)
    → ((p : ℕ) → count p done ≤ count p live)
    → (rest : List ℕ) × (free_all done live ≡ some rest)
      × ((p : ℕ) → count p live ≡ count p done + count p rest)
free_all-count [] live within = (live, refl, λ p. omega arith)
free_all-count (buf ∷ done) live within =
    let (live', freed, counts) =
      zmq_free-count buf live (omega (arith, within buf, count_self buf done)) in
    let (rest, all_freed, all_counts) =
      free_all-count done live' (λ p. omega (arith, within p, counts p, count-cons p buf done)) in
    (rest, rw (freed, all_freed), λ p. omega (arith, counts p, all_counts p, count-cons p buf done))

module _ (Z : ZmqQueue) (L : IsZmqQueue Z) where
  -- What is allocated is what ZeroMQ holds.
  abbrev Owned : Z.State → List ℕ → Type 0
  Owned z live = (p : ℕ) → count p live ≡ count p (Z.holds z)

  pub record Next (step : Option (Z.State × List ℕ)) : Type 0 where
    pub state : Z.State
    pub live : List ℕ
    pub ran : step ≡ some (state, live)
    pub owned : Owned state live

  reply-Owned :
      (buf : ℕ) (z : Z.State) (live : List ℕ)
      → Owned z live
      → Next (reply_buffer Z (some buf) (z, live))
  unfolding reply_buffer zmq_malloc send_buffer
  reply-Owned buf z live owned = elim (Bool-cases (Z.send z buf).0) [
    | inl taken ↦ record {
      state = (Z.send z buf).1;
      live = buf ∷ live;
      ran = rw (reply_buffer, zmq_malloc, send_buffer, taken);
      owned = λ p. omega (arith, L.send_taken z buf p taken, owned p, count-cons p buf live);
    }
    | inr refused ↦
        let (rest, freed, counts) = zmq_free-count buf (buf ∷ live) (count_self buf live) in
        record {
          state = (Z.send z buf).1;
          live = rest;
          ran = rw (reply_buffer, zmq_malloc, send_buffer, refused, freed);
          owned = λ p.
              omega
                (arith, L.send_refused z buf p refused, owned p, counts p, count-cons p buf live);
        }
  ]

  release-Owned :
      (z : Z.State) (live : List ℕ) → Owned z live → Next (buffer_step Z releases (z, live))
  release-Owned z live owned =
      let (rest, freed, counts) =
        free_all-count (Z.release z).0 live (λ p. omega (arith, L.release_once z p, owned p)) in
      record {
        state = (Z.release z).1;
        live = rest;
        ran = rw freed;
        owned = λ p. omega (arith, L.release_once z p, owned p, counts p);
      }

  run-Owned :
      (es : List BufferEvent) (z : Z.State) (live : List ℕ)
      → Owned z live
      → Next (run_buffers Z es (z, live))
  run-Owned [] z live owned = record { state = z; live = live; ran = refl; owned = owned }
  run-Owned (replies buf ∷ es) z live owned =
      let n = reply-Owned buf z live owned in
      let m = run-Owned es n.state n.live n.owned in
      record { state = m.state; live = m.live; ran = rw n.ran m.ran; owned = m.owned }
  run-Owned (releases ∷ es) z live owned =
      let n = release-Owned z live owned in
      let m = run-Owned es n.state n.live n.owned in
      record { state = m.state; live = m.live; ran = rw n.ran m.ran; owned = m.owned }

  -- Where `malloc` gives every reply a buffer: whichever replies ZeroMQ takes or refuses, and
  -- whenever it gives buffers back, no buffer is freed twice, and none is lost. What is allocated
  -- is at any time exactly what ZeroMQ still holds, each buffer as often.
  pub run_buffers-owned :
      (es : List BufferEvent) (p : ℕ)
      → (z : Z.State) × (live : List ℕ) × (run_buffers Z es (Z.idle, []) ≡ some (z, live))
        × (count p live ≡ count p (Z.holds z))
  run_buffers-owned es p =
      let n = run-Owned es Z.idle [] (λ q. rw (L.holds-idle) refl) in
      (n.state, n.live, n.ran, n.owned p)
