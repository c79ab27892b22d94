-- ===== src/Instances/ListQueue.antt =====
-- ZeroMQ's queue as a list: it takes messages while it holds fewer than two, and is done with the
-- first of them at a time.
use zeromq_rpc_test.Prelude.{
  ℕ, ◌+◌, ◌≡◌, refl, Bool, true, false, List, [], ◌∷◌, ◌++◌, length, take, drop, ltb, Bool-cases,
  inl, inr, arith, if◌then◌else◌,
}
use zeromq_rpc_test.External.ZmqQueue.{count, ZmqQueue, IsZmqQueue}

abbrev send : List ℕ → ℕ → Bool × List ℕ
send z buf = if ltb (length z) 2 then (true, z ++ (buf ∷ [])) else (false, z)

abbrev pub list_queue : ZmqQueue
list_queue = record {
  State = List ℕ;
  idle = [];
  holds = λ z. z;
  send = send;
  release = λ z. (take 1 z, drop 1 z);
}

count-append : (p : ℕ) (xs ys : List ℕ) → count p (xs ++ ys) ≡ count p xs + count p ys
count-append p [] ys = omega arith
count-append p (x ∷ xs) ys = ground (arith, count-append p xs ys)

send_taken :
    (z : List ℕ) (buf p : ℕ)
    → (send z buf).0 ≡ true
    → count p (send z buf).1 ≡ count p z + count p (buf ∷ [])
send_taken z buf p taken = elim (Bool-cases (ltb (length z) 2)) [
  | inl room ↦ rw room (count-append p z (buf ∷ []))
  | inr full ↦ absurd (cc (taken, full))
]

send_refused :
    (z : List ℕ) (buf p : ℕ) → (send z buf).0 ≡ false → count p (send z buf).1 ≡ count p z
send_refused z buf p refused = elim (Bool-cases (ltb (length z) 2)) [
  | inl room ↦ absurd (cc (refused, room))
  | inr full ↦ rw full refl
]

release_once : (z : List ℕ) (p : ℕ) → count p z ≡ count p (take 1 z) + count p (drop 1 z)
release_once [] p = omega arith
release_once (x ∷ xs) p = ground arith

pub list_queue-IsZmqQueue : IsZmqQueue list_queue
list_queue-IsZmqQueue = record {
  holds-idle = refl;
  send_taken = send_taken;
  send_refused = send_refused;
  release_once = release_once;
}
