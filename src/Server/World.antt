-- ===== src/Server/World.antt =====
-- The state that a request handler works on, and the monad of its steps: the tree of the parsed
-- request, whose error flag MPack sets, and the frames that are sent. `none` is a memory fault:
-- a read past the end of a buffer, or a call through a null pointer.
use zeromq_rpc_test.Prelude.{
  ℕ, Bool, Option, none, some, List, [], ◌∷◌, ◌++◌, Bytes, length, take, leb, if◌then◌else◌,
}
use zeromq_rpc_test.External.Zmq.{Frame}

pub record World (T : Type 0) : Type 0 where
  pub tree : T
  pub sent : List Frame

abbrev pub Action : Type 0 → Type 0 → Type 0
Action T A = World T → Option (A × World T)

abbrev pub pure : {T A : Type 0} → A → Action T A
pure a w = some (a, w)

infixl 5 ◌>>=◌ ◌>>◌
abbrev pub ◌>>=◌ : {T A B : Type 0} → Action T A → (A → Action T B) → Action T B
◌>>=◌ m f w = elim (m w) [ none ↦ none | some (a, w') ↦ f a w' ]

abbrev pub ◌>>◌ : {T B : Type 0} → Action T (Unit {0}) → Action T B → Action T B
◌>>◌ m k w = elim (m w) [ none ↦ none | some (_, w') ↦ k w' ]

abbrev pub fault : {T A : Type 0} → Action T A
fault w = none

-- A call of an MPack function on the tree.
abbrev pub on_tree : {T A : Type 0} → (T → A × T) → Action T A
on_tree f w = some ((f w.tree).0, record w { tree = (f w.tree).1 })

-- The `n` bytes that a `memcpy` reads from the front of a buffer.
abbrev pub read_bytes : {T : Type 0} → Bytes → ℕ → Action T Bytes
read_bytes buf n w = if leb n (length buf) then some (take n buf, w) else none

-- `zmq_msg_send`; what it returns is not looked at by the code.
abbrev pub zmq_msg_send : {T : Type 0} → ℕ → Bytes → Bool → Action T (Unit {0})
zmq_msg_send sock content more w = some (
  tt,
  record w { sent = w.sent ++ (record { socket = sock; bytes = content; more = more } ∷ []) },
)
