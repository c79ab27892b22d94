-- ===== src/Dump/Rpcs.antt =====
-- The dumps of rpcserver/rpcs.cpp (dump_msg1) and of rpcserver/rpcs1.cpp (dump_msg).
use zeromq_rpc_test.Prelude.{[], ◌∷◌, ◌++◌, Option, none, some, Bytes}
use zeromq_rpc_test.Dump.{ℤ, int_text, hex_text, first_bytes}

unfoldable pub dump_msg1 : Bytes → ℤ → Option Bytes
dump_msg1 content size = elim (first_bytes content size) [
  | none ↦ none
  | some bytes ↦ some (91 ∷ (int_text 3 size ++ (93 ∷ 32 ∷ (hex_text bytes ++ (10 ∷ [])))))
]

unfoldable pub dump_msg : Bytes → ℤ → Option Bytes
dump_msg content size = elim (first_bytes content size) [
  | none ↦ none
  | some bytes ↦ some (91 ∷ (int_text 3 size ++ (93 ∷ 32 ∷ (hex_text bytes ++ (10 ∷ [])))))
]
