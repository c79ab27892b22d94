-- ===== src/Dump/RoundTrip.antt =====
-- A dump can be read back.
use zeromq_rpc_test.Prelude.{
  ℕ, zero, suc, ◌+◌, ◌-◌, ◌*◌, ◌/◌, ◌%◌, ◌≤◌, ◌<◌, ◌≡◌, refl, Bool, true, ◌&&◌, [], ◌∷◌, ◌++◌,
  Option, none, some, Bytes, length, take, replicate, ltb, leb, ◌==◌, arith, if◌then◌else◌,
}
use zeromq_rpc_test.Dump.{pos, decimal, int_digits, int_text, hex_digit, hex_text, dump_msg}
use zeromq_rpc_test.Dump.Numbers.{
  value_of, read_number, all_digits, read_number-append, all_digits-append, decimal-all_digits,
  value_of-decimal, value_of-zeros, zeros-all_digits,
}
use zeromq_rpc_test.Dump.Rpcs as Rpcs
use zeromq_rpc_test.Dump.Arpcs as Arpcs

abbrev pub hex_value : ℕ → ℕ
hex_value c = if ltb c 58 then c - 48 else c - 55

-- Reads bytes up to the newline.
abbrev pub read_hex : Bytes → Option Bytes
read_hex [] = none
read_hex (c ∷ []) = if c == 10 then some [] else none
read_hex (c ∷ d ∷ rest) = elim (read_hex rest) [
  | none ↦ none
  | some bs ↦ some ((hex_value c * 16 + hex_value d) ∷ bs)
]

-- Reads "[size] bytes" and a newline.
abbrev pub read_dump : Bytes → Option (ℕ × Bytes)
read_dump [] = none
read_dump (c ∷ cs) = elim (read_number 93 0 cs) [
  | none ↦ none
  | some (size, []) ↦ none
  | some (size, d ∷ rest) ↦ elim (read_hex rest) [ none ↦ none | some bs ↦ some (size, bs) ]
]

abbrev pub all_bytes : Bytes → Bool
all_bytes [] = true
all_bytes (b ∷ bs) = ltb b 256 && all_bytes bs

hex_pair :
    (b : ℕ) → b < 256 → hex_value (hex_digit (b / 16)) * 16 + hex_value (hex_digit (b % 16)) ≡ b
hex_pair b lt = ground arith

read_hex-hex_text :
    (bs : Bytes) → all_bytes bs ≡ true → read_hex (hex_text bs ++ (10 ∷ [])) ≡ some bs
unfolding hex_text
read_hex-hex_text [] ok = refl
read_hex-hex_text (b ∷ bs) ok = rw (read_hex-hex_text bs (ground arith), hex_pair b (ground arith))

take-all_bytes : (n : ℕ) (bs : Bytes) → all_bytes bs ≡ true → all_bytes (take n bs) ≡ true
take-all_bytes zero bs ok = refl
take-all_bytes (suc n) [] ok = refl
take-all_bytes (suc n) (b ∷ bs) ok = ground (arith, take-all_bytes n bs)

size_digits : (size : ℕ) → all_digits (int_text 3 (pos size)) ≡ true
size_digits size =
    let ds = decimal int_digits size in
    rw (
      all_digits-append (replicate (3 - length ds) 48) ds,
      zeros-all_digits (3 - length ds),
      decimal-all_digits int_digits size,
    )

size_value : (size : ℕ) → size < 2147483648 → value_of 0 (int_text 3 (pos size)) ≡ size
size_value size fits =
    let ds = decimal int_digits size in
    rw (value_of-zeros (3 - length ds) ds) (value_of-decimal int_digits size (omega (arith, fits)))

-- What `dump_msg` prints of a message of bytes, with a size that an `int` can hold and the message
-- has, reads back as that size and the first bytes of the message. The four other copies of the
-- function print the same.
pub dump_msg-read_dump :
    (content : Bytes) (size : ℕ)
    → all_bytes content ≡ true
    → size < 2147483648
    → size ≤ length content
    → (text : Bytes) × (dump_msg content (pos size) ≡ some text)
      × (read_dump text ≡ some (size, take size content))
      × (Rpcs.dump_msg1 content (pos size) ≡ some text)
      × (Rpcs.dump_msg content (pos size) ≡ some text)
      × (Arpcs.dump_msg1 content (pos size) ≡ some text)
      × (Arpcs.dump_msg content (pos size) ≡ some text)
unfolding dump_msg Rpcs.dump_msg1 Rpcs.dump_msg Arpcs.dump_msg1 Arpcs.dump_msg
dump_msg-read_dump content size ok fits within =
    let all_there : leb size (length content) ≡ true = ground arith in
    let bytes = take size content in
    let ds = int_text 3 (pos size) in
    (
      91 ∷ (ds ++ (93 ∷ 32 ∷ (hex_text bytes ++ (10 ∷ [])))),
      rw (dump_msg, all_there),
      rw (
        read_dump,
        read_number-append 93 0 ds (32 ∷ (hex_text bytes ++ (10 ∷ []))) refl (size_digits size),
        read_hex-hex_text bytes (take-all_bytes size content ok),
        size_value size fits,
      ),
      rw (Rpcs.dump_msg1, all_there),
      rw (Rpcs.dump_msg, all_there),
      rw (Arpcs.dump_msg1, all_there),
      rw (Arpcs.dump_msg, all_there),
    )
