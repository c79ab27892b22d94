-- ===== src/Dump.antt =====
-- The dumps of messages, `dump_msg` and `dump_zmq_msg` of newrpc/router3.cpp, and the time of
-- rpcserver/xpubxsub.cpp. Each gives the text that is printed; the other copies of `dump_msg` are in
-- the children.
pub mod Rpcs
pub mod Arpcs
pub mod Numbers
pub mod RoundTrip
pub mod Times
use zeromq_rpc_test.Prelude.{
  ℕ, zero, suc, ◌+◌, ◌-◌, ◌/◌, ◌%◌, Bool, true, false, List, [], ◌∷◌, ◌++◌, Option, none, some,
  Bytes, codes, cstr, length, take, replicate, ltb, leb, if◌then◌else◌,
}

-- An `int`; `negsuc n` is -(n + 1).
pub data ℤ : Type 0 where
  pos negsuc : ℕ → ℤ

-- The `int` that holds a `uint32_t`.
abbrev pub int_of : ℕ → ℤ
int_of n = if ltb n 2147483648 then pos n else negsuc (4294967295 - n)

-- `%d` of a number with at most `digits` digits.
unfoldable pub decimal : ℕ → ℕ → Bytes
decimal zero n = []
decimal (suc digits) n =
    let rest = decimal digits (n / 10) in
    if ltb n 10 then (48 + n) ∷ [] else rest ++ ((48 + n % 10) ∷ [])

-- An `int` has at most ten digits.
abbrev pub int_digits : ℕ
int_digits = 10

-- `%0kd`: zeros in front, up to the width.
abbrev pub padded : ℕ → Bytes → Bytes
padded width text = replicate (width - length text) 48 ++ text

abbrev pub int_text : ℕ → ℤ → Bytes
int_text width (pos n) = padded width (decimal int_digits n)
int_text width (negsuc n) = 45 ∷ padded (width - 1) (decimal int_digits (n + 1))

abbrev pub hex_digit : ℕ → ℕ
hex_digit d = if ltb d 10 then 48 + d else 55 + d

-- The loop that prints `%02X` of each byte.
unfoldable pub hex_text : Bytes → Bytes
hex_text [] = []
hex_text (b ∷ bs) = hex_digit (b / 16) ∷ hex_digit (b % 16) ∷ hex_text bs

-- The bytes that the loop reads: none for a negative size; `none` is a read past the end.
abbrev pub first_bytes : Bytes → ℤ → Option Bytes
first_bytes content (pos n) = if leb n (length content) then some (take n content) else none
first_bytes content (negsuc n) = some []

-- "[%03d] ", the bytes, and a newline.
unfoldable pub dump_msg : Bytes → ℤ → Option Bytes
dump_msg content size = elim (first_bytes content size) [
  | none ↦ none
  | some bytes ↦ some (91 ∷ (int_text 3 size ++ (93 ∷ 32 ∷ (hex_text bytes ++ (10 ∷ [])))))
]

-- "=====%.*s\r\n" with the size of the message.
unfoldable pub dump_zmq_msg : Bytes → Bytes
dump_zmq_msg msg = codes "=====" ++ (take (length msg) (cstr msg) ++ (13 ∷ 10 ∷ []))

-- The fields of `struct tm` that are printed.
pub record Tm : Type 0 where
  pub tm_year : ℕ
  pub tm_mon : ℕ
  pub tm_mday : ℕ
  pub tm_hour : ℕ
  pub tm_min : ℕ
  pub tm_sec : ℕ

-- `%02d` of a number that is not negative.
abbrev pub two_digits : ℕ → Bytes
two_digits n = padded 2 (decimal int_digits n)

-- "%d%02d%02d %02d:%02d:%02d"
abbrev pub time_text : Tm → Bytes
time_text t =
    decimal int_digits (1900 + t.tm_year)
    ++ (two_digits (t.tm_mon + 1)
        ++ (two_digits t.tm_mday
            ++ (32
                ∷ (two_digits t.tm_hour
                    ++ (58 ∷ (two_digits t.tm_min ++ (58 ∷ two_digits t.tm_sec)))))))

-- What `snprintf` leaves in a buffer of zeros: the text, cut so that a NUL follows it.
unfoldable pub monitor_get_time : Tm → ℕ → Bytes
monitor_get_time t size = take size (take (size - 1) (time_text t) ++ replicate size 0)
