-- ===== src/Broker/Columns.antt =====
-- The columns of a printed line can be read (rpcserver/xpubxsub.cpp, zmq_event_helper.cpp).
use zeromq_rpc_test.Prelude.{
  ℕ, zero, suc, ◌-◌, ◌≤◌, ◌<◌, ◌≡◌, refl, ◌∙◌, Bool, true, false, ◌&&◌, List, [], ◌∷◌, ◌++◌, Option,
  none, some, Bytes, length, take, drop, replicate, ltb, leb, ◌==◌, bytes_eq, bytes_eq_iff,
  Bool-cases, inl, inr, append_assoc, length-append, length-replicate, take-append, arith,
  if◌then◌else◌,
}
use zeromq_rpc_test.Dump.{decimal, int_digits, int_of}
use zeromq_rpc_test.Dump.Numbers.{
  read_number, front_is_digit, read_number-append, decimal-all_digits, value_of-decimal,
  front_is_digit-decimal,
}
use zeromq_rpc_test.Broker.Event.{
  ZmqEvent, desc, bits_meet, int_bits, event_loop, connected, connect_delayed, connect_retried,
  listening, bind_failed, accepted, accept_failed, closed, close_failed, disconnected,
  monitor_stopped, handshake_failed_no_detail, handshake_succeeded, handshake_failed_protocol,
  handshake_failed_auth,
}
use zeromq_rpc_test.Broker.Monitor.{Line}
use zeromq_rpc_test.Broker.Print.{
  pad_right, pad_left, int_decimal, name_width, addresses_text, fields_text,
}

-- A text without the spaces at its end.
abbrev pub strip_end : Bytes → Bytes
strip_end [] = []
strip_end (c ∷ cs) = let rest = strip_end cs in if c == 32 && bytes_eq rest [] then [] else c ∷ rest

abbrev pub skip_spaces : Bytes → Bytes
skip_spaces [] = []
skip_spaces (c ∷ cs) = let rest = skip_spaces cs in if c == 32 then rest else c ∷ cs

-- The name, the number and the addresses.
abbrev pub read_fields : Bytes → Option (Bytes × ℕ × Bytes)
read_fields text = elim (read_number 32 0 (skip_spaces (drop name_width text))) [
  | none ↦ none
  | some (v, []) ↦ none
  | some (v, c ∷ rest) ↦ some (strip_end (take name_width text), v, rest)
]

-- A name that its column holds, and whose end can be told from the spaces behind it.
abbrev pub fits_column : Bytes → Bool
fits_column s = leb (length s) name_width && bytes_eq (strip_end s) s

desc-fits_column : (e : ZmqEvent) → fits_column (desc e) ≡ true
desc-fits_column connected = refl
desc-fits_column connect_delayed = refl
desc-fits_column connect_retried = refl
desc-fits_column listening = refl
desc-fits_column bind_failed = refl
desc-fits_column accepted = refl
desc-fits_column accept_failed = refl
desc-fits_column closed = refl
desc-fits_column close_failed = refl
desc-fits_column disconnected = refl
desc-fits_column monitor_stopped = refl
desc-fits_column handshake_failed_no_detail = refl
desc-fits_column handshake_succeeded = refl
desc-fits_column handshake_failed_protocol = refl
desc-fits_column handshake_failed_auth = refl

-- Whatever the event is, its name fits.
pub event_loop-fits_column :
    (value : ZmqEvent → ℕ) (es : List ZmqEvent) (event : ℕ)
    → fits_column (event_loop value es event) ≡ true
unfolding event_loop
event_loop-fits_column value [] event = refl
event_loop-fits_column value (e ∷ es) event =
    elim (Bool-cases (bits_meet int_bits event (value e))) [
      | inl met ↦ rw met (desc-fits_column e)
      | inr missed ↦ rw missed (event_loop-fits_column value es event)
    ]

strip_end-spaces : (k : ℕ) → strip_end (replicate k 32) ≡ []
strip_end-spaces zero = refl
strip_end-spaces (suc k) = rw (strip_end-spaces k)

strip_end-padded : (s : Bytes) (k : ℕ) → strip_end (s ++ replicate k 32) ≡ strip_end s
strip_end-padded [] k = strip_end-spaces k
strip_end-padded (c ∷ cs) k = rw (strip_end-padded cs k)

skip_spaces-padded :
    (k : ℕ) (s rest : Bytes)
    → front_is_digit s ≡ true
    → skip_spaces (replicate k 32 ++ (s ++ rest)) ≡ s ++ rest
skip_spaces-padded (suc k) s rest digit = skip_spaces-padded k s rest digit
skip_spaces-padded zero [] rest digit = absurd cc
skip_spaces-padded zero (c ∷ s) rest digit = let other : c == 32 ≡ false = ground arith in rw other

take_exact : (n : ℕ) (xs ys : Bytes) → length xs ≡ n → take n (xs ++ ys) ≡ xs
take_exact n xs ys e = rw (← e) (take-append xs ys)

drop_exact : (n : ℕ) (xs ys : Bytes) → length xs ≡ n → drop n (xs ++ ys) ≡ ys
drop_exact zero [] ys e = refl
drop_exact zero (x ∷ xs) ys e = absurd (omega (arith, e))
drop_exact (suc n) [] ys e = absurd (omega (arith, e))
drop_exact (suc n) (x ∷ xs) ys e = drop_exact n xs ys (omega (arith, e))

module _ (name : Bytes) (line : Line) where
  -- The name, the number and the addresses of a line can be read, where the number is not negative
  -- as an `int`.
  pub read_fields-fields_text :
      fits_column name ≡ true
      → line.value < 2147483648
      → read_fields (fields_text name line) ≡ some (name, line.value, addresses_text line)
  read_fields-fields_text fits small =
      let spaces = name_width - length name in
      let space : ℕ = 32 in
      let number = decimal int_digits line.value in
      let rest = 32 ∷ 32 ∷ addresses_text line in
      let column : length (pad_right name_width name) ≡ name_width = omega (
        arith,
        length-append name (replicate spaces 32),
        length-replicate spaces space,
        fits_width fits,
      ) in
      let is_pos : ltb line.value 2147483648 ≡ true = ground arith in
      let taken : take name_width (fields_text name line) ≡ pad_right name_width name =
        take_exact name_width (pad_right name_width name)
          (pad_left 5 (int_decimal (int_of line.value)) ++ rest) column in
      let stripped : strip_end (pad_right name_width name) ≡ name =
        strip_end-padded name spaces ∙ (bytes_eq_iff (strip_end name) name).0 (ground arith) in
      rw (
        is_pos,
        read_fields,
        drop_exact name_width (pad_right name_width name) (pad_left 5 number ++ rest) column,
        append_assoc (replicate (5 - length number) 32) number rest,
        skip_spaces-padded (5 - length number) number rest (front_is_digit-decimal 9 line.value),
        read_number-append 32 0 number (32 ∷ addresses_text line) refl
            (decimal-all_digits int_digits line.value),
        value_of-decimal int_digits line.value (omega (arith, small)),
        taken,
        stripped,
      )
    where
      fits_width : fits_column name ≡ true → length name ≤ name_width
      fits_width h = ground arith
