-- ===== src/Broker/Printed.antt =====
-- What the monitor prints at a time can be read (rpcserver/xpubxsub.cpp).
use mathlib.Core.Option
use zeromq_rpc_test.Prelude.{
  ℕ, ◌+◌, ◌<◌, ◌≡◌, refl, ap, ◌∙◌, Bool, true, false, ◌||◌, [], ◌∷◌, ◌++◌, Option, none, some,
  Bytes, codes, drop, ◌==◌, and_then, arith, if◌then◌else◌,
}
use zeromq_rpc_test.Dump.{Tm, decimal, int_digits, time_text}
use zeromq_rpc_test.Dump.Numbers.{front_is_digit, front_is_digit-decimal, front_is_digit-append}
use zeromq_rpc_test.Dump.Times.{IsTime, read_time, read_time-time_text, cstr-monitor_get_time}
use zeromq_rpc_test.Broker.Event.{ZmqEvent, zmq_strevent, zmq_event_table}
use zeromq_rpc_test.Broker.Monitor.{Line}
use zeromq_rpc_test.Broker.Print.{addresses_text, fields_text, in_format, line_text, event_text}
use zeromq_rpc_test.Broker.Columns.{read_fields, read_fields-fields_text, event_loop-fits_column}

abbrev pub has_code : ℕ → Bytes → Bool
has_code code [] = false
has_code code (c ∷ s) = c == code || has_code code s

-- Neither a space nor a carriage return stands in an address.
abbrev pub IsAddress : Bytes → Type 0
IsAddress s = (has_code 32 s ≡ false) × (has_code 13 s ≡ false)

abbrev pub IsRemote : Option Bytes → Type 0
IsRemote none = Unit
IsRemote (some s) = IsAddress s

-- Reads up to the character `stop`.
abbrev pub read_until : ℕ → Bytes → Option (Bytes × Bytes)
read_until stop [] = none
read_until stop (c ∷ s) =
    let rest = read_until stop s in
    if c == stop then some ([], s) else Option.map (λ r. (c ∷ r.0, r.1)) rest

-- The local address, and the remote one if the format has it.
abbrev pub read_addresses : Bool → Bytes → Option (Bytes × Option Bytes)
read_addresses false text = and_then (read_until 13 text) λ (local, _). some (local, none)
read_addresses true text =
    and_then (read_until 32 text) λ (local, text).
      and_then (read_until 13 (drop 1 text)) λ (remote, _). some (local, some remote)

-- What a line says: the time, the name of the event, its value and the addresses.
pub record Said : Type 0 where
  pub time : Tm
  pub name : Bytes
  pub value : ℕ
  pub local : Bytes
  pub remote : Option Bytes

abbrev read_columns : Bool → Tm → Bytes → Option Said
read_columns remote time text = and_then (read_fields text) λ (name, value, addresses).
    and_then (read_addresses remote addresses) λ (local, remote).
      some (record { time = time; name = name; value = value; local = local; remote = remote })

abbrev pub front_is : ℕ → Bytes → Bool
front_is c [] = false
front_is c (d ∷ s) = d == c

-- A line of either format, which is told by its first character.
abbrev pub read_line : Bytes → Option Said
read_line text =
    if front_is 60 text
    then (and_then (read_time 62 (drop 1 text))
        λ (time, text). read_columns true time (drop 2 text))
    else (and_then (read_time 58 text) λ (time, text). read_columns false time (drop 8 text))

read_until-append :
    (stop : ℕ) (s rest : Bytes)
    → has_code stop s ≡ false
    → read_until stop (s ++ (stop ∷ rest)) ≡ some (s, rest)
read_until-append stop [] rest h = let here : stop == stop ≡ true = ground arith in rw here
read_until-append stop (c ∷ s) rest h =
    let other : c == stop ≡ false = ground arith in
    rw (other, read_until-append stop s rest (ground arith))

abbrev is_some : Option Bytes → Bool
is_some none = false
is_some (some _) = true

read_addresses-addresses_text :
    (event value : ℕ) (local : Bytes) (remote : Option Bytes)
    → IsAddress local
    → IsRemote remote
    → read_addresses
        (is_some remote)
        (addresses_text (record { event = event; value = value; local = local; remote = remote }))
      ≡ some (local, remote)
read_addresses-addresses_text event value local none l r =
    rw (read_until-append 13 local (10 ∷ []) l.1)
read_addresses-addresses_text event value local (some remote) l r = rw (
  read_until-append 32 local (32 ∷ (remote ++ (13 ∷ 10 ∷ []))) l.0,
  read_until-append 13 remote (10 ∷ []) r.1,
)

digit_not_angle : (s : Bytes) → front_is_digit s ≡ true → front_is 60 s ≡ false
digit_not_angle [] h = refl
digit_not_angle (c ∷ s) h = ground arith

-- The time starts with the year.
time_text-front : (now : Tm) (rest : Bytes) → front_is 60 (time_text now ++ rest) ≡ false
time_text-front now rest = digit_not_angle (time_text now ++ rest) (
    front_is_digit-append (time_text now) rest (
      front_is_digit-append (decimal int_digits (1900 + now.tm_year)) _
        (front_is_digit-decimal 9 (1900 + now.tm_year))))

read_line-in_format :
    (remote : Option Bytes) (now : Tm) (fields : Bytes)
    → IsTime now
    → read_line (in_format remote (time_text now) fields) ≡ read_columns (is_some remote) now fields
read_line-in_format none now fields ok = rw (
  time_text-front now (codes ": EVENT: " ++ fields),
  read_time-time_text now ok 58 (codes " EVENT: " ++ fields) refl,
)
read_line-in_format (some remote) now fields ok =
    rw (read_time-time_text now ok 62 (codes "  " ++ fields) refl)

-- From what the monitor prints of an event, the whole time, the name of the event, its value, and
-- the one or two addresses can be read back, in either format: at any time whose fields are in
-- their ranges, where the value is not negative as an `int`, and the addresses hold neither a space
-- nor a carriage return.
pub read_line-event_text :
    (value : ZmqEvent → ℕ) (now : Tm) (line : Line)
    → IsTime now
    → line.value < 2147483648
    → IsAddress line.local
    → IsRemote line.remote
    → read_line (event_text value now line)
      ≡ some (record {
        time = now;
        name = zmq_strevent value line.event;
        value = line.value;
        local = line.local;
        remote = line.remote;
      })
unfolding event_text line_text zmq_strevent
read_line-event_text value now line ok small local remote =
    let name = zmq_strevent value line.event in
    let fields = fields_text name line in
    let named = event_loop-fits_column value zmq_event_table line.event in
    let columns : read_columns (is_some line.remote) now fields
        ≡ some (record {
          time = now;
          name = name;
          value = line.value;
          local = line.local;
          remote = line.remote;
        }) =
      rw (
        read_fields-fields_text name line named small,
        read_addresses-addresses_text line.event line.value line.local line.remote local remote,
      ) in
    ap (λ time. read_line (in_format line.remote time fields)) (cstr-monitor_get_time now ok)
    ∙ read_line-in_format line.remote now fields ok
    ∙ columns
