-- ===== src/Instances/SimplePack/Reader.antt =====
-- The reader of encoded values, and what it reads.
use zeromq_rpc_test.Prelude.{
  ℕ, zero, suc, ◌+◌, ◌*◌, ◌/◌, Bool, true, false, ◌&&◌, [], ◌∷◌, Option, none, some, Bytes,
  bytes_eq, length, take, drop, ◌==◌, and_then, if◌then◌else◌,
}
use zeromq_rpc_test.External.MpackType.{
  MpackType, is_type, nil_type, bool_type, uint_type, float_type, double_type, str_type, array_type,
  map_type,
}

abbrev pub from_bytes : Bytes → ℕ → ℕ
from_bytes [] acc = acc
from_bytes (b ∷ bs) acc = from_bytes bs (acc * 256 + b)

-- What was read.
mutual
  pub data Value : Type 0 where
    nothing : Value
    positive : ℕ → Value
    single double : ℕ → Value
    truth : Bool → Value
    text : Bytes → Value
    list : Values → Value
    table : Values → Value  -- keys and values in turn

  pub data Values : Type 0 where
    no_more : Values
    more : Value → Values → Values

abbrev pub value_at : Values → ℕ → Value
value_at no_more i = nothing
value_at (more v vs) zero = v
value_at (more v vs) (suc i) = value_at vs i

abbrev pub values_count : Values → ℕ
values_count no_more = 0
values_count (more v vs) = suc (values_count vs)

abbrev pub tag_of : Value → MpackType
tag_of nothing = nil_type
tag_of (positive n) = uint_type
tag_of (single x) = float_type
tag_of (truth b) = bool_type
tag_of (double x) = double_type
tag_of (text s) = str_type
tag_of (list vs) = array_type
tag_of (table vs) = map_type

abbrev pub len_of : Value → ℕ
len_of (text s) = length s
len_of (list vs) = values_count vs
len_of (table vs) = values_count vs / 2
len_of _ = 0

abbrev pub child_of : Value → ℕ → Value
child_of (list vs) i = value_at vs i
child_of _ i = nothing

abbrev pub content_of : Value → Bytes
content_of (text s) = s
content_of _ = []

abbrev pub number_of : Value → ℕ
number_of (positive n) = n
number_of (single x) = x
number_of (double x) = x
number_of _ = 0

abbrev pub truth_of : Value → Bool
truth_of (truth b) = b
truth_of _ = false

-- The value of the first such key.
abbrev pub find_in : Values → Bytes → Option Value
find_in (more k (more v vs)) key =
    let rest = find_in vs key in
    if is_type (tag_of k) str_type && bytes_eq (content_of k) key then some v else rest
find_in _ key = none

abbrev pub find_of : Value → Bytes → Option Value
find_of (table vs) key = find_in vs key
find_of _ key = none

abbrev pub Reader : Type 0
Reader = Bytes → Option (Value × Bytes)

abbrev pub read_many : Reader → ℕ → Bytes → Option (Values × Bytes)
read_many read zero s = some (no_more, s)
read_many read (suc n) s =
    and_then (read s) λ (v, r). and_then (read_many read n r) λ (vs, q). some (more v vs, q)

-- One value, nested at most as deep as the fuel.
unfoldable pub read_value : ℕ → Reader
read_value zero s = none
read_value (suc fuel) [] = none
read_value (suc fuel) (b ∷ s) =
    let size = from_bytes (take 4 s) 0 in
    let rest = drop 4 s in
    let many = read_many (read_value fuel) in
    if b == 0xdb
    then some (text (take size rest), drop size rest)
    else if b == 0xcb
    then some (double (from_bytes (take 8 s) 0), drop 8 s)
    else if b == 0xca
    then some (single size, rest)
    else if b == 0xcf
    then some (positive (from_bytes (take 8 s) 0), drop 8 s)
    else if b == 0xc2
    then some (truth false, s)
    else if b == 0xc3
    then some (truth true, s)
    else if b == 0xdd
    then and_then (many size rest) (λ p. some (list p.0, p.1))
    else if b == 0xdf
    then and_then (many (2 * size) rest) (λ p. some (table p.0, p.1))
    else some (positive b, s)
