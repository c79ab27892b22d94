-- ===== src/External/MpackType.antt =====
-- The tags of MessagePack values, `mpack_type_t`, in the order of the enumeration.
use zeromq_rpc_test.Prelude.{
  ℕ, ◌≡◌, ◌↔◌, refl, sym, ap, ◌∙◌, Bool, true, ◌==◌, ==_iff, if◌then◌else◌,
}

pub data MpackType : Type 0 where
  missing_type nil_type bool_type int_type uint_type float_type : MpackType
  double_type str_type bin_type array_type map_type ext_type : MpackType

abbrev pub type_code : MpackType → ℕ
type_code missing_type = 0
type_code nil_type = 1
type_code bool_type = 2
type_code int_type = 3
type_code uint_type = 4
type_code float_type = 5
type_code double_type = 6
type_code str_type = 7
type_code bin_type = 8
type_code array_type = 9
type_code map_type = 10
type_code ext_type = 11

type_of_code : ℕ → MpackType
type_of_code c =
    if c == 0
    then missing_type
    else if c == 1
    then nil_type
    else if c == 2
    then bool_type
    else if c == 3
    then int_type
    else if c == 4
    then uint_type
    else if c == 5
    then float_type
    else if c == 6
    then double_type
    else if c == 7
    then str_type
    else if c == 8
    then bin_type
    else if c == 9
    then array_type
    else if c == 10
    then map_type
    else ext_type

type_of_code-type_code : (t : MpackType) → type_of_code (type_code t) ≡ t
unfolding type_of_code
type_of_code-type_code missing_type = refl
type_of_code-type_code _ = refl

-- `a == b` on tags.
abbrev pub is_type : MpackType → MpackType → Bool
is_type a b = type_code a == type_code b

pub is_type_iff : (a b : MpackType) → (is_type a b ≡ true) ↔ (a ≡ b)
is_type_iff a b = (
  λ h.
      sym (type_of_code-type_code a)
      ∙ (ap type_of_code ((==_iff (type_code a) (type_code b)).0 h) ∙ type_of_code-type_code b),
  λ e. (==_iff (type_code a) (type_code b)).1 (ap type_code e),
)
