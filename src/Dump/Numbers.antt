-- ===== src/Dump/Numbers.antt =====
-- Decimal numbers as they are printed, and how they are read back.
use zeromq_rpc_test.Prelude.{
  ℕ, zero, suc, ◌+◌, ◌-◌, ◌*◌, ◌/◌, ◌%◌, ◌<◌, ◌≡◌, refl, Bool, true, false, ◌&&◌, [], ◌∷◌, ◌++◌,
  Option, none, some, Bytes, replicate, ltb, leb, ◌==◌, Bool-cases, inl, inr, arith,
}
use zeromq_rpc_test.Dump.{decimal}

-- The number that decimal digits stand for, behind an accumulator.
abbrev pub value_of : ℕ → Bytes → ℕ
value_of acc [] = acc
value_of acc (c ∷ cs) = value_of (acc * 10 + (c - 48)) cs

-- Reads a number up to the character `stop`.
abbrev pub read_number : ℕ → ℕ → Bytes → Option (ℕ × Bytes)
read_number stop acc [] = none
read_number stop acc (c ∷ cs) = elim (c == stop) [
  | true ↦ some (acc, cs)
  | false ↦ read_number stop (acc * 10 + (c - 48)) cs
]

abbrev pub is_digit : ℕ → Bool
is_digit c = ltb c 58 && leb 48 c

abbrev pub all_digits : Bytes → Bool
all_digits [] = true
all_digits (c ∷ cs) = is_digit c && all_digits cs

abbrev pub pow10 : ℕ → ℕ
pow10 zero = 1
pow10 (suc n) = 10 * pow10 n

pub value_of-append :
    (acc : ℕ) (xs ys : Bytes) → value_of acc (xs ++ ys) ≡ value_of (value_of acc xs) ys
value_of-append acc [] ys = refl
value_of-append acc (x ∷ xs) ys = value_of-append (acc * 10 + (x - 48)) xs ys

pub all_digits-append : (xs ys : Bytes) → all_digits (xs ++ ys) ≡ (all_digits xs && all_digits ys)
all_digits-append [] ys = refl
all_digits-append (x ∷ xs) ys = ground (arith, all_digits-append xs ys)

pub read_number-append :
    (stop acc : ℕ) (ds rest : Bytes)
    → is_digit stop ≡ false
    → all_digits ds ≡ true
    → read_number stop acc (ds ++ (stop ∷ rest)) ≡ some (value_of acc ds, rest)
read_number-append stop acc [] rest outside ok =
    let here : stop == stop ≡ true = ground arith in rw (read_number, here)
read_number-append stop acc (d ∷ ds) rest outside ok =
    let other : d == stop ≡ false = ground arith in
    rw (read_number, other)
      (read_number-append stop (acc * 10 + (d - 48)) ds rest outside (ground arith))

pub decimal-all_digits : (digits n : ℕ) → all_digits (decimal digits n) ≡ true
unfolding decimal
decimal-all_digits zero n = refl
decimal-all_digits (suc digits) n = elim (Bool-cases (ltb n 10)) [
  | inl small ↦ rw small (ground arith)
  | inr big ↦
      rw
        (
          big,
          all_digits-append (decimal digits (n / 10)) ((48 + n % 10) ∷ []),
          decimal-all_digits digits (n / 10),
        )
        (ground arith)
]

pub value_of-decimal : (digits n : ℕ) → n < pow10 digits → value_of 0 (decimal digits n) ≡ n
unfolding decimal
value_of-decimal zero n lt = omega (arith, lt)
value_of-decimal (suc digits) n lt = elim (Bool-cases (ltb n 10)) [
  | inl small ↦ rw small (omega arith)
  | inr big ↦
      rw
        (
          big,
          value_of-append 0 (decimal digits (n / 10)) ((48 + n % 10) ∷ []),
          value_of-decimal digits (n / 10) (omega (arith, lt)),
        )
        (omega arith)
]

pub value_of-zeros : (k : ℕ) (ds : Bytes) → value_of 0 (replicate k 48 ++ ds) ≡ value_of 0 ds
value_of-zeros zero ds = refl
value_of-zeros (suc k) ds = value_of-zeros k ds

pub zeros-all_digits : (k : ℕ) → all_digits (replicate k 48) ≡ true
zeros-all_digits zero = refl
zeros-all_digits (suc k) = zeros-all_digits k

abbrev pub front_is_digit : Bytes → Bool
front_is_digit [] = false
front_is_digit (c ∷ cs) = is_digit c

pub front_is_digit-append :
    (xs ys : Bytes) → front_is_digit xs ≡ true → front_is_digit (xs ++ ys) ≡ true
front_is_digit-append [] ys h = absurd cc
front_is_digit-append (x ∷ xs) ys h = h

-- A number has a digit.
pub front_is_digit-decimal : (digits n : ℕ) → front_is_digit (decimal (suc digits) n) ≡ true
unfolding decimal
front_is_digit-decimal zero n = elim (Bool-cases (ltb n 10)) [
  | inl small ↦ rw small (ground arith)
  | inr big ↦ rw big (ground arith)
]
front_is_digit-decimal (suc digits) n = elim (Bool-cases (ltb n 10)) [
  | inl small ↦ rw small (ground arith)
  | inr big ↦ rw big (
      front_is_digit-append (decimal (suc digits) (n / 10)) ((48 + n % 10) ∷ [])
        (front_is_digit-decimal digits (n / 10)))
]
