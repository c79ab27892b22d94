-- ===== src/Instances/SimpleReading.antt =====
-- The small MessagePack reads what it writes.
use mathlib.Core.Path.{subst}
use zeromq_rpc_test.Prelude.{
  ℕ, zero, suc, ◌+◌, ◌*◌, ◌/◌, ◌%◌, ◌^◌, ◌<◌, ◌≤◌, ◌≡◌, refl, sym, ap, ◌∙◌, Bool, true, false, ◌||◌,
  Bool-cases, inl, inr, [], ◌++◌, append-nil, some, Bytes, bytes_eq, bytes_eq_iff, length, take,
  take-append, drop-append, append_assoc, arith,
}
use zeromq_rpc_test.External.Doc.{
  Doc, Docs, str, float, double, uint, bool, arr, dict, end, item, count,
}
use zeromq_rpc_test.External.Mpack.Reading.{
  depth, depth_all, has_key, AreEntries, IsReadable, AreReadable, Shows, Listed, Keyed, max_depth,
  CanRead,
}
use zeromq_rpc_test.Instances.SimplePack as Pack
use zeromq_rpc_test.Instances.SimplePack.{
  Value, Values, text, single, positive, truth, list, table, no_more, more, big_endian, from_bytes,
  values_count, find_in, find_of, child_of, value_at, encode_doc, encode_docs, read_value,
  read_many, simple_pack,
}

-- The floats of four bytes.
abbrev pub IsFloat : ℕ → Type 0
IsFloat x = x < 2 ^ 32

from_big_endian4 :
    (x : ℕ) (r : Bytes) → x < 2 ^ 32 → from_bytes (take 4 (big_endian 4 x ++ r)) 0 ≡ x
from_big_endian4 x r h = omega arith

from_big_endian8 :
    (x : ℕ) (r : Bytes) → x < 2 ^ 64 → from_bytes (take 8 (big_endian 8 x ++ r)) 0 ≡ x
from_big_endian8 x r h = omega arith

twice_half : (n : ℕ) → n % 2 ≡ 0 → 2 * (n / 2) ≡ n
twice_half n h = omega arith

even-count : (ds : Docs ℕ) → AreEntries ds → count ds % 2 ≡ 0
even-count end ok = refl
even-count (item (str k) (item d ds)) ok = omega (arith, even-count ds ok.1)
even-count (item (str k) end) ok = absurd ok
even-count (item (float x) ds) ok = absurd ok
even-count (item (double b) ds) ok = absurd ok
even-count (item (uint n) ds) ok = absurd ok
even-count (item (bool b) ds) ok = absurd ok
even-count (item (arr cs) ds) ok = absurd ok
even-count (item (dict cs) ds) ok = absurd ok

abbrev mutual
  value_of : Doc ℕ → Value
  value_of (str s) = text s
  value_of (float x) = single x
  value_of (double b) = Pack.double b
  value_of (uint n) = positive n
  value_of (bool b) = truth b
  value_of (arr ds) = list (values_of ds)
  value_of (dict ds) = table (values_of ds)

  values_of : Docs ℕ → Values
  values_of end = no_more
  values_of (item d ds) = more (value_of d) (values_of ds)

mutual
  unfolding read_value

  read-encode :
      (fuel : ℕ) (d : Doc ℕ) (r : Bytes)
      → depth d ≤ fuel
      → IsReadable IsFloat d
      → read_value fuel (encode_doc d ++ r) ≡ some (value_of d, r)
  read-encode zero (str s) r h ok = absurd (omega arith)
  read-encode zero (float x) r h ok = absurd (omega arith)
  read-encode zero (double b) r h ok = absurd (omega arith)
  read-encode zero (uint n) r h ok = absurd (omega arith)
  read-encode zero (bool b) r h ok = absurd (omega arith)
  read-encode zero (arr ds) r h ok = absurd (omega arith)
  read-encode zero (dict ds) r h ok = absurd (omega arith)
  read-encode (suc fuel) (str s) r h ok =
      rw (from_big_endian4 (length s) (s ++ r) ok, take-append s r, drop-append s r)
  read-encode (suc fuel) (float x) r h ok = rw (from_big_endian4 x r ok)
  read-encode (suc fuel) (double b) r h ok = rw (from_big_endian8 b r ok)
  read-encode (suc fuel) (uint n) r h ok = rw (from_big_endian8 n r ok)
  read-encode (suc fuel) (bool true) r h ok = refl
  read-encode (suc fuel) (bool false) r h ok = refl
  read-encode (suc fuel) (arr ds) r h ok = rw (
    from_big_endian4 (count ds) (encode_docs ds ++ r) ok.0,
    read_many-encode fuel ds r (omega (arith, h)) ok.1,
  )
  read-encode (suc fuel) (dict ds) r h ok = rw (
    from_big_endian4 (count ds / 2) (encode_docs ds ++ r) (omega (arith, ok.0)),
    twice_half (count ds) (even-count ds ok.1),
    read_many-encode fuel ds r (omega (arith, h)) ok.2,
  )

  read_many-encode :
      (fuel : ℕ) (ds : Docs ℕ) (r : Bytes)
      → depth_all ds ≤ fuel
      → AreReadable IsFloat ds
      → read_many (read_value fuel) (count ds) (encode_docs ds ++ r) ≡ some (values_of ds, r)
  read_many-encode fuel end r h ok = refl
  read_many-encode fuel (item d ds) r h ok = rw (
    append_assoc (encode_doc d) (encode_docs ds) r,
    read-encode fuel d (encode_docs ds ++ r) (omega arith) ok.0,
    read_many-encode fuel ds r (omega arith) ok.1,
  )

values_count-values_of : (ds : Docs ℕ) → values_count (values_of ds) ≡ count ds
values_count-values_of end = refl
values_count-values_of (item d ds) = ap suc (values_count-values_of ds)

-- Each part of a written document is where it should be in the value that is read.
abbrev pub Holds : Value → Doc ℕ → Type 0
Holds = Shows simple_pack (λ b. b)

bytes_eq_refl : (k : Bytes) → bytes_eq k k ≡ true
bytes_eq_refl k = (bytes_eq_iff k k).1 refl

or_true : (b : Bool) → b || true ≡ true
or_true b = ground arith

-- A key that is there differs from one that is not.
differs :
    (ds : Docs ℕ) (k key : Bytes)
    → has_key ds k ≡ false
    → has_key ds key ≡ true
    → bytes_eq k key ≡ false
differs ds k key away there = elim (Bool-cases (bytes_eq k key)) [
  | inl same ↦ absurd (
      let e : true ≡ false =
        sym there ∙ ap (has_key ds) (sym ((bytes_eq_iff k key).0 same)) ∙ away in
      cc)
  | inr other ↦ other
]

-- What a look-up finds behind a key that differs.
find_later :
    (k key : Bytes) (v : Value) (vs : Values)
    → bytes_eq k key ≡ false
    → find_in (more (text k) (more v vs)) key ≡ find_in vs key
find_later k key v vs h = rw h

mutual
  unfolding Shows

  value_of-Holds : (d : Doc ℕ) → IsReadable IsFloat d → Holds (value_of d) d
  value_of-Holds (str s) ok = (refl, refl, refl)
  value_of-Holds (float x) ok = (refl, refl)
  value_of-Holds (double b) ok = (refl, refl)
  value_of-Holds (uint n) ok = (refl, refl)
  value_of-Holds (bool b) ok = (refl, refl)
  value_of-Holds (arr ds) ok = (
    refl,
    values_count-values_of ds,
    values_of-Listed (list (values_of ds)) 0 ds
        (λ j k e. ap (value_at (values_of ds)) (omega (arith, e))) ok.1,
  )
  value_of-Holds (dict ds) ok = (
    refl,
    ap (λ (n : ℕ). n / 2) (values_count-values_of ds),
    values_of-Keyed (table (values_of ds)) ds (λ key h. refl) ok.1 ok.2,
  )

  values_of-Listed :
      (v : Value) (i : ℕ) (ds : Docs ℕ)
      → ((j k : ℕ) → k ≡ j + i → child_of v k ≡ value_at (values_of ds) j)
      → AreReadable IsFloat ds
      → Listed simple_pack (λ b. b) v i ds
  values_of-Listed v i end agree ok = tt
  values_of-Listed v i (item d ds) agree ok = (
    subst (λ u. Holds u d) (sym (agree 0 i (omega arith))) (value_of-Holds d ok.0),
    values_of-Listed v (i + 1) ds (λ j k e. agree (suc j) k (omega (arith, e))) ok.1,
  )

  -- The look-ups of the keys of the rest are those of the whole.
  values_of-Keyed :
      (v : Value) (ds : Docs ℕ)
      → ((key : Bytes) → has_key ds key ≡ true → find_of v key ≡ find_in (values_of ds) key)
      → AreEntries ds
      → AreReadable IsFloat ds
      → Keyed simple_pack (λ b. b) v ds
  values_of-Keyed v end agree distinct ok = tt
  values_of-Keyed v (item (str k) (item d ds)) agree distinct ok = (
    (value_of d, agree k (rw (bytes_eq_refl k)) ∙ rw (bytes_eq_refl k), value_of-Holds d ok.1.0),
    values_of-Keyed v ds
        (λ key there.
          agree key (rw (there, or_true))
          ∙ find_later k key (value_of d) (values_of ds) (differs ds k key distinct.0 there))
        distinct.1 ok.1.1,
  )
  values_of-Keyed v (item (str k) end) agree ok _ = absurd ok
  values_of-Keyed v (item (float x) ds) agree ok _ = absurd ok
  values_of-Keyed v (item (double b) ds) agree ok _ = absurd ok
  values_of-Keyed v (item (uint n) ds) agree ok _ = absurd ok
  values_of-Keyed v (item (bool b) ds) agree ok _ = absurd ok
  values_of-Keyed v (item (arr cs) ds) agree ok _ = absurd ok
  values_of-Keyed v (item (dict cs) ds) agree ok _ = absurd ok

pub simple_read :
    (d : Doc ℕ) (pool : ℕ)
    → IsReadable IsFloat d
    → depth d ≤ max_depth
    → (simple_pack.failed (simple_pack.tree_parse (simple_pack.encode (item d end)) pool) ≡ false)
      × Holds (simple_pack.root (simple_pack.tree_parse (simple_pack.encode (item d end)) pool)) d
simple_read d pool ok shallow =
    let e : read_value max_depth (encode_doc d ++ []) ≡ some (value_of d, []) =
      read-encode max_depth d [] shallow ok in
    rw e (refl, value_of-Holds d ok)

-- A document at the front of what is left is read next.
pub simple_next :
    (d : Doc ℕ) (t : simple_pack.Tree) (rest : Bytes)
    → IsReadable IsFloat d
    → depth d ≤ max_depth
    → simple_pack.failed t ≡ false
    → simple_pack.remaining t ≡ simple_pack.encode (item d end) ++ rest
    → (simple_pack.failed (simple_pack.tree_next t) ≡ false)
      × (simple_pack.remaining (simple_pack.tree_next t) ≡ rest)
      × Holds (simple_pack.root (simple_pack.tree_next t)) d
simple_next d t rest ok shallow sound e =
    let read : read_value max_depth t.left ≡ some (value_of d, rest) =
      rw (e, append-nil) (read-encode max_depth d rest shallow ok) in
    rw (sound, read) (refl, refl, value_of-Holds d ok)

abbrev pub simple_reading : CanRead simple_pack
simple_reading = record {
  IsFloat = IsFloat;
  narrow = λ b. b;
  parse_written = λ d pool ok fits shallow. simple_read d pool ok shallow;
  encode_item = λ d ds. ap (λ (l : Bytes). l ++ encode_docs ds) (sym (append-nil (encode_doc d)));
  next_written =
      λ d s pool t rest ok fits shallow over sound e. simple_next d t rest ok shallow sound e;
}
