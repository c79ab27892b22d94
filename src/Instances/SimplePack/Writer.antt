-- ===== src/Instances/SimplePack/Writer.antt =====
-- The encoding of documents, each header in its 32-bit form. A float is a number of four bytes.
use zeromq_rpc_test.Prelude.{
  ℕ, zero, suc, ◌/◌, ◌%◌, ◌^◌, ◌≤◌, true, false, [], ◌∷◌, ◌++◌, Bytes, length, length-append, arith,
}
use zeromq_rpc_test.External.Doc.{
  Doc, Docs, str, float, double, uint, bool, arr, dict, end, item, count, max_size, max_size_all,
}

-- A number of so many bytes, the highest first.
abbrev pub big_endian : ℕ → ℕ → Bytes
big_endian zero x = []
big_endian (suc n) x = x / 256 ^ n % 256 ∷ big_endian n x

abbrev mutual
  pub encode_doc : Doc ℕ → Bytes
  encode_doc (str s) = 0xdb ∷ (big_endian 4 (length s) ++ s)
  encode_doc (float x) = 0xca ∷ big_endian 4 x
  encode_doc (double b) = 0xcb ∷ big_endian 8 b
  encode_doc (uint n) = 0xcf ∷ big_endian 8 n
  encode_doc (bool true) = 0xc3 ∷ []
  encode_doc (bool false) = 0xc2 ∷ []
  encode_doc (arr ds) = 0xdd ∷ (big_endian 4 (count ds) ++ encode_docs ds)
  encode_doc (dict ds) = 0xdf ∷ (big_endian 4 (count ds / 2) ++ encode_docs ds)

  pub encode_docs : Docs ℕ → Bytes
  encode_docs end = []
  encode_docs (item d ds) = encode_doc d ++ encode_docs ds

mutual
  length-encode_doc : (d : Doc ℕ) → length (encode_doc d) ≤ max_size d
  length-encode_doc (str s) = omega arith
  length-encode_doc (float x) = omega arith
  length-encode_doc (double b) = omega arith
  length-encode_doc (uint n) = omega arith
  length-encode_doc (bool true) = omega arith
  length-encode_doc (bool false) = omega arith
  length-encode_doc (arr ds) = omega (arith, length-encode_docs ds)
  length-encode_doc (dict ds) = omega (arith, length-encode_docs ds)

  pub length-encode_docs : (ds : Docs ℕ) → length (encode_docs ds) ≤ max_size_all ds
  length-encode_docs end = omega arith
  length-encode_docs (item d ds) = omega (
    arith,
    length-append (encode_doc d) (encode_docs ds),
    length-encode_doc d,
    length-encode_docs ds,
  )
