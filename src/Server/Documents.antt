-- ===== src/Server/Documents.antt =====
-- Parameters as documents, and what `add` reads of the node that shows them
-- (rpc_application_add.cpp, rpcserver/rpc_request_add.cpp).
use mathlib.Core.Path.{subst}
use zeromq_rpc_test.Prelude.{
  ℕ, ◌+◌, ◌≡◌, ◌⊎◌, inl, inr, refl, sym, ap, ◌∙◌, Bool, true, false, List, [], ◌∷◌, Option, none,
  some, arith,
}
use zeromq_rpc_test.External.MpackType.{
  MpackType, is_type, str_type, float_type, double_type, uint_type, bool_type, array_type, map_type,
}
use zeromq_rpc_test.External.Doc.{
  Doc, Docs, str, float, double, uint, bool, arr, dict, end, item, count,
}
use zeromq_rpc_test.External.Mpack.{Mpack}
use zeromq_rpc_test.External.Mpack.Reading.{Shows, Listed}
use zeromq_rpc_test.Server.Params.{types_match, child_tags}
use zeromq_rpc_test.Server.Add.{param_types}
use zeromq_rpc_test.Server.AddReply.{are_params, sum_of}

abbrev both : Option ℕ → Option ℕ → Option (ℕ × ℕ)
both (some a) (some b) = some (a, b)
both _ _ = none

module _ {F : Type 0} where
  abbrev doc_type : Doc F → MpackType
  doc_type (str s) = str_type
  doc_type (float x) = float_type
  doc_type (double b) = double_type
  doc_type (uint n) = uint_type
  doc_type (bool b) = bool_type
  doc_type (arr ds) = array_type
  doc_type (dict ds) = map_type

  abbrev doc_types : Docs F → List MpackType
  doc_types end = []
  doc_types (item d ds) = doc_type d ∷ doc_types ds

  abbrev as_double : Doc F → Option ℕ
  as_double (double b) = some b
  as_double _ = none

  -- An array of exactly two doubles, as their bits.
  abbrev pub as_params : Doc F → Option (ℕ × ℕ)
  as_params (arr (item d (item e end))) = both (as_double d) (as_double e)
  as_params _ = none

  abbrev pub is_array : Doc F → Bool
  is_array (arr ds) = true
  is_array _ = false

  double-cases :
      (d : Doc F)
      → ((b : ℕ) × (d ≡ double b))
        ⊎ ((as_double d ≡ none) × (is_type (doc_type d) double_type ≡ false))
  double-cases (double b) = inl (b, refl)
  double-cases _ = inr (refl, refl)

  -- Two doubles, by what the server compares.
  abbrev are_doubles : Docs F → Bool
  are_doubles ds = types_match (doc_types ds) param_types

  are_doubles-cases :
      (ds : Docs F)
      → ((a : ℕ) × (b : ℕ) × (ds ≡ item (double a) (item (double b) end)))
        ⊎ ((as_params (arr ds) ≡ none) × (are_doubles ds ≡ false))
  are_doubles-cases end = inr (refl, refl)
  are_doubles-cases (item d end) = inr (refl, ground arith)
  are_doubles-cases (item d (item e (item c ds))) = inr (refl, ground arith)
  are_doubles-cases (item d (item e end)) = elim (double-cases d) [
    | inr (other, tag) ↦ inr (rw other, rw tag)
    | inl (a, is_a) ↦ elim (double-cases e) [
      | inr (other, tag) ↦ inr (rw (is_a, other), rw (is_a, tag))
      | inl (b, is_b) ↦ inl (a, b, rw (is_a, is_b))
    ]
  ]

  is_array_lem : (d : Doc F) → is_type (doc_type d) array_type ≡ is_array d
  is_array_lem (arr ds) = refl
  is_array_lem _ = refl

module _ {F : Type 0} (M : Mpack F) (narrow : ℕ → F) where
  Shows-tag : (n : M.Node) (d : Doc F) → Shows M narrow n d → M.node_tag n ≡ doc_type d
  unfolding Shows
  Shows-tag n (str s) h = h.0
  Shows-tag n (float x) h = h.0
  Shows-tag n (double b) h = h.0
  Shows-tag n (uint k) h = h.0
  Shows-tag n (bool b) h = h.0
  Shows-tag n (arr ds) h = h.0
  Shows-tag n (dict ds) h = h.0

  child_tags-doc_types :
      (n : M.Node) (i : ℕ) (ds : Docs F)
      → Listed M narrow n i ds
      → child_tags M n (count ds) i ≡ doc_types ds
  unfolding Shows
  child_tags-doc_types n i end h = refl
  child_tags-doc_types n i (item d ds) h =
      rw (Shows-tag (M.child n i) d h.0, child_tags-doc_types n (i + 1) ds h.1)

  listed-are_params :
      (n : M.Node) (ds : Docs F) → Shows M narrow n (arr ds) → are_params M n ≡ are_doubles ds
  unfolding Shows
  listed-are_params n ds h = rw (h.0, h.1, child_tags-doc_types n 0 ds h.2)

  module _ (float_add : F → F → F) where
    -- What `add` reads of a node that shows its parameters.
    abbrev pub IsRead : M.Node → Doc F → Type 0
    IsRead n p =
        ((a : ℕ) × (b : ℕ) × (as_params p ≡ some (a, b))
          × (are_params M n ≡ true)
          × (sum_of M float_add n ≡ float_add (narrow a) (narrow b)))
        ⊎ ((as_params p ≡ none)
            × (are_params M n ≡ false)
            × (is_type (M.node_tag n) array_type ≡ is_array p))

    sum_of-doubles :
        (n : M.Node) (a b : ℕ)
        → Shows M narrow n (arr (item (double a) (item (double b) end)))
        → sum_of M float_add n ≡ float_add (narrow a) (narrow b)
    unfolding Shows
    sum_of-doubles n a b h = rw (h.2.0.1, h.2.1.0.1)

    array-IsRead : (n : M.Node) (ds : Docs F) → Shows M narrow n (arr ds) → IsRead n (arr ds)
    unfolding Shows
    array-IsRead n ds h = elim (are_doubles-cases ds) [
      | inr (none_there, different) ↦ inr (none_there, listed-are_params n ds h ∙ different, rw h.0)
      | inl (a, b, e) ↦ inl (
        a,
        b,
        rw e,
        listed-are_params n ds h ∙ rw e (ground arith),
        sum_of-doubles n a b (subst (λ ds'. Shows M narrow n (arr ds')) e h),
      )
    ]

    other-IsRead :
        (n : M.Node) (p : Doc F)
        → as_params p ≡ none
        → is_array p ≡ false
        → Shows M narrow n p
        → IsRead n p
    other-IsRead n p none_there other h =
        let tag : is_type (M.node_tag n) array_type ≡ false =
          ap (λ (t : MpackType). is_type t array_type) (Shows-tag n p h) ∙ is_array_lem p ∙ other in
        inr (none_there, rw tag, tag ∙ sym other)

    -- A node that shows a document is read as what it is: two doubles, another array, or none.
    pub Shows-IsRead : (n : M.Node) (p : Doc F) → Shows M narrow n p → IsRead n p
    Shows-IsRead n (arr ds) h = array-IsRead n ds h
    Shows-IsRead n (str s) h = other-IsRead n (str s) refl refl h
    Shows-IsRead n (float x) h = other-IsRead n (float x) refl refl h
    Shows-IsRead n (double b) h = other-IsRead n (double b) refl refl h
    Shows-IsRead n (uint k) h = other-IsRead n (uint k) refl refl h
    Shows-IsRead n (bool b) h = other-IsRead n (bool b) refl refl h
    Shows-IsRead n (dict ds) h = other-IsRead n (dict ds) refl refl h
