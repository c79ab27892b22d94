-- ===== src/External/Doc.antt =====
-- MessagePack documents, and what a sequence of writer calls writes. A writer is used by its
-- calls alone, so a message is the list of its calls; `written` puts the documents together from
-- them as the documentation of the builder functions says, and fails where a container is closed
-- that is not open, is of the other kind, stays open, or is a map without a last value.
use zeromq_rpc_test.Prelude.{
  ℕ, suc, ◌+◌, ◌%◌, Bool, Option, none, some, List, [], ◌∷◌, Bytes, length, ◌==◌, if◌then◌else◌,
}

mutual
  pub data Doc (F : Type 0) : Type 0 where
    str : Bytes → Doc F
    float : F → Doc F
    double : ℕ → Doc F  -- by its 64 bits
    uint : ℕ → Doc F
    bool : Bool → Doc F
    arr : Docs F → Doc F
    dict : Docs F → Doc F  -- keys and values in turn

  pub data Docs (F : Type 0) : Type 0 where
    end : Docs F
    item : Doc F → Docs F → Docs F

pub data Call (F : Type 0) : Type 0 where
  build_array complete_array build_map complete_map : Call F
  write_cstr : Bytes → Call F
  write_float : F → Call F
  write_double write_uint : ℕ → Call F
  write_bool : Bool → Call F

module _ {F : Type 0} where
  abbrev pub snoc : Docs F → Doc F → Docs F
  snoc end d = item d end
  snoc (item c cs) d = item c (snoc cs d)

  abbrev pub count : Docs F → ℕ
  count end = 0
  count (item c cs) = suc (count cs)

-- The open containers, the innermost first, each with what it holds, above the finished documents.
pub data Open (F : Type 0) : Type 0 where
  top : Docs F → Open F
  in_array : Docs F → Open F → Open F
  in_map : Docs F → Open F → Open F

module _ {F : Type 0} where
  abbrev pub add_item : Doc F → Open F → Open F
  add_item d (top ds) = top (snoc ds d)
  add_item d (in_array ds o) = in_array (snoc ds d) o
  add_item d (in_map ds o) = in_map (snoc ds d) o

  abbrev pub close_array : Open F → Option (Open F)
  close_array (in_array ds o) = some (add_item (arr ds) o)
  close_array _ = none

  abbrev pub close_map : Open F → Option (Open F)
  close_map (in_map ds o) = if count ds % 2 == 0 then some (add_item (dict ds) o) else none
  close_map _ = none

  abbrev pub call_step : Call F → Open F → Option (Open F)
  call_step build_array o = some (in_array end o)
  call_step complete_array o = close_array o
  call_step build_map o = some (in_map end o)
  call_step complete_map o = close_map o
  call_step (write_cstr s) o = some (add_item (str s) o)
  call_step (write_float x) o = some (add_item (float x) o)
  call_step (write_double b) o = some (add_item (double b) o)
  call_step (write_uint n) o = some (add_item (uint n) o)
  call_step (write_bool b) o = some (add_item (bool b) o)

  abbrev pub run_calls : List (Call F) → Open F → Option (Open F)
  run_calls [] o = some o
  run_calls (c ∷ cs) o = elim (call_step c o) [ none ↦ none | some o' ↦ run_calls cs o' ]

  abbrev pub finished : Open F → Option (Docs F)
  finished (top ds) = some ds
  finished _ = none

  -- The documents that the calls write, from nothing.
  abbrev pub written : List (Call F) → Option (Docs F)
  written cs = elim (run_calls cs (top end)) [ none ↦ none | some o ↦ finished o ]

  -- What the MessagePack format says at most of the size of an encoding: five bytes of header for
  -- a string, an array or a map, four bytes of a float behind one, eight of a number.
  abbrev mutual
    pub max_size : Doc F → ℕ
    max_size (str s) = 5 + length s
    max_size (float x) = 5
    max_size (double b) = 9
    max_size (uint n) = 9
    max_size (bool b) = 1
    max_size (arr ds) = 5 + max_size_all ds
    max_size (dict ds) = 5 + max_size_all ds

    pub max_size_all : Docs F → ℕ
    max_size_all end = 0
    max_size_all (item c cs) = max_size c + max_size_all cs
