-- ===== src/Samples/Build.antt =====
-- rpcserver/mpack_test.cpp: the builders of two sample messages. The float constants are the
-- machine's, so they are parameters.
use zeromq_rpc_test.Prelude.{ℕ, ◌≤◌, ◌≡◌, refl, true, List, [], ◌∷◌, Bytes, codes, arith, length}
use zeromq_rpc_test.External.Doc.{
  Call, build_array, complete_array, build_map, complete_map, write_cstr, write_float, write_uint,
  write_bool, Docs, end, item, str, float, uint, bool, arr, dict,
}
use zeromq_rpc_test.External.Mpack.{Mpack, IsMpack}
use zeromq_rpc_test.External.Mpack.Laws.{buffer_used_fits}

-- The calls of the writer in `build_msg_data_new`, with 10.05 and 1.05.
unfoldable pub sample_calls : {F : Type 0} → F → F → List (Call F)
sample_calls vref vref2 =
    build_map
    ∷ write_cstr (codes "function")
    ∷ write_cstr (codes "build_msg_data_new")
    ∷ write_cstr (codes "compact")
    ∷ write_bool true
    ∷ write_cstr (codes "schema")
    ∷ write_uint 10
    ∷ write_cstr (codes "Vref")
    ∷ write_float vref
    ∷ write_cstr (codes "Complex")
    ∷ build_map
    ∷ write_cstr (codes "Vref")
    ∷ write_float vref2
    ∷ complete_map
    ∷ complete_map
    ∷ []

unfoldable pub reset_calls : {F : Type 0} → List (Call F)
reset_calls =
    build_array ∷ write_cstr (codes "function") ∷ write_cstr (codes "reset") ∷ complete_array ∷ []

module _ {F : Type 0} (M : Mpack F) where
  -- What the buffer holds, and the size that is returned.
  unfoldable pub build_msg_data_new : F → F → ℕ → Bytes × ℕ
  build_msg_data_new vref vref2 size =
      let used = M.buffer_used size (sample_calls vref vref2) in (used, length used)

  unfoldable pub rpc_build_reset : ℕ → Bytes × ℕ
  rpc_build_reset size = let used = M.buffer_used size reset_calls in (used, length used)

-- {"function": .., "compact": true, "schema": 10, "Vref": vref, "Complex": {"Vref": vref2}}
abbrev pub sample_document : {F : Type 0} → F → F → Docs F
sample_document vref vref2 =
    item
      (dict (
        item (str (codes "function")) (
          item (str (codes "build_msg_data_new")) (
            item (str (codes "compact")) (
              item (bool true) (
                item (str (codes "schema")) (
                  item (uint 10) (
                    item (str (codes "Vref")) (
                      item (float vref) (
                        item (str (codes "Complex")) (
                          item (dict (item (str (codes "Vref")) (item (float vref2) end)))
                            end)))))))))))
      end

-- ["function", "reset"]
abbrev pub reset_document : {F : Type 0} → Docs F
reset_document = item (arr (item (str (codes "function")) (item (str (codes "reset")) end))) end

module _ {F : Type 0} (M : Mpack F) (L : IsMpack M) where
  -- In buffers of at least 150 bytes, both builders leave the whole encoding of their document,
  -- and return its size: no container stays open, every key has its value, and nothing is cut.
  pub build_msg_data_new-encodes :
      (vref vref2 : F) (size : ℕ)
      → 150 ≤ size
      → (build_msg_data_new M vref vref2 size
          ≡ (M.encode (sample_document vref vref2), length (M.encode (sample_document vref vref2))))
        × (rpc_build_reset M size ≡ (M.encode reset_document, length (M.encode reset_document)))
  unfolding build_msg_data_new rpc_build_reset sample_calls reset_calls
  build_msg_data_new-encodes vref vref2 size enough = (
    rw (
        buffer_used_fits M L size (sample_calls vref vref2) (sample_document vref vref2) refl
          (omega arith)),
    rw (buffer_used_fits M L size reset_calls reset_document refl (omega arith)),
  )
