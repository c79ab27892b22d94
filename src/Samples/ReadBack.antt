-- ===== src/Samples/ReadBack.antt =====
-- The samples are read back as they were written (rpcserver/mpack_test.cpp).
use zeromq_rpc_test.Prelude.{
  ℕ, suc, ◌+◌, ◌≤◌, ◌≡◌, ◌∙◌, refl, ap, true, false, List, [], ◌∷◌, ◌++◌, map, some, Bytes, codes,
  cstr, has_nul, length, take-all, arith,
}
use zeromq_rpc_test.External.MpackType.{array_type}
use zeromq_rpc_test.External.Doc.{Doc, Docs, str, float, uint, bool, arr, dict, end, item, count}
use zeromq_rpc_test.External.Mpack.{Mpack, IsMpack}
use zeromq_rpc_test.External.Mpack.Laws.{tree_root_ok, array_at_ok}
use zeromq_rpc_test.External.Mpack.Reading.{Shows, Listed, CanRead}
use zeromq_rpc_test.Server.World.{World, ◌>>=◌}
use zeromq_rpc_test.Samples.Parse.{
  Sample, parse_msg_data_test, print_loop, rpc_parse_cmd, printed_line,
}

module _ {F : Type 0} where
  abbrev pub sample_doc : F → F → Doc F
  sample_doc vref vref2 = dict (
      item (str (codes "function")) (
        item (str (codes "build_msg_data_new")) (
          item (str (codes "compact")) (
            item (bool true) (
              item (str (codes "schema")) (
                item (uint 10) (
                  item (str (codes "Vref")) (
                    item (float vref) (
                      item (str (codes "Complex")) (
                        item (dict (item (str (codes "Vref")) (item (float vref2) end)))
                          end))))))))))

  abbrev pub sample_locals : F → F → Sample F
  sample_locals vref vref2 = record {
    function = some (codes "build_msg_data_new");
    compact = true;
    schema = 10;
    vref = vref;
    vref2 = vref2;
  }

  abbrev pub strings : List Bytes → Docs F
  strings [] = end
  strings (s ∷ ss) = item (str s) (strings ss)

abbrev pub NoNul : List Bytes → Type 0
NoNul [] = Unit
NoNul (s ∷ ss) = (has_nul s ≡ false) × NoNul ss

abbrev pub line_of : Bytes → Bytes
line_of s = s ++ codes "\r\n"

cstr_plain : (s : Bytes) → has_nul s ≡ false → cstr s ≡ s
cstr_plain [] h = refl
cstr_plain (c ∷ s) h = ground (arith, cstr_plain s)

printed_line-plain : (s : Bytes) → has_nul s ≡ false → printed_line (length s) s ≡ line_of s
printed_line-plain s h = rw (take-all (length s) s (omega arith), cstr_plain s h)

module _ {F : Type 0} (M : Mpack F) (L : IsMpack M) (R : CanRead M) (t : M.Tree)
    (ok : M.failed t ≡ false) where
  abbrev pub world : World M.Tree
  world = record { tree = t; sent = [] }

  pub parse_sample :
      (vref vref2 : F)
      → Shows M R.narrow (M.root t) (sample_doc vref vref2)
      → parse_msg_data_test M world ≡ some (sample_locals vref vref2, world)
  unfolding parse_msg_data_test Shows
  parse_sample vref vref2 h =
      let (tag, len, keyed) = h in
      let ((n1, f1, s1), k2) = keyed in
      let ((n2, f2, s2), k3) = k2 in
      let ((n3, f3, s3), k4) = k3 in
      let ((n4, f4, s4), k5) = k4 in
      let ((n5, f5, s5), k6) = k5 in
      let ((n6, f6, s6), k7) = s5.2 in
      let found = λ (n : M.Node) (key : Bytes). L.map_cstr_found n key t in
      rw (
        tree_root_ok M L t ok,
        found (M.root t) (codes "function") n1 ok tag f1,
        found (M.root t) (codes "function") n1 ok tag f1,
        L.node_str_lem n1 t,
        ok,
        s1.0,
        s1.2,
        found (M.root t) (codes "compact") n2 ok tag f2,
        L.node_bool_lem n2 t,
        ok,
        s2.0,
        s2.1,
        found (M.root t) (codes "schema") n3 ok tag f3,
        L.node_uint_lem n3 t (rw (s3.0)),
        ok,
        s3.0,
        s3.1,
        found (M.root t) (codes "Vref") n4 ok tag f4,
        L.node_float_lem n4 t,
        ok,
        s4.0,
        s4.1,
        found (M.root t) (codes "Complex") n5 ok tag f5,
        found n5 (codes "Vref") n6 ok s5.0 f6,
        L.node_float_lem n6 t,
        ok,
        s6.0,
        s6.1,
      )

  print_strings :
      (n : M.Node) (ss : List Bytes) (idx : ℕ)
      → M.node_tag n ≡ array_type
      → idx + length ss ≤ M.node_len n
      → Listed M R.narrow n idx (strings ss)
      → NoNul ss
      → print_loop M n (length ss) idx world ≡ some (map line_of ss, world)
  unfolding print_loop Shows
  print_strings n [] idx tag fits h plain = refl
  print_strings n (s ∷ ss) idx tag fits h plain =
      let shown = h.0 in
      rw (
        array_at_ok M L n idx t ok tag (omega arith),
        L.node_data_lem (M.child n idx) t (rw shown.0),
        L.node_str_lem (M.child n idx) t,
        ok,
        shown.0,
        ◌>>=◌,
        print_strings n ss (idx + 1) tag (omega arith) h.1 plain.1,
        array_at_ok M L n idx t ok tag (omega arith),
        shown.1,
        shown.2,
        printed_line-plain s plain.0,
      )

  count-strings : (ss : List Bytes) → count {F = F} (strings ss) ≡ length ss
  count-strings [] = refl
  count-strings (s ∷ ss) = ap suc (count-strings ss)

  -- An array of strings is printed line by line, in order.
  pub parse_strings :
      (ss : List Bytes)
      → NoNul ss
      → Shows M R.narrow (M.root t) (arr (strings ss))
      → rpc_parse_cmd M world ≡ some ((true, map line_of ss), world)
  unfolding rpc_parse_cmd Shows
  parse_strings ss plain h =
      let long : M.node_len (M.root t) ≡ length ss = h.1 ∙ count-strings ss in
      let measured : M.array_length (M.root t) t ≡ (length ss, t) =
        rw (L.array_length_lem (M.root t) t, ok, h.0, long) in
      ground (
        arith,
        tree_root_ok M L t ok,
        L.node_type_lem (M.root t) t,
        h.0,
        measured,
        print_strings (M.root t) ss 0 h.0 (omega (arith, long)) h.2 plain,
      )
