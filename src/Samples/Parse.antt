-- ===== src/Samples/Parse.antt =====
-- rpcserver/mpack_test.cpp: the parsers of the samples, and `test_mpack`, which runs builders and
-- parsers over one buffer. The parsers give back their local variables.
use mathlib.Core.Option
use zeromq_rpc_test.Prelude.{
  ℕ, zero, suc, ◌+◌, Bool, true, false, not, List, [], ◌∷◌, ◌++◌, Option, none, some, Bytes, codes,
  cstr, length, take, drop, and_then, if◌then◌else◌,
}
use zeromq_rpc_test.External.MpackType.{is_type, array_type}
use zeromq_rpc_test.External.Doc.{Call, write_cstr, write_float, write_double, write_uint}
use zeromq_rpc_test.External.Mpack.{Mpack}
use zeromq_rpc_test.Server.World.{Action, pure, fault, ◌>>=◌, on_tree}
use zeromq_rpc_test.Samples.Build.{build_msg_data_new, rpc_build_reset}

abbrev pub pool_size : ℕ
pool_size = 128

abbrev pub cstr_size : ℕ
cstr_size = 128

abbrev pub buf_size : ℕ
buf_size = 1024

-- The constants of the samples: 10.05, 1.05 and 100.1 as floats, and 100.1 as the bits of a double.
pub record Constants (F : Type 0) : Type 0 where
  pub vref : F
  pub vref2 : F
  pub single : F
  pub bits : ℕ

-- The locals of `parse_msg_data_test`.
pub record Sample (F : Type 0) : Type 0 where
  pub function : Option Bytes
  pub compact : Bool
  pub schema : ℕ
  pub vref : F
  pub vref2 : F

-- What `rpc_parse_multi_simple` reads: the string that it copies, and then the next one.
pub record Results (F : Type 0) : Type 0 where
  pub first_cstr : Bytes
  pub second_cstr : Bytes
  pub result1 : ℕ
  pub result2 : F
  pub result3 : F
  pub result4 : F

unfoldable pub simple_calls : {F : Type 0} → F → ℕ → List (Call F)
simple_calls single bits =
    write_cstr (codes "function")
    ∷ write_cstr (codes "reset")
    ∷ write_uint 100
    ∷ write_float single
    ∷ write_double bits
    ∷ []

-- `"%.*s\r\n"`
abbrev pub printed_line : ℕ → Bytes → Bytes
printed_line len s = cstr (take len s) ++ codes "\r\n"

-- A buffer with other bytes written to its front.
abbrev pub overwrite : Bytes → Bytes → Bytes
overwrite s buf = s ++ drop (length s) buf

module _ {F : Type 0} (M : Mpack F) where
  unfoldable pub rpc_build_multiple_simple : F → ℕ → ℕ → Bytes × ℕ
  rpc_build_multiple_simple single bits size =
      let used = M.buffer_used size (simple_calls single bits) in (used, length used)

  unfoldable pub parse_msg_data_test : Action M.Tree (Sample F)
  parse_msg_data_test = do
    map ← on_tree M.tree_root
    node ← on_tree (M.map_cstr map (codes "function"))
    node ← on_tree (M.map_cstr map (codes "function"))
    function ← on_tree (M.node_str node)
    node ← on_tree (M.map_cstr map (codes "compact"))
    compact ← on_tree (M.node_bool node)
    node ← on_tree (M.map_cstr map (codes "schema"))
    schema ← on_tree (M.node_uint node)
    node ← on_tree (M.map_cstr map (codes "Vref"))
    vref ← on_tree (M.node_float node)
    complex ← on_tree (M.map_cstr map (codes "Complex"))
    node ← on_tree (M.map_cstr complex (codes "Vref"))
    vref2 ← on_tree (M.node_float node)
    pure (record {
      function = function;
      compact = compact;
      schema = schema;
      vref = vref;
      vref2 = vref2;
    })

  -- The lines that are printed from index `idx` on, with `rounds` rounds left. To print from NULL,
  -- which `mpack_node_data` gives where there are no bytes, is a fault.
  unfoldable pub print_loop : M.Node → ℕ → ℕ → Action M.Tree (List Bytes)
  print_loop root zero idx = pure []
  print_loop root (suc rounds) idx = do
    tnode ← on_tree (M.array_at root idx)
    bytes ← on_tree (M.node_data tnode)
    let rest = print_loop root rounds (idx + 1)
    elim bytes [
      | none ↦ fault
      | some s ↦ (do lines ← rest; pure (printed_line (M.node_len tnode) s ∷ lines))
    ]

  -- The result, and the lines that are printed.
  unfoldable pub rpc_parse_cmd : Action M.Tree (Bool × List Bytes)
  rpc_parse_cmd = do
    root ← on_tree M.tree_root
    type ← on_tree (M.node_type root)
    if not (is_type type array_type) then pure (false, []) else do
      length ← on_tree (M.array_length root)
      lines ← print_loop root length 0
      pure (true, lines)

  -- `mpack_tree_parse`, then `mpack_tree_root`.
  abbrev pub next_root : Action M.Tree M.Node
  next_root = do parsed ← on_tree (λ t. (tt {0}, M.tree_next t)); on_tree M.tree_root

  unfoldable pub rpc_parse_multi_simple : Action M.Tree (Results F)
  rpc_parse_multi_simple = do
    root ← next_root
    root ← on_tree M.tree_root
    first_cstr ← on_tree (M.copy_cstr root cstr_size)
    root ← next_root
    second_cstr ← on_tree (M.copy_cstr root cstr_size)
    root ← next_root
    result1 ← on_tree (M.node_uint root)
    root ← next_root
    result2 ← on_tree (M.node_float root)
    root ← next_root
    result3 ← on_tree (M.node_float root)
    node1 ← next_root
    root ← on_tree M.tree_root
    result4 ← on_tree (M.node_float root)
    pure (record {
      first_cstr = first_cstr;
      second_cstr = second_cstr;
      result1 = result1;
      result2 = result2;
      result3 = result3;
      result4 = result4;
    })

  -- What a parser gives on a tree.
  abbrev pub run_on : {A : Type 0} → M.Tree → Action M.Tree A → Option A
  run_on t parser = Option.map (λ r. r.0) (parser (record { tree = t; sent = [] }))

  -- Over a buffer with any contents. The last parser is given the whole buffer.
  unfoldable pub test_mpack :
      Constants F → Bytes → Option (Sample F × (Bool × List Bytes) × Results F)
  test_mpack c buffer =
      let (sample, size) = build_msg_data_new M c.vref c.vref2 buf_size in
      let buffer = overwrite sample buffer in
      and_then (run_on (M.tree_parse (take size buffer) pool_size) parse_msg_data_test) λ locals.
        let (reset, size) = rpc_build_reset M buf_size in
        let buffer = overwrite reset buffer in
        and_then (run_on (M.tree_parse (take size buffer) pool_size) rpc_parse_cmd) λ printed.
          let (simple, size) = rpc_build_multiple_simple c.single c.bits buf_size in
          let buffer = overwrite simple buffer in
          and_then
            (run_on (M.tree_init_pool (take buf_size buffer) pool_size) rpc_parse_multi_simple)
            λ results. some (locals, printed, results)
