-- ===== src/Samples/Run.antt =====
-- `test_mpack` of rpcserver/mpack_test.cpp reads back what it writes.
use mathlib.Core.Option
use zeromq_rpc_test.Prelude.{◌^◌, ◌<◌, Bytes, length, drop}
use zeromq_rpc_test.External.Mpack.{Mpack, IsMpack}
use zeromq_rpc_test.External.Mpack.Reading.{CanRead}
use zeromq_rpc_test.Samples.Build.{sample_document, reset_document}
use zeromq_rpc_test.Samples.Parse.{Constants, overwrite}
use zeromq_rpc_test.Samples.Stream.{simple_documents}

module _ {F : Type 0} (M : Mpack F) (L : IsMpack M) (R : CanRead M) (c : Constants F)
    (f : R.IsFloat c.vref) (f2 : R.IsFloat c.vref2) (g : R.IsFloat c.single)
    (small : c.bits < 2 ^ 64) where
  abbrev first_written : Bytes
  first_written = M.encode (sample_document c.vref c.vref2)

  abbrev second_written : Bytes
  second_written = M.encode reset_document

  abbrev third_written : Bytes
  third_written = M.encode (simple_documents c.single c.bits)

  abbrev third_buffer : Bytes → Bytes
  third_buffer buffer =
      overwrite third_written (overwrite second_written (overwrite first_written buffer))

  -- What stands behind the third message in the buffer.
  abbrev left_over : Bytes → Bytes
  left_over buffer =
      drop (length third_written) (overwrite second_written (overwrite first_written buffer))
