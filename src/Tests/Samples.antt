-- ===== src/Tests/Samples.antt =====
-- The samples in a buffer of zeros (rpcserver/mpack_test.cpp).
use zeromq_rpc_test.Prelude.{ℕ, Bytes, replicate}
use zeromq_rpc_test.Samples.Parse.{Constants}

abbrev zeros : Bytes
zeros = replicate 1024 0

abbrev constants : Constants ℕ
constants = record { vref = 1005; vref2 = 105; single = 1001; bits = 10010 }
