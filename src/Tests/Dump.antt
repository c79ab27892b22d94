-- ===== src/Tests/Dump.antt =====
-- The dump of three bytes of a message (newrpc/router3.cpp and the copies of `dump_msg`).
use zeromq_rpc_test.Prelude.{◌≡◌, refl, [], ◌∷◌, some, Bytes, codes, arith}
use zeromq_rpc_test.Dump.{pos, negsuc, decimal, hex_text, dump_msg, monitor_get_time}
use zeromq_rpc_test.Dump.Rpcs as Rpcs
use zeromq_rpc_test.Dump.Arpcs as Arpcs
use zeromq_rpc_test.Dump.RoundTrip.{read_dump, dump_msg-read_dump}

abbrev message : Bytes
message = 0 ∷ 171 ∷ 10 ∷ 7 ∷ []

dump_run : dump_msg message (pos 3) ≡ some (codes "[003] 00AB0A\n")
unfolding dump_msg decimal hex_text
dump_run = refl

-- What is printed after a failed receive.
dump_failed : dump_msg [] (negsuc 0) ≡ some (codes "[-01] \n")
unfolding dump_msg decimal hex_text
dump_failed = refl

time_run :
    monitor_get_time
      (record { tm_year = 126; tm_mon = 0; tm_mday = 9; tm_hour = 8; tm_min = 59; tm_sec = 3 })
      20
    ≡ codes "20260109 08:59:03\0\0\0"
unfolding monitor_get_time decimal
time_run = refl

dump_msg-read_dump_example :
    (text : Bytes) × (dump_msg message (pos 3) ≡ some text)
    × (read_dump text ≡ some (3, 0 ∷ 171 ∷ 10 ∷ []))
    × (Rpcs.dump_msg1 message (pos 3) ≡ some text)
    × (Rpcs.dump_msg message (pos 3) ≡ some text)
    × (Arpcs.dump_msg1 message (pos 3) ≡ some text)
    × (Arpcs.dump_msg message (pos 3) ≡ some text)
dump_msg-read_dump_example = dump_msg-read_dump message 3 refl (omega arith) (omega arith)
