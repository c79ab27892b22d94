-- ===== src/Broker/Setup.antt =====
-- rpcserver/xpubxsub.cpp: the set-up of the two brokers, as the calls that are made on the sockets.
-- The sockets that ZeroMQ gives are arguments; no result of a call is looked at.
use zeromq_rpc_test.Prelude.{ℕ, List, [], ◌∷◌, ◌++◌, Bytes, codes}

pub data BrokerCall : Type 0 where
  binds connects monitors : ℕ → Bytes → BrokerCall
  starts_thread closes : ℕ → BrokerCall
  runs_proxy : ℕ → ℕ → BrokerCall

abbrev pub async_fe_url : Bytes
async_fe_url = codes "tcp://*:5555"

abbrev pub async_be_url : Bytes
async_be_url = codes "tcp://*:5556"

abbrev pub sync_fe_url : Bytes
sync_fe_url = codes "tcp://*:5557"

abbrev pub sync_be_url : Bytes
sync_be_url = codes "tcp://*:5558"

abbrev pub async_fe_mon : Bytes
async_fe_mon = codes "inproc://ASYNC_MSGQ_FE_MON"

abbrev pub async_be_mon : Bytes
async_be_mon = codes "inproc://ASYNC_MSGQ_BE_MON"

abbrev pub sync_fe_mon : Bytes
sync_fe_mon = codes "inproc://SYNC_MSGQ_FE_MON"

abbrev pub sync_be_mon : Bytes
sync_be_mon = codes "inproc://SYNC_MSGQ_BE_MON"

-- The monitor's own end, its thread, and the monitoring of the socket.
unfoldable pub start_monitor_manager : ℕ → ℕ → Bytes → List BrokerCall
start_monitor_manager client_mon socket url =
    connects client_mon url ∷ starts_thread client_mon ∷ monitors socket url ∷ []

module _ (frontend backend fe_mon be_mon : ℕ) where
  unfoldable pub msgq_fe_thread_async : List BrokerCall
  msgq_fe_thread_async =
      binds frontend async_fe_url
      ∷ binds backend async_be_url
      ∷ (start_monitor_manager fe_mon frontend async_fe_mon
          ++ (start_monitor_manager be_mon backend async_be_mon
              ++ (runs_proxy frontend backend ∷ closes frontend ∷ closes backend ∷ [])))

  unfoldable pub msgq_be_thread_sync : List BrokerCall
  msgq_be_thread_sync =
      binds frontend sync_fe_url
      ∷ binds backend sync_be_url
      ∷ (start_monitor_manager fe_mon frontend sync_fe_mon
          ++ (start_monitor_manager be_mon backend sync_be_mon
              ++ (runs_proxy frontend backend ∷ closes frontend ∷ closes backend ∷ [])))
