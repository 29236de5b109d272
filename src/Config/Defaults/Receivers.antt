-- ===== src/Config/Defaults/Receivers.antt =====
-- src/config/business_defaults.go: applyBusinessDefaults on a receiver. The first half takes values from the
-- system's defaults, the second supplies the code's. Parameter: the number of CPUs.
use forward_stub.Config.Defaults.{
  bool_value, inherit_int, inherit_option, inherit_text, max_int, or_int, or_option, or_text,
}
use forward_stub.Config.Endpoint.{ReceiverConfig}
use forward_stub.Config.System.{BusinessReceiverDefaultsConfig}
use forward_stub.Prelude.{Bool, Option, String, [], if◌then◌else◌, none, some, true, ◌*◌, ◌^◌, ◌∷◌}
use forward_stub.Prelude.Eq.{eq_String, ◌==◌}
use forward_stub.Prelude.Int.{pos, ℤ}

-- if rc.Type == typ { ... }
unfoldable pub on_receiver_type :
    String → (ReceiverConfig → ReceiverConfig) → ReceiverConfig → ReceiverConfig
on_receiver_type typ f r = if r.type == typ then f r else r

-- rc.AutoCommit == nil || BoolValue(rc.AutoCommit)
unfoldable pub may_commit : Option Bool → Bool
unfolding bool_value
may_commit none = true
may_commit (some b) = bool_value (some b)

unfoldable pub inherit_receiver : BusinessReceiverDefaultsConfig → ReceiverConfig → ReceiverConfig
inherit_receiver d r = record r {
  multicore = inherit_option r.multicore d.multicore;
  num_event_loop = inherit_int r.num_event_loop d.num_event_loop;
  payload_log_max_bytes = inherit_int r.payload_log_max_bytes d.payload_log_max_bytes;
  socket_recv_buffer = inherit_int r.socket_recv_buffer d.socket_recv_buffer;
}

unfoldable pub inherit_kafka_receiver :
    BusinessReceiverDefaultsConfig → ReceiverConfig → ReceiverConfig
inherit_kafka_receiver d r = record r {
  dial_timeout = inherit_text r.dial_timeout d.dial_timeout;
  conn_idle_timeout = inherit_text r.conn_idle_timeout d.conn_idle_timeout;
  metadata_max_age = inherit_text r.metadata_max_age d.metadata_max_age;
  retry_backoff = inherit_text r.retry_backoff d.retry_backoff;
  session_timeout = inherit_text r.session_timeout d.session_timeout;
  heartbeat_interval = inherit_text r.heartbeat_interval d.heartbeat_interval;
  rebalance_timeout = inherit_text r.rebalance_timeout d.rebalance_timeout;
  balancers = inherit_option r.balancers d.balancers;
  auto_commit = inherit_option r.auto_commit d.auto_commit;
  auto_commit_interval =
      if may_commit (inherit_option r.auto_commit d.auto_commit)
      then inherit_text r.auto_commit_interval d.auto_commit_interval
      else r.auto_commit_interval;
  fetch_max_partition_bytes = inherit_int r.fetch_max_partition_bytes d.fetch_max_partition_bytes;
  isolation_level = inherit_text r.isolation_level d.isolation_level;
}

unfoldable pub inherit_dds_receiver :
    BusinessReceiverDefaultsConfig → ReceiverConfig → ReceiverConfig
inherit_dds_receiver d r = record r {
  wait_timeout = inherit_text r.wait_timeout d.wait_timeout;
  drain_max_items = inherit_int r.drain_max_items d.drain_max_items;
  drain_buffer_bytes = inherit_int r.drain_buffer_bytes d.drain_buffer_bytes;
}

unfoldable pub complete_receiver : ℤ → ℤ → ReceiverConfig → ReceiverConfig
complete_receiver num_cpu payload_log_max_bytes r = record r {
  multicore = or_option r.multicore true;
  num_event_loop = or_int r.num_event_loop (max_int (pos 8) num_cpu);
  payload_log_max_bytes = or_int r.payload_log_max_bytes payload_log_max_bytes;
  socket_recv_buffer = or_int r.socket_recv_buffer (pos (1 * 2 ^ 30));
}

unfoldable pub complete_kafka_receiver : ReceiverConfig → ReceiverConfig
complete_kafka_receiver r = record r {
  dial_timeout = or_text r.dial_timeout "10s";
  conn_idle_timeout = or_text r.conn_idle_timeout "30s";
  metadata_max_age = or_text r.metadata_max_age "5m";
  retry_backoff = or_text r.retry_backoff "250ms";
  session_timeout = or_text r.session_timeout "45s";
  heartbeat_interval = or_text r.heartbeat_interval "3s";
  rebalance_timeout = or_text r.rebalance_timeout "1m";
  balancers = or_option r.balancers ("cooperative_sticky" ∷ []);
  auto_commit = or_option r.auto_commit true;
  auto_commit_interval =
      if bool_value (or_option r.auto_commit true)
      then or_text r.auto_commit_interval "5s"
      else r.auto_commit_interval;
  fetch_max_partition_bytes = or_int r.fetch_max_partition_bytes (pos (1 * 2 ^ 20));
  isolation_level = or_text r.isolation_level "read_uncommitted";
}

unfoldable pub complete_dds_receiver : ReceiverConfig → ReceiverConfig
complete_dds_receiver r = record r {
  wait_timeout = or_text r.wait_timeout "500ms";
  drain_max_items = or_int r.drain_max_items (pos 2048);
  drain_buffer_bytes = or_int r.drain_buffer_bytes (pos (4 * 2 ^ 20));
}

-- The loop over the receivers.
unfoldable pub receiver_defaults :
    ℤ → ℤ → BusinessReceiverDefaultsConfig → ReceiverConfig → ReceiverConfig
unfolding on_receiver_type inherit_receiver inherit_kafka_receiver inherit_dds_receiver
    complete_receiver complete_kafka_receiver complete_dds_receiver
receiver_defaults num_cpu payload_log_max_bytes d r =
    let inherited =
      on_receiver_type "dds_skydds" (inherit_dds_receiver d)
        (on_receiver_type "kafka" (inherit_kafka_receiver d) (inherit_receiver d r)) in
    on_receiver_type "dds_skydds" complete_dds_receiver (
      on_receiver_type "kafka" complete_kafka_receiver
        (complete_receiver num_cpu payload_log_max_bytes inherited))
