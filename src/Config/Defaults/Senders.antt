-- ===== src/Config/Defaults/Senders.antt =====
-- src/config/business_defaults.go: applyBusinessDefaults on a sender.
use forward_stub.Config.Defaults.{inherit_int, inherit_text, or_int, or_text}
use forward_stub.Config.Endpoint.{SenderConfig}
use forward_stub.Config.System.{BusinessSenderDefaultsConfig}
use forward_stub.Prelude.{String, if◌then◌else◌, ◌*◌, ◌^◌}
use forward_stub.Prelude.Eq.{eq_String, ◌==◌}
use forward_stub.Prelude.Int.{pos}

-- if sc.Type == typ { ... }
unfoldable pub on_sender_type : String → (SenderConfig → SenderConfig) → SenderConfig → SenderConfig
on_sender_type typ f s = if s.type == typ then f s else s

unfoldable pub inherit_sender : BusinessSenderDefaultsConfig → SenderConfig → SenderConfig
inherit_sender d s = record s {
  concurrency = inherit_int s.concurrency d.concurrency;
  socket_send_buffer = inherit_int s.socket_send_buffer d.socket_send_buffer;
}

unfoldable pub inherit_kafka_sender : BusinessSenderDefaultsConfig → SenderConfig → SenderConfig
inherit_kafka_sender d s = record s {
  dial_timeout = inherit_text s.dial_timeout d.dial_timeout;
  request_timeout = inherit_text s.request_timeout d.request_timeout;
  retry_timeout = inherit_text s.retry_timeout d.retry_timeout;
  retry_backoff = inherit_text s.retry_backoff d.retry_backoff;
  conn_idle_timeout = inherit_text s.conn_idle_timeout d.conn_idle_timeout;
  metadata_max_age = inherit_text s.metadata_max_age d.metadata_max_age;
  partitioner = inherit_text s.partitioner d.partitioner;
  send_mode = inherit_text s.send_mode d.send_mode;
  async_queue_size = inherit_int s.async_queue_size d.async_queue_size;
  async_backpressure = inherit_text s.async_backpressure d.async_backpressure;
  close_flush_timeout = inherit_text s.close_flush_timeout d.close_flush_timeout;
}

unfoldable pub complete_sender : SenderConfig → SenderConfig
complete_sender s = record s {
  concurrency = or_int s.concurrency (pos 8);
  socket_send_buffer = or_int s.socket_send_buffer (pos (1 * 2 ^ 30));
}

unfoldable pub complete_oss_sender : SenderConfig → SenderConfig
complete_oss_sender s = record s { part_size = or_int s.part_size (pos (5 * 2 ^ 20)) }

unfoldable pub complete_kafka_sender : SenderConfig → SenderConfig
complete_kafka_sender s = record s {
  dial_timeout = or_text s.dial_timeout "10s";
  request_timeout = or_text s.request_timeout "30s";
  retry_timeout = or_text s.retry_timeout "1m";
  retry_backoff = or_text s.retry_backoff "250ms";
  conn_idle_timeout = or_text s.conn_idle_timeout "30s";
  metadata_max_age = or_text s.metadata_max_age "5m";
  partitioner = or_text s.partitioner "sticky";
  send_mode = or_text s.send_mode "async";
  async_queue_size = or_int s.async_queue_size (pos 8192);
  async_backpressure = or_text s.async_backpressure "block";
  close_flush_timeout = or_text s.close_flush_timeout "10s";
}

-- The loop over the senders.
unfoldable pub sender_defaults : BusinessSenderDefaultsConfig → SenderConfig → SenderConfig
unfolding on_sender_type inherit_sender inherit_kafka_sender complete_sender complete_oss_sender
    complete_kafka_sender
sender_defaults d s =
    let inherited = on_sender_type "kafka" (inherit_kafka_sender d) (inherit_sender d s) in
    on_sender_type "kafka" complete_kafka_sender
      (on_sender_type "oss" complete_oss_sender (complete_sender inherited))
