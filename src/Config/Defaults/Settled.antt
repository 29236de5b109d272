-- ===== src/Config/Defaults/Settled.antt =====
-- src/config/business_defaults.go: the values that the fields of receivers and senders end up with.
use forward_stub.Config.Business.{TaskConfig}
use forward_stub.Config.Defaults.{
  bool_value, complete_task, inherit_option, inherit_task, inherit_text, max_int, or_option,
  or_text, task_defaults,
}
use forward_stub.Config.Defaults.First.{
  first_int, first_some, first_text, inherit-first_text, or-first_int, or-inherit_int,
  or-inherit_option, or-inherit_text,
}
use forward_stub.Config.Defaults.Receivers.{
  complete_dds_receiver, complete_kafka_receiver, complete_receiver, inherit_dds_receiver,
  inherit_kafka_receiver, inherit_receiver, may_commit, on_receiver_type,
}
use forward_stub.Config.Defaults.Senders.{
  complete_kafka_sender, complete_oss_sender, complete_sender, inherit_kafka_sender, inherit_sender,
  on_sender_type,
}
use forward_stub.Config.Endpoint.{ReceiverConfig, SenderConfig}
use forward_stub.Config.System.{
  BusinessReceiverDefaultsConfig, BusinessSenderDefaultsConfig, BusinessTaskDefaultsConfig,
}
use forward_stub.Prelude.{
  Bool, Option, String, [], false, if◌then◌else◌, none, refl, some, true, ◌*◌, ◌^◌, ◌∷◌, ◌≡◌,
}
use forward_stub.Prelude.Int.{pos, ℤ}

-- The value of every field that has a default; the other fields keep theirs.
abbrev pub settled_receiver :
    ℤ → ℤ → BusinessReceiverDefaultsConfig → ReceiverConfig → ReceiverConfig
settled_receiver num_cpu payload_log_max_bytes d r = record r {
  multicore = some (first_some (r.multicore ∷ d.multicore ∷ []) true);
  num_event_loop = first_int (r.num_event_loop ∷ d.num_event_loop ∷ []) (max_int (pos 8) num_cpu);
  payload_log_max_bytes =
      first_int (r.payload_log_max_bytes ∷ d.payload_log_max_bytes ∷ []) payload_log_max_bytes;
  socket_recv_buffer =
      first_int (r.socket_recv_buffer ∷ d.socket_recv_buffer ∷ []) (pos (1 * 2 ^ 30));
}

abbrev pub settled_kafka_receiver : BusinessReceiverDefaultsConfig → ReceiverConfig → ReceiverConfig
settled_kafka_receiver d r = record r {
  dial_timeout = first_text (r.dial_timeout ∷ d.dial_timeout ∷ []) "10s";
  conn_idle_timeout = first_text (r.conn_idle_timeout ∷ d.conn_idle_timeout ∷ []) "30s";
  metadata_max_age = first_text (r.metadata_max_age ∷ d.metadata_max_age ∷ []) "5m";
  retry_backoff = first_text (r.retry_backoff ∷ d.retry_backoff ∷ []) "250ms";
  session_timeout = first_text (r.session_timeout ∷ d.session_timeout ∷ []) "45s";
  heartbeat_interval = first_text (r.heartbeat_interval ∷ d.heartbeat_interval ∷ []) "3s";
  rebalance_timeout = first_text (r.rebalance_timeout ∷ d.rebalance_timeout ∷ []) "1m";
  balancers = some (first_some (r.balancers ∷ d.balancers ∷ []) ("cooperative_sticky" ∷ []));
  auto_commit = some (first_some (r.auto_commit ∷ d.auto_commit ∷ []) true);
  fetch_max_partition_bytes =
      first_int (r.fetch_max_partition_bytes ∷ d.fetch_max_partition_bytes ∷ []) (pos (1 * 2 ^ 20));
  isolation_level = first_text (r.isolation_level ∷ d.isolation_level ∷ []) "read_uncommitted";
  auto_commit_interval =
      if first_some (r.auto_commit ∷ d.auto_commit ∷ []) true
      then first_text (r.auto_commit_interval ∷ d.auto_commit_interval ∷ []) "5s"
      else r.auto_commit_interval;
}

abbrev pub settled_dds_receiver : BusinessReceiverDefaultsConfig → ReceiverConfig → ReceiverConfig
settled_dds_receiver d r = record r {
  wait_timeout = first_text (r.wait_timeout ∷ d.wait_timeout ∷ []) "500ms";
  drain_max_items = first_int (r.drain_max_items ∷ d.drain_max_items ∷ []) (pos 2048);
  drain_buffer_bytes =
      first_int (r.drain_buffer_bytes ∷ d.drain_buffer_bytes ∷ []) (pos (4 * 2 ^ 20));
}

abbrev pub settled_sender : BusinessSenderDefaultsConfig → SenderConfig → SenderConfig
settled_sender d s = record s {
  concurrency = first_int (s.concurrency ∷ d.concurrency ∷ []) (pos 8);
  socket_send_buffer =
      first_int (s.socket_send_buffer ∷ d.socket_send_buffer ∷ []) (pos (1 * 2 ^ 30));
}

abbrev pub settled_kafka_sender : BusinessSenderDefaultsConfig → SenderConfig → SenderConfig
settled_kafka_sender d s = record s {
  dial_timeout = first_text (s.dial_timeout ∷ d.dial_timeout ∷ []) "10s";
  request_timeout = first_text (s.request_timeout ∷ d.request_timeout ∷ []) "30s";
  retry_timeout = first_text (s.retry_timeout ∷ d.retry_timeout ∷ []) "1m";
  retry_backoff = first_text (s.retry_backoff ∷ d.retry_backoff ∷ []) "250ms";
  conn_idle_timeout = first_text (s.conn_idle_timeout ∷ d.conn_idle_timeout ∷ []) "30s";
  metadata_max_age = first_text (s.metadata_max_age ∷ d.metadata_max_age ∷ []) "5m";
  partitioner = first_text (s.partitioner ∷ d.partitioner ∷ []) "sticky";
  send_mode = first_text (s.send_mode ∷ d.send_mode ∷ []) "async";
  async_queue_size = first_int (s.async_queue_size ∷ d.async_queue_size ∷ []) (pos 8192);
  async_backpressure = first_text (s.async_backpressure ∷ d.async_backpressure ∷ []) "block";
  close_flush_timeout = first_text (s.close_flush_timeout ∷ d.close_flush_timeout ∷ []) "10s";
}

interval_lem :
    (own other : Option Bool) (v d c : String)
    → (if bool_value (some (first_some (own ∷ other ∷ []) true))
        then or_text (if may_commit (inherit_option own other) then inherit_text v d else v) c
        else (if may_commit (inherit_option own other) then inherit_text v d else v))
      ≡ (if first_some (own ∷ other ∷ []) true then first_text (v ∷ d ∷ []) c else v)
unfolding bool_value may_commit inherit_option or_option first_some
interval_lem none none v d c = or-inherit_text v d c
interval_lem none (some true) v d c = or-inherit_text v d c
interval_lem none (some false) v d c = refl
interval_lem (some true) other v d c = or-inherit_text v d c
interval_lem (some false) other v d c = refl

ruleset settling = (or-inherit_text, or-inherit_int, or-inherit_option, interval_lem)

abbrev pub settled_task : ℤ → BusinessTaskDefaultsConfig → TaskConfig → TaskConfig
settled_task payload_log_max_bytes d t = record t {
  pool_size = first_int (t.pool_size ∷ d.pool_size ∷ []) (pos 4096);
  channel_queue_size = first_int (t.channel_queue_size ∷ d.channel_queue_size ∷ []) (pos 8192);
  execution_model = first_text (t.execution_model ∷ d.execution_model ∷ []) "";
  payload_log_max_bytes =
      first_int (t.payload_log_max_bytes ∷ d.payload_log_max_bytes ∷ []) payload_log_max_bytes;
}

-- The settled values by the type of the receiver.
abbrev pub settled_receiver_config :
    ℤ → ℤ → BusinessReceiverDefaultsConfig → ReceiverConfig → ReceiverConfig
settled_receiver_config n p d r =
    on_receiver_type "dds_skydds" (settled_dds_receiver d)
      (on_receiver_type "kafka" (settled_kafka_receiver d) (settled_receiver n p d r))

abbrev pub settled_oss_sender : SenderConfig → SenderConfig
settled_oss_sender s = record s { part_size = first_int (s.part_size ∷ []) (pos (5 * 2 ^ 20)) }

abbrev pub settled_sender_config : BusinessSenderDefaultsConfig → SenderConfig → SenderConfig
settled_sender_config d s =
    on_sender_type "kafka" (settled_kafka_sender d)
      (on_sender_type "oss" settled_oss_sender (settled_sender d s))

pub settle_kafka :
    (n p : ℤ) (d : BusinessReceiverDefaultsConfig) (r : ReceiverConfig)
    → complete_kafka_receiver
        (complete_receiver n p (inherit_kafka_receiver d (inherit_receiver d r)))
      ≡ settled_kafka_receiver d (settled_receiver n p d r)
unfolding inherit_receiver inherit_kafka_receiver complete_receiver complete_kafka_receiver
settle_kafka n p d r = simp settling

pub settle_dds :
    (n p : ℤ) (d : BusinessReceiverDefaultsConfig) (r : ReceiverConfig)
    → complete_dds_receiver (complete_receiver n p (inherit_dds_receiver d (inherit_receiver d r)))
      ≡ settled_dds_receiver d (settled_receiver n p d r)
unfolding inherit_receiver inherit_dds_receiver complete_receiver complete_dds_receiver
settle_dds n p d r = simp settling

pub settle_other :
    (n p : ℤ) (d : BusinessReceiverDefaultsConfig) (r : ReceiverConfig)
    → complete_receiver n p (inherit_receiver d r) ≡ settled_receiver n p d r
unfolding inherit_receiver complete_receiver
settle_other n p d r = simp settling

pub settle_kafka_sender :
    (d : BusinessSenderDefaultsConfig) (s : SenderConfig)
    → complete_kafka_sender (complete_sender (inherit_kafka_sender d (inherit_sender d s)))
      ≡ settled_kafka_sender d (settled_sender d s)
unfolding inherit_sender inherit_kafka_sender complete_sender complete_kafka_sender
settle_kafka_sender d s = simp settling

pub settle_other_sender :
    (d : BusinessSenderDefaultsConfig) (s : SenderConfig)
    → complete_sender (inherit_sender d s) ≡ settled_sender d s
unfolding inherit_sender complete_sender
settle_other_sender d s = simp settling

pub settle_oss_sender :
    (d : BusinessSenderDefaultsConfig) (s : SenderConfig)
    → complete_oss_sender (complete_sender (inherit_sender d s))
      ≡ settled_oss_sender (settled_sender d s)
unfolding inherit_sender complete_sender complete_oss_sender
settle_oss_sender d s = simp (settling, or-first_int s.part_size (pos (5 * 2 ^ 20)))

pub settle_task :
    (p : ℤ) (d : BusinessTaskDefaultsConfig) (t : TaskConfig)
    → task_defaults p d t ≡ settled_task p d t
unfolding task_defaults inherit_task complete_task
settle_task p d t = simp (settling, inherit-first_text)
