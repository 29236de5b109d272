-- ===== src/Config/Samples.antt =====
-- src/config: small configurations that the examples share.
use forward_stub.Config.Endpoint.{LocalGeneratorConfig, ReceiverConfig, SenderConfig}
use forward_stub.Config.Snapshot.{Config}
use forward_stub.Config.System.{
  BusinessDefaultsConfig, BusinessReceiverDefaultsConfig, BusinessSenderDefaultsConfig,
  BusinessTaskDefaultsConfig, ControlConfig, LoggingConfig,
}
use forward_stub.Prelude.{[], false, none, some, ◌∷◌}
use forward_stub.Prelude.Int.{pos}
use forward_stub.Samples.{plain_task}

abbrev pub blank_generator : LocalGeneratorConfig
blank_generator = record {
  interval = "";
  rate_per_sec = pos 0;
  tick_interval = "";
  payload_format = "";
  payload_data = "";
  start_delay = "";
  total_packets = pos 0;
  remote = "";
  local = "";
}

abbrev pub blank_receiver : ReceiverConfig
blank_receiver = record {
  type = "";
  listen = "";
  multicore = none;
  num_event_loop = pos 0;
  read_buffer_cap = pos 0;
  socket_recv_buffer = pos 0;
  frame = "";
  selector = "";
  match_key = record { mode = ""; fixed_value = "" };
  generator = blank_generator;
  topic = "";
  group_id = "";
  username = "";
  password = "";
  sasl_mechanism = "";
  tls = false;
  tls_skip_verify = false;
  client_id = "";
  dial_timeout = "";
  conn_idle_timeout = "";
  metadata_max_age = "";
  retry_backoff = "";
  start_offset = "";
  session_timeout = "";
  heartbeat_interval = "";
  rebalance_timeout = "";
  balancers = none;
  auto_commit = none;
  auto_commit_interval = "";
  fetch_min_bytes = pos 0;
  fetch_max_bytes = pos 0;
  fetch_max_partition_bytes = pos 0;
  isolation_level = "";
  fetch_max_wait_ms = pos 0;
  remote_dir = "";
  poll_interval_sec = pos 0;
  chunk_size = pos 0;
  endpoint = "";
  bucket = "";
  region = "";
  access_key = "";
  secret_key = "";
  use_ssl = false;
  force_path_style = false;
  prefix = "";
  host_key_fingerprint = "";
  dcps_config_file = "";
  domain_id = pos 0;
  topic_name = "";
  message_model = "";
  reliable = false;
  queue_depth = pos 0;
  max_blocking_time_msec = pos 0;
  consumer_group = "";
  compress = false;
  wait_timeout = "";
  drain_max_items = pos 0;
  drain_buffer_bytes = pos 0;
  log_payload_recv = false;
  payload_log_max_bytes = pos 0;
}

abbrev pub blank_sender : SenderConfig
blank_sender = record {
  type = "";
  remote = "";
  frame = "";
  concurrency = pos 0;
  socket_send_buffer = pos 0;
  topic = "";
  username = "";
  password = "";
  sasl_mechanism = "";
  tls = false;
  tls_skip_verify = false;
  client_id = "";
  dial_timeout = "";
  request_timeout = "";
  retry_timeout = "";
  retry_backoff = "";
  conn_idle_timeout = "";
  metadata_max_age = "";
  acks = "";
  idempotent = none;
  retries = pos 0;
  max_in_flight_requests_per_connection = pos 0;
  linger_ms = pos 0;
  batch_max_bytes = pos 0;
  max_buffered_bytes = pos 0;
  max_buffered_records = pos 0;
  compression = "";
  compression_level = pos 0;
  partitioner = "";
  record_key = "";
  record_key_source = "";
  send_mode = "";
  async_queue_size = pos 0;
  async_backpressure = "";
  close_flush_timeout = "";
  dcps_config_file = "";
  domain_id = pos 0;
  topic_name = "";
  message_model = "";
  reliable = false;
  queue_depth = pos 0;
  max_blocking_time_msec = pos 0;
  compress = false;
  batch_num = pos 0;
  batch_size = pos 0;
  batch_delay = "";
  local_ip = "";
  local_port = pos 0;
  iface = "";
  ttl = pos 0;
  loop = false;
  remote_dir = "";
  temp_suffix = "";
  host_key_fingerprint = "";
  endpoint = "";
  bucket = "";
  region = "";
  access_key = "";
  secret_key = "";
  use_ssl = false;
  force_path_style = false;
  key_prefix = "";
  part_size = pos 0;
  storage_class = "";
  content_type = "";
  notify_on_success = [];
}

abbrev blank_task_defaults : BusinessTaskDefaultsConfig
blank_task_defaults = record {
  execution_model = "";
  pool_size = pos 0;
  channel_queue_size = pos 0;
  payload_log_max_bytes = pos 0;
}

abbrev blank_receiver_defaults : BusinessReceiverDefaultsConfig
blank_receiver_defaults = record {
  multicore = none;
  num_event_loop = pos 0;
  socket_recv_buffer = pos 0;
  payload_log_max_bytes = pos 0;
  dial_timeout = "";
  conn_idle_timeout = "";
  metadata_max_age = "";
  retry_backoff = "";
  session_timeout = "";
  heartbeat_interval = "";
  rebalance_timeout = "";
  balancers = none;
  auto_commit = none;
  auto_commit_interval = "";
  fetch_max_partition_bytes = pos 0;
  isolation_level = "";
  wait_timeout = "";
  drain_max_items = pos 0;
  drain_buffer_bytes = pos 0;
}

abbrev blank_sender_defaults : BusinessSenderDefaultsConfig
blank_sender_defaults = record {
  concurrency = pos 0;
  socket_send_buffer = pos 0;
  dial_timeout = "";
  request_timeout = "";
  retry_timeout = "";
  retry_backoff = "";
  conn_idle_timeout = "";
  metadata_max_age = "";
  partitioner = "";
  send_mode = "";
  async_queue_size = pos 0;
  async_backpressure = "";
  close_flush_timeout = "";
}

-- System defaults that set the pool size and the way to send only.
abbrev pub some_defaults : BusinessDefaultsConfig
some_defaults = record {
  task = record blank_task_defaults { pool_size = pos 64 };
  receiver = record blank_receiver_defaults { dial_timeout = "3s" };
  sender = record blank_sender_defaults { send_mode = "async" };
}

abbrev pub blank_logging : LoggingConfig
blank_logging = record {
  level = "";
  file = "";
  max_size_mb = pos 0;
  max_backups = pos 0;
  max_age_days = pos 0;
  compress = none;
  traffic_stats_interval = "";
  traffic_stats_sample_every = pos 0;
  payload_log_max_bytes = pos 0;
  gc_stats_log_enabled = none;
  gc_stats_log_interval = "";
}

abbrev pub blank_control : ControlConfig
blank_control = record {
  api = "";
  timeout_sec = pos 0;
  config_watch_interval = "";
  pprof_port = pos 0;
}

-- A receiver on a UDP port and a sender to another one.
abbrev pub udp_receiver : ReceiverConfig
udp_receiver = record blank_receiver {
  type = "udp_gnet";
  listen = "0.0.0.0:9000";
  selector = "sel";
}

abbrev pub udp_sender : SenderConfig
udp_sender = record blank_sender {
  type = "udp_unicast";
  remote = "10.0.0.2:9000";
  local_port = pos 9001;
}

abbrev pub udp_config : Config
udp_config = record {
  version = pos 1;
  control = blank_control;
  logging = blank_logging;
  receivers = some (("in", udp_receiver) ∷ []);
  selectors = some (("sel", record { matches = []; default_task_set = "set" }) ∷ []);
  task_sets = some (("set", "t" ∷ []) ∷ []);
  senders = some (("out", udp_sender) ∷ []);
  pipelines = some (("p", []) ∷ []);
  tasks = ("t", plain_task ("p" ∷ []) ("out" ∷ [])) ∷ [];
}
